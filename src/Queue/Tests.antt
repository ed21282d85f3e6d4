-- ===== src/Queue/Tests.antt =====
-- Queues of size three.
use i_free_chat.Base.{ℕ, ◌≡◌, refl, none, some, List, [], ◌∷◌, arith}
use i_free_chat.MemPool.{ret}
use i_free_chat.Queue.{Queue, new_queue}
use i_free_chat.Queue.Refine.{Holds, new_queue-Holds}
use i_free_chat.Queue.Fifo.{Op, push, pop, done, got, refused, fifo, run, run-fifo}
use i_free_chat.Queue.MsgQueue.{MsgQueue, msg_queue_get, msg_queue_get_wakes}

abbrev empty_queue : Queue
empty_queue = new_queue 100 3

empty_queue-Holds : Holds empty_queue []
empty_queue-Holds = new_queue-Holds 100 3 (omega arith) (omega arith)

-- The queue that holds 7.
abbrev queue_a : Queue
queue_a = record { addr = 100; entry = none ∷ some 7 ∷ none ∷ []; size = 3; head = 1; tail = 2 }

abbrev held : List ℕ
held = 7 ∷ []

queue_a-Holds : Holds queue_a (7 ∷ [])
queue_a-Holds = record {
  slots = refl;
  small = omega arith;
  head_in = omega arith;
  tail_in = omega arith;
  room = omega arith;
  segment = (refl, refl);
}

abbrev calls : List Op
calls = push 1 ∷ push 2 ∷ push 3 ∷ pop ∷ pop ∷ pop ∷ []

run-fifo_example : run empty_queue calls ≡ ret (fifo 2 [] calls)
unfolding new_queue
run-fifo_example = run-fifo calls empty_queue [] 2 empty_queue-Holds refl

-- The third call is refused, and the last.
fifo-calls : fifo 2 [] calls ≡ done ∷ done ∷ refused ∷ got (some 1) ∷ got (some 2) ∷ refused ∷ []
unfolding fifo
fifo-calls = refl

abbrev msg_queue_a : MsgQueue
msg_queue_a = record { addr = 50; que = some queue_a }

abbrev msg_queue_b : MsgQueue
msg_queue_b = record { addr = 50; que = some empty_queue }

msg_queue_get_wakes_example :
    (m' : MsgQueue) × (msg_queue_get ([] ∷ (4 ∷ 5 ∷ []) ∷ []) msg_queue_b ≡ ret (some (some 4, m')))
unfolding new_queue
msg_queue_get_wakes_example =
    msg_queue_get_wakes ([] ∷ []) 4 (5 ∷ []) [] msg_queue_b empty_queue (refl, tt) refl
      empty_queue-Holds (omega arith)
