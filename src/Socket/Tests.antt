-- ===== src/Socket/Tests.antt =====
-- A queue that holds one packet.
use i_free_chat.Base.{◌≡◌, refl, false, none, some, [], ◌∷◌, ◌++◌, arith}
use i_free_chat.Base.Memory.{load32}
use i_free_chat.MemPool.{ret, Pool, pool_free}
use i_free_chat.Queue.{Queue}
use i_free_chat.Queue.Refine.{Holds}
use i_free_chat.Queue.MsgQueue.{MsgQueue}
use i_free_chat.Feiq.{Packet, free_packet}
use i_free_chat.Socket.{World, send_rounds}
use i_free_chat.Socket.Threads.{datagrams, send_rounds-sent}

abbrev pool_a : Pool
pool_a = record {
  size = 200;
  quantum = 4;
  chunks = record { start = 1000; free = 200; bound = 0 } ∷ [];
  locked = false;
  mem = λ a. 0;
}

abbrev packet_a : Packet
packet_a = record { addr = 1104; mtime = 1; ip = 2; port = 3; size = 2; payload = 104 ∷ 105 ∷ [] }

abbrev queue_a : Queue
queue_a = record { addr = 100; entry = none ∷ some 1104 ∷ none ∷ []; size = 3; head = 1; tail = 2 }

queue_a-Holds : Holds queue_a (1104 ∷ [])
queue_a-Holds = record {
  slots = refl;
  small = omega arith;
  head_in = omega arith;
  tail_in = omega arith;
  room = omega arith;
  segment = (refl, refl);
}

abbrev msg_queue_a : MsgQueue
msg_queue_a = record { addr = 90; que = some queue_a }

abbrev world_a : World
world_a = record {
  pool = pool_a;
  sock = record {
    addr = 50;
    fd = 3;
    shutdown = false;
    recv_que = msg_queue_a;
    send_que = msg_queue_a;
  };
  packets = λ a. packet_a;
  sent = [];
}

packet_freed : free_packet packet_a pool_a ≡ ret pool_a
unfolding free_packet pool_free load32
packet_freed = refl

send_rounds-sent_example :
    (w' : World) × (q' : Queue) × (send_rounds 1 world_a ≡ ret (some w'))
    × (w'.sent ≡ [] ++ datagrams (packet_a ∷ []))
    × (w'.pool ≡ pool_a)
    × (w'.sock.send_que.que ≡ some q')
    × Holds q' []
send_rounds-sent_example =
    send_rounds-sent (packet_a ∷ []) world_a queue_a pool_a refl refl queue_a-Holds
      ((refl, omega arith), tt) (pool_a, packet_freed, refl)
