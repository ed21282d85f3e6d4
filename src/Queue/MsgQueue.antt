-- ===== src/Queue/MsgQueue.antt =====
-- ifc/lib/net/msg_queue.c: the blocking queue between the socket's threads and the main loop.
-- `__USE_SIGNAL` is defined nowhere in the build, so `msg_queue_get` polls.
use i_free_chat.Base.{
  ℕ, ◌<◌, ◌≡◌, refl, ap, ◌∙◌, inl, inr, Option, none, some, List, [], ◌∷◌, ◌++◌, arith, ◌==◌, All,
  true, false,
}
use i_free_chat.MemPool.{Outcome, ret, fault, ◌>>=◌, Pool, pool_alloc, pool_free, poke}
use i_free_chat.Queue.{Queue, create_queue, queue_push, queue_pop, destroy_queue}
use i_free_chat.Queue.Refine.{Holds, queue_push-Holds, queue_pop-Holds, queue_pop_empty}

-- `msg_queue_t`; `que` is `none` for NULL.
pub record MsgQueue : Type 0 where
  pub addr : ℕ
  pub que : Option Queue

abbrev msg_queue_bytes : ℕ
msg_queue_bytes = 8

abbrev queue_addr : Option Queue → ℕ
queue_addr none = 0
queue_addr (some q) = q.addr

abbrev pub with_queue : MsgQueue → Queue → MsgQueue
with_queue m q = record m { que = some q }

-- The address arguments are what `malloc` returns in the two allocations.
pub create_msg_queue :
    (chunk_a data_a chunk_b data_b size : ℕ) → Pool → Outcome (Option MsgQueue × Pool)
create_msg_queue chunk_a data_a chunk_b data_b size p = do
  (base, p') ← pool_alloc chunk_a data_a msg_queue_bytes p
  elim (base == 0) [
    | true ↦ ret (none, p')
    | false ↦ do
      (que, p'') ← create_queue chunk_b data_b size p'
      ret (some (record { addr = base; que = que }), poke base (queue_addr que) p'')
  ]

-- The result of `queue_push` is not looked at: a full queue drops the pointer.
pub msg_queue_put : MsgQueue → ℕ → Outcome MsgQueue
msg_queue_put m d = elim m.que [
  | none ↦ fault
  | some q ↦ do r ← queue_push q d; elim r [ none ↦ ret m | some q' ↦ ret (with_queue m q') ]
]

pub put_all : MsgQueue → List ℕ → Outcome MsgQueue
put_all m [] = ret m
put_all m (d ∷ ds) = do m' ← msg_queue_put m d; put_all m' ds

-- One `queue_pop` of the loop.
pub poll : MsgQueue → Outcome (Option (Option ℕ × MsgQueue))
poll m = elim m.que [
  | none ↦ fault
  | some q ↦ do
    r ← queue_pop q
    elim r [ none ↦ ret none | some (d, q') ↦ ret (some (d, with_queue m q')) ]
]

-- The polling loop. Between one poll and the next the other threads put the pointers of the next
-- batch; `none` is a loop that still waits when the batches are used up.
pub msg_queue_get : List (List ℕ) → MsgQueue → Outcome (Option (Option ℕ × MsgQueue))
msg_queue_get [] m = poll m
msg_queue_get (batch ∷ batches) m = do
  r ← poll m
  elim r [ some out ↦ ret (some out) | none ↦ do m' ← put_all m batch; msg_queue_get batches m' ]

pub destroy_msg_queue : MsgQueue → Pool → Outcome Pool
destroy_msg_queue m p = do m' ← msg_queue_put m 0; p' ← destroy_queue m'.que p; pool_free m'.addr p'

-- Before a pointer is put, nothing that is held is lost or overtaken; a full queue drops it.
msg_queue_put-Holds :
    (m : MsgQueue) (q : Queue) (x : ℕ) (xs : List ℕ) (d : ℕ)
    → m.que ≡ some q
    → Holds q (x ∷ xs)
    → (m' : MsgQueue) × (q' : Queue) × (ys : List ℕ) × (msg_queue_put m d ≡ ret m')
      × (m'.que ≡ some q')
      × Holds q' (x ∷ ys)
unfolding msg_queue_put
msg_queue_put-Holds m q x xs d e h = elim (queue_push-Holds q (x ∷ xs) d h) [
  | inl (full, p) ↦ (m, q, xs, rw (e, p), e, h)
  | inr (room, (q', p, h', same)) ↦ (with_queue m q', q', xs ++ d ∷ [], rw (e, p), refl, h')
]

put_all-Holds :
    (ds : List ℕ) (m : MsgQueue) (q : Queue) (x : ℕ) (xs : List ℕ)
    → m.que ≡ some q
    → Holds q (x ∷ xs)
    → (m' : MsgQueue) × (q' : Queue) × (ys : List ℕ) × (put_all m ds ≡ ret m')
      × (m'.que ≡ some q')
      × Holds q' (x ∷ ys)
unfolding put_all
put_all-Holds [] m q x xs e h = (m, q, xs, refl, e, h)
put_all-Holds (d ∷ ds) m q x xs e h =
    let (m', q', ys, p, e', h') = msg_queue_put-Holds m q x xs d e h in
    rw p (put_all-Holds ds m' q' x ys e' h')

-- A `msg_queue_get` on a queue that holds something returns the oldest pointer without waiting.
pub msg_queue_get-Holds :
    (batches : List (List ℕ)) (m : MsgQueue) (q : Queue) (x : ℕ) (xs : List ℕ)
    → m.que ≡ some q
    → Holds q (x ∷ xs)
    → (q' : Queue) × (msg_queue_get batches m ≡ ret (some (some x, with_queue m q'))) × Holds q' xs
unfolding msg_queue_get poll
msg_queue_get-Holds [] m q x xs e h =
    let (q', p, h', same) = queue_pop-Holds q x xs h in (q', rw (e, p), h')
msg_queue_get-Holds (b ∷ bs) m q x xs e h =
    let (q', p, h', same) = queue_pop-Holds q x xs h in (q', rw (e, p), h')

poll_empty : (m : MsgQueue) (q : Queue) → m.que ≡ some q → Holds q [] → poll m ≡ ret none
unfolding poll
poll_empty m q e h = rw (e, queue_pop_empty q h)

put_all-cons :
    (m : MsgQueue) (q q' : Queue) (d : ℕ) (ds : List ℕ)
    → m.que ≡ some q
    → queue_push q d ≡ ret (some q')
    → put_all m (d ∷ ds) ≡ put_all (with_queue m q') ds
unfolding put_all msg_queue_put
put_all-cons m q q' d ds e p = rw (e, p)

get_round :
    (batch : List ℕ) (batches : List (List ℕ)) (m m' : MsgQueue)
    (r : Outcome (Option (Option ℕ × MsgQueue)))
    → poll m ≡ ret none
    → put_all m batch ≡ ret m'
    → msg_queue_get batches m' ≡ r
    → msg_queue_get (batch ∷ batches) m ≡ r
unfolding msg_queue_get
get_round batch batches m m' r p q e = rw (p, q) e

-- A `msg_queue_get` on an empty queue waits through any number of empty batches and returns the
-- first pointer that another thread puts, whatever is put behind it in the same batch.
pub msg_queue_get_wakes :
    (waits : List (List ℕ)) (d : ℕ) (ds : List ℕ) (batches : List (List ℕ)) (m : MsgQueue)
    (q : Queue)
    → All (λ b. b ≡ []) waits
    → m.que ≡ some q
    → Holds q []
    → 1 < q.size
    → (m' : MsgQueue) × (msg_queue_get (waits ++ (d ∷ ds) ∷ batches) m ≡ ret (some (some d, m')))
unfolding put_all
msg_queue_get_wakes [] d ds batches m q empty e h more = elim (queue_push-Holds q [] d h) [
  | inl (full, p) ↦ absurd (omega arith)
  | inr (room, (q', p, h', same)) ↦
      let (m₂, q₂, ys, p₂, e₂, h₂) = put_all-Holds ds (with_queue m q') q' d [] refl h' in
      let (q₃, p₃, h₃) = msg_queue_get-Holds batches m₂ q₂ d ys e₂ h₂ in
      (
        with_queue m₂ q₃,
        get_round (d ∷ ds) batches m m₂ _ (poll_empty m q e h) (put_all-cons m q q' d ds e p ∙ p₂)
            p₃,
      )
]
msg_queue_get_wakes (w ∷ waits) d ds batches m q empty e h more =
    let (m', p) = msg_queue_get_wakes waits d ds batches m q empty.1 e h more in
    (m', get_round w _ m m _ (poll_empty m q e h) (ap (put_all m) empty.0) p)
