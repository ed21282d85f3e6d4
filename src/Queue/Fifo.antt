-- ===== src/Queue/Fifo.antt =====
-- The abstract queue, and what a client sees of a run of calls.
use i_free_chat.Base.{
  ℕ, ◌+◌, ◌≡◌, refl, inl, inr, Option, none, some, List, [], ◌∷◌, ◌++◌, arith, ◌==◌, if◌then◌else◌,
  length,
}
use i_free_chat.MemPool.{Outcome, ret, ◌>>=◌}
use i_free_chat.Queue.{Queue, queue_push, queue_pop}
use i_free_chat.Queue.Refine.{Holds, queue_push-Holds, queue_pop-Holds, queue_pop_empty}

pub data Op : Type 0 where
  push : ℕ → Op
  pop : Op

-- What a call returns: 0 or -1, and the pointer that a successful pop gives.
pub data Reply : Type 0 where
  done : Reply
  got : Option ℕ → Reply
  refused : Reply

-- A FIFO of at most `cap` pointers.
module _ (cap : ℕ) where
  unfoldable pub fifo : List ℕ → List Op → List Reply
  fifo xs [] = []
  fifo xs (push x ∷ ops) =
      let full = fifo xs ops in
      let rest = fifo (xs ++ x ∷ []) ops in if length xs == cap then refused ∷ full else done ∷ rest
  fifo [] (pop ∷ ops) = refused ∷ fifo [] ops
  fifo (x ∷ xs) (pop ∷ ops) = got (some x) ∷ fifo xs ops

-- The code's run of the same calls.
pub run : Queue → List Op → Outcome (List Reply)
run q [] = ret []
run q (push x ∷ ops) = do
  r ← queue_push q x
  elim r [
    | none ↦ do rest ← run q ops; ret (refused ∷ rest)
    | some q' ↦ do rest ← run q' ops; ret (done ∷ rest)
  ]
run q (pop ∷ ops) = do
  r ← queue_pop q
  elim r [
    | none ↦ do rest ← run q ops; ret (refused ∷ rest)
    | some (d, q') ↦ do rest ← run q' ops; ret (got d ∷ rest)
  ]

-- No sequence of calls tells a well-formed queue of size n from a FIFO of at most n - 1 pointers;
-- no call faults.
pub run-fifo :
    (ops : List Op) (q : Queue) (xs : List ℕ) (cap : ℕ)
    → Holds q xs
    → cap + 1 ≡ q.size
    → run q ops ≡ ret (fifo cap xs ops)
unfolding run fifo
run-fifo [] q xs cap h e = refl
run-fifo (push x ∷ ops) q xs cap h e = elim (queue_push-Holds q xs x h) [
  | inl (full, p) ↦ rw p (ground (arith, run-fifo ops q xs cap h e))
  | inr (room, (q', p, h', same)) ↦
      rw p (ground (arith, run-fifo ops q' (xs ++ x ∷ []) cap h' (omega (arith, same))))
]
run-fifo (pop ∷ ops) q [] cap h e =
    rw (queue_pop_empty q h) (ground (arith, run-fifo ops q [] cap h e))
run-fifo (pop ∷ ops) q (x ∷ xs) cap h e =
    let (q', p, h', same) = queue_pop-Holds q x xs h in
    rw p (ground (arith, run-fifo ops q' xs cap h' (omega (arith, same))))
