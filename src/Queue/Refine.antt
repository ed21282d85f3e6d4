-- ===== src/Queue/Refine.antt =====
-- A queue of size n behaves as a FIFO of at most n - 1 pointers.
use i_free_chat.Base.{
  ℕ, ◌+◌, ◌-◌, ◌%◌, ◌^◌, ◌<◌, ◌≡◌, refl, ◌∙◌, ◌⊎◌, inl, inr, Option, none, some, List, [], ◌∷◌,
  ◌++◌, arith, length, length-append, length-set, length-replicate, get_elem?, set,
  get_elem?-set_self, get_elem?-set_ne,
}
use native.Mathlib.Decide.{dec_lt}
use native.Mathlib.Nat.{mod-eq_of_lt, mod-eq-sub-mod}
use i_free_chat.MemPool.{ret, add_size}
use i_free_chat.Queue.{Queue, new_queue, queue_push, queue_pop}

-- The slots from `h` on, going round at `n`, hold the pointers `xs`, and `t` comes behind them.
abbrev pub Segment : List (Option ℕ) → ℕ → ℕ → List ℕ → ℕ → Type 0
Segment entry n h [] t = h ≡ t
Segment entry n h (x ∷ xs) t =
    (get_elem? entry h ≡ some (some x)) × Segment entry n ((h + 1) % n) xs t

-- A well-formed queue that holds `xs`, oldest first.
pub record Holds (q : Queue) (xs : List ℕ) : Type 0 where
  pub slots : length q.entry ≡ q.size
  pub small : q.size < 2 ^ 32
  pub head_in : q.head < q.size
  pub tail_in : q.tail < q.size
  pub room : length xs < q.size
  pub segment : Segment q.entry q.size q.head xs q.tail

next_index :
    (h n : ℕ) → h < n → (((h + 1) % n ≡ h + 1) × (h + 1 < n)) ⊎ (((h + 1) % n ≡ 0) × (h + 1 ≡ n))
next_index h n lt = elim (dec_lt (h + 1) n) [
  | yes p ↦ inl (mod-eq_of_lt p, p)
  | no p ↦ inr (
    omega (
      arith,
      mod-eq-sub-mod {n = h + 1} {m = n} (omega arith),
      mod-eq_of_lt {n = h + 1 - n} {m = n} (omega arith),
    ),
    omega arith,
  )
]

-- `t` lies `length xs` slots behind `h`.
Segment-span :
    (entry : List (Option ℕ)) (n h : ℕ) (xs : List ℕ) (t : ℕ)
    → Segment entry n h xs t
    → h < n
    → length xs < n
    → (h + length xs ≡ t) ⊎ (h + length xs ≡ t + n)
Segment-span entry n h [] t s lt room = inl (omega (arith, s))
Segment-span entry n h (x ∷ xs) t s lt room =
    ground (arith, next_index h n lt, Segment-span entry n ((h + 1) % n) xs t s.1)

Segment-set :
    (entry : List (Option ℕ)) (n h : ℕ) (xs : List ℕ) (t v : ℕ)
    → Segment entry n h xs t
    → h < n
    → length xs < n
    → Segment (set entry t (some v)) n h xs t
Segment-set entry n h [] t v s lt room = s
Segment-set entry n h (x ∷ xs) t v s lt room = ground (
  arith,
  next_index h n lt,
  Segment-span entry n h (x ∷ xs) t s lt room,
  get_elem?-set_ne entry t h (some v),
  Segment-set entry n ((h + 1) % n) xs t v s.1,
)

Segment-snoc :
    (entry : List (Option ℕ)) (n h : ℕ) (xs : List ℕ) (t v : ℕ)
    → Segment entry n h xs t
    → get_elem? entry t ≡ some (some v)
    → Segment entry n h (xs ++ v ∷ []) ((t + 1) % n)
Segment-snoc entry n h [] t v s e = rw s (e, refl)
Segment-snoc entry n h (x ∷ xs) t v s e = (s.0, Segment-snoc entry n ((h + 1) % n) xs t v s.1 e)

-- A new queue of a positive size holds nothing.
pub new_queue-Holds : (addr size : ℕ) → 0 < size → size < 2 ^ 32 → Holds (new_queue addr size) []
unfolding new_queue
new_queue-Holds addr size pos small = record {
  slots = length-replicate size none;
  small = small;
  head_in = pos;
  tail_in = pos;
  room = pos;
  segment = refl;
}

no_wrap :
    (q : Queue) (xs : List ℕ)
    → Holds q xs
    → (add_size q.tail 1 ≡ q.tail + 1) × (add_size q.head 1 ≡ q.head + 1)
no_wrap q xs h = omega arith

abbrev pushed : Queue → ℕ → Queue
pushed q x = record q { entry = set q.entry q.tail (some x); tail = (q.tail + 1) % q.size }

pushed-Holds :
    (q : Queue) (xs : List ℕ) (x : ℕ)
    → Holds q xs
    → length xs + 1 < q.size
    → Holds (pushed q x) (xs ++ x ∷ [])
pushed-Holds q xs x h room = record {
  slots = length-set q.entry q.tail (some x) ∙ h.slots;
  small = h.small;
  head_in = h.head_in;
  tail_in = ground (arith, next_index q.tail q.size h.tail_in);
  room = omega (arith, length-append xs (x ∷ []));
  segment =
      Segment-snoc (set q.entry q.tail (some x)) q.size q.head xs q.tail x
        (Segment-set q.entry q.size q.head xs q.tail x h.segment h.head_in h.room)
        (get_elem?-set_self q.entry q.tail (some x) (omega (arith, h.slots)));
}

-- `queue_push` refuses a pointer exactly when n - 1 are held, and else puts it behind the others.
pub queue_push-Holds :
    (q : Queue) (xs : List ℕ) (x : ℕ)
    → Holds q xs
    → ((length xs + 1 ≡ q.size) × (queue_push q x ≡ ret none))
      ⊎ ((length xs + 1 < q.size)
          × ((q' : Queue) × (queue_push q x ≡ ret (some q'))
              × Holds q' (xs ++ x ∷ [])
              × (q'.size ≡ q.size)))
unfolding queue_push
queue_push-Holds q xs x h =
    let span = Segment-span q.entry q.size q.head xs q.tail h.segment h.head_in h.room in
    let next = next_index q.tail q.size h.tail_in in
    let (e, _) = no_wrap q xs h in
    elim (dec_lt (length xs + 1) q.size) [
      | yes room ↦ inr (room, (pushed q x, rw e (ground arith), pushed-Holds q xs x h room, refl))
      | no full ↦ inl (omega arith, rw e (ground arith))
    ]

-- `queue_pop` refuses exactly when nothing is held, and else takes the oldest pointer.
pub queue_pop-Holds :
    (q : Queue) (x : ℕ) (xs : List ℕ)
    → Holds q (x ∷ xs)
    → (q' : Queue) × (queue_pop q ≡ ret (some (some x, q'))) × Holds q' xs × (q'.size ≡ q.size)
unfolding queue_pop
queue_pop-Holds q x xs h = (
  record q { head = add_size q.head 1 % q.size },
  ground (arith, Segment-span q.entry q.size q.head (x ∷ xs) q.tail h.segment),
  record {
    slots = h.slots;
    small = h.small;
    head_in = rw (no_wrap q (x ∷ xs) h).1 (ground (arith, next_index q.head q.size h.head_in));
    tail_in = h.tail_in;
    room = omega arith;
    segment = rw (no_wrap q (x ∷ xs) h).1 h.segment.1;
  },
  refl,
)

pub queue_pop_empty : (q : Queue) → Holds q [] → queue_pop q ≡ ret none
unfolding queue_pop
queue_pop_empty q h = ground (arith, h.segment)
