-- ===== src/MemPool/Alloc.antt =====
-- What `mem_pool_alloc` promises.
pub mod Serves
use i_free_chat.Base.{
  ℕ, ◌+◌, ◌-◌, ◌^◌, ◌≤◌, ◌<◌, ◌≡◌, refl, ◌≢◌, ◌⊎◌, inl, inr, true, false, List, [], ◌∷◌, arith,
  ◌==◌, if◌then◌else◌, Bool-cases, length, All,
}
use i_free_chat.Base.Memory.{load32, store32, load32-store32, store32_apart}
use i_free_chat.MemPool.{
  ret, deadlock, Chunk, Pool, add_size, sub_size, size_bytes, carve, needs_chunk, pool_alloc,
  pool_free,
}

-- A chunk has its data at an address, inside the 32-bit address space, and its free part at most
-- the whole.
pub record IsChunk (size : ℕ) (c : Chunk) : Type 0 where
  pub not_null : c.start ≢ 0
  pub in_memory : c.start + size < 2 ^ 32
  pub free_fits : c.free ≤ size

pub record IsValid (p : Pool) : Type 0 where
  pub small : p.size < 2 ^ 32
  pub each : All (IsChunk p.size) p.chunks
  pub single : length p.chunks ≤ 1

-- The bytes that a request takes: the rounded size with the header.
abbrev pub request : Pool → ℕ → ℕ
request p size = add_size (if size == 0 then p.quantum else size) size_bytes

-- The `n` bytes at `a` and the `m` bytes at `b` have none in common.
abbrev pub Apart : (a n b m : ℕ) → Type 0
Apart a n b m = (a + n ≤ b) ⊎ (b + m ≤ a)

-- The `n` bytes at `a` are not in the part that the pool still hands out.
abbrev pub IsTaken : List Chunk → (a n : ℕ) → Type 0
IsTaken [] a n = Unit
IsTaken (c ∷ cs) a n = Apart c.start c.free a n

-- What a successful allocation has done: the block with its header takes the requested bytes at
-- `at` and holds its size; the mutex is free; no byte outside the header has changed; the block
-- is taken, apart from every block taken before (if a fresh chunk is), and these stay taken.
pub record Allocated (p : Pool) (data_ptr size at : ℕ) (q : Pool) : Type 0 where
  pub valid : IsValid q
  pub unlocked : q.locked ≡ false
  pub header : load32 q.mem at ≡ request p size
  pub elsewhere : (b : ℕ) → (b < at) ⊎ (at + 4 ≤ b) → q.mem b ≡ p.mem b
  pub taken : IsTaken q.chunks at (request p size)
  pub apart :
      (a n : ℕ)
      → IsTaken p.chunks a n
      → Apart data_ptr p.size a n
      → Apart at (request p size) a n × IsTaken q.chunks a n

module _ (p : Pool) (data_ptr size : ℕ) where
  pub carved : Chunk → List Chunk → Pool
  carved c cs = record p {
    chunks = record c { free = c.free - request p size } ∷ cs;
    locked = false;
    mem = store32 (c.start + (c.free - request p size)) (request p size) p.mem;
  }

  pub carve-ret :
      (c : Chunk) (cs : List Chunk)
      → c.start ≢ 0
      → c.free < 2 ^ 32
      → request p size ≤ c.free
      → carve (request p size) p (c ∷ cs)
        ≡ ret (c.start + (c.free - request p size) + 4, carved c cs)
  unfolding carve carved
  carve-ret c cs ne small fits =
      let e : sub_size c.free (request p size) ≡ c.free - request p size = omega arith in
      rw e (ground arith)

  carved-Allocated :
      (c : Chunk) (cs : List Chunk)
      → IsChunk p.size c
      → length cs ≤ 0
      → All (IsChunk p.size) cs
      → p.size < 2 ^ 32
      → request p size ≤ c.free
      → ((a n : ℕ) → IsTaken p.chunks a n → Apart data_ptr p.size a n → Apart c.start c.free a n)
      → Allocated p data_ptr size (c.start + (c.free - request p size)) (carved c cs)
  unfolding carved
  carved-Allocated c cs ok one rest small fits old = record {
    valid = record {
      small = small;
      each = (
        record { not_null = ok.not_null; in_memory = ok.in_memory; free_fits = omega arith },
        rest,
      );
      single = omega arith;
    };
    unlocked = refl;
    header = load32-store32 _ _ p.mem (omega arith);
    elsewhere = λ b h. store32_apart _ _ b p.mem h;
    taken = omega arith;
    apart = λ a n t f. let h = old a n t f in (omega arith, omega arith);
  }

abbrev pub fresh_chunk : Pool → ℕ → Chunk
fresh_chunk p data_ptr = record { start = data_ptr; free = p.size; bound = 0 }

module _ (chunk_ptr data_ptr size : ℕ) (p : Pool) (v : IsValid p) (free : p.locked ≡ false)
    (fits : request p size ≤ p.size) (ne : chunk_ptr ≢ 0)
    (fresh : IsChunk p.size (fresh_chunk p data_ptr)) where
  abbrev pub Met : Type 0
  Met =
      (at : ℕ) × (q : Pool) × (pool_alloc chunk_ptr data_ptr size p ≡ ret (at + 4, q))
      × Allocated p data_ptr size at q

  -- A new chunk is taken.
  Met_new : needs_chunk (request p size) p.chunks ≡ true → Met
  unfolding pool_alloc
  Met_new e =
      let c = fresh_chunk p data_ptr in
      (
        data_ptr + (p.size - request p size),
        carved p data_ptr size c [],
        ground (arith, carve-ret p data_ptr size c [] fresh.not_null v.small fits),
        carved-Allocated p data_ptr size c [] fresh (omega arith) tt v.small fits (λ a n t f. f),
      )

  -- The first chunk has room.
  Met_old :
      (c : Chunk) (cs : List Chunk)
      → p.chunks ≡ c ∷ cs
      → needs_chunk (request p size) (c ∷ cs) ≡ false
      → Met
  unfolding pool_alloc
  Met_old c cs e room =
      let each : All (IsChunk p.size) (c ∷ cs) = rw e at (v.each) in
      let one : length (c ∷ cs) ≤ 1 = rw e at (v.single) in
      let ok : IsChunk p.size c = each.0 in
      let enough : request p size ≤ c.free = ground arith in
      (
        c.start + (c.free - request p size),
        carved p data_ptr size c cs,
        rw (e, free)
            (ground (arith, carve-ret p data_ptr size c cs ok.not_null (omega arith) enough)),
        carved-Allocated p data_ptr size c cs ok (omega arith) each.1 v.small enough
            (rw e (λ a n t f. t)),
      )

  Met_by : (cs : List Chunk) → p.chunks ≡ cs → Met
  unfolding needs_chunk
  Met_by [] e = Met_new (rw e refl)
  Met_by (c ∷ cs) e = elim (Bool-cases (needs_chunk (request p size) (c ∷ cs))) [
    | inl full ↦ Met_new (rw e full)
    | inr room ↦ Met_old c cs e room
  ]

  -- On a valid pool whose mutex is free, and if `malloc` succeeds where it is called, a request
  -- that with its header fits the chunk size is met: see `Allocated` for what that means.
  pub pool_alloc-Allocated : Met
  pool_alloc-Allocated = Met_by p.chunks refl

-- A request that does not fit the chunk size is refused with NULL, and the mutex stays held: any
-- later allocation, and any later release of an address that is not NULL, waits for ever.
pool_alloc_too_big :
    (chunk_ptr data_ptr size : ℕ) (p : Pool) (chunk_ptr' data_ptr' size' addr : ℕ)
    → p.locked ≡ false
    → p.size < request p size
    → addr ≢ 0
    → (q : Pool) × (pool_alloc chunk_ptr data_ptr size p ≡ ret (0, q))
      × (pool_alloc chunk_ptr' data_ptr' size' q ≡ deadlock)
      × (pool_free addr q ≡ deadlock)
unfolding pool_alloc pool_free
pool_alloc_too_big chunk_ptr data_ptr size p c d n addr free big ne =
    (record p { locked = true }, ground arith, refl, ground arith)

-- While the mutex is held, an allocation waits for ever.
pub pool_alloc_locked :
    (chunk_ptr data_ptr size : ℕ) (p : Pool)
    → p.locked ≡ true
    → pool_alloc chunk_ptr data_ptr size p ≡ deadlock
unfolding pool_alloc
pool_alloc_locked chunk_ptr data_ptr size p h = rw h
