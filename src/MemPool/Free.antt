-- ===== src/MemPool/Free.antt =====
-- What `mem_pool_free` does with the size that it reads in the block's contents.
use i_free_chat.Base.{
  ℕ, ◌+◌, ◌-◌, ◌^◌, ◌≤◌, ◌<◌, ◌≡◌, refl, ◌≢◌, ◌⊎◌, true, false, none, List, [], ◌∷◌, arith, All,
}
use i_free_chat.Base.Memory.{load32}
use i_free_chat.MemPool.{
  ret, deadlock, Chunk, Pool, pool_alloc, pool_free, inside, find_chunk, free_in, free_first,
  round_quantum,
}
use i_free_chat.MemPool.Alloc.{carved, carve-ret, IsChunk, IsValid, request, Apart}

-- No chunk holds the address.
abbrev pub IsForeign : Pool → ℕ → Type 0
IsForeign p addr = All (λ c. (addr < c.start) ⊎ (c.start + p.size ≤ addr)) p.chunks

find_chunk-none :
    (size addr : ℕ) (cs : List Chunk)
    → All (λ c. (addr < c.start) ⊎ (c.start + size ≤ addr)) cs
    → find_chunk size addr cs ≡ none
unfolding find_chunk inside
find_chunk-none size addr [] h = refl
find_chunk-none size addr (c ∷ cs) h = ground (arith, find_chunk-none size addr cs h.1)

free_in-none :
    (size addr n : ℕ) (cs : List Chunk)
    → All (λ c. (addr < c.start) ⊎ (c.start + size ≤ addr)) cs
    → free_in size addr n cs ≡ none
unfolding free_in
free_in-none size addr n [] h = refl
free_in-none size addr n (c ∷ cs) h = ground (arith, find_chunk-none size addr cs h.1)

-- Releasing an address that no chunk holds changes nothing but the mutex, which stays held: any
-- later allocation waits for ever.
pub pool_free_foreign :
    (addr : ℕ) (p : Pool) (chunk_ptr data_ptr size : ℕ)
    → addr ≢ 0
    → p.locked ≡ false
    → IsForeign p (addr - 4)
    → (pool_free addr p ≡ ret (record p { locked = true }))
      × (pool_alloc chunk_ptr data_ptr size (record p { locked = true }) ≡ deadlock)
unfolding pool_free pool_alloc
pool_free_foreign addr p c d n ne free h = (
  ground (
    arith,
    free_in-none p.size (addr - 4) (round_quantum p.quantum (load32 p.mem addr)) p.chunks h,
  ),
  refl,
)

-- The pool whose only chunk is `c`.
abbrev pub one_chunk : Pool → Chunk → Pool
one_chunk p c = record p { chunks = c ∷ [] }

-- What becomes of the chunk when `n` bytes at `addr` are released: it is made all free when its
-- free and released bytes reach its size; otherwise a block that stands where the free part ends
-- joins that, and the bytes of another are counted as released.
abbrev pub IsReleased : (size addr n : ℕ) → (c d : Chunk) → Type 0
IsReleased size addr n c d =
    ((size ≤ c.free + c.bound + n) × (d.free ≡ size) × (d.bound ≡ 0))
    ⊎ (((c.free + c.bound + n < size)
          × (addr ≡ c.start + c.free)
          × (d.free ≡ c.free + n)
          × (d.bound ≡ c.bound))
        ⊎ ((c.free + c.bound + n < size)
            × (addr ≢ c.start + c.free)
            × (d.free ≡ c.free)
            × (d.bound ≡ c.bound + n)))

free_first-IsChunk :
    (size addr n : ℕ) (c : Chunk)
    → IsChunk size c
    → c.free + c.bound + n < 2 ^ 32
    → IsChunk size (free_first size addr n c)
      × ((free_first size addr n c).start ≡ c.start)
      × IsReleased size addr n c (free_first size addr n c)
unfolding free_first
free_first-IsChunk size addr n c ok small = ground arith

-- A block of the only chunk of a valid pool, whose mutex is free, is released, and the word at the
-- returned address, rounded, does not make the sum of the free and the released bytes wrap. The
-- pool stays valid, its mutex is free, and the chunk stays where it is: when that sum with the word
-- reaches the chunk size, the chunk is all free; otherwise the word is added to the free bytes if
-- the block stands where they end, and to the released bytes if not.
pub pool_free-IsValid :
    (addr : ℕ) (p : Pool) (c : Chunk)
    → IsValid (one_chunk p c)
    → p.locked ≡ false
    → c.start + 4 ≤ addr
    → addr < c.start + p.size + 4
    → c.free + c.bound + round_quantum p.quantum (load32 p.mem addr) < 2 ^ 32
    → (d : Chunk) × (pool_free addr (one_chunk p c)
        ≡ ret (record (one_chunk p d) { locked = false }))
      × IsValid (one_chunk p d)
      × (d.start ≡ c.start)
      × IsReleased p.size (addr - 4) (round_quantum p.quantum (load32 p.mem addr)) c d
unfolding pool_free free_in
pool_free-IsValid addr p c v free lo hi small =
    let n = round_quantum p.quantum (load32 p.mem addr) in
    let (fits, kept, sum) = free_first-IsChunk p.size (addr - 4) n c v.each.0 small in
    (
      free_first p.size (addr - 4) n c,
      ground arith,
      record { small = v.small; each = (fits, tt); single = omega arith },
      kept,
      sum,
    )

freed_whole :
    (addr : ℕ) (p : Pool) (c : Chunk)
    → IsValid (one_chunk p c)
    → p.locked ≡ false
    → p.quantum ≤ 1
    → c.start + 4 ≤ addr
    → addr < c.start + p.size + 4
    → p.size ≤ load32 p.mem addr
    → 0 < p.size
    → c.free + c.bound + load32 p.mem addr < 2 ^ 32
    → pool_free addr (one_chunk p c)
      ≡ ret (record (one_chunk p (record c { free = p.size; bound = 0 })) { locked = false })
unfolding pool_free free_in free_first round_quantum
freed_whole addr p c v free one lo hi big pos small = ground arith

alloc_whole :
    (cp dp size : ℕ) (p : Pool) (c : Chunk)
    → IsValid (one_chunk p c)
    → request p size ≤ p.size
    → let full = record c { free = p.size; bound = 0 } in
      let q = record (one_chunk p full) { locked = false } in
      pool_alloc cp dp size q
      ≡ ret (c.start + (p.size - request p size) + 4, carved q dp size full [])
unfolding pool_alloc
alloc_whole cp dp size p c v fits =
    let full : Chunk = record c { free = p.size; bound = 0 } in
    let q : Pool = record (one_chunk p full) { locked = false } in
    ground (arith, carve-ret q dp size full [] v.each.0.not_null v.small fits)

-- A valid pool has one chunk, a free mutex and a quantum of at most 1, and the word at the address
-- of a block of the chunk is the chunk size or more, but does not make its sum with the free and
-- the released bytes wrap. Then releasing the block frees the whole chunk, and the next allocation,
-- if its request does not wrap to nothing and fits the chunk size, overlaps any block at the
-- chunk's end that is longer than nothing.
pub pool_free_overlap :
    (addr : ℕ) (p : Pool) (c : Chunk) (b m chunk_ptr data_ptr size : ℕ)
    → IsValid (one_chunk p c)
    → p.locked ≡ false
    → p.quantum ≤ 1
    → c.start + 4 ≤ addr
    → addr < c.start + p.size + 4
    → p.size ≤ load32 p.mem addr
    → 0 < p.size
    → c.free + c.bound + load32 p.mem addr < 2 ^ 32
    → b + m ≡ c.start + p.size
    → 0 < m
    → 0 < request p size
    → request p size ≤ p.size
    → (q r : Pool) × (at : ℕ) × (pool_free addr (one_chunk p c) ≡ ret q)
      × (pool_alloc chunk_ptr data_ptr size q ≡ ret (at + 4, r))
      × ¬ Apart at (request p size) b m
pool_free_overlap addr p c b m cp dp size v free one lo hi big pos small e hm hr fits =
    let q = record (one_chunk p (record c { free = p.size; bound = 0 })) { locked = false } in
    (
      q,
      carved q dp size (record c { free = p.size; bound = 0 }) [],
      c.start + (p.size - request p size),
      freed_whole addr p c v free one lo hi big pos small,
      alloc_whole cp dp size p c v fits,
      λ apart. omega arith,
    )
