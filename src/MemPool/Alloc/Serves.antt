-- ===== src/MemPool/Alloc/Serves.antt =====
-- `mem_pool_alloc` of a pool that hands out one chunk, which it may still have to take.
use i_free_chat.Base.{
  ℕ, ◌+◌, ◌-◌, ◌^◌, ◌≤◌, ◌<◌, ◌≡◌, refl, ◌≢◌, ◌⊎◌, inl, inr, false, [], ◌∷◌, arith,
}
use i_free_chat.MemPool.{Chunk, Pool, ret, pool_alloc, needs_chunk}
use i_free_chat.MemPool.Alloc.{request, carved, carve-ret}

abbrev pub chunk_of : (start free : ℕ) → Chunk
chunk_of d f = record { start = d; free = f; bound = 0 }

-- The pool, whose mutex is free, has `f` free bytes at `d`, or takes them with the next call of
-- `malloc`.
pub record Serves (p : Pool) (chunk_ptr data_ptr d f : ℕ) : Type 0 where
  pub unlocked : p.locked ≡ false
  pub small : p.size < 2 ^ 32
  pub fits : f ≤ p.size
  pub start : d ≢ 0
  pub chunks :
      (p.chunks ≡ chunk_of d f ∷ [])
      ⊎ ((p.chunks ≡ []) × (chunk_ptr ≢ 0) × (data_ptr ≡ d) × (p.size ≡ f))

pub pool_alloc-Serves :
    (p : Pool) (chunk_ptr data_ptr size d f : ℕ)
    → Serves p chunk_ptr data_ptr d f
    → request p size ≤ f
    → (q : Pool) × (pool_alloc chunk_ptr data_ptr size p ≡ ret (d + (f - request p size) + 4, q))
      × (q.size ≡ p.size)
      × (q.locked ≡ false)
      × (q.chunks ≡ chunk_of d (f - request p size) ∷ [])
unfolding pool_alloc needs_chunk carved
pool_alloc-Serves p chunk_ptr data_ptr size d f s room =
    let small = s.small in
    let fits = s.fits in
    let cut =
      carve-ret p data_ptr size (chunk_of d f) [] s.start (omega (arith, small, fits)) room in
    elim s.chunks [
      | inl there ↦ (
        carved p data_ptr size (chunk_of d f) [],
        ground (arith, s.unlocked, there, fits, small, cut),
        refl,
        refl,
        refl,
      )
      | inr (none, ne, at, full) ↦ (
        carved p data_ptr size (chunk_of d f) [],
        ground (arith, s.unlocked, none, at, full, fits, small, cut),
        refl,
        refl,
        refl,
      )
    ]
