-- ===== src/MemPool/Tests.antt =====
-- The pool at concrete requests.
use i_free_chat.Base.{ℕ, ◌+◌, ◌^◌, ◌≤◌, ◌<◌, ◌≡◌, refl, false, [], ◌∷◌, arith}
use i_free_chat.Base.Memory.{Memory, load32, store32}
use i_free_chat.MemPool.{ret, Chunk, Pool, pool_alloc, pool_free, round_quantum}
use i_free_chat.MemPool.Alloc.{
  IsChunk, IsValid, Apart, Allocated, fresh_chunk, pool_alloc-Allocated,
}
use i_free_chat.MemPool.Free.{IsReleased, one_chunk, pool_free-IsValid, pool_free_overlap}

abbrev chunk_a : Chunk
chunk_a = record { start = 1000; free = 40; bound = 0 }

-- The word at 1044 is 16, the one at 1052 is 64.
abbrev words : Memory
words = store32 1044 16 (store32 1052 64 (λ a. 0))

abbrev pool_a : Pool
pool_a = record { size = 64; quantum = 1; chunks = chunk_a ∷ []; locked = false; mem = words }

chunk_a-IsChunk : IsChunk 64 chunk_a
chunk_a-IsChunk = record {
  not_null = ground arith;
  in_memory = omega arith;
  free_fits = omega arith;
}

pool_a-IsValid : IsValid pool_a
pool_a-IsValid = record { small = omega arith; each = (chunk_a-IsChunk, tt); single = omega arith }

fresh_a-IsChunk : IsChunk 64 (fresh_chunk pool_a 5000)
fresh_a-IsChunk = record {
  not_null = ground arith;
  in_memory = omega arith;
  free_fits = omega arith;
}

word_a : 40 + 0 + round_quantum 1 (load32 words 1044) < 2 ^ 32
unfolding round_quantum load32 store32
word_a = omega arith

word_b : 64 ≤ load32 words 1052
unfolding load32 store32
word_b = omega arith

sum_b : 40 + 0 + load32 words 1052 < 2 ^ 32
unfolding load32 store32
sum_b = omega arith

pool_alloc-Allocated_example :
    (at : ℕ) × (q : Pool) × (pool_alloc 1 5000 12 pool_a ≡ ret (at + 4, q))
    × Allocated pool_a 5000 12 at q
pool_alloc-Allocated_example =
    pool_alloc-Allocated 1 5000 12 pool_a pool_a-IsValid refl (omega arith) (ground arith)
      fresh_a-IsChunk

pool_free-IsValid_example :
    (d : Chunk) × (pool_free 1044 pool_a ≡ ret (record (one_chunk pool_a d) { locked = false }))
    × IsValid (one_chunk pool_a d)
    × (d.start ≡ 1000)
    × IsReleased 64 1040 (round_quantum 1 (load32 words 1044)) chunk_a d
pool_free-IsValid_example =
    pool_free-IsValid 1044 pool_a chunk_a pool_a-IsValid refl (omega arith) (omega arith) word_a

pool_free_overlap_example :
    (q r : Pool) × (at : ℕ) × (pool_free 1052 pool_a ≡ ret q)
    × (pool_alloc 1 5000 8 q ≡ ret (at + 4, r))
    × ¬ Apart at 12 1048 16
pool_free_overlap_example =
    pool_free_overlap 1052 pool_a chunk_a 1048 16 1 5000 8 pool_a-IsValid refl (omega arith)
      (omega arith) (omega arith) word_b (omega arith) sum_b (omega arith) (omega arith)
      (omega arith) (omega arith)
