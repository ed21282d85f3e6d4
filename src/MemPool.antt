-- ===== src/MemPool.antt =====
-- ifc/lib/mem_pool/mem_pool.c and ifc/include/mem_pool/mem_pool.h: the pool that every other
-- part allocates from. Sizes are those of the i686 build that ifc/config.log records: `size_t` is
-- 32 bits wide.
pub mod Alloc
pub mod Free
mod Tests
use i_free_chat.Base.{
  ℕ, ◌+◌, ◌-◌, ◌%◌, ◌^◌, Bool, true, false, ◌&&◌, Option, none, some, List, [], ◌∷◌, ◌++◌, map,
  bit_and, ltb, leb, ◌==◌, not, if◌then◌else◌,
}
use i_free_chat.Base.Memory.{Memory, load32, store32}

-- How a call ends: it returns, it waits for ever on a mutex that nobody releases, or it uses
-- memory that it does not own.
pub data Outcome {ℓ} (A : Type ℓ) : Type ℓ where
  ret : A → Outcome A
  deadlock : Outcome A
  fault : Outcome A

infixl 5 ◌>>=◌
abbrev pub ◌>>=◌ {ℓ κ} : {A : Type ℓ} {B : Type κ} → Outcome A → (A → Outcome B) → Outcome B
ret a >>= f = f a
deadlock >>= f = deadlock
fault >>= f = fault

-- `size_t` arithmetic.
abbrev pub add_size : ℕ → ℕ → ℕ
add_size a b = (a + b) % 2 ^ 32

abbrev pub sub_size : ℕ → ℕ → ℕ
sub_size a b = (a + 2 ^ 32 - b) % 2 ^ 32

-- `mem_chunk_t`; the `next` fields are the order of the list.
pub record Chunk : Type 0 where
  pub start : ℕ
  pub free : ℕ
  pub bound : ℕ

-- `mem_pool_t`, with the memory that its chunks lie in, and whether its mutex is held.
pub record Pool : Type 0 where
  pub size : ℕ
  pub quantum : ℕ
  pub chunks : List Chunk
  pub locked : Bool
  pub mem : Memory

-- `MINALIGN`, `CHUNK_DEFAULT_SIZE` and `sizeof(size_t)`
abbrev pub min_align : ℕ
min_align = 4

abbrev pub chunk_default_size : ℕ
chunk_default_size = 32768

abbrev pub size_bytes : ℕ
size_bytes = 4

-- The arguments `pool_ptr` and `mutex_ptr` are what the two calls of `malloc` return, 0 for NULL.
unfoldable pub mem_pool_init :
    (pool_ptr mutex_ptr size quantum : ℕ) → Memory → Outcome (Option Pool)
mem_pool_init pool_ptr mutex_ptr size quantum mem =
    if pool_ptr == 0
    then ret none
    else if mutex_ptr == 0
    then fault
    else ret (
        some (record {
          size =
              if size == 0
              then chunk_default_size
              else bit_and (sub_size (add_size size min_align) 1) (2 ^ 32 - min_align);
          quantum = if quantum == 0 then min_align else quantum;
          chunks = [];
          locked = false;
          mem = mem;
        }))

-- The blocks that `mem_pool_destroy` gives back to `free`, in order.
pub mem_pool_destroy : Pool → Outcome (List ℕ)
mem_pool_destroy p = if p.locked then deadlock else ret (map (λ c. c.start) p.chunks)

-- The end of `mem_pool_alloc`: cuts `size` bytes off the end of the free part of the first chunk,
-- releases the mutex and writes the header. A chunk at NULL is a failed `malloc` that the code
-- reports and then uses.
pub carve : ℕ → Pool → List Chunk → Outcome (ℕ × Pool)
carve size p [] = fault
carve size p (c ∷ cs) =
    let free' = sub_size c.free size in
    let start = c.start + free' in
    if c.start == 0
    then fault
    else ret (
      start + size_bytes,
      record p {
        chunks = record c { free = free' } ∷ cs;
        locked = false;
        mem = store32 start size p.mem;
      },
    )

-- `pool->chunk == NULL || size > pool->chunk->free`
pub needs_chunk : ℕ → List Chunk → Bool
needs_chunk size [] = true
needs_chunk size (c ∷ cs) = ltb c.free size

-- `mem_pool_alloc` on a pool that is not NULL. `chunk_ptr` and `data_ptr` are what the two calls
-- of `malloc` return, if they are made; the returned address is 0 for NULL.
unfoldable pub pool_alloc : (chunk_ptr data_ptr size : ℕ) → Pool → Outcome (ℕ × Pool)
unfolding carve needs_chunk
pool_alloc chunk_ptr data_ptr size p =
    let size' = add_size (if size == 0 then p.quantum else size) size_bytes in
    if p.locked
    then deadlock
    else if ltb p.size size'
    then ret (0, record p { locked = true })
    else if needs_chunk size' p.chunks
    then (if chunk_ptr == 0
        then ret (0, record p { locked = true })
        else carve size' p (record { start = data_ptr; free = p.size; bound = 0 } ∷ []))
    else carve size' p p.chunks

pub mem_pool_alloc : (chunk_ptr data_ptr size : ℕ) → Option Pool → Outcome (ℕ × Option Pool)
unfolding pool_alloc
mem_pool_alloc chunk_ptr data_ptr size none = ret (0, none)
mem_pool_alloc chunk_ptr data_ptr size (some p) = do
  (a, p') ← pool_alloc chunk_ptr data_ptr size p
  ret (a, some p')

-- The size that `mem_pool_free` adds back, from the word that it reads.
unfoldable pub round_quantum : (quantum size : ℕ) → ℕ
round_quantum quantum size =
    if size == 0
    then quantum
    else if ltb 1 quantum && not (size % quantum == 0)
    then add_size size (quantum - size % quantum)
    else size

-- `addr >= cur->start && addr < cur->start + pool->size`
inside : (size addr : ℕ) → Chunk → Bool
inside size addr c = leb c.start addr && ltb addr (c.start + size)

-- The search of the loop among the chunks behind the first: what stands before the chunk, the
-- chunk, and what stands behind it.
find_chunk : (size addr : ℕ) → List Chunk → Option (List Chunk × Chunk × List Chunk)
find_chunk size addr [] = none
find_chunk size addr (c ∷ cs) =
    if inside size addr c then some ([], c, cs) else elim (find_chunk size addr cs) [
      | none ↦ none
      | some (before, d, behind) ↦ some (c ∷ before, d, behind)
    ]

-- The branch for the first chunk.
free_first : (pool_size addr size : ℕ) → Chunk → Chunk
free_first pool_size addr size c =
    if leb pool_size (add_size (add_size c.free c.bound) size)
    then record c { free = pool_size; bound = 0 }
    else if addr == c.start + c.free
    then record c { free = add_size c.free size }
    else record c { bound = add_size c.bound size }

-- The branch for a later chunk: it is dropped when all of it is free, and moved behind the first
-- chunk otherwise.
free_later : (pool_size size : ℕ) → Chunk → List Chunk → Chunk → List Chunk → List Chunk
free_later pool_size size first before c behind =
    let c' = record c { bound = add_size c.bound size } in
    if leb pool_size (add_size c.free c'.bound)
    then first ∷ (before ++ behind)
    else first ∷ c' ∷ (before ++ behind)

free_in : (pool_size addr size : ℕ) → List Chunk → Option (List Chunk)
unfolding inside find_chunk free_first free_later
free_in pool_size addr size [] = none
free_in pool_size addr size (c ∷ cs) =
    if inside pool_size addr c
    then some (free_first pool_size addr size c ∷ cs)
    else elim (find_chunk pool_size addr cs) [
      | none ↦ none
      | some (before, d, behind) ↦ some (free_later pool_size size c before d behind)
    ]

-- `mem_pool_free` on a pool that is not NULL. The size is read at `start`, not at `addr`. When no
-- chunk holds the address it returns with the mutex held.
unfoldable pub pool_free : ℕ → Pool → Outcome Pool
unfolding round_quantum free_in
pool_free start p =
    let addr = start - size_bytes in
    let size = round_quantum p.quantum (load32 p.mem start) in
    if start == 0
    then fault
    else if p.locked
    then deadlock
    else elim (free_in p.size addr size p.chunks) [
      | none ↦ ret (record p { locked = true })
      | some chunks ↦ ret (record p { chunks = chunks; locked = false })
    ]

pub mem_pool_free : ℕ → Option Pool → Outcome (Option Pool)
unfolding pool_free
mem_pool_free start none = ret none
mem_pool_free start (some p) = do p' ← pool_free start p; ret (some p')

-- A word that the owner of a block writes into it.
abbrev pub poke : (addr word : ℕ) → Pool → Pool
poke addr word p = record p { mem = store32 addr word p.mem }
