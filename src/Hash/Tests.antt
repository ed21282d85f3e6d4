-- ===== src/Hash/Tests.antt =====
-- Tables with four buckets, and the keys 5 and "a".
use i_free_chat.Base.{
  ℕ, zero, suc, ◌⊎◌, ◌+◌, ◌-◌, ◌^◌, ◌≤◌, ◌<◌, ◌≡◌, refl, ◌≢◌, inl, inr, true, false, none, some,
  List, [], ◌∷◌, arith, update, get_or,
}
use i_free_chat.Base.Memory.{store32, load32, load32-store32}
use i_free_chat.Dlist.{Links}
use i_free_chat.MemPool.{ret, deadlock, Chunk, Pool, pool_alloc, pool_free, round_quantum}
use i_free_chat.MemPool.Alloc.{IsChunk, IsValid, fresh_chunk, Apart}
use i_free_chat.MemPool.Free.{one_chunk, IsReleased, pool_free-IsValid}
use i_free_chat.Hash.Key.{key_int}
use i_free_chat.Hash.Table.{Entry, Hash, hash_index, hash_insert, hash_find, hash_del}
use i_free_chat.Hash.Table.View.{
  View, Slot, Represents, hash_index-le, view_find, hash_find-view_find,
}
use i_free_chat.Hash.Table.Insert.{hash_insert-Represents}
use i_free_chat.Hash.Table.Delete.{hash_del_locks}

abbrev chunk_a : Chunk
chunk_a = record { start = 1990; free = 6; bound = 0 }

abbrev pool_a : Pool
pool_a = record {
  size = 64;
  quantum = 4;
  chunks = chunk_a ∷ [];
  locked = false;
  mem = store32 2000 5 (λ a. 0);
}

pool_a-IsValid : IsValid pool_a
pool_a-IsValid = record {
  small = omega arith;
  each = (record { not_null = ground arith; in_memory = omega arith; free_fits = omega arith }, tt);
  single = omega arith;
}

fresh_a-IsChunk : IsChunk 64 (fresh_chunk pool_a 5000)
fresh_a-IsChunk = record {
  not_null = ground arith;
  in_memory = omega arith;
  free_fits = omega arith;
}

abbrev entries_a : ℕ → Entry
entries_a e = record { key = 2000; val = 77 }

abbrev links_a : Links
links_a = record { prev = λ a. a; next = λ a. a }

-- A table of four buckets that all have the entry at `e`.
abbrev hash_of : ℕ → Hash
hash_of e = record {
  addr = 300;
  hash_entry = e ∷ e ∷ e ∷ e ∷ [];
  hash_size = 3;
  entries = entries_a;
  links = links_a;
}

bucket : (e i : ℕ) → i ≤ 3 → get_or (e ∷ e ∷ e ∷ e ∷ []) i 0 ≡ e
bucket e zero h = refl
bucket e (suc zero) h = refl
bucket e (suc (suc zero)) h = refl
bucket e (suc (suc (suc zero))) h = refl
bucket e (suc (suc (suc (suc i)))) h = absurd (omega arith)

abbrev empty_view : View key_int
empty_view i = none

empty-Represents : Represents key_int pool_a (hash_of 0) empty_view
empty-Represents = record { slots = refl; each = λ i h. bucket 0 i h }

abbrev slots_0 : List ℕ
slots_0 = 0 ∷ 0 ∷ 0 ∷ 0 ∷ []

slot_ne : (i : ℕ) → i ≤ 3 → get_or slots_0 i 0 ≢ 9000
slot_ne i h = ground (arith, bucket 0 i h)

no_entry : (i : ℕ) (x w : ℕ) → empty_view i ≡ some (x, w) → Apart 5000 64 2000 4
no_entry i x w e = inr (omega arith)

hash_insert-Represents_example :
    (h' : Hash) × (p' : Pool) × (hash_insert key_int 9000 1 5000 5 42 (hash_of 0) pool_a
      ≡ ret (h', p'))
    × Represents key_int p' h' (update empty_view (hash_index key_int (hash_of 0) 5) (some (5, 42)))
    × (h'.hash_size ≡ (hash_of 0).hash_size)
    × IsValid p'
    × (p'.locked ≡ false)
hash_insert-Represents_example =
    hash_insert-Represents key_int pool_a (hash_of 0) empty_view 5 9000 1 5000 42 empty-Represents
      (omega arith) (ground arith) pool_a-IsValid refl (omega arith) (ground arith) fresh_a-IsChunk
      slot_ne (λ i x w h e. no_entry i x w e)

abbrev full_view : View key_int
full_view i = some (5, 77)

stored_5 : load32 (store32 2000 5 (λ a. 0)) 2000 ≡ 5
stored_5 = load32-store32 2000 5 (λ a. 0) (omega arith)

full-Slot :
    (i : ℕ)
    → i ≤ 3
    → Slot key_int pool_a
        (hash_of 9000)
        (get_or (9000 ∷ 9000 ∷ 9000 ∷ 9000 ∷ []) i 0)
        (some (5, 77))
full-Slot i h =
    rw (bucket 9000 i h) (ground arith, refl, refl, omega arith, stored_5, inl (omega arith))

full-Represents : Represents key_int pool_a (hash_of 9000) full_view
full-Represents = record { slots = refl; each = full-Slot }

hash_find-view_find_example :
    hash_find key_int 1 (hash_of 9000) pool_a.mem 5
    ≡ some (view_find key_int full_view (hash_index key_int (hash_of 9000) 5) 5)
hash_find-view_find_example =
    hash_find-view_find key_int pool_a (hash_of 9000) full_view 5 0 full-Represents (omega arith)

rounded : 6 + 0 + round_quantum 4 (load32 (store32 2000 5 (λ a. 0)) 2000) < 2 ^ 32
unfolding round_quantum
rounded = rw stored_5 (omega arith)

-- The key's block is released in order.
key_freed :
    (d : Chunk) × (pool_free 2000 pool_a ≡ ret (record (one_chunk pool_a d) { locked = false }))
    × IsValid (one_chunk pool_a d)
    × (d.start ≡ 1990)
    × IsReleased 64 1996 (round_quantum 4 (load32 pool_a.mem 2000)) chunk_a d
key_freed =
    pool_free-IsValid 2000 pool_a chunk_a pool_a-IsValid refl (omega arith) (omega arith) rounded

far :
    (i start e : ℕ)
    → i ≤ 3
    → start ≡ 1990
    → get_or (9000 ∷ 9000 ∷ 9000 ∷ 9000 ∷ []) i 0 ≡ e
    → (e - 4 < start) ⊎ (start + 64 ≤ e - 4)
far i start e h s q = inr (omega (arith, bucket 9000 i h))

abbrev pool_b : Chunk → Pool
pool_b d = record (one_chunk pool_a d) { locked = false }

hash_del_locks_example :
    (h' : Hash) × (hash_del key_int 1 5 (hash_of 9000) pool_a
      ≡ some (ret (some 77, h', record (pool_b (key_freed.0)) { locked = true })))
    × (get_or h'.hash_entry (hash_index key_int (hash_of 9000) 5) 0 ≡ 0)
    × (pool_alloc 1 5000 4 (record (pool_b (key_freed.0)) { locked = true }) ≡ deadlock)
hash_del_locks_example =
    hash_del_locks key_int pool_a (hash_of 9000) full_view 5 77 1 full-Represents (omega arith) refl
      (pool_b (key_freed.0)) 1 5000 4 (ground arith) (key_freed.1) refl
      (
        far (hash_index key_int (hash_of 9000) 5) (key_freed.0.start) _
            (hash_index-le key_int (hash_of 9000) 5) (key_freed.3) refl,
        tt,
      )
