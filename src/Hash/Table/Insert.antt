-- ===== src/Hash/Table/Insert.antt =====
-- What `hash_insert` does to the abstract table: the bucket of the key then holds that key alone.
use i_free_chat.Base.{
  ℕ, ◌+◌, ◌^◌, ◌≤◌, ◌<◌, ◌≡◌, refl, ◌∙◌, ◌≢◌, false, Option, none, some, List, [], ◌∷◌, arith, ◌==◌,
  ==_refl, length, get_or, set, length-set, get_or-set_self, get_or-set_ne, update,
}
use native.Mathlib.Decide.{ℕ_discrete}
use i_free_chat.Dlist.{dlist_add_tail, init_dlist_node}
use i_free_chat.Dlist.Ring.{add_tail_self}
use i_free_chat.MemPool.{ret, Chunk, Pool, pool_alloc}
use i_free_chat.MemPool.Alloc.{
  IsChunk, IsValid, IsTaken, Apart, Allocated, fresh_chunk, pool_alloc-Allocated,
}
use i_free_chat.Hash.Key.{
  Ktype, Key, key_int, key_str, key_bytes, copy_key, IsKey, Stored-copy_key, Stored-frame,
  copy_key_apart,
}
use i_free_chat.Hash.Table.{Hash, hash_index, hash_insert, with_key, with_val}
use i_free_chat.Hash.Table.View.{View, Slot, Represents, hash_index-le}

IsTaken-sub :
    (cs : List Chunk) (a n b m : ℕ) → IsTaken cs a n → a ≤ b → b + m ≤ a + n → IsTaken cs b m
IsTaken-sub [] a n b m t lo hi = tt
IsTaken-sub (c ∷ cs) a n b m t lo hi = ground arith

-- The table with the entry in its slot.
abbrev filled : (e addr val : ℕ) → Hash → Hash
filled e addr val h =
    with_val e val (with_key e addr (record h { links = init_dlist_node e h.links }))

abbrev inserted : (e addr val idx : ℕ) → Hash → Hash
inserted e addr val idx h = record (filled e addr val h) {
  hash_entry = set h.hash_entry idx e;
  links = dlist_add_tail e e (init_dlist_node e h.links);
}

key_bytes_pos : (k : Ktype) (key : Key k) → 0 < key_bytes k key
key_bytes_pos key_int n = omega arith
key_bytes_pos key_str s = omega arith

module _ (k : Ktype) (p : Pool) (h : Hash) (view : View k) (key : Key k)
    (entry_ptr chunk_ptr data_ptr val : ℕ) (r : Represents k p h view) (ok : IsKey k key)
    (new : entry_ptr ≢ 0) where
  in_range : hash_index k h key < length h.hash_entry
  in_range = omega (arith, r.slots, hash_index-le k h key)

  insert-ret :
      (at : ℕ) (q : Pool)
      → pool_alloc chunk_ptr data_ptr (key_bytes k key) p ≡ ret (at + 4, q)
      → hash_insert k entry_ptr chunk_ptr data_ptr key val h p
        ≡ ret (
          inserted entry_ptr (at + 4) val (hash_index k h key) h,
          record q { mem = copy_key k key (at + 4) q.mem },
        )
  unfolding hash_insert
  insert-ret at q e =
      let there : (entry_ptr == 0) ≡ false = ground arith in
      let placed : (at + 4 == 0) ≡ false = ground arith in
      rw (
        there,
        e,
        placed,
        get_or-set_self h.hash_entry (hash_index k h key) entry_ptr 0 in_range,
        there,
      )

  -- What the bucket of the key holds then.
  Slot-new :
      (at : ℕ) (q : Pool)
      → key_bytes k key + 4 < 2 ^ 32
      → Allocated p data_ptr (key_bytes k key) at q
      → Slot k
          (record q { mem = copy_key k key (at + 4) q.mem })
          (inserted entry_ptr (at + 4) val (hash_index k h key) h)
          entry_ptr
          (some (key, val))
  Slot-new at q small a = (
    new,
    rw (add_tail_self h.links entry_ptr entry_ptr, ==_refl),
    rw (==_refl),
    ok,
    rw ==_refl (Stored-copy_key k key (at + 4) q.mem ok),
    rw ==_refl (
        IsTaken-sub q.chunks at _ (at + 4) (key_bytes k key) a.taken (omega arith)
          (ground (arith, key_bytes_pos k key))),
  )

  -- The entry of another bucket is as before.
  Slot-kept :
      (at : ℕ) (q : Pool) (e : ℕ) (s : Option (Key k × ℕ))
      → key_bytes k key + 4 < 2 ^ 32
      → Allocated p data_ptr (key_bytes k key) at q
      → e ≢ entry_ptr
      → ((x : Key k) (v : ℕ)
          → s ≡ some (x, v)
          → Apart data_ptr p.size (h.entries e).key (key_bytes k x))
      → Slot k p h e s
      → Slot k
          (record q { mem = copy_key k key (at + 4) q.mem })
          (inserted entry_ptr (at + 4) val (hash_index k h key) h)
          e
          s
  Slot-kept at q e none small a ne apart t = t
  Slot-kept at q e (some (x, v)) small a ne apart (pos, self, value, is, stored, taken) =
      let other : (entry_ptr == e) ≡ false = ground arith in
      let (far, still) = a.apart (h.entries e).key (key_bytes k x) taken (apart x v refl) in
      let size_pos = key_bytes_pos k key in
      (
        pos,
        rw (add_tail_self h.links entry_ptr e, other) self,
        rw other value,
        is,
        rw other (
            Stored-frame k x (h.entries e).key p.mem (copy_key k key (at + 4) q.mem)
              (λ b lo hi.
                copy_key_apart k key (at + 4) b q.mem (ground arith) ∙ a.elsewhere b (ground arith))
              stored),
        rw other still,
      )

  module _ (v : IsValid p) (free : p.locked ≡ false) (fits : key_bytes k key + 4 ≤ p.size)
      (node_ptr : chunk_ptr ≢ 0) (fresh : IsChunk p.size (fresh_chunk p data_ptr))
      (unused : (i : ℕ) → i ≤ h.hash_size → get_or h.hash_entry i 0 ≢ entry_ptr)
      (apart : (i : ℕ) (x : Key k) (w : ℕ)
        → i ≤ h.hash_size
        → view i ≡ some (x, w)
        → Apart data_ptr p.size (h.entries (get_or h.hash_entry i 0)).key (key_bytes k x)) where
    each-Slot :
        (at : ℕ) (q : Pool)
        → Allocated p data_ptr (key_bytes k key) at q
        → (i : ℕ) → i ≤ h.hash_size
        → Slot k
            (record q { mem = copy_key k key (at + 4) q.mem })
            (inserted entry_ptr (at + 4) val (hash_index k h key) h)
            (get_or (set h.hash_entry (hash_index k h key) entry_ptr) i 0)
            (update view (hash_index k h key) (some (key, val)) i)
    each-Slot at q a i le = elim (ℕ_discrete (hash_index k h key) i) [
      | yes same ↦
          rw
            (
              ← same,
              ==_refl (hash_index k h key),
              get_or-set_self h.hash_entry (hash_index k h key) entry_ptr 0 in_range,
            )
            (Slot-new at q (omega (arith, v.small)) a)
      | no differs ↦
          let miss : (hash_index k h key == i) ≡ false = ground arith in
          rw (miss, get_or-set_ne h.hash_entry (hash_index k h key) i entry_ptr 0 differs)
            (Slot-kept at q _ (view i) (omega (arith, v.small)) a (unused i le)
              (λ x w e. apart i x w le e) (r.each i le))
    ]

    finish :
        (at : ℕ) (q : Pool)
        → pool_alloc chunk_ptr data_ptr (key_bytes k key) p ≡ ret (at + 4, q)
        → Allocated p data_ptr (key_bytes k key) at q
        → (h' : Hash) × (p' : Pool) × (hash_insert k entry_ptr chunk_ptr data_ptr key val h p
            ≡ ret (h', p'))
          × Represents k p' h' (update view (hash_index k h key) (some (key, val)))
          × (h'.hash_size ≡ h.hash_size)
          × IsValid p'
          × (p'.locked ≡ false)
    finish at q e a = (
      inserted entry_ptr (at + 4) val (hash_index k h key) h,
      record q { mem = copy_key k key (at + 4) q.mem },
      insert-ret at q e,
      record {
        slots = length-set h.hash_entry (hash_index k h key) entry_ptr ∙ r.slots;
        each = each-Slot at q a;
      },
      refl,
      record { small = a.valid.small; each = a.valid.each; single = a.valid.single },
      a.unlocked,
    )

    -- With room in the pool and fresh memory from `malloc`, `hash_insert` succeeds, leaves the pool
    -- valid with its mutex free, and the table then holds the key with its value in the key's
    -- bucket and what it held in every other. What the bucket held before is gone, whatever its
    -- key.
    pub hash_insert-Represents :
        (h' : Hash) × (p' : Pool) × (hash_insert k entry_ptr chunk_ptr data_ptr key val h p
          ≡ ret (h', p'))
        × Represents k p' h' (update view (hash_index k h key) (some (key, val)))
        × (h'.hash_size ≡ h.hash_size)
        × IsValid p'
        × (p'.locked ≡ false)
    hash_insert-Represents =
        let n = key_bytes k key in
        let size_pos : 0 < n = key_bytes_pos k key in
        let (at, q, e, a) =
          pool_alloc-Allocated chunk_ptr data_ptr n p v free (ground arith) node_ptr fresh in
        finish at q e a
