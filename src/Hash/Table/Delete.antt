-- ===== src/Hash/Table/Delete.antt =====
-- `hash_del` returns the value, and leaves the pool's mutex held: the entry that it gives to the
-- pool comes from `malloc`.
use i_free_chat.Base.{
  ℕ, ◌-◌, ◌≡◌, refl, ◌∙◌, ◌≢◌, true, false, some, arith, ◌==◌, get_or, get_or-set_self, set,
}
use i_free_chat.MemPool.{ret, deadlock, Pool, pool_alloc, pool_free}
use i_free_chat.MemPool.Alloc.{pool_alloc_locked}
use i_free_chat.MemPool.Free.{IsForeign, pool_free_foreign}
use i_free_chat.Hash.Key.{Ktype, Key, IsKey, key_eq_refl, hash_key_equal-key_eq}
use i_free_chat.Hash.Table.{Hash, hash_index, hash_del, hash_entry_free, key_matches}
use i_free_chat.Hash.Table.View.{View, Slot, Represents, hash_index-le}

-- Once a key was released into a pool whose mutex is then free, releasing an entry outside its
-- chunks leaves the mutex held.
entry_free :
    (e a : ℕ) (p q : Pool)
    → e ≢ 0
    → a ≢ 0
    → pool_free a p ≡ ret q
    → q.locked ≡ false
    → IsForeign q (e - 4)
    → hash_entry_free e a p ≡ ret (record q { locked = true })
unfolding hash_entry_free
entry_free e a p q he ha freed free far =
    let f : pool_free e q ≡ ret (record q { locked = true }) =
      (pool_free_foreign e q 0 0 0 he free far).0 in
    let e₀ : (e == 0) ≡ false = ground arith in
    let a₀ : (a == 0) ≡ false = ground arith in rw (e₀, a₀, freed) f

locked_alloc :
    (cp dp size : ℕ) (q : Pool) → pool_alloc cp dp size (record q { locked = true }) ≡ deadlock
locked_alloc cp dp size q = pool_alloc_locked cp dp size (record q { locked = true }) refl

module _ (k : Ktype) (p : Pool) (h : Hash) (view : View k) (key : Key k) (val fuel : ℕ)
    (r : Represents k p h view) (ok : IsKey k key)
    (held : view (hash_index k h key) ≡ some (key, val)) where
  Slot-del :
      (e : ℕ) (q : Pool)
      → get_or h.hash_entry (hash_index k h key) 0 ≡ e
      → Slot k p h e (some (key, val))
      → hash_entry_free e (h.entries e).key p ≡ ret q
      → hash_del k fuel key h p
        ≡ some
            (ret (some val, record h { hash_entry = set h.hash_entry (hash_index k h key) 0 }, q))
  unfolding hash_del
  Slot-del e q at (ne, self, value, is, stored, taken) freed =
      let same : key_matches k h p.mem key e ≡ true =
        hash_key_equal-key_eq k p.mem (h.entries e).key key key ok ok stored ∙ key_eq_refl k key in
      ground (arith, same)

  -- `hash_del` of a key that the table holds returns its value and clears its slot, so that the key
  -- is held no more. If the key's block is released in order and the entry, which `malloc` made,
  -- lies outside the pool's chunks, the pool's mutex stays held: any allocation after it waits for
  -- ever.
  pub hash_del_locks :
      (q : Pool) (chunk_ptr data_ptr size : ℕ)
      → let e = get_or h.hash_entry (hash_index k h key) 0 in
        (h.entries e).key ≢ 0
        → pool_free (h.entries e).key p ≡ ret q
        → q.locked ≡ false
        → IsForeign q (e - 4)
        → (h' : Hash) × (hash_del k fuel key h p
            ≡ some (ret (some val, h', record q { locked = true })))
          × (get_or h'.hash_entry (hash_index k h key) 0 ≡ 0)
          × (pool_alloc chunk_ptr data_ptr size (record q { locked = true }) ≡ deadlock)
  hash_del_locks q cp dp size ha freed free far =
      let i = hash_index k h key in
      let e = get_or h.hash_entry i 0 in
      let le = hash_index-le k h key in
      let slot : Slot k p h e (some (key, val)) = rw held at (r.each i le) in
      (
        record h { hash_entry = set h.hash_entry i 0 },
        Slot-del e (record q { locked = true }) refl slot
            (entry_free e (h.entries e).key p q slot.0 ha freed free far),
        get_or-set_self h.hash_entry i 0 0 (omega (arith, r.slots, le)),
        locked_alloc cp dp size q,
      )
