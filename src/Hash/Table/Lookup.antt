-- ===== src/Hash/Table/Lookup.antt =====
-- What a lookup gives after an insertion.
use i_free_chat.Base.{
  ℕ, suc, ◌+◌, ◌≤◌, ◌≡◌, refl, ◌≢◌, Bool, true, false, Bool-cases, inl, inr, Option, none, some,
  ◌==◌, if◌then◌else◌, get_or, update,
}
use i_free_chat.MemPool.{ret, Pool}
use i_free_chat.MemPool.Alloc.{IsChunk, IsValid, Apart, fresh_chunk}
use i_free_chat.Hash.Key.{Ktype, Key, key_bytes, IsKey, key_eq}
use i_free_chat.Hash.Table.{Hash, hash_index, hash_insert, hash_find}
use i_free_chat.Hash.Table.View.{View, Represents, view_find, hash_find-view_find}
use i_free_chat.Hash.Table.Insert.{hash_insert-Represents}

-- The table and the pool are ready for the key: the pool is valid with its mutex free and the key
-- fits a chunk, `malloc` gives fresh memory, and no bucket uses it.
pub record IsReady (k : Ktype) (p : Pool) (h : Hash) (view : View k) (key : Key k)
    (entry_ptr chunk_ptr data_ptr : ℕ) : Type 0 where
  pub table : Represents k p h view
  pub is_key : IsKey k key
  pub entry_made : entry_ptr ≢ 0
  pub valid : IsValid p
  pub unlocked : p.locked ≡ false
  pub fits : key_bytes k key + 4 ≤ p.size
  pub chunk_made : chunk_ptr ≢ 0
  pub fresh : IsChunk p.size (fresh_chunk p data_ptr)
  pub unused : (i : ℕ) → i ≤ h.hash_size → get_or h.hash_entry i 0 ≢ entry_ptr
  pub apart :
      (i : ℕ) (x : Key k) (w : ℕ)
      → i ≤ h.hash_size
      → view i ≡ some (x, w)
      → Apart data_ptr p.size (h.entries (get_or h.hash_entry i 0)).key (key_bytes k x)

-- A lookup of `x` where `key` has just been inserted with `val`.
abbrev pub found_after :
    (k : Ktype) → Hash → (key x : Key k) → (val : ℕ) → Option (Option ℕ) → Option (Option ℕ)
found_after k h key x val before =
    if hash_index k h key == hash_index k h x
    then some (if key_eq k key x then some val else none)
    else before

-- What an abstract bucket gives for a key.
abbrev slot_find : (k : Ktype) → Key k → Option (Key k × ℕ) → Option ℕ
slot_find k x s = elim s [ none ↦ none | some (y, v) ↦ if key_eq k y x then some v else none ]

slot_find-if :
    (k : Ktype) (key x : Key k) (val : ℕ) (b : Bool) (s : Option (Key k × ℕ))
    → slot_find k x (if b then some (key, val) else s)
      ≡ (if b then (if key_eq k key x then some val else none) else slot_find k x s)
slot_find-if k key x val true s = refl
slot_find-if k key x val false s = refl

view_find-update :
    (k : Ktype) (view : View k) (i j : ℕ) (key x : Key k) (val : ℕ)
    → view_find k (update view i (some (key, val))) j x
      ≡ (if i == j then (if key_eq k key x then some val else none) else view_find k view j x)
view_find-update k view i j key x val = slot_find-if k key x val (i == j) (view j)

index_same :
    (k : Ktype) (h h' : Hash) (x : Key k)
    → h'.hash_size ≡ h.hash_size
    → hash_index k h' x ≡ hash_index k h x
unfolding hash_index
index_same k h h' x e = rw e

-- After `hash_insert` of a key with a value, a lookup in the same bucket gives the value for that
-- key and -1 for any other, and a lookup in another bucket gives what it gave before.
pub hash_insert-hash_find :
    (k : Ktype) (p : Pool) (h : Hash) (view : View k) (key x : Key k)
    (entry_ptr chunk_ptr data_ptr val fuel : ℕ)
    → IsReady k p h view key entry_ptr chunk_ptr data_ptr
    → IsKey k x
    → (h' : Hash) × (p' : Pool) × (hash_insert k entry_ptr chunk_ptr data_ptr key val h p
        ≡ ret (h', p'))
      × Represents k p' h' (update view (hash_index k h key) (some (key, val)))
      × IsValid p'
      × (p'.locked ≡ false)
      × (hash_find k (suc fuel) h' p'.mem x
          ≡ found_after k h key x val (hash_find k (suc fuel) h p.mem x))
hash_insert-hash_find k p h view key x ep cp dp val fuel r is =
    let (h', p', e, rep, size, ok, free) =
      hash_insert-Represents k p h view key ep cp dp val r.table r.is_key r.entry_made r.valid
        r.unlocked r.fits r.chunk_made r.fresh r.unused r.apart in
    let old = hash_find-view_find k p h view x fuel r.table is in
    let new =
      hash_find-view_find k p' h' (update view (hash_index k h key) (some (key, val))) x fuel rep
        is in
    let at = index_same k h h' x size in
    let v = view_find-update k view (hash_index k h key) (hash_index k h x) key x val in
    (
      h',
      p',
      e,
      rep,
      ok,
      free,
      rw (new, at, v, old)
          (elim (Bool-cases (hash_index k h key == hash_index k h x)) [
            | inl q ↦ rw q refl
            | inr q ↦ rw q refl
          ]),
    )
