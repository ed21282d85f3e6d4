-- ===== src/Registry/Category/Insert.antt =====
-- A category that is inserted is found.
use i_free_chat.Base.{ℕ, suc, ◌≡◌, ◌≢◌, false, some, List, [], ◌∷◌, ◌++◌, arith, has, update}
use i_free_chat.Text.{Bytes}
use i_free_chat.Dlist.{dlist_add_tail}
use i_free_chat.Dlist.Ring.{IsRing, add_tail-IsRing}
use i_free_chat.MemPool.{ret}
use i_free_chat.MemPool.Alloc.{IsValid}
use i_free_chat.Hash.Key.{key_str, IsKey}
use i_free_chat.Hash.Table.{hash_index}
use i_free_chat.Hash.Table.View.{View, Represents}
use i_free_chat.Hash.Table.Lookup.{IsReady, found_after, hash_insert-hash_find}
use i_free_chat.Registry.{Heap, Registry, Mallocs}
use i_free_chat.Registry.Category.{category_insert_entry, category_find_entry}

-- The categories of the list `xs` are linked under the registry, and its table holds `view`.
pub record IsCategories (r : Registry) (h : Heap) (view : View key_str) (xs : List ℕ) : Type 0 where
  pub ring : IsRing h.cnodes r.addr xs
  pub table : Represents key_str h.pool r.hash view
  pub valid : IsValid h.pool
  pub unlocked : h.pool.locked ≡ false

-- `category_insert_entry` puts a category that is not in the list at its end and keeps the registry
-- in order. Then its name finds it; another name of the same bucket finds nothing, whatever was
-- there before; and a name of any other bucket finds what it found before.
pub category_insert-find :
    (entry_ptr : ℕ) (a : Mallocs) (r : Registry) (e : ℕ) (h : Heap) (view : View key_str)
    (xs : List ℕ) (key name : Bytes) (fuel : ℕ)
    → IsReady key_str h.pool r.hash view key entry_ptr a.chunk a.block
    → e ≢ 0
    → IsRing h.cnodes r.addr xs
    → has e (r.addr ∷ xs) ≡ false
    → IsKey key_str name
    → (r' : Registry) × (h' : Heap) × (category_insert_entry entry_ptr a r key e h ≡ ret (r', h'))
      × IsCategories r' h'
          (update view (hash_index key_str r.hash key) (some (key, e)))
          (xs ++ e ∷ [])
      × (category_find_entry (suc fuel) r' name h'
          ≡ found_after key_str r.hash key name e (category_find_entry (suc fuel) r name h))
unfolding category_insert_entry category_find_entry
category_insert-find ep a r e h view xs key name fuel ready ne ring new is =
    let (t, p, q, rep, ok, free, found) =
      hash_insert-hash_find key_str h.pool r.hash view key name ep a.chunk a.block e fuel ready
        is in
    (
      record r { hash = t },
      record h { pool = p; cnodes = dlist_add_tail e r.addr h.cnodes },
      ground (arith, q),
      record {
        ring = add_tail-IsRing h.cnodes e r.addr xs ring new;
        table = rep;
        valid = ok;
        unlocked = free;
      },
      found,
    )
