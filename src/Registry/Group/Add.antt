-- ===== src/Registry/Group/Add.antt =====
-- A group that is added is found.
use i_free_chat.Base.{ℕ, suc, ◌≡◌, refl, false, some, List, [], ◌∷◌, ◌++◌, has, update}
use i_free_chat.Dlist.{dlist_add_tail}
use i_free_chat.Dlist.Ring.{IsRing, add_tail-IsRing}
use i_free_chat.MemPool.{ret}
use i_free_chat.MemPool.Alloc.{IsValid}
use i_free_chat.Hash.Key.{key_int, IsKey}
use i_free_chat.Hash.Table.{hash_index}
use i_free_chat.Hash.Table.View.{View, Represents}
use i_free_chat.Hash.Table.Lookup.{IsReady, found_after, hash_insert-hash_find}
use i_free_chat.Registry.{Heap, Registry, Mallocs}
use i_free_chat.Registry.Group.{group_add_entry, group_find_entry}

-- The groups of the list `xs` are linked under the registry, and its table holds `view`.
pub record IsGroups (r : Registry) (h : Heap) (view : View key_int) (xs : List ℕ) : Type 0 where
  pub ring : IsRing h.gnodes r.addr xs
  pub table : Represents key_int h.pool r.hash view
  pub valid : IsValid h.pool
  pub unlocked : h.pool.locked ≡ false

-- `group_add_entry` puts a group that is not in the list at its end and keeps the registry in order.
-- Then its number finds it; another number of the same bucket finds nothing, whatever was there
-- before; and a number of any other bucket finds what it found before.
pub group_add-find :
    (entry_ptr : ℕ) (a : Mallocs) (r : Registry) (e : ℕ) (h : Heap) (view : View key_int)
    (xs : List ℕ) (gpid : ℕ) (fuel : ℕ)
    → IsReady key_int h.pool r.hash view (h.groups e).group_id entry_ptr a.chunk a.block
    → IsRing h.gnodes r.addr xs
    → has e (r.addr ∷ xs) ≡ false
    → IsKey key_int gpid
    → (r' : Registry) × (h' : Heap) × (group_add_entry entry_ptr a r e h ≡ ret (r', h'))
      × IsGroups r' h'
          (update view
            (hash_index key_int r.hash (h.groups e).group_id)
            (some ((h.groups e).group_id, e)))
          (xs ++ e ∷ [])
      × (group_find_entry (suc fuel) r' gpid h'
          ≡ found_after key_int r.hash
              (h.groups e).group_id
              gpid
              e
              (group_find_entry (suc fuel) r gpid h))
unfolding group_add_entry group_find_entry
group_add-find ep a r e h view xs gpid fuel ready ring new is =
    let (t, p, q, rep, ok, free, found) =
      hash_insert-hash_find key_int h.pool r.hash view (h.groups e).group_id gpid ep a.chunk a.block
        e fuel ready is in
    (
      record r { hash = t },
      record h { pool = p; gnodes = dlist_add_tail e r.addr h.gnodes },
      rw q refl,
      record {
        ring = add_tail-IsRing h.gnodes e r.addr xs ring new;
        table = rep;
        valid = ok;
        unlocked = free;
      },
      found,
    )
