-- ===== src/Registry/User/Add.antt =====
-- A user that is added is found.
use i_free_chat.Base.{ℕ, suc, ◌≡◌, refl, false, some, List, [], ◌∷◌, ◌++◌, has, update}
use i_free_chat.Text.{Bytes}
use i_free_chat.Dlist.{dlist_add_tail}
use i_free_chat.Dlist.Ring.{IsRing, add_tail-IsRing}
use i_free_chat.MemPool.{ret}
use i_free_chat.MemPool.Alloc.{IsValid}
use i_free_chat.Hash.Key.{key_str, IsKey}
use i_free_chat.Hash.Table.{hash_index}
use i_free_chat.Hash.Table.View.{View, Represents}
use i_free_chat.Hash.Table.Lookup.{IsReady, found_after, hash_insert-hash_find}
use i_free_chat.Registry.{Heap, Registry, Mallocs}
use i_free_chat.Registry.User.{user_add_entry, user_find_entry}

-- The users of the list `xs` are linked under the registry, and its table holds `view`.
pub record IsUsers (r : Registry) (h : Heap) (view : View key_str) (xs : List ℕ) : Type 0 where
  pub ring : IsRing h.unodes r.addr xs
  pub table : Represents key_str h.pool r.hash view
  pub valid : IsValid h.pool
  pub unlocked : h.pool.locked ≡ false

-- `user_add_entry` puts a user that is not in the list at its end and keeps the registry in order.
-- Then its address finds it; another address of the same bucket finds nobody, whoever was there
-- before; and an address of any other bucket finds whom it found before.
pub user_add-find :
    (entry_ptr : ℕ) (a : Mallocs) (r : Registry) (e : ℕ) (h : Heap) (view : View key_str)
    (xs : List ℕ) (ip : Bytes) (fuel : ℕ)
    → IsReady key_str h.pool r.hash view (h.users e).ipaddr entry_ptr a.chunk a.block
    → IsRing h.unodes r.addr xs
    → has e (r.addr ∷ xs) ≡ false
    → IsKey key_str ip
    → (r' : Registry) × (h' : Heap) × (user_add_entry entry_ptr a r e h ≡ ret (r', h'))
      × IsUsers r' h'
          (update view
            (hash_index key_str r.hash (h.users e).ipaddr)
            (some ((h.users e).ipaddr, e)))
          (xs ++ e ∷ [])
      × (user_find_entry (suc fuel) r' ip h'
          ≡ found_after key_str r.hash (h.users e).ipaddr ip e (user_find_entry (suc fuel) r ip h))
unfolding user_add_entry user_find_entry
user_add-find ep a r e h view xs ip fuel ready ring new is =
    let (t, p, q, rep, ok, free, found) =
      hash_insert-hash_find key_str h.pool r.hash view (h.users e).ipaddr ip ep a.chunk a.block e
        fuel ready is in
    (
      record r { hash = t },
      record h { pool = p; unodes = dlist_add_tail e r.addr h.unodes },
      rw q refl,
      record {
        ring = add_tail-IsRing h.unodes e r.addr xs ring new;
        table = rep;
        valid = ok;
        unlocked = free;
      },
      found,
    )
