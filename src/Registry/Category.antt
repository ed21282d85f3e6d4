-- ===== src/Registry/Category.antt =====
-- ifc/src/category.c: the categories, by name.
pub mod Insert
use i_free_chat.Base.{
  ℕ, ◌+◌, ◌%◌, ◌^◌, ◌≤◌, Bool, true, false, Option, none, some, List, [], ◌∷◌, ◌++◌, ◌==◌, ltb, leb,
  if◌then◌else◌, update, length, take,
}
use i_free_chat.Base.Memory.{store_bytes}
use i_free_chat.Text.{Bytes}
use i_free_chat.Dlist.{Links, init_dlist_node, dlist_add_tail, dlist_del, dlist_foreach_safe}
use i_free_chat.MemPool.{Outcome, ret, fault, ◌>>=◌, Pool, pool_alloc, pool_free}
use i_free_chat.Hash.Key.{key_str}
use i_free_chat.Hash.Table.{Entry, Hash, hash_insert, hash_find, hash_del}
use i_free_chat.Registry.{
  CategoryEntry, Heap, Registry, Mallocs, alloc, create_registry, destroy_rest,
}

-- `sizeof(category_entry_t)`: 128 bytes of name, the count, a node, `pos` and a second node.
abbrev category_bytes : ℕ
category_bytes = 152

-- What is stored at first.
abbrev pub new_category : Bytes → CategoryEntry
new_category name = record { name = take 128 name; count = 0; pos = 0 }

-- `new_category_entry`. The count that is written behind the name cuts off a longer one; a name
-- that does not fit the structure is a fault.
unfoldable pub new_category_entry : Mallocs → (name : Bytes) → Heap → Outcome (ℕ × Heap)
new_category_entry a name h = do
  (base, h) ← alloc a category_bytes h
  let m = store_bytes base (name ++ 0 ∷ []) h.pool.mem
  let h' = record h {
    pool = record h.pool { mem = m };
    categories = update h.categories base (new_category name);
    cnodes = init_dlist_node base h.cnodes;
  }
  if base == 0
      then ret (0, h)
      else if leb category_bytes (length name)
      then fault
      else ret (base, h')

-- The node is not taken out of its list.
pub free_category_entry : ℕ → Heap → Outcome Heap
free_category_entry e h =
    let pos = (h.categories e).pos in
    if e == 0
    then ret h
    else if pos == 0
    then (pool_free e h.pool >>= (λ p. ret (record h { pool = p })))
    else do p ← pool_free pos h.pool; p ← pool_free e p; ret (record h { pool = p })

unfoldable pub create_category :
    (a b : Mallocs) (entries : ℕ → Entry) (links : Links) → Heap → Outcome (Option Registry × Heap)
unfolding create_registry
create_category a b entries links h = do
  (r, h) ← create_registry a b 0xff entries links h
  elim r [
    | none ↦ ret (none, h)
    | some c ↦ ret (some c, record h { cnodes = init_dlist_node c.addr h.cnodes })
  ]

-- Linking an entry that is NULL is a fault.
unfoldable pub category_insert_entry :
    (entry_ptr : ℕ)
    → Mallocs
    → Registry
    → (key : Bytes) → (e : ℕ) → Heap
    → Outcome (Registry × Heap)
category_insert_entry entry_ptr a r key e h = do
  (t, p) ← hash_insert key_str entry_ptr a.chunk a.block key e r.hash h.pool
  if e == 0
      then fault
      else ret
          (record r { hash = t }, record h { pool = p; cnodes = dlist_add_tail e r.addr h.cnodes })

-- The node is taken out whether the table held the key or not.
pub category_del_entry :
    (fuel : ℕ) → Registry → (key : Bytes) → (e : ℕ) → Heap → Option (Outcome (Registry × Heap))
category_del_entry fuel r key e h = elim (hash_del key_str fuel key r.hash h.pool) [
  | none ↦ none
  | some o ↦ some (do
    (found, t, p) ← o
    ret (record r { hash = t }, record h { pool = p; cnodes = dlist_del e h.cnodes }))
]

-- `none` inside is the -1.
unfoldable pub category_find_entry : (fuel : ℕ) → Registry → Bytes → Heap → Option (Option ℕ)
category_find_entry fuel r name h = hash_find key_str fuel r.hash h.pool.mem name

-- The loop of `destroy_category` reads the links, which nothing changes.
destroy_category_entry : ℕ → Links × Outcome Heap → Links × Outcome Heap
unfolding free_category_entry
destroy_category_entry e (l, o) = (l, o >>= free_category_entry e)

pub destroy_category : (fuel : ℕ) → Option Registry → Heap → Option (Outcome Heap)
unfolding destroy_category_entry
destroy_category fuel none h = some (ret h)
destroy_category fuel (some r) h =
    let first = h.cnodes.next r.addr in
    let swept =
      dlist_foreach_safe (λ s. s.0) r.addr destroy_category_entry fuel first (h.cnodes.next first)
        (h.cnodes, ret h) in
    elim swept [ none ↦ none | some (l, o) ↦ destroy_rest fuel r o ]
