-- ===== src/Registry/User.antt =====
-- ifc/src/user.c: the users, by address.
pub mod Add
use i_free_chat.Base.{
  ℕ, ◌+◌, ◌%◌, ◌^◌, Bool, true, false, Option, none, some, List, [], ◌∷◌, ◌==◌, if◌then◌else◌,
  update, length,
}
use i_free_chat.Text.{Bytes}
use i_free_chat.Dlist.{Links, init_dlist_node, dlist_add_tail, dlist_del, dlist_foreach_safe}
use i_free_chat.MemPool.{Outcome, ret, fault, ◌>>=◌, Pool, pool_alloc, pool_free, poke}
use i_free_chat.Hash.Key.{key_str}
use i_free_chat.Hash.Table.{Entry, Hash, hash_insert, hash_find, hash_del}
use i_free_chat.Registry.{UserEntry, Heap, Registry, Mallocs, alloc, create_registry, destroy_rest}

-- `sizeof(user_entry_t)`
abbrev user_bytes : ℕ
user_bytes = 56

-- The strings, each with its NUL.
abbrev texts_bytes : UserEntry → ℕ
texts_bytes u =
    1
    + length u.nickname
    + (1 + length u.username)
    + (1 + length u.hostname)
    + (1 + length u.avatar)
    + (1 + length u.ipaddr)
    + (1 + length u.macaddr)
    + (1 + length u.signature)
    + (1 + length u.category)
    + (1 + length u.encoding)

-- What is stored at first.
abbrev pub new_user : UserEntry → UserEntry
new_user u = record u { pos = 0; category_entry = 0; chatbox = 0 }

-- `new_user_entry`; the strings are those of `u`. The first word of the block is the pointer
-- `nickname`, to what lies behind the structure.
unfoldable pub new_user_entry : Mallocs → UserEntry → Heap → Outcome (ℕ × Heap)
new_user_entry a u h = do
  (base, h) ← alloc a (texts_bytes u + user_bytes) h
  let p = poke base (base + user_bytes) h.pool
  let h' = record h {
    pool = p;
    users = update h.users base (new_user u);
    unodes = init_dlist_node base h.unodes;
  }
  if base == 0 then ret (0, h) else ret (base, h')

pub free_user_entry : ℕ → Heap → Outcome Heap
free_user_entry e h = do
  p ← pool_free e h.pool
  ret (record h { unodes = dlist_del e h.unodes; pool = p })

-- `create_user`
unfoldable pub create_user :
    (a b : Mallocs) (entries : ℕ → Entry) (links : Links) → Heap → Outcome (Option Registry × Heap)
unfolding create_registry
create_user a b entries links h = do
  (r, h) ← create_registry a b 0xffff entries links h
  elim r [
    | none ↦ ret (none, h)
    | some u ↦ ret (some u, record h { unodes = init_dlist_node u.addr h.unodes })
  ]

-- `entry_ptr` is what `malloc` returns for the entry of the table.
unfoldable pub user_add_entry :
    (entry_ptr : ℕ) → Mallocs → Registry → (e : ℕ) → Heap → Outcome (Registry × Heap)
user_add_entry entry_ptr a r e h = do
  (t, p) ← hash_insert key_str entry_ptr a.chunk a.block (h.users e).ipaddr e r.hash h.pool
  ret (record r { hash = t }, record h { pool = p; unodes = dlist_add_tail e r.addr h.unodes })

-- The flag is whether 0 is returned. `none` is a search that has not ended within the fuel.
pub user_del_entry :
    (fuel : ℕ) → Registry → (e : ℕ) → Heap → Option (Outcome (Bool × Registry × Heap))
unfolding free_user_entry
user_del_entry fuel r e h = elim (hash_del key_str fuel (h.users e).ipaddr r.hash h.pool) [
  | none ↦ none
  | some o ↦ some (do
    (found, t, p) ← o
    elim found [
      | none ↦ ret (false, record r { hash = t }, record h { pool = p })
      | some v ↦ do
        h' ← free_user_entry e (record h { pool = p })
        ret (true, record r { hash = t }, h')
    ])
]

-- `none` inside is NULL.
unfoldable pub user_find_entry : (fuel : ℕ) → Registry → Bytes → Heap → Option (Option ℕ)
user_find_entry fuel r ip h = hash_find key_str fuel r.hash h.pool.mem ip

-- The loop of `destroy_user`, over the heap and what is left of it when a release does not return.
destroy_user_entry : ℕ → Links × Outcome Heap → Links × Outcome Heap
unfolding free_user_entry
destroy_user_entry e (l, o) = (dlist_del e l, o >>= free_user_entry e)

-- `destroy_user`
pub destroy_user : (fuel : ℕ) → Option Registry → Heap → Option (Outcome Heap)
unfolding destroy_user_entry
destroy_user fuel none h = some (ret h)
destroy_user fuel (some r) h =
    let first = h.unodes.next r.addr in
    let swept =
      dlist_foreach_safe (λ s. s.0) r.addr destroy_user_entry fuel first (h.unodes.next first)
        (h.unodes, ret h) in
    elim swept [ none ↦ none | some (l, o) ↦ destroy_rest fuel r o ]
