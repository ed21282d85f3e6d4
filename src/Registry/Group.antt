-- ===== src/Registry/Group.antt =====
-- ifc/src/group.c: the groups, by number, and the users in a group.
pub mod Add
pub mod Members
mod Tests
use i_free_chat.Base.{
  ℕ, ◌+◌, ◌%◌, ◌^◌, ◌≤◌, Bool, true, false, Option, none, some, List, [], ◌∷◌, ◌++◌, ◌==◌, ltb, leb,
  if◌then◌else◌, update, length, str_eq,
}
use i_free_chat.Base.Memory.{store_bytes, store32}
use i_free_chat.Text.{Bytes}
use i_free_chat.Dlist.{
  Links, init_dlist_node, dlist_add_tail, dlist_del, dlist_foreach, dlist_foreach_safe,
}
use i_free_chat.MemPool.{Outcome, ret, deadlock, fault, ◌>>=◌, Pool, pool_alloc, pool_free, poke}
use i_free_chat.Hash.Key.{key_int}
use i_free_chat.Hash.Table.{Entry, Hash, hash_insert, hash_find, hash_del}
use i_free_chat.Registry.{GroupEntry, Heap, Registry, Mallocs, alloc, create_registry, destroy_rest}

-- `sizeof(group_entry_t)`, `sizeof(group_t)` and `sizeof(gpmember_t)`
abbrev group_entry_bytes : ℕ
group_entry_bytes = 36

abbrev pub group_bytes : ℕ
group_bytes = 16

abbrev member_bytes : ℕ
member_bytes = 12

-- The bytes of an entry at `base`: the names are placed behind `sizeof(group_t)` bytes, inside the
-- structure, and its number and nodes are written after them.
unfoldable pub write_group : (base : ℕ) (name info : Bytes) (gpid : ℕ) → Pool → Pool
write_group base name info gpid p =
    let at = base + group_bytes in
    let info_at = at + 1 + length name in
    let named =
      store_bytes info_at (info ++ 0 ∷ [])
        (store_bytes at (name ++ 0 ∷ []) (store32 (base + 4) info_at (store32 base at p.mem))) in
    let numbered = store32 (base + 8) gpid named in
    let gnode = store32 (base + 24) (base + 20) (store32 (base + 20) (base + 20) numbered) in
    record p { mem = store32 (base + 32) (base + 28) (store32 (base + 28) (base + 28) gnode) }

abbrev pub new_group : (base : ℕ) (name : Bytes) (gpid : ℕ) → GroupEntry
new_group base name gpid = record {
  group_name = base + group_bytes;
  group_info = base + group_bytes + 1 + length name;
  group_id = gpid;
}

unfoldable pub new_group_entry :
    Mallocs → (name info : Bytes) → (gpid : ℕ) → Heap → Outcome (ℕ × Heap)
unfolding write_group
new_group_entry a name info gpid h = do
  (base, h) ← alloc a (1 + length name + (1 + length info) + group_entry_bytes) h
  let h' = record h {
    pool = write_group base name info gpid h.pool;
    groups = update h.groups base (new_group base name gpid);
    gnodes = init_dlist_node base h.gnodes;
    mnodes = init_dlist_node base h.mnodes;
  }
  ret (if base == 0 then (0, h) else (base, h'))

-- A `gpmember_t` is taken out of its group's list and released.
free_member : ℕ → Links × Outcome Heap → Links × Outcome Heap
free_member e (l, o) = (
  dlist_del e l,
  o >>= (λ h.
      pool_free e h.pool >>= (λ p. ret (record h { pool = p; mnodes = dlist_del e h.mnodes }))),
)

free_members : (fuel : ℕ) → ℕ → Heap → Option (Outcome Heap)
unfolding free_member
free_members fuel e h =
    let first = h.mnodes.next e in
    let swept =
      dlist_foreach_safe (λ s. s.0) e free_member fuel first (h.mnodes.next first)
        (h.mnodes, ret h) in
    elim swept [ none ↦ none | some (l, o) ↦ some o ]

pub free_group_entry : (fuel : ℕ) → ℕ → Heap → Option (Outcome Heap)
unfolding free_members
free_group_entry fuel e h = elim (free_members fuel e h) [
  | none ↦ none
  | some o ↦
      some (do
        h ← o
        p ← pool_free e h.pool
        ret (record h { pool = p; gnodes = dlist_del e h.gnodes }))
]

unfoldable pub create_group :
    (a b : Mallocs) (entries : ℕ → Entry) (links : Links) → Heap → Outcome (Option Registry × Heap)
unfolding create_registry
create_group a b entries links h = do
  (r, h) ← create_registry a b 0xffff entries links h
  elim r [
    | none ↦ ret (none, h)
    | some g ↦ ret (some g, record h { gnodes = init_dlist_node g.addr h.gnodes })
  ]

pub group_add_entry :
    (entry_ptr : ℕ) → Mallocs → Registry → (e : ℕ) → Heap → Outcome (Registry × Heap)
group_add_entry entry_ptr a r e h = do
  (t, p) ← hash_insert key_int entry_ptr a.chunk a.block (h.groups e).group_id e r.hash h.pool
  ret (record r { hash = t }, record h { pool = p; gnodes = dlist_add_tail e r.addr h.gnodes })

-- The flag is whether 0 is returned.
pub group_del_entry :
    (fuel : ℕ) → Registry → (e : ℕ) → Heap → Option (Outcome (Bool × Registry × Heap))
group_del_entry fuel r e h = elim (hash_del key_int fuel (h.groups e).group_id r.hash h.pool) [
  | none ↦ none
  | some fault ↦ some fault
  | some deadlock ↦ some deadlock
  | some (ret (none, t, p)) ↦ some (ret (false, record r { hash = t }, record h { pool = p }))
  | some (ret (some v, t, p)) ↦ elim (free_group_entry fuel e (record h { pool = p })) [
    | none ↦ none
    | some o ↦ some (o >>= (λ h'. ret (true, record r { hash = t }, h')))
  ]
]

pub group_find_entry : (fuel : ℕ) → Registry → (gpid : ℕ) → Heap → Option (Option ℕ)
group_find_entry fuel r gpid h = hash_find key_int fuel r.hash h.pool.mem gpid

-- `!strcmp(gpmemb->user->ipaddr, ip)`
abbrev pub member_has : Heap → Bytes → ℕ → Bool
member_has h ip e = str_eq (h.users (h.members e)).ipaddr ip

-- The flag is whether 0 is returned; a failed allocation is used.
pub group_entry_add_user :
    (fuel : ℕ) → Mallocs → (group user : ℕ) → Heap → Option (Outcome (Bool × Heap))
group_entry_add_user fuel a group user h =
    elim (dlist_foreach h.mnodes group (member_has h (h.users user).ipaddr) fuel
      (h.mnodes.next group)) [
        | none ↦ none
        | some (some e) ↦ some (ret (false, h))
        | some none ↦ some (do
          (m, h) ← alloc a member_bytes h
          let h' = record h {
            pool = poke m user h.pool;
            members = update h.members m user;
            mnodes = dlist_add_tail m group (init_dlist_node m h.mnodes);
          }
          if m == 0 then fault else ret (true, h'))
      ]

-- The loop returns at the first member that it deletes.
pub group_entry_del_user : (fuel : ℕ) → (group user : ℕ) → Heap → Option (Outcome (Bool × Heap))
group_entry_del_user fuel group user h =
    elim (dlist_foreach h.mnodes group (member_has h (h.users user).ipaddr) fuel
      (h.mnodes.next group)) [
        | none ↦ none
        | some none ↦ some (ret (false, h))
        | some (some e) ↦ some (do
          p ← pool_free e h.pool
          ret (true, record h { pool = p; mnodes = dlist_del e h.mnodes }))
      ]

-- The user's address; `none` inside is NULL.
pub group_entry_find_user : (fuel : ℕ) → (group : ℕ) → Bytes → Heap → Option (Option ℕ)
group_entry_find_user fuel group ip h =
    elim (dlist_foreach h.mnodes group (member_has h ip) fuel (h.mnodes.next group)) [
      | none ↦ none
      | some none ↦ some none
      | some (some e) ↦ some (some (h.members e))
    ]

-- The loop of `destroy_group`; `none` is a loop over members that has not ended.
destroy_group_entry : (fuel : ℕ) → ℕ → Links × Option (Outcome Heap) → Links × Option (Outcome Heap)
unfolding free_group_entry
destroy_group_entry fuel e (l, none) = (dlist_del e l, none)
destroy_group_entry fuel e (l, some (ret h)) = (dlist_del e l, free_group_entry fuel e h)
destroy_group_entry fuel e (l, some deadlock) = (dlist_del e l, some deadlock)
destroy_group_entry fuel e (l, some fault) = (dlist_del e l, some fault)

pub destroy_group : (fuel : ℕ) → Option Registry → Heap → Option (Outcome Heap)
unfolding destroy_group_entry
destroy_group fuel none h = some (ret h)
destroy_group fuel (some r) h =
    let first = h.gnodes.next r.addr in
    let swept =
      dlist_foreach_safe (λ s. s.0) r.addr (destroy_group_entry fuel) fuel first
        (h.gnodes.next first) (h.gnodes, some (ret h)) in
    elim swept [ none ↦ none | some (l, none) ↦ none | some (l, some o) ↦ destroy_rest fuel r o ]
