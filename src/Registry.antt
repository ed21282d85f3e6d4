-- ===== src/Registry.antt =====
-- The entries of ifc/src/user.c, ifc/src/category.c and ifc/src/group.c with their headers, and the
-- lists that they are linked into. An entry is known by its address, which also stands for those
-- of its nodes; a list is known by its registry's address, and the members of a group by the
-- group's.
pub mod Create
pub mod User
pub mod Category
pub mod Group
mod Tests
use i_free_chat.Base.{
  ℕ, ◌+◌, ◌%◌, ◌^◌, true, false, Option, none, some, List, ◌==◌, if◌then◌else◌, update,
}
use i_free_chat.Text.{Bytes}
use i_free_chat.Dlist.{Links, init_dlist_node}
use i_free_chat.MemPool.{Outcome, ret, deadlock, fault, ◌>>=◌, Pool, pool_alloc, pool_free}
use i_free_chat.Hash.Table.{Entry, Hash, create_hash}
use i_free_chat.Hash.Table.Destroy.{destroy_hash}

-- `user_entry_t` but its node. The strings are those that lie behind the structure in its block.
pub record UserEntry : Type 0 where
  pub nickname : Bytes
  pub username : Bytes
  pub hostname : Bytes
  pub avatar : Bytes
  pub ipaddr : Bytes
  pub macaddr : Bytes
  pub signature : Bytes
  pub category : Bytes
  pub encoding : Bytes
  pub pos : ℕ
  pub category_entry : ℕ
  pub chatbox : ℕ

-- `category_entry_t` but its nodes. The count is an `int`, as a 32-bit pattern.
pub record CategoryEntry : Type 0 where
  pub name : Bytes
  pub count : ℕ
  pub pos : ℕ

-- `group_entry_t` but its nodes. The names are addresses in the pool's memory.
pub record GroupEntry : Type 0 where
  pub group_name : ℕ
  pub group_info : ℕ
  pub group_id : ℕ

-- What the registries share: the pool, the entries at their addresses, and the nodes of each kind
-- of list. `members` is the user of a `gpmember_t`.
pub record Heap : Type 0 where
  pub pool : Pool
  pub users : ℕ → UserEntry
  pub unodes : Links
  pub categories : ℕ → CategoryEntry
  pub cnodes : Links
  pub groups : ℕ → GroupEntry
  pub gnodes : Links
  pub members : ℕ → ℕ
  pub mnodes : Links

-- `user_t`, `group_t` and `category_t`: the address, where the list's head is, and the table.
pub record Registry : Type 0 where
  pub addr : ℕ
  pub hash : Hash

-- What two calls of `malloc` in `mem_pool_alloc` return.
pub record Mallocs : Type 0 where
  pub chunk : ℕ
  pub block : ℕ

-- The memory that an allocation needs, and that an insertion into a table needs.
abbrev pub alloc : Mallocs → ℕ → Heap → Outcome (ℕ × Heap)
alloc a size h = do
  (base, p) ← pool_alloc a.chunk a.block (size % 2 ^ 32) h.pool
  ret (base, record h { pool = p })

-- Common to `create_user`, `create_group` and `create_category`, which differ in the table's size
-- and in the list: `sizeof` is 16 for each. The table's entries are made later.
pub create_registry :
    (a b : Mallocs) (hsize : ℕ) (entries : ℕ → Entry) (links : Links)
    → Heap
    → Outcome (Option Registry × Heap)
create_registry a b hsize entries links h = do
  (base, p) ← pool_alloc a.chunk a.block 16 h.pool
  elim (base == 0) [
    | true ↦ ret (none, record h { pool = p })
    | false ↦ do
      (hash, p') ← create_hash b.chunk b.block hsize entries links p
      ret (some (record { addr = base; hash = hash }), record h { pool = p' })
  ]

-- The end of `destroy_user`, `destroy_group` and `destroy_category`, behind the loop over the list.
pub destroy_rest : (fuel : ℕ) → Registry → Outcome Heap → Option (Outcome Heap)
destroy_rest fuel r deadlock = some deadlock
destroy_rest fuel r fault = some fault
destroy_rest fuel r (ret h) = elim (destroy_hash fuel (some r.hash) h.pool) [
  | none ↦ none
  | some o ↦ some (do p ← o; p ← pool_free r.addr p; ret (record h { pool = p }))
]
