-- ===== src/Client/Start.antt =====
-- The start of the program: `init_freechat` of ifc/src/ifreechat.c. What it does from `malloc` for
-- the protocol on is `init_protocol` of Client/Loop.
pub mod Registered
pub mod Ready
mod Tests
use i_free_chat.Base.{ℕ, ◌*◌, Bool, true, false, Option, none, some, ◌==◌, if◌then◌else◌}
use i_free_chat.Text.{Bytes}
use i_free_chat.Dlist.{Links, init_dlist_node}
use i_free_chat.MemPool.{Outcome, ret, deadlock, fault, ◌>>=◌, Pool, mem_pool_init}
use i_free_chat.Hash.Table.{Entry}
use i_free_chat.Registry.{Heap, Registry, Mallocs}
use i_free_chat.Registry.User.{create_user}
use i_free_chat.Registry.Group.{create_group}
use i_free_chat.Registry.Category.{create_category}
use i_free_chat.Protocol.{Protocol}
use i_free_chat.Client.{Client}
use i_free_chat.Client.Callbacks.{EntryMallocs}
use i_free_chat.Client.Loop.{init_protocol}

-- What `malloc` returns for the client and the pool, and for the registries with their tables.
pub record StartMallocs : Type 0 where
  pub client : ℕ
  pub pool : ℕ
  pub mutex : ℕ
  pub group : Mallocs
  pub group_hash : Mallocs
  pub user : Mallocs
  pub user_hash : Mallocs
  pub category : Mallocs
  pub category_hash : Mallocs

-- The client that has been started: `pool` is whether it has one, and a registry is `none` for
-- NULL.
pub record Started : Type 0 where
  pub pool : Bool
  pub heap : Heap
  pub glist : Option Registry
  pub ulist : Option Registry
  pub clist : Option Registry
  pub mnodes : Links
  pub shutdown : Bool
  pub proto : Protocol Client

module _ (utf8_validate : Bytes → Bool) (convert : Bytes → Option Bytes)
    (iter_bytes fuel chunk_ptr data_ptr now : ℕ) (b : EntryMallocs) where
  -- What the memory of the tables' entries and of the nodes holds before is any: `entries`, `links`
  -- and those of the heap. `mlist` is where the head of the waiting messages is. `none` is the -1;
  -- a pool or a registry that could not be made is not noticed. `blank` is what `malloc` returns
  -- for the protocol, `none` for NULL, whose name is read nonetheless.
  pub init_freechat :
      StartMallocs
      → (entries : ℕ → Entry) → (links : Links) → (mlist : ℕ) → (mnodes : Links)
      → (blank : Option (Protocol Client)) → Heap
      → Outcome (Option Started)
  init_freechat a entries links mlist mnodes blank h = if a.client == 0 then ret none else do
    made ← mem_pool_init a.pool a.mutex (1024 * 1024 * 8) 1 h.pool.mem
    elim made [
      | none ↦ do
        proto ← init_protocol utf8_validate convert iter_bytes fuel chunk_ptr data_ptr now b blank
        ret (
            some (record {
              pool = false;
              heap = h;
              glist = none;
              ulist = none;
              clist = none;
              mnodes = init_dlist_node mlist mnodes;
              shutdown = false;
              proto = proto;
            }))
      | some p ↦ do
        (g, h) ← create_group a.group a.group_hash entries links (record h { pool = p })
        (u, h) ← create_user a.user a.user_hash entries links h
        (c, h) ← create_category a.category a.category_hash entries links h
        proto ← init_protocol utf8_validate convert iter_bytes fuel chunk_ptr data_ptr now b blank
        ret (
            some (record {
              pool = true;
              heap = h;
              glist = g;
              ulist = u;
              clist = c;
              mnodes = init_dlist_node mlist mnodes;
              shutdown = false;
              proto = proto;
            }))
    ]
