-- ===== src/Client/Start/Ready.antt =====
-- What the start of the program has made.
use i_free_chat.Base.{
  ℕ, ◌+◌, ◌-◌, ◌*◌, ◌^◌, ◌≤◌, ◌<◌, ◌≡◌, refl, ◌≢◌, ◌∙◌, inl, inr, Bool, true, false, Option, none,
  some, [], ◌∷◌, ◌==◌, arith,
}
use i_free_chat.Base.Memory.{Memory}
use i_free_chat.Dlist.{Links, init_dlist_node}
use i_free_chat.Dlist.Ring.{IsRing, init-IsRing}
use i_free_chat.MemPool.{Pool, ret, mem_pool_init}
use i_free_chat.MemPool.Alloc.{IsValid}
use i_free_chat.MemPool.Alloc.Serves.{chunk_of, Serves}
use i_free_chat.Hash.Key.{Ktype, key_int, key_str}
use i_free_chat.Hash.Table.{Entry, Hash}
use i_free_chat.Hash.Table.View.{Represents}
use i_free_chat.Registry.{Heap, Registry, Mallocs, create_registry}
use i_free_chat.Registry.Create.{registry_bytes, Made, create_registry-Made}
use i_free_chat.Registry.User.{create_user}
use i_free_chat.Registry.Group.{create_group}
use i_free_chat.Registry.Category.{create_category}
use i_free_chat.Protocol.{Protocol}
use i_free_chat.Client.{Client}
use i_free_chat.Client.Callbacks.{EntryMallocs}
use i_free_chat.Client.Start.{StartMallocs, Started, init_freechat}
use i_free_chat.Client.Start.Registered.{registered, init_protocol-ret, IsFeiq, registered-IsFeiq}
use i_free_chat.Text.{Bytes}

-- `INIT_MEMPOOL_SIZE`
abbrev pool_bytes : ℕ
pool_bytes = 8388608

abbrev first_pool : Memory → Pool
first_pool m = record { size = pool_bytes; quantum = 1; chunks = []; locked = false; mem = m }

pool_init :
    (p x : ℕ) (m : Memory)
    → p ≢ 0
    → x ≢ 0
    → mem_pool_init p x (1024 * 1024 * 8) 1 m ≡ ret (some (first_pool m))
unfolding mem_pool_init
pool_init p x m np nx =
    let a : (p == 0) ≡ false = ground arith in
    let b : (x == 0) ≡ false = ground arith in rw (a, b) refl

-- A pool that registries were made in serves the next.
Made-Serves :
    (k : Ktype) (p q : Pool) (d f n chunk_ptr data_ptr : ℕ) (r : Registry)
    → Made k p d f n r q
    → p.size < 2 ^ 32
    → f ≤ p.size
    → d ≢ 0
    → Serves q chunk_ptr data_ptr d (f - registry_bytes n)
Made-Serves k p q d f n chunk_ptr data_ptr r made small fits start = record {
  unlocked = made.unlocked;
  small = omega (arith, made.size, small);
  fits = omega (arith, made.size, fits);
  start = start;
  chunks = inl made.left;
}

-- The client has a pool in order, and three registries, no entry in their lists and tables, and no
-- message waits.
pub record IsReady (s : Started) (mlist : ℕ) (g u c : Registry) : Type 0 where
  pub groups : s.glist ≡ some g
  pub users : s.ulist ≡ some u
  pub categories : s.clist ≡ some c
  pub valid : IsValid s.heap.pool
  pub unlocked : s.heap.pool.locked ≡ false
  pub group_list : IsRing s.heap.gnodes g.addr []
  pub user_list : IsRing s.heap.unodes u.addr []
  pub category_list : IsRing s.heap.cnodes c.addr []
  pub group_table : Represents key_int s.heap.pool g.hash (λ i. none)
  pub user_table : Represents key_str s.heap.pool u.hash (λ i. none)
  pub category_table : Represents key_str s.heap.pool c.hash (λ i. none)
  pub waiting : IsRing s.mnodes mlist []

-- An empty table is empty over any pool.
empty-Represents :
    (k : Ktype) (p q : Pool) (t : Hash)
    → Represents k p t (λ i. none)
    → Represents k q t (λ i. none)
empty-Represents k p q t r = record { slots = r.slots; each = r.each }

module _ (a b : Mallocs) (entries : ℕ → Entry) (links : Links) (h : Heap) (r : Registry)
    (q : Pool) where
  group_steps :
      create_registry a b 65535 entries links h ≡ ret (some r, record h { pool = q })
      → create_group a b entries links h
        ≡ ret (some r, record h { pool = q; gnodes = init_dlist_node r.addr h.gnodes })
  unfolding create_group
  group_steps e = rw e refl

  user_steps :
      create_registry a b 65535 entries links h ≡ ret (some r, record h { pool = q })
      → create_user a b entries links h
        ≡ ret (some r, record h { pool = q; unodes = init_dlist_node r.addr h.unodes })
  unfolding create_user
  user_steps e = rw e refl

  category_steps :
      create_registry a b 255 entries links h ≡ ret (some r, record h { pool = q })
      → create_category a b entries links h
        ≡ ret (some r, record h { pool = q; cnodes = init_dlist_node r.addr h.cnodes })
  unfolding create_category
  category_steps e = rw e refl

one_chunk-IsValid :
    (p : Pool) (d f : ℕ)
    → p.size ≡ pool_bytes
    → p.chunks ≡ chunk_of d f ∷ []
    → d ≢ 0
    → d + pool_bytes < 2 ^ 32
    → f ≤ pool_bytes
    → IsValid p
one_chunk-IsValid p d f size left start inside fits = record {
  small = omega (arith, size);
  each = rw (left, size) (record { not_null = start; in_memory = inside; free_fits = fits }, tt);
  single = rw left (omega arith);
}

module _ (utf8_validate : Bytes → Bool) (convert : Bytes → Option Bytes)
    (iter_bytes fuel chunk_ptr data_ptr now : ℕ) (b : EntryMallocs) where
  abbrev started : Registry → Registry → Registry → ℕ → Links → Protocol Client → Heap → Started
  started g u c mlist mnodes p h = record {
    pool = true;
    heap = h;
    glist = some g;
    ulist = some u;
    clist = some c;
    mnodes = init_dlist_node mlist mnodes;
    shutdown = false;
    proto = registered utf8_validate convert iter_bytes fuel chunk_ptr data_ptr now b p;
  }

  init_freechat_steps :
      (a : StartMallocs) (entries : ℕ → Entry) (links : Links) (mlist : ℕ) (mnodes : Links)
      (blank : Protocol Client) (h h₁ h₂ h₃ : Heap) (p : Pool) (g u c : Registry)
      → a.client ≢ 0
      → mem_pool_init a.pool a.mutex (1024 * 1024 * 8) 1 h.pool.mem ≡ ret (some p)
      → create_group a.group a.group_hash entries links (record h { pool = p }) ≡ ret (some g, h₁)
      → create_user a.user a.user_hash entries links h₁ ≡ ret (some u, h₂)
      → create_category a.category a.category_hash entries links h₂ ≡ ret (some c, h₃)
      → init_freechat utf8_validate convert iter_bytes fuel chunk_ptr data_ptr now b a entries links
          mlist mnodes
          (some blank)
          h
        ≡ ret (some (started g u c mlist mnodes blank h₃))
  unfolding init_freechat
  init_freechat_steps a entries links mlist mnodes blank h h₁ h₂ h₃ p g u c nc e e₁ e₂ e₃ =
      let r =
        init_protocol-ret utf8_validate convert iter_bytes fuel chunk_ptr data_ptr now b blank in
      ground (arith, e, e₁, e₂, e₃, r)

  -- malloc gives memory for the client, the pool with its mutex and the first chunk, and the
  -- protocol. Then init_freechat succeeds, and the client has a pool in order whose mutex is free,
  -- three registries with nothing in their lists and tables, and a protocol with the names, the
  -- functions and the callbacks of FeiQ, and no message waits.
  pub init_freechat-IsReady :
      (a : StartMallocs) (entries : ℕ → Entry) (links : Links) (mlist : ℕ) (mnodes : Links)
      (blank : Protocol Client) (h : Heap)
      → a.client ≢ 0
      → a.pool ≢ 0
      → a.mutex ≢ 0
      → a.group.chunk ≢ 0
      → a.group.block ≢ 0
      → a.group.block + 8388608 < 2 ^ 32
      → (s : Started) × (g : Registry) × (u : Registry) × (c : Registry) × (init_freechat
            utf8_validate convert iter_bytes fuel chunk_ptr data_ptr now b a entries links mlist
            mnodes
            (some blank)
            h
          ≡ ret (some s))
        × IsReady s mlist g u c
        × IsFeiq utf8_validate convert iter_bytes fuel chunk_ptr data_ptr now b s.proto
  init_freechat-IsReady a entries links mlist mnodes blank h nc np nx first start inside =
      let d = a.group.block in
      let h₀ : Heap = record h { pool = first_pool h.pool.mem } in
      let s₀ : Serves h₀.pool a.group.chunk a.group.block d 8388608 = record {
        unlocked = refl;
        small = omega arith;
        fits = omega arith;
        start = start;
        chunks = inr (refl, first, refl, refl);
      } in
      let (g, q₁, e₁, m₁) =
        create_registry-Made key_int a.group a.group_hash 65535 d 8388608 entries links h₀ s₀
          (omega arith) (omega arith) in
      let h₁ : Heap = record h₀ { pool = q₁; gnodes = init_dlist_node g.addr h.gnodes } in
      let (u, q₂, e₂, m₂) =
        create_registry-Made key_str a.user a.user_hash 65535 d 8126428 entries links h₁
          (Made-Serves key_int h₀.pool q₁ d 8388608 65535 a.user.chunk a.user.block g m₁
            (omega arith) (omega arith) start)
          (omega arith) (omega arith) in
      let h₂ : Heap = record h₁ { pool = q₂; unodes = init_dlist_node u.addr h.unodes } in
      let (c, q₃, e₃, m₃) =
        create_registry-Made key_str a.category a.category_hash 255 d 7864248 entries links h₂
          (Made-Serves key_str q₁ q₂ d 8126428 65535 a.category.chunk a.category.block u m₂
            (omega (arith, m₁.size)) (omega (arith, m₁.size)) start)
          (omega arith) (omega arith) in
      let h₃ : Heap = record h₂ { pool = q₃; cnodes = init_dlist_node c.addr h.cnodes } in
      let size = m₃.size ∙ m₂.size ∙ m₁.size in
      (
        started g u c mlist mnodes blank h₃,
        g,
        u,
        c,
        init_freechat_steps a entries links mlist mnodes blank h h₁ h₂ h₃ h₀.pool g u c nc
            (pool_init a.pool a.mutex h.pool.mem np nx)
            (group_steps a.group a.group_hash entries links h₀ g q₁ e₁)
            (user_steps a.user a.user_hash entries links h₁ u q₂ e₂)
            (category_steps a.category a.category_hash entries links h₂ c q₃ e₃),
        record {
          groups = refl;
          users = refl;
          categories = refl;
          valid = one_chunk-IsValid q₃ d 7863188 size m₃.left start inside (omega arith);
          unlocked = m₃.unlocked;
          group_list = init-IsRing g.addr h.gnodes;
          user_list = init-IsRing u.addr h.unodes;
          category_list = init-IsRing c.addr h.cnodes;
          group_table = empty-Represents key_int q₁ q₃ g.hash m₁.empty;
          user_table = empty-Represents key_str q₂ q₃ u.hash m₂.empty;
          category_table = m₃.empty;
          waiting = init-IsRing mlist mnodes;
        },
        registered-IsFeiq utf8_validate convert iter_bytes fuel chunk_ptr data_ptr now b blank,
      )
