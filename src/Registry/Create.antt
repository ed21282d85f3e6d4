-- ===== src/Registry/Create.antt =====
-- The creation of a registry, common to ifc/src/user.c, ifc/src/group.c and ifc/src/category.c.
use i_free_chat.Base.{
  ℕ, ◌+◌, ◌-◌, ◌*◌, ◌%◌, ◌^◌, ◌≤◌, ◌<◌, ◌≡◌, refl, ◌≢◌, ◌∙◌, ap, inl, false, none, some, [], ◌∷◌,
  ◌==◌, arith,
}
use i_free_chat.Dlist.{Links}
use i_free_chat.MemPool.{Pool, ret, pool_alloc, poke, add_size}
use i_free_chat.MemPool.Alloc.{request}
use i_free_chat.MemPool.Alloc.Serves.{chunk_of, Serves, pool_alloc-Serves}
use i_free_chat.Hash.Key.{Ktype}
use i_free_chat.Hash.Table.{Entry, Hash, create_hash, new_hash, zero_fill}
use i_free_chat.Hash.Table.View.{Represents, new_hash-Represents}
use i_free_chat.Registry.{Heap, Registry, Mallocs, create_registry}

-- The bytes that a registry with a table of `1 + n` slots takes.
abbrev pub registry_bytes : ℕ → ℕ
registry_bytes n = 36 + 4 * (1 + n)

-- What has been made: a registry with an empty table, and a pool with what is left.
pub record Made (k : Ktype) (p : Pool) (d f n : ℕ) (r : Registry) (q : Pool) : Type 0 where
  pub size : q.size ≡ p.size
  pub unlocked : q.locked ≡ false
  pub left : q.chunks ≡ chunk_of d (f - registry_bytes n) ∷ []
  pub addr : r.addr ≡ d + (f - 20) + 4
  pub empty : Represents k q r.hash (λ i. none)

whole : (n : ℕ) → n < 2 ^ 16 → add_size 12 (4 * (1 + n) % 2 ^ 32) ≡ 12 + 4 * (1 + n)
whole n small = omega (arith, small)

request_whole : (p : Pool) (n : ℕ) → n < 2 ^ 16 → request p (12 + 4 * (1 + n)) ≡ 16 + 4 * (1 + n)
request_whole p n small =
    let e : (12 + 4 * (1 + n) == 0) ≡ false = ground arith in rw e (omega (arith, small))

-- A table, and the pool with what is left.
record MadeTable (k : Ktype) (p : Pool) (d f n : ℕ) (h : Hash) (q : Pool) : Type 0 where
  size : q.size ≡ p.size
  unlocked : q.locked ≡ false
  left : q.chunks ≡ chunk_of d (f - (16 + 4 * (1 + n))) ∷ []
  empty : Represents k q h (λ i. none)

create_hash-Made :
    (k : Ktype) (p : Pool) (b : Mallocs) (n d f : ℕ) (entries : ℕ → Entry) (links : Links)
    → Serves p b.chunk b.block d f
    → n < 2 ^ 16
    → 16 + 4 * (1 + n) ≤ f
    → (t : Hash) × (q : Pool) × (create_hash b.chunk b.block n entries links p ≡ ret (t, q))
      × MadeTable k p d f n t q
unfolding create_hash
create_hash-Made k p b n d f entries links s small room =
    let need = request_whole p n small in
    let (q, e, size, free, left) =
      pool_alloc-Serves p b.chunk b.block (12 + 4 * (1 + n)) d f s (rw need room) in
    let base = d + (f - request p (12 + 4 * (1 + n))) + 4 in
    let other : (base == 0) ≡ false = ground arith in
    let q' : Pool = record q { mem = zero_fill base (12 + 4 * (1 + n)) q.mem } in
    (
      new_hash base n entries links,
      poke base (base + 12) q',
      rw (whole n small, e, other) refl,
      record {
        size = size;
        unlocked = free;
        left = left ∙ ap (λ (m : ℕ). chunk_of d (f - m) ∷ []) need;
        empty = new_hash-Represents k (poke base (base + 12) q') base n entries links;
      },
    )

create_registry_steps :
    (a b : Mallocs) (n base : ℕ) (entries : ℕ → Entry) (links : Links) (h : Heap) (p q : Pool)
    (t : Hash)
    → pool_alloc a.chunk a.block 16 h.pool ≡ ret (base, p)
    → base ≢ 0
    → create_hash b.chunk b.block n entries links p ≡ ret (t, q)
    → create_registry a b n entries links h
      ≡ ret (some (record { addr = base; hash = t }), record h { pool = q })
unfolding create_registry
create_registry_steps a b n base entries links h p q t e ne e' =
    let other : (base == 0) ≡ false = ground arith in ground (arith, e, e')

-- A registry that is created with room in the pool: it stands where the pool's free bytes end, its
-- table is empty, and the rest of the chunk stays free.
pub create_registry-Made :
    (k : Ktype) (a b : Mallocs) (n d f : ℕ) (entries : ℕ → Entry) (links : Links) (h : Heap)
    → Serves h.pool a.chunk a.block d f
    → n < 2 ^ 16
    → registry_bytes n ≤ f
    → (r : Registry) × (q : Pool) × (create_registry a b n entries links h
        ≡ ret (some r, record h { pool = q }))
      × Made k h.pool d f n r q
create_registry-Made k a b n d f entries links h s small room =
    let (p₁, e₁, size₁, free₁, left₁) =
      pool_alloc-Serves h.pool a.chunk a.block 16 d f s (omega (arith, room)) in
    let s₁ : Serves p₁ b.chunk b.block d (f - 20) = record {
      unlocked = free₁;
      small = omega (arith, size₁, s.small);
      fits = omega (arith, size₁, s.fits);
      start = s.start;
      chunks = inl left₁;
    } in
    let (t, q, e₂, made) =
      create_hash-Made k p₁ b n d (f - 20) entries links s₁ small (omega (arith, room)) in
    let base = d + (f - 20) + 4 in
    let at : pool_alloc a.chunk a.block 16 h.pool ≡ ret (base, p₁) = e₁ in
    (
      record { addr = base; hash = t },
      q,
      create_registry_steps a b n base entries links h p₁ q t at (omega arith) e₂,
      record {
        size = made.size ∙ size₁;
        unlocked = made.unlocked;
        left = made.left ∙ ap (λ (m : ℕ). chunk_of d m ∷ []) (omega arith);
        addr = refl;
        empty = made.empty;
      },
    )
