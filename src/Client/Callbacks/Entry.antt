-- ===== src/Client/Callbacks/Entry.antt =====
-- `on_entry_callback` keeps the counts of the categories right.
use i_free_chat.Base.{
  ℕ, ◌%◌, ◌^◌, ◌≡◌, refl, sym, ap, ◌∙◌, Bool, true, false, Option, none, some, List, [], ◌∷◌, ◌++◌,
  arith, ◌==◌, if◌then◌else◌, has, Distinct, update, leb, length,
}
use i_free_chat.Text.{Bytes}
use i_free_chat.MemPool.{ret, fault, ◌>>=◌}
use i_free_chat.Hash.Key.{key_str}
use i_free_chat.Hash.Table.{hash_insert}
use i_free_chat.Registry.{UserEntry, Heap, Registry, Mallocs, alloc}
use i_free_chat.Registry.Category.{
  new_category_entry, new_category, category_insert_entry, category_find_entry,
}
use i_free_chat.Registry.User.{new_user_entry, new_user, user_add_entry, user_find_entry}
use i_free_chat.Feiq.{Msg, field, category_at, ip_at}
use i_free_chat.Client.{Client, ended}
use i_free_chat.Client.Frame.{
  Ensures, Ensures-bind, Ensures-bind_at, Ensures-option, Ensures-if, Ensures-unit, Ensures-ret,
  Ensures-weaken,
}
use i_free_chat.Client.Views.{add_category_to_treeview, add_user_to_treeview}
use i_free_chat.Client.Views.Keep.{alloc-Keeps, add_category-Keeps, add_user-Keeps}
use i_free_chat.Client.Callbacks.{
  EntryMallocs, add_count, set_category, user_of, entry_category, enter_new, enter_known,
  change_category, no_category, on_entry_callback,
}
use i_free_chat.Client.Callbacks.Counts.{
  users_in, IsCounted, Keeps, Keeps-IsCounted, change_category-IsCounted, users_in-append,
  users_in_apart, users_in-Keeps,
}

-- Linking an entry into its registry.
category_insert-Keeps :
    (ep : ℕ) (a : Mallocs) (r : Registry) (key : Bytes) (e : ℕ) (h : Heap)
    → Ensures (λ (x : Registry × Heap). Keeps h (x.1)) (category_insert_entry ep a r key e h)
unfolding category_insert_entry
category_insert-Keeps ep a r key e h =
    let P : Registry × Heap → Type 0 = λ x. Keeps h (x.1) in
    Ensures-bind (λ x. Unit {0}) P (hash_insert key_str ep a.chunk a.block key e r.hash h.pool) _
      (Ensures-unit (hash_insert key_str ep a.chunk a.block key e r.hash h.pool))
      (λ x u. Ensures-if P (e == 0) _ _ tt (record { counts = λ c. refl; places = λ u. refl }))

user_add-Keeps :
    (ep : ℕ) (a : Mallocs) (r : Registry) (e : ℕ) (h : Heap)
    → Ensures (λ (x : Registry × Heap). Keeps h (x.1)) (user_add_entry ep a r e h)
unfolding user_add_entry
user_add-Keeps ep a r e h =
    let P : Registry × Heap → Type 0 = λ x. Keeps h (x.1) in
    let o = hash_insert key_str ep a.chunk a.block (h.users e).ipaddr e r.hash h.pool in
    Ensures-bind (λ x. Unit {0}) P o _ (Ensures-unit o)
      (λ x u. record { counts = λ c. refl; places = λ u. refl })

-- The heap with a new category at an address that nobody is in.
blank_category-IsCounted :
    (cat : ℕ) (name : Bytes) (h : Heap) (us : List ℕ)
    → IsCounted h us
    → users_in h.users cat us ≡ 0
    → IsCounted (record h { categories = update h.categories cat (new_category name) }) us
blank_category-IsCounted cat name h us ok empty = record {
  each = λ e. ground (arith, ok.each e, ap (λ (x : ℕ). users_in h.users x us));
}

-- The heap with a new user at an address that is not counted.
blank_user-IsCounted :
    (user : ℕ) (u : UserEntry) (h : Heap) (us : List ℕ)
    → IsCounted h us
    → has user us ≡ false
    → IsCounted (record h { users = update h.users user u }) us
blank_user-IsCounted user u h us ok out = record {
  each = λ e. ok.each e ∙ ap (λ (n : ℕ). n % 2 ^ 32) (sym (same e us out));
}
  where
    same :
        (e : ℕ) (vs : List ℕ)
        → has user vs ≡ false
        → users_in (update h.users user u) e vs ≡ users_in h.users e vs
    same e [] o = refl
    same e (v ∷ vs) o = ground (arith, same e vs)

-- One more user, at an address that is not counted, in a category whose count grows.
joined-IsCounted :
    (user cat : ℕ) (h : Heap) (us : List ℕ)
    → IsCounted h us
    → has user us ≡ false
    → IsCounted (add_count 1 cat (set_category user cat h)) (us ++ user ∷ [])
joined-IsCounted user cat h us ok out = record {
  each = λ e.
      let apart = users_in_apart h user cat e us out in
      let more = users_in-append (set_category user cat h).users e us (user ∷ []) in
      ground (arith, ok.each e, apart, more);
}

new_category-IsCounted :
    (a : Mallocs) (name : Bytes) (h : Heap) (us : List ℕ)
    → IsCounted h us
    → Ensures
        (λ (r : ℕ × Heap). users_in h.users (r.0) us ≡ 0 → IsCounted (r.1) us)
        (new_category_entry a name h)
unfolding new_category_entry
new_category-IsCounted a name h us ok =
    let P : ℕ × Heap → Type 0 = λ r. users_in h.users (r.0) us ≡ 0 → IsCounted (r.1) us in
    Ensures-bind (λ (x : ℕ × Heap). Keeps h (x.1)) P (alloc a 152 h) _ (alloc-Keeps a 152 h)
      (λ x k.
        let counted = Keeps-IsCounted h (x.1) us k ok in
        Ensures-if P (x.0 == 0) _ _ (λ e. counted)
          (Ensures-if P (leb 152 (length name)) _ _ tt (λ e. record {
            each =
                (blank_category-IsCounted (x.0) name (x.1) us counted
                  (users_in-Keeps h (x.1) (x.0) us k ∙ e)).each;
          })))

new_user-IsCounted :
    (a : Mallocs) (v : UserEntry) (h : Heap) (us : List ℕ)
    → IsCounted h us
    → Ensures (λ (r : ℕ × Heap). has (r.0) us ≡ false → IsCounted (r.1) us) (new_user_entry a v h)
unfolding new_user_entry
new_user-IsCounted a v h us ok =
    let P : ℕ × Heap → Type 0 = λ r. has (r.0) us ≡ false → IsCounted (r.1) us in
    Ensures-bind (λ (x : ℕ × Heap). Keeps h (x.1)) P (alloc a _ h) _ (alloc-Keeps a _ h)
      (λ x k.
        let counted = Keeps-IsCounted h (x.1) us k ok in
        Ensures-if P (x.0 == 0) _ _ (λ out. counted)
          (λ out. record {
            each = (blank_user-IsCounted (x.0) (new_user v) (x.1) us counted out).each;
          }))

Ensures-ended : (s : Option (Option ℕ)) → Ensures (λ x. s ≡ some x) (ended s)
Ensures-ended none = tt
Ensures-ended (some x) = refl

-- Every count is right over the users `us` with a user that the message has been made into, in the
-- client `d`.
abbrev pub CountedNew : EntryMallocs → Msg → List ℕ → (c d : Client) → Type 0
CountedNew a m us c d =
    (user : ℕ) × (h : Heap) × (new_user_entry a.user (user_of m) c.heap ≡ ret (user, h))
    × IsCounted d.heap (us ++ user ∷ [])

-- The same, over `us` alone where the address of the message has found a user.
abbrev pub CountedBy : EntryMallocs → Msg → List ℕ → Option ℕ → (c d : Client) → Type 0
CountedBy a m us none c d = CountedNew a m us c d
CountedBy a m us (some user) c d = IsCounted d.heap us

-- `c` has become `d`: with the category of the message, which makes it `c₁`, the address of the
-- message is looked for, and what that finds decides which users are counted.
abbrev pub Counted : (iter_bytes fuel : ℕ) → EntryMallocs → Msg → List ℕ → (c d : Client) → Type 0
Counted iter_bytes fuel a m us c d =
    (cat : ℕ) × (c₁ : Client) × (found : Option ℕ) × (entry_category iter_bytes fuel a m c
      ≡ ret (cat, c₁))
    × (user_find_entry fuel c₁.ulist (field ip_at m) c₁.heap ≡ some found)
    × CountedBy a m us found c₁ d

module _ (iter_bytes fuel : ℕ) (a : EntryMallocs) (m : Msg) (us : List ℕ) where
  entry_category-IsCounted :
      (c : Client)
      → IsCounted c.heap us
      → ((cat : ℕ) (h : Heap)
          → new_category_entry a.cat (field category_at m) c.heap ≡ ret (cat, h)
          → users_in c.heap.users cat us ≡ 0)
      → Ensures (λ (r : ℕ × Client). IsCounted (r.1).heap us) (entry_category iter_bytes fuel a m c)
  unfolding entry_category
  entry_category-IsCounted c ok empty =
      let name = field category_at m in
      let P : ℕ × Client → Type 0 = λ r. IsCounted (r.1).heap us in
      let made : Ensures P (do
        (cat, h) ← new_category_entry a.cat name c.heap
        (r, h) ← category_insert_entry a.cat_entry a.cat_key c.clist name cat h
        c ← add_category_to_treeview iter_bytes a.cat_row cat (record c { clist = r; heap = h })
        ret (cat, c)) =
        Ensures-bind_at (λ (r : ℕ × Heap). users_in c.heap.users (r.0) us ≡ 0 → IsCounted (r.1) us)
          P (new_category_entry a.cat name c.heap) _
          (new_category-IsCounted a.cat name c.heap us ok)
          (λ r e k.
            Ensures-bind (λ (x : Registry × Heap). Keeps (r.1) (x.1)) P
              (category_insert_entry a.cat_entry a.cat_key c.clist name (r.0) (r.1)) _
              (category_insert-Keeps a.cat_entry a.cat_key c.clist name (r.0) (r.1))
              (λ x l.
                Ensures-bind (λ (d : Client). Keeps (x.1) d.heap) P
                  (add_category_to_treeview iter_bytes a.cat_row (r.0)
                    (record c { clist = x.0; heap = x.1 }))
                  _
                  (add_category-Keeps iter_bytes a.cat_row (r.0)
                    (record c { clist = x.0; heap = x.1 }))
                  (λ d n.
                    Keeps-IsCounted (x.1) d.heap us n
                      (Keeps-IsCounted (r.1) (x.1) us l (k (empty (r.0) (r.1) e)))))) in
      Ensures-bind (λ x. Unit {0}) P (ended (category_find_entry fuel c.clist name c.heap)) _
        (Ensures-unit (ended (category_find_entry fuel c.clist name c.heap)))
        (λ x u. Ensures-option P x _ _ made (λ cat e. ok))

  enter_new-IsCounted :
      (cat : ℕ) (c : Client)
      → IsCounted c.heap us
      → ((user : ℕ) (h : Heap)
          → new_user_entry a.user (user_of m) c.heap ≡ ret (user, h)
          → has user us ≡ false)
      → Ensures (CountedNew a m us c) (enter_new iter_bytes fuel a m cat c)
  unfolding enter_new
  enter_new-IsCounted cat c ok out =
      Ensures-bind_at (λ (r : ℕ × Heap). has (r.0) us ≡ false → IsCounted (r.1) us)
        (CountedNew a m us c) (new_user_entry a.user (user_of m) c.heap) _
        (new_user-IsCounted a.user (user_of m) c.heap us ok)
        (λ r e k.
          let user = r.0 in
          let h = add_count 1 cat (set_category user cat (r.1)) in
          let joined =
            joined-IsCounted user cat (r.1) us (k (out user (r.1) e)) (out user (r.1) e) in
          Ensures-bind (λ (x : Registry × Heap). Keeps h (x.1)) (CountedNew a m us c)
            (if user == 0 then fault else user_add_entry a.user_entry a.user_key c.ulist user h) _
            (Ensures-if (λ (x : Registry × Heap). Keeps h (x.1)) (user == 0) _ _ tt
              (user_add-Keeps a.user_entry a.user_key c.ulist user h))
            (λ x l.
              Ensures-bind (λ (d : Bool × Client). Keeps (x.1) (d.1).heap) (CountedNew a m us c)
                (add_user_to_treeview iter_bytes a.parent_row a.user_row user
                  (record c { ulist = x.0; heap = x.1 }))
                _
                (add_user-Keeps iter_bytes a.parent_row a.user_row user
                  (record c { ulist = x.0; heap = x.1 }))
                (λ d n. (
                  user,
                  r.1,
                  e,
                  Keeps-IsCounted (x.1) (d.1).heap (us ++ user ∷ []) n
                      (Keeps-IsCounted h (x.1) (us ++ user ∷ []) l joined),
                ))))

  enter_known-IsCounted :
      (cat user : ℕ) (c : Client)
      → IsCounted c.heap us
      → Distinct us
      → has user us ≡ true
      → Ensures (λ d. IsCounted d.heap us) (enter_known iter_bytes fuel a m cat user c)
  unfolding enter_known
  enter_known-IsCounted cat user c ok d there =
      let h = change_category m cat user c.heap in
      Ensures-if (λ d. IsCounted d.heap us) (no_category m user c.heap) _ _ tt
        (Ensures-bind (λ (x : Bool × Client). Keeps h (x.1).heap) (λ d. IsCounted d.heap us)
          (add_user_to_treeview iter_bytes a.parent_row a.user_row user (record c { heap = h })) _
          (add_user-Keeps iter_bytes a.parent_row a.user_row user (record c { heap = h }))
          (λ x n.
            Keeps-IsCounted h (x.1).heap us n
              (change_category-IsCounted m cat user c.heap us ok d there)))

  module _ (c : Client) (ok : IsCounted c.heap us) (distinct : Distinct us)
      (unused : (cat : ℕ) (h : Heap)
        → new_category_entry a.cat (field category_at m) c.heap ≡ ret (cat, h)
        → users_in c.heap.users cat us ≡ 0)
      (fresh : (c₁ : Client) (cat user : ℕ) (h : Heap)
        → entry_category iter_bytes fuel a m c ≡ ret (cat, c₁)
        → new_user_entry a.user (user_of m) c₁.heap ≡ ret (user, h)
        → has user us ≡ false)
      (known : (c₁ : Client) (cat user : ℕ)
        → entry_category iter_bytes fuel a m c ≡ ret (cat, c₁)
        → user_find_entry fuel c₁.ulist (field ip_at m) c₁.heap ≡ some (some user)
        → has user us ≡ true) where
    entered :
        (r : ℕ × Client)
        → entry_category iter_bytes fuel a m c ≡ ret r
        → IsCounted (r.1).heap us
        → (x : Option ℕ) → user_find_entry fuel (r.1).ulist (field ip_at m) (r.1).heap ≡ some x
        → Ensures (Counted iter_bytes fuel a m us c) (elim x [
          | none ↦ enter_new iter_bytes fuel a m (r.0) (r.1)
          | some user ↦ enter_known iter_bytes fuel a m (r.0) user (r.1)
        ])
    entered r e k none f =
        Ensures-weaken (CountedNew a m us (r.1)) (Counted iter_bytes fuel a m us c)
          (enter_new iter_bytes fuel a m (r.0) (r.1)) (λ d n. (r.0, r.1, none, e, f, n))
          (enter_new-IsCounted (r.0) (r.1) k (λ user h. fresh (r.1) (r.0) user h e))
    entered r e k (some user) f =
        Ensures-weaken (λ d. IsCounted d.heap us) (Counted iter_bytes fuel a m us c)
          (enter_known iter_bytes fuel a m (r.0) user (r.1)) (λ d n. (r.0, r.1, some user, e, f, n))
          (enter_known-IsCounted (r.0) user (r.1) k distinct (known (r.1) (r.0) user e f))

    entry-Counted :
        Ensures (Counted iter_bytes fuel a m us c) (on_entry_callback iter_bytes fuel a m c)
    unfolding on_entry_callback
    entry-Counted =
        let Q = Counted iter_bytes fuel a m us c in
        Ensures-bind_at (λ (r : ℕ × Client). IsCounted (r.1).heap us) Q
          (entry_category iter_bytes fuel a m c) _ (entry_category-IsCounted c ok unused)
          (λ r e k.
            Ensures-bind (λ x. user_find_entry fuel (r.1).ulist (field ip_at m) (r.1).heap ≡ some x)
              Q (ended (user_find_entry fuel (r.1).ulist (field ip_at m) (r.1).heap)) _
              (Ensures-ended (user_find_entry fuel (r.1).ulist (field ip_at m) (r.1).heap))
              (λ x f. entered r e k x f))

    -- Every count is that of the users in its category, over the users `us`; a new category and a
    -- new user are placed where nobody is, and the table finds nobody but those users. However an
    -- announcement is then handled, if that returns, every count is right again: over `us` if the
    -- address of the message, looked for when its category is there, finds a user, and over `us`
    -- and the entry made of the message if it finds nobody.
    pub on_entry-Counted :
        (d : Client)
        → on_entry_callback iter_bytes fuel a m c ≡ ret d
        → Counted iter_bytes fuel a m us c d
    on_entry-Counted d e =
        Ensures-ret (Counted iter_bytes fuel a m us c) (on_entry_callback iter_bytes fuel a m c) d e
          entry-Counted
