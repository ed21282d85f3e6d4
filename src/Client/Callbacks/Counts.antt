-- ===== src/Client/Callbacks/Counts.antt =====
-- Each category counts the users that are in it.
use i_free_chat.Base.{
  ℕ, ◌+◌, ◌-◌, ◌%◌, ◌^◌, ◌≡◌, refl, sym, ap, ◌∙◌, inl, inr, Bool, true, false, Bool-cases, List, [],
  ◌∷◌, ◌++◌, arith, ◌==◌, if◌then◌else◌, has, Distinct, str_eq,
}
use i_free_chat.Registry.{UserEntry, Heap}
use i_free_chat.Feiq.{Msg, field, category_at}
use i_free_chat.Client.Callbacks.{add_count, set_category, change_category}

-- How many of the users are in the category at `e`.
abbrev pub users_in : (ℕ → UserEntry) → (e : ℕ) → List ℕ → ℕ
users_in users e [] = 0
users_in users e (u ∷ us) = (if (users u).category_entry == e then 1 else 0) + users_in users e us

-- The count of every category is the number of the users in it, as an `int`. Where there is no
-- category, there is no user in it.
pub record IsCounted (h : Heap) (us : List ℕ) : Type 0 where
  pub each : (e : ℕ) → (h.categories e).count ≡ users_in h.users e us % 2 ^ 32

abbrev one_if : Bool → ℕ
one_if b = if b then 1 else 0

pub users_in_apart :
    (h : Heap) (user cat e : ℕ) (us : List ℕ)
    → has user us ≡ false
    → users_in (set_category user cat h).users e us ≡ users_in h.users e us
users_in_apart h user cat e [] out = refl
users_in_apart h user cat e (u ∷ us) out = ground (arith, users_in_apart h user cat e us)

users_in-set_category :
    (h : Heap) (user cat e : ℕ) (us : List ℕ)
    → Distinct us
    → has user us ≡ true
    → users_in (set_category user cat h).users e us + one_if ((h.users user).category_entry == e)
      ≡ users_in h.users e us + one_if (cat == e)
users_in-set_category h user cat e [] d there = absurd (ground arith)
users_in-set_category h user cat e (u ∷ us) d there =
    ground (arith, users_in-set_category h user cat e us, users_in_apart h user cat e us)

-- A change of category keeps every count right.
pub change_category-IsCounted :
    (m : Msg) (cat user : ℕ) (h : Heap) (us : List ℕ)
    → IsCounted h us
    → Distinct us
    → has user us ≡ true
    → IsCounted (change_category m cat user h) us
unfolding change_category
change_category-IsCounted m cat user h us ok d there =
    elim (Bool-cases (str_eq (field category_at m) (h.users user).category)) [
      | inl e ↦ rw e ok
      | inr e ↦ rw e (record { each = moved })
    ]
  where
    moved :
        (e : ℕ)
        → ((set_category user cat
              (add_count 1 cat (add_count (2 ^ 32 - 1) (h.users user).category_entry h))).categories
            e).count
          ≡ users_in
              (set_category user cat
                (add_count 1 cat (add_count (2 ^ 32 - 1) (h.users user).category_entry h))).users
              e
              us
            % 2 ^ 32
    moved e = ground (arith, users_in-set_category h user cat e us d there, ok.each e)

-- Both heaps have the same counts, and every user is in the same category.
pub record Keeps (h g : Heap) : Type 0 where
  pub counts : (e : ℕ) → (g.categories e).count ≡ (h.categories e).count
  pub places : (u : ℕ) → (g.users u).category_entry ≡ (h.users u).category_entry

pub Keeps-refl : (h : Heap) → Keeps h h
Keeps-refl h = record { counts = λ e. refl; places = λ u. refl }

pub Keeps-trans : (h g k : Heap) → Keeps h g → Keeps g k → Keeps h k
Keeps-trans h g k a b = record {
  counts = λ e. b.counts e ∙ a.counts e;
  places = λ u. b.places u ∙ a.places u;
}

pub users_in-Keeps :
    (h g : Heap) (e : ℕ) (us : List ℕ) → Keeps h g → users_in g.users e us ≡ users_in h.users e us
users_in-Keeps h g e [] k = refl
users_in-Keeps h g e (u ∷ us) k = ground (arith, k.places u, users_in-Keeps h g e us k)

pub Keeps-IsCounted : (h g : Heap) (us : List ℕ) → Keeps h g → IsCounted h us → IsCounted g us
Keeps-IsCounted h g us k ok = record {
  each = λ e. k.counts e ∙ ok.each e ∙ ap (λ (n : ℕ). n % 2 ^ 32) (sym (users_in-Keeps h g e us k));
}

pub users_in-append :
    (users : ℕ → UserEntry) (e : ℕ) (us vs : List ℕ)
    → users_in users e (us ++ vs) ≡ users_in users e us + users_in users e vs
users_in-append users e [] vs = ground arith
users_in-append users e (u ∷ us) vs = ground (arith, users_in-append users e us vs)

-- A user who has moved to another category and then announces the one that the entry was made with
-- stays where it is: `change_category` compares with a name that nothing updates.
change_category-stays :
    (m n : Msg) (cat back user : ℕ) (h : Heap)
    → str_eq (field category_at m) (h.users user).category ≡ false
    → str_eq (field category_at n) (h.users user).category ≡ true
    → (((change_category n back user (change_category m cat user h)).users user).category_entry
        ≡ cat)
      × (change_category n back user (change_category m cat user h) ≡ change_category m cat user h)
unfolding change_category
change_category-stays m n cat back user h moved same =
    let kept : ((set_category user cat
            (add_count 1 cat (add_count (2 ^ 32 - 1) (h.users user).category_entry h))).users
          user).category
        ≡ (h.users user).category =
      ground arith in
    rw (moved, kept, same) (ground arith, refl)
