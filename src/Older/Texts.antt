-- ===== src/Older/Texts.antt =====
-- Texts with their NULs in memory: what a copy leaves there, and what it does not touch.
use i_free_chat.Base.{
  ℕ, zero, suc, ◌+◌, ◌-◌, ◌≤◌, ◌<◌, ◌≡◌, refl, sym, ap, ap₂, ◌∙◌, ◌⊎◌, inl, inr, false, Bool-cases,
  Option-cases, ◌==◌, some, List, [], ◌∷◌, ◌++◌, append_assoc, arith, has, has-append, length,
  length-append, take, All,
}
use i_free_chat.Base.Memory.{Memory, read_bytes, store_bytes, read-store_bytes, store_bytes_apart}
use i_free_chat.Text.{Bytes}
use i_free_chat.MemPool.{ret}
use i_free_chat.Feiq.Parse.{found, until}
use i_free_chat.Older.{Ifreechat, string_at, strcpy_at, copy_all}

-- The text and its NUL are what lies at the address.
pub record TextAt (m : Memory) (a : ℕ) (s : Bytes) : Type 0 where
  pub bytes : read_bytes (length (s ++ 0 ∷ [])) m a ≡ s ++ 0 ∷ []
  pub no_nul : has 0 s ≡ false

pub until-nul : (s t : Bytes) → has 0 s ≡ false → until 0 (s ++ 0 ∷ t) ≡ some s
unfolding until
until-nul [] t h = refl
until-nul (c ∷ s) t h = ground (arith, until-nul s t)

pub read-append :
    (n k : ℕ) (m : Memory) (a : ℕ)
    → read_bytes (n + k) m a ≡ read_bytes n m a ++ read_bytes k m (a + n)
unfolding read_bytes
read-append zero k m a =
    let e : zero + k ≡ k = omega arith in
    let d : a ≡ a + zero = omega arith in ap₂ (λ x y. read_bytes x m y) e d
read-append (suc n) k m a =
    let e : suc n + k ≡ suc (n + k) = omega arith in
    let d : a + 1 + n ≡ a + suc n = omega arith in
    ap (λ x. read_bytes x m a) e
    ∙ ap (λ t. m a ∷ t)
        (read-append n k m (a + 1) ∙ ap (λ x. read_bytes n m (a + 1) ++ read_bytes k m x) d)

pub read_agree :
    (n : ℕ) (m m' : Memory) (a : ℕ)
    → ((b : ℕ) → a ≤ b → b < a + n → m' b ≡ m b)
    → read_bytes n m' a ≡ read_bytes n m a
unfolding read_bytes
read_agree zero m m' a h = refl
read_agree (suc n) m m' a h =
    ap₂ ◌∷◌ (h a (omega arith) (omega arith))
      (read_agree n m m' (a + 1) (λ b p q. h b (omega arith) (omega arith)))

pub string_at-TextAt :
    {m : Memory} {a : ℕ} {s : Bytes} (bound : ℕ)
    → a + length s + 1 ≤ bound
    → TextAt m a s
    → string_at m a bound ≡ ret s
unfolding string_at
string_at-TextAt {m} {a} {s} bound h t =
    let n = length (s ++ 0 ∷ []) in
    let e : bound - a ≡ n + (bound - a - n) = omega (arith, length-append s (0 ∷ [])) in
    let read =
      ap (λ k. read_bytes k m a) e
      ∙ read-append n (bound - a - n) m a
      ∙ ap (λ u. u ++ read_bytes (bound - a - n) m (a + n)) t.bytes
      ∙ append_assoc s (0 ∷ []) (read_bytes (bound - a - n) m (a + n)) in
    rw (read, until-nul s (read_bytes (bound - a - n) m (a + n)) t.no_nul)

-- A copy that does not touch the text.
abbrev pub Apart : (a : ℕ) (s : Bytes) → ℕ × Bytes → Type 0
Apart a s (b, t) = (a + length s + 1 ≤ b) ⊎ (b + length t + 1 ≤ a)

-- The memory after a row of copies.
abbrev pub store_texts : List (ℕ × Bytes) → Memory → Memory
store_texts [] m = m
store_texts ((b, t) ∷ ws) m = store_texts ws (store_bytes b (t ++ 0 ∷ []) m)

pub TextAt-store_self :
    (a : ℕ) (s : Bytes) (m : Memory) → has 0 s ≡ false → TextAt (store_bytes a (s ++ 0 ∷ []) m) a s
TextAt-store_self a s m h = record { bytes = read-store_bytes a (s ++ 0 ∷ []) m; no_nul = h }

TextAt-store :
    {m : Memory} {a : ℕ} {s : Bytes} (b : ℕ) (t : Bytes)
    → Apart a s (b, t)
    → TextAt m a s
    → TextAt (store_bytes b (t ++ 0 ∷ []) m) a s
TextAt-store {m} {a} {s} b t h x = record {
  bytes =
      read_agree (length (s ++ 0 ∷ [])) m (store_bytes b (t ++ 0 ∷ []) m) a (λ d p q.
        store_bytes_apart b (t ++ 0 ∷ []) d m
          (ground (arith, length-append s (0 ∷ []), length-append t (0 ∷ []))))
      ∙ x.bytes;
  no_nul = x.no_nul;
}

-- A text survives the copies that do not touch it.
pub TextAt-store_texts :
    (ws : List (ℕ × Bytes)) (m : Memory) (a : ℕ) (s : Bytes)
    → All (Apart a s) ws
    → TextAt m a s
    → TextAt (store_texts ws m) a s
TextAt-store_texts [] m a s h x = x
TextAt-store_texts ((b, t) ∷ ws) m a s h x =
    TextAt-store_texts ws (store_bytes b (t ++ 0 ∷ []) m) a s h.1 (TextAt-store b t h.0 x)

-- A text that is copied is read back after the copies that follow.
pub string_at-copied :
    (a : ℕ) (s : Bytes) (after : List (ℕ × Bytes)) (bound : ℕ) (m : Memory)
    → has 0 s ≡ false
    → a + length s + 1 ≤ bound
    → All (Apart a s) after
    → string_at (store_texts after (store_bytes a (s ++ 0 ∷ []) m)) a bound ≡ ret s
string_at-copied a s after bound m k h f =
    string_at-TextAt bound h
      (TextAt-store_texts after (store_bytes a (s ++ 0 ∷ []) m) a s f (TextAt-store_self a s m k))

pub store_texts_apart :
    (ws : List (ℕ × Bytes)) (m : Memory) (a : ℕ)
    → All (λ w. (a < w.0) ⊎ (w.0 + length (w.1) + 1 ≤ a)) ws
    → store_texts ws m a ≡ m a
store_texts_apart [] m a h = refl
store_texts_apart ((b, t) ∷ ws) m a h =
    store_texts_apart ws (store_bytes b (t ++ 0 ∷ []) m) a h.1
    ∙ store_bytes_apart b (t ++ 0 ∷ []) a m (ground (arith, h.0, length-append t (0 ∷ [])))

-- A copy that fits its block.
abbrev pub stored : (a : ℕ) → Bytes → Ifreechat → Ifreechat
stored a s c = record c { memory = store_bytes a (s ++ 0 ∷ []) c.memory }

pub strcpy_at-ret :
    (a bound : ℕ) (s : Bytes) (c : Ifreechat)
    → a + length s + 1 ≤ bound
    → strcpy_at a bound s c ≡ ret (stored a s c)
unfolding strcpy_at
strcpy_at-ret a bound s c h = ground arith

pub copy_all-ret :
    (bound : ℕ) (ws : List (ℕ × Bytes)) (c : Ifreechat)
    → All (λ w. w.0 + length (w.1) + 1 ≤ bound) ws
    → copy_all bound ws c ≡ ret (record c { memory = store_texts ws c.memory })
unfolding copy_all
copy_all-ret bound [] c h = refl
copy_all-ret bound ((a, s) ∷ ws) c h =
    rw (strcpy_at-ret a bound s c h.0) (copy_all-ret bound ws (stored a s c) h.1)

pub read-store_take :
    (n a : ℕ) (s : Bytes) (m : Memory)
    → n ≤ length s
    → read_bytes n (store_bytes a s m) a ≡ take n s
unfolding read_bytes store_bytes
read-store_take zero a s m h = refl
read-store_take (suc n) a [] m h = absurd (omega arith)
read-store_take (suc n) a (c ∷ s) m h =
    ap₂ ◌∷◌ (store_bytes_apart (a + 1) s a _ (inl (omega arith)) ∙ ground arith)
      (read-store_take n (a + 1) s _ (omega arith))

-- What is read as a string lies there with its NUL.
until-read :
    (n : ℕ) (m : Memory) (a : ℕ) (s : Bytes)
    → until 0 (read_bytes n m a) ≡ some s
    → TextAt m a s × (length s + 1 ≤ n)
unfolding until read_bytes
until-read zero m a s e = cc
until-read (suc n) m a s e = elim (Bool-cases (m a == 0)) [
  | inl done ↦
      let v : s ≡ [] = ground arith in
      rw v (record { bytes = ground arith; no_nul = refl }, omega arith)
  | inr more ↦ elim (Option-cases (until 0 (read_bytes n m (a + 1)))) [
    | inl missing ↦ absurd (ground arith)
    | inr (t, rest) ↦
        let v : s ≡ m a ∷ t = ground arith in
        let (ih, short) = until-read n m (a + 1) t rest in
        rw v (
          record { bytes = ap (λ u. m a ∷ u) ih.bytes; no_nul = ground (arith, ih.no_nul) },
          omega arith,
        )
  ]
]

pub length-take : (k : ℕ) (s : Bytes) → k ≤ length s → length (take k s) ≡ k
length-take zero s h = refl
length-take (suc k) [] h = absurd (omega arith)
length-take (suc k) (c ∷ s) h = ap suc (length-take k s (omega arith))

take-append : (k : ℕ) (s t : Bytes) → k ≤ length s → take k (s ++ t) ≡ take k s
take-append zero s t h = refl
take-append (suc k) [] t h = absurd (omega arith)
take-append (suc k) (c ∷ s) t h = ap (λ u. c ∷ u) (take-append k s t (omega arith))

has-take : (c k : ℕ) (s : Bytes) → has c s ≡ false → has c (take k s) ≡ false
has-take c zero s h = refl
has-take c (suc k) [] h = refl
has-take c (suc k) (d ∷ s) h = ground (arith, has-take c k s)

-- A text that overruns another's place, and the copy of the other: the first of it, then the other.
pub TextAt-overrun :
    (k a : ℕ) (s t : Bytes) (m : Memory)
    → k ≤ length s
    → has 0 s ≡ false
    → has 0 t ≡ false
    → TextAt (store_bytes (a + k) (t ++ 0 ∷ []) (store_bytes a (s ++ 0 ∷ []) m)) a (take k s ++ t)
TextAt-overrun k a s t m h p q =
    let before = store_bytes a (s ++ 0 ∷ []) m in
    let all = store_bytes (a + k) (t ++ 0 ∷ []) before in
    let n = length (t ++ 0 ∷ []) in
    let e : length ((take k s ++ t) ++ 0 ∷ []) ≡ k + n = omega (
      arith,
      length-append (take k s ++ t) (0 ∷ []),
      length-append (take k s) t,
      length-append t (0 ∷ []),
      length-take k s,
    ) in
    let front : read_bytes k all a ≡ take k s =
      read_agree k before all a
        (λ b low high. store_bytes_apart (a + k) (t ++ 0 ∷ []) b before (inl (omega arith)))
      ∙ read-store_take k a (s ++ 0 ∷ []) m (omega (arith, length-append s (0 ∷ [])))
      ∙ take-append k s (0 ∷ []) h in
    record {
      bytes =
          ap (λ x. read_bytes x all a) e
          ∙ read-append k n all a
          ∙ ap₂ ◌++◌ front (read-store_bytes (a + k) (t ++ 0 ∷ []) before)
          ∙ sym (append_assoc (take k s) t (0 ∷ []));
      no_nul = ground (arith, has-append 0 (take k s) t, has-take 0 k s);
    }

pub string_at-read :
    {m : Memory} {a bound : ℕ} {s : Bytes}
    → string_at m a bound ≡ ret s
    → TextAt m a s × (a + length s + 1 ≤ bound)
unfolding string_at found
string_at-read {m} {a} {bound} {s} e = elim (Option-cases (until 0 (read_bytes (bound - a) m a))) [
  | inl missing ↦ absurd (ground arith)
  | inr (t, read) ↦
      let same : t ≡ s = ground arith in
      let (text, short) = until-read (bound - a) m a t read in rw (← same) (text, omega arith)
]
