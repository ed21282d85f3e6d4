-- ===== src/Text/Decimal.antt =====
-- Printed numbers are read back.
use i_free_chat.Base.{
  ℕ, zero, suc, ◌+◌, ◌*◌, ◌/◌, ◌%◌, ◌^◌, ◌≤◌, ◌<◌, ◌≡◌, refl, sym, ap, ◌∙◌, ◌⊎◌, inl, inr, false,
  some, [], ◌∷◌, ◌++◌, arith, has, length,
}
use native.Mathlib.Nat.{pow-suc}
use i_free_chat.Text.{
  Bytes, digits, decimal, is_digit, is_space, skip_spaces, scan, signed, atoi, skip_digits,
  read_digits, read_sign, read_unsigned,
}

-- The text does not begin with a digit.
abbrev pub IsEnd : Bytes → Type 0
IsEnd [] = Unit
IsEnd (c ∷ s) = is_digit c ≡ false

abbrev pub IsDigit : ℕ → Type 0
IsDigit c = (b'0' ≤ c) × (c ≤ b'9')

scan_end : (s : Bytes) (n : ℕ) → IsEnd s → scan s n ≡ n
unfolding scan
scan_end [] n h = refl
scan_end (c ∷ s) n h = rw h

scan_digit : (d : ℕ) (s : Bytes) (n : ℕ) → d < 10 → scan ((b'0' + d) ∷ s) n ≡ scan s (n * 10 + d)
unfolding scan
scan_digit d s n h = ground arith

digits_one : (fuel n : ℕ) (out : Bytes) → n < 10 → digits (suc fuel) n out ≡ (b'0' + n) ∷ out
unfolding digits
digits_one fuel n out h = ground arith

digits_step :
    (fuel n : ℕ) (out : Bytes)
    → 10 ≤ n
    → digits (suc fuel) n out ≡ digits fuel (n / 10) ((b'0' + n % 10) ∷ out)
unfolding digits
digits_step fuel n out h = ground arith

le_total_10 : (n : ℕ) → (n < 10) ⊎ (10 ≤ n)
le_total_10 n = ground arith

div_lt : (n k : ℕ) → n < 10 ^ suc k → n / 10 < 10 ^ k
div_lt n k h = omega (arith, pow-suc 10 k, h)

scan-digits :
    (fuel n : ℕ) (out : Bytes) → n < 10 ^ suc fuel → scan (digits (suc fuel) n out) 0 ≡ scan out n
scan-digits zero n out h = ground (arith, digits_one zero n out, scan_digit n out 0)
scan-digits (suc fuel) n out h = elim (le_total_10 n) [
  | inl a ↦
      ap (λ s. scan s 0) (digits_one (suc fuel) n out a)
      ∙ scan_digit n out 0 a
      ∙ ap (scan out) (omega arith)
  | inr a ↦
      ap (λ s. scan s 0) (digits_step (suc fuel) n out a)
      ∙ scan-digits fuel (n / 10) ((b'0' + n % 10) ∷ out) (div_lt n (suc fuel) h)
      ∙ scan_digit (n % 10) out (n / 10) (omega arith)
      ∙ ap (scan out) (omega arith)
]

StartsWithDigit : Bytes → Type 0
StartsWithDigit t = (d : ℕ) × (s : Bytes) × (t ≡ d ∷ s) × (b'0' ≤ d) × (d ≤ b'9')

digits-StartsWithDigit : (fuel n : ℕ) (out : Bytes) → StartsWithDigit (digits (suc fuel) n out)
unfolding StartsWithDigit digits
digits-StartsWithDigit zero n out = elim (le_total_10 n) [
  | inl a ↦ (b'0' + n, out, digits_one 0 n out a, omega arith, omega arith)
  | inr a ↦ (b'0' + n % 10, out, digits_step 0 n out a, omega arith, omega arith)
]
digits-StartsWithDigit (suc fuel) n out = elim (le_total_10 n) [
  | inl a ↦ (b'0' + n, out, digits_one (suc fuel) n out a, omega arith, omega arith)
  | inr a ↦
      let (d, s, e, l, h) = digits-StartsWithDigit fuel (n / 10) ((b'0' + n % 10) ∷ out) in
      (d, s, digits_step (suc fuel) n out a ∙ e, l, h)
]

pub digits-append :
    (fuel n : ℕ) (out rest : Bytes) → digits fuel n out ++ rest ≡ digits fuel n (out ++ rest)
unfolding digits
digits-append zero n out rest = refl
digits-append (suc fuel) n out rest =
    ground (arith, digits-append fuel (n / 10) ((b'0' + n % 10) ∷ out) rest)

atoi_digit :
    (d : ℕ) (s : Bytes)
    → b'0' ≤ d
    → d ≤ b'9'
    → scan (d ∷ s) 0 < 2 ^ 31
    → atoi (d ∷ s) ≡ scan (d ∷ s) 0
unfolding atoi skip_spaces is_space signed
atoi_digit d s l h k = ground arith

atoi_finish : (n : ℕ) (rest t : Bytes) → n < 2 ^ 31 → StartsWithDigit t → scan t 0 ≡ n → atoi t ≡ n
unfolding StartsWithDigit
atoi_finish n rest t h (d, s, q, l, k) v =
    ap atoi q
    ∙ atoi_digit d s l k (omega (arith, ap (λ u. scan u 0) (sym q) ∙ v))
    ∙ ap (λ u. scan u 0) (sym q)
    ∙ v

-- What `%u` prints is read back by `atoi`, whatever follows that is not a digit.
pub atoi-decimal : (n : ℕ) (rest : Bytes) → n < 2 ^ 31 → IsEnd rest → atoi (decimal n ++ rest) ≡ n
unfolding decimal
atoi-decimal n rest h e =
    ap atoi (digits-append 10 n [] rest)
    ∙ atoi_finish n rest (digits 10 n rest) h (digits-StartsWithDigit 9 n rest)
        (scan-digits 9 n rest (omega arith) ∙ scan_end rest n e)

skip_end : (s : Bytes) → IsEnd s → skip_digits s ≡ s
unfolding skip_digits
skip_end [] h = refl
skip_end (c ∷ s) h = rw h

skip_digit : (d : ℕ) (s : Bytes) → d < 10 → skip_digits ((b'0' + d) ∷ s) ≡ skip_digits s
unfolding skip_digits is_digit
skip_digit d s h = ground arith

skip-digits :
    (fuel n : ℕ) (out : Bytes)
    → n < 10 ^ suc fuel
    → skip_digits (digits (suc fuel) n out) ≡ skip_digits out
skip-digits zero n out h =
    ap skip_digits (digits_one 0 n out (omega arith)) ∙ skip_digit n out (omega arith)
skip-digits (suc fuel) n out h = elim (le_total_10 n) [
  | inl a ↦ ap skip_digits (digits_one (suc fuel) n out a) ∙ skip_digit n out a
  | inr a ↦
      ap skip_digits (digits_step (suc fuel) n out a)
      ∙ skip-digits fuel (n / 10) ((b'0' + n % 10) ∷ out) (div_lt n (suc fuel) h)
      ∙ skip_digit (n % 10) out (omega arith)
]

read_digit :
    (d : ℕ) (s rest : Bytes) (n : ℕ)
    → b'0' ≤ d
    → d ≤ b'9'
    → n < 2 ^ 32
    → scan (d ∷ s) 0 ≡ n
    → skip_digits (d ∷ s) ≡ rest
    → read_unsigned (d ∷ s) ≡ some (n, rest)
unfolding read_unsigned skip_spaces is_space read_sign read_digits is_digit
read_digit d s rest n l h k e r = ground arith

read_finish :
    (n : ℕ) (rest t : Bytes)
    → n < 2 ^ 32
    → StartsWithDigit t
    → scan t 0 ≡ n
    → skip_digits t ≡ rest
    → read_unsigned t ≡ some (n, rest)
unfolding StartsWithDigit
read_finish n rest t h (d, s, q, l, k) v r =
    ap read_unsigned q
    ∙ read_digit d s rest n l k h (ap (λ u. scan u 0) (sym q) ∙ v) (ap skip_digits (sym q) ∙ r)

-- What `%u` prints is read back by the `%u` of `sscanf`, which stops behind it.
pub read_unsigned-decimal :
    (n : ℕ) (rest : Bytes)
    → n < 2 ^ 32
    → IsEnd rest
    → read_unsigned (decimal n ++ rest) ≡ some (n, rest)
unfolding decimal
read_unsigned-decimal n rest h e =
    ap read_unsigned (digits-append 10 n [] rest)
    ∙ read_finish n rest (digits 10 n rest) h (digits-StartsWithDigit 9 n rest)
        (scan-digits 9 n rest (omega arith) ∙ scan_end rest n e)
        (skip-digits 9 n rest (omega arith) ∙ skip_end rest e)

has-digits :
    (c fuel n : ℕ) (out : Bytes) → is_digit c ≡ false → has c (digits fuel n out) ≡ has c out
unfolding digits is_digit
has-digits c zero n out h = refl
has-digits c (suc fuel) n out h =
    ground (arith, has-digits c fuel (n / 10) ((b'0' + n % 10) ∷ out) h)

-- A printed number holds digits only, at most ten.
pub has-decimal : (c n : ℕ) → is_digit c ≡ false → has c (decimal n) ≡ false
unfolding decimal
has-decimal c n h = has-digits c 10 n [] h

length-digits : (fuel n : ℕ) (out : Bytes) → length (digits fuel n out) ≤ fuel + length out
unfolding digits
length-digits zero n out = omega arith
length-digits (suc fuel) n out = ground (arith, length-digits fuel (n / 10) ((b'0' + n % 10) ∷ out))

pub length-decimal : (n : ℕ) → length (decimal n) ≤ 10
unfolding decimal
length-decimal n = length-digits 10 n []

pub length-decimal_byte : (n : ℕ) → n < 256 → length (decimal n) ≤ 3
unfolding decimal
length-decimal_byte n h = elim (le_total_10 n) [
  | inl a ↦ omega (arith, ap length (digits_one 9 n [] a))
  | inr a ↦ elim (le_total_10 (n / 10)) [
    | inl b ↦ omega (
      arith,
      ap length (digits_step 9 n [] a),
      ap length (digits_one 8 (n / 10) ((b'0' + n % 10) ∷ []) b),
    )
    | inr b ↦ omega (
      arith,
      ap length (digits_step 9 n [] a),
      ap length (digits_step 8 (n / 10) ((b'0' + n % 10) ∷ []) b),
      ap length
          (digits_one 7 (n / 10 / 10) ((b'0' + n / 10 % 10) ∷ (b'0' + n % 10) ∷ []) (omega arith)),
    )
  ]
]

pub length-decimal_small : (n : ℕ) → n < 100 → (1 ≤ length (decimal n)) × (length (decimal n) ≤ 2)
unfolding decimal
length-decimal_small n h = elim (le_total_10 n) [
  | inl a ↦ (
    omega (arith, ap length (digits_one 9 n [] a)),
    omega (arith, ap length (digits_one 9 n [] a)),
  )
  | inr a ↦
      let e : length (digits 10 n []) ≡ 2 =
        ap length (digits_step 9 n [] a)
        ∙ ap length (digits_one 8 (n / 10) ((b'0' + n % 10) ∷ []) (omega arith)) in
      (omega (arith, e), omega (arith, e))
]
