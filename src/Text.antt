-- ===== src/Text.antt =====
-- What the code uses of the C library on strings: `sprintf` with %u and %d, `atoi`, `strchr`,
-- `strrchr`, `strncmp`. A string is the list of its bytes before the NUL.
pub mod Decimal
pub mod Cut
pub mod Hex
use Prim.Native.Char.{code}
use Prim.Native.String.{String}
use i_free_chat.Base.{
  ℕ, zero, suc, ◌+◌, ◌-◌, ◌*◌, ◌/◌, ◌%◌, ◌^◌, Bool, true, false, ◌&&◌, ◌||◌, Option, none, some,
  List, [], ◌∷◌, ltb, leb, ◌==◌, if◌then◌else◌,
}

infixl 5 ◌>>=◌
abbrev pub ◌>>=◌ {ℓ κ} : {A : Type ℓ} {B : Type κ} → Option A → (A → Option B) → Option B
none >>= f = none
some a >>= f = f a

abbrev pub Bytes : Type 0
Bytes = List ℕ

-- The bytes of an ASCII literal.
abbrev pub codes : String → Bytes
codes String.[] = []
codes (String.◌∷◌ c s) = code c ∷ codes s

-- The digits of a number in front of `out`; `fuel` bounds their number.
unfoldable pub digits : ℕ → ℕ → Bytes → Bytes
digits zero n out = out
digits (suc fuel) n out =
    let rest = digits fuel (n / 10) ((b'0' + n % 10) ∷ out) in
    if ltb n 10 then (b'0' + n) ∷ out else rest

-- %u, and %d of a number that is not negative: at most ten digits, which a 32-bit number fits.
unfoldable pub decimal : ℕ → Bytes
unfolding digits
decimal n = digits 10 n []

unfoldable pub is_digit : ℕ → Bool
is_digit c = leb b'0' c && leb c b'9'

pub is_space : ℕ → Bool
is_space c = c == 32 || (leb 9 c && leb c 13)

pub skip_spaces : Bytes → Bytes
unfolding is_space
skip_spaces [] = []
skip_spaces (c ∷ s) = if is_space c then skip_spaces s else c ∷ s

-- The number that the leading digits spell behind `n`.
pub scan : Bytes → ℕ → ℕ
unfolding is_digit
scan [] n = n
scan (c ∷ s) n = let rest = scan s (n * 10 + (c - b'0')) in if is_digit c then rest else n

-- A number clamped to the positive or negative range of `int`, as a 32-bit pattern.
abbrev pos_int : ℕ → ℕ
pos_int n = if ltb n (2 ^ 31) then n else 2 ^ 31 - 1

abbrev neg_int : ℕ → ℕ
neg_int n = if leb n (2 ^ 31) then (2 ^ 32 - n) % 2 ^ 32 else 2 ^ 31

signed : Bytes → ℕ
unfolding scan
signed [] = 0
signed (c ∷ s) =
    if c == b'-'
    then neg_int (scan s 0)
    else if c == b'+'
    then pos_int (scan s 0)
    else pos_int (scan (c ∷ s) 0)

-- `atoi`, as a 32-bit pattern. Out of range it clamps, as glibc's does where `long` is 32 bits wide.
pub atoi : Bytes → ℕ
unfolding skip_spaces signed
atoi s = signed (skip_spaces s)

-- The text before the first `c` and the text behind it; `none` where `strchr` returns NULL. A NUL
-- ends the search.
pub strchr : ℕ → Bytes → Option (Bytes × Bytes)
strchr c [] = none
strchr c (d ∷ s) =
    let rest = strchr c s in
    if d == c
    then some ([], s)
    else if d == 0
    then none
    else elim rest [ none ↦ none | some (before, behind) ↦ some (d ∷ before, behind) ]

-- The text behind the last `c`; `none` where `strrchr` returns NULL.
pub strrchr : ℕ → Bytes → Option Bytes
strrchr c [] = none
strrchr c (d ∷ s) = elim (strrchr c s) [
  | some behind ↦ some behind
  | none ↦ if d == c then some s else none
]

-- `strncmp(s, prefix, strlen(prefix)) == 0`
unfoldable pub starts_with : Bytes → Bytes → Bool
starts_with [] s = true
starts_with (c ∷ prefix) [] = false
starts_with (c ∷ prefix) (d ∷ s) = c == d && starts_with prefix s

-- What is behind the leading digits.
pub skip_digits : Bytes → Bytes
unfolding is_digit
skip_digits [] = []
skip_digits (c ∷ s) = if is_digit c then skip_digits s else c ∷ s

pub read_digits : Bytes → Option (ℕ × Bytes)
unfolding scan skip_digits is_digit
read_digits [] = none
read_digits (c ∷ s) =
    let n = scan (c ∷ s) 0 in
    if is_digit c
    then some (if ltb n (2 ^ 32) then n else 2 ^ 32 - 1, skip_digits (c ∷ s))
    else none

negate : Option (ℕ × Bytes) → Option (ℕ × Bytes)
negate none = none
negate (some (n, s)) = some ((2 ^ 32 - n) % 2 ^ 32, s)

read_sign : Bytes → Option (ℕ × Bytes)
unfolding read_digits negate
read_sign [] = none
read_sign (c ∷ s) =
    if c == b'-'
    then negate (read_digits s)
    else if c == b'+'
    then read_digits s
    else read_digits (c ∷ s)

-- One `%u` of `sscanf`: the number and what is behind it; `none` where it does not match.
pub read_unsigned : Bytes → Option (ℕ × Bytes)
unfolding skip_spaces read_sign
read_unsigned s = read_sign (skip_spaces s)

-- One literal character of `sscanf`.
unfoldable pub read_char : ℕ → Bytes → Option Bytes
read_char c [] = none
read_char c (d ∷ s) = if d == c then some s else none
