-- ===== src/Text/Hex.antt =====
-- `%lx` of `sprintf` and `strtoul` to the base 16.
use i_free_chat.Base.{
  ℕ, zero, suc, ◌+◌, ◌-◌, ◌*◌, ◌/◌, ◌%◌, ◌^◌, Bool, true, false, ◌&&◌, ◌||◌, [], ◌∷◌, ltb, leb,
  ◌==◌, if◌then◌else◌,
}
use i_free_chat.Text.{Bytes, skip_spaces}

hex_char : ℕ → ℕ
hex_char d = if ltb d 10 then b'0' + d else b'a' + (d - 10)

pub hex_digits : ℕ → ℕ → Bytes → Bytes
unfolding hex_char
hex_digits zero n out = out
hex_digits (suc fuel) n out =
    let rest = hex_digits fuel (n / 16) (hex_char (n % 16) ∷ out) in
    if ltb n 16 then hex_char n ∷ out else rest

-- %lx: at most eight digits, which a 32-bit number fits.
pub hexadecimal : ℕ → Bytes
unfolding hex_digits
hexadecimal n = hex_digits 8 n []

-- The value of a digit, 16 for what is none.
pub hex_value : ℕ → ℕ
hex_value c =
    if leb b'0' c && leb c b'9'
    then c - b'0'
    else if leb b'a' c && leb c b'f'
    then c - b'a' + 10
    else if leb b'A' c && leb c b'F'
    then c - b'A' + 10
    else 16

-- The number that the leading digits spell behind `n`.
pub scan_hex : Bytes → ℕ → ℕ
unfolding hex_value
scan_hex [] n = n
scan_hex (c ∷ s) n =
    let rest = scan_hex s (n * 16 + hex_value c) in if ltb (hex_value c) 16 then rest else n

-- The digits behind an optional `0x`.
behind_prefix : Bytes → Bytes
behind_prefix (c ∷ d ∷ s) = if c == b'0' && (d == b'x' || d == b'X') then s else c ∷ d ∷ s
behind_prefix s = s

unsigned : (negative : Bool) → Bytes → ℕ
unfolding scan_hex behind_prefix
unsigned negative s =
    let n = scan_hex (behind_prefix s) 0 in
    if leb (2 ^ 32) n then 2 ^ 32 - 1 else if negative then (2 ^ 32 - n) % 2 ^ 32 else n

hex_signed : Bytes → ℕ
unfolding unsigned
hex_signed [] = 0
hex_signed (c ∷ s) =
    if c == b'-'
    then unsigned true s
    else if c == b'+'
    then unsigned false s
    else unsigned false (c ∷ s)

-- `strtoul(s, NULL, 16)`, where `long` is 32 bits wide.
pub strtoul : Bytes → ℕ
unfolding hex_signed
strtoul s = hex_signed (skip_spaces s)
