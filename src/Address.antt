-- ===== src/Address.antt =====
-- ifc/lib/net/utils.c: dotted addresses. An address is a 32-bit number in host order.
mod Tests
use i_free_chat.Base.{
  has, has-append, false, ℕ, ◌+◌, ◌*◌, ◌/◌, ◌%◌, ◌^◌, ◌<◌, ◌≤◌, ◌≡◌, refl, sym, ap, ap₂, ◌∙◌,
  Option, none, some, List, [], ◌∷◌, ◌++◌, append-nil, length, length-append, bit_and, bit_or,
  arith, false,
}
use i_free_chat.Base.Bits.{and_high, and_mask, or_fields}
use i_free_chat.Text.{◌>>=◌, is_digit, Bytes, decimal, read_unsigned, read_char}
use i_free_chat.Text.Decimal.{has-decimal, IsEnd, length-decimal_byte, read_unsigned-decimal}

-- One byte of the address: a mask, a shift and a conversion to `uint8_t`.
pub byte_of : (mask shift ip : ℕ) → ℕ
byte_of mask shift ip = bit_and ip mask / 2 ^ shift % 256

pub ip2str : ℕ → Bytes
unfolding byte_of
ip2str ip =
    decimal (byte_of 0xff000000 24 ip)
    ++ b'.'
      ∷ (decimal (byte_of 0x00ff0000 16 ip)
          ++ b'.' ∷ (decimal (byte_of 0x0000ff00 8 ip) ++ b'.' ∷ decimal (byte_of 0x000000ff 0 ip)))

pub of_parts : (p1 p2 p3 p4 : ℕ) → ℕ
of_parts p1 p2 p3 p4 =
    bit_or (bit_or (bit_or (p1 * 2 ^ 24 % 2 ^ 32) (p2 * 2 ^ 16 % 2 ^ 32)) (p3 * 2 ^ 8 % 2 ^ 32)) p4

-- `str2ip` of a string that is not NULL; `none` where `sscanf` leaves one of the four numbers
-- uninitialised.
pub str2ip : Bytes → Option ℕ
unfolding of_parts
str2ip s = do
  (p1, s) ← read_unsigned s
  s ← read_char b'.' s
  (p2, s) ← read_unsigned s
  s ← read_char b'.' s
  (p3, s) ← read_unsigned s
  s ← read_char b'.' s
  (p4, s) ← read_unsigned s
  some (of_parts p1 p2 p3 p4)

-- The address whose bytes are `a`, `b`, `c` and `d`.
abbrev dotted : (a b c d : ℕ) → ℕ
dotted a b c d = ((a * 256 + b) * 256 + c) * 256 + d

masked :
    (k q r ip : ℕ) → ip ≡ q * 2 ^ k + r → r < 2 ^ k → bit_and ip (255 * 2 ^ k) ≡ q % 256 * 2 ^ k
masked k q r ip e h =
    ap (λ t. bit_and t (255 * 2 ^ k)) e ∙ and_high k q r 255 h ∙ ap (λ t. t * 2 ^ k) (and_mask 8 q)

byte_of-eq_24 : (ip : ℕ) → byte_of 0xff000000 24 ip ≡ ip / 2 ^ 24 % 256
unfolding byte_of
byte_of-eq_24 ip =
    omega (arith, masked 24 (ip / 2 ^ 24) (ip % 2 ^ 24) ip (omega arith) (omega arith))

byte_of-eq_16 : (ip : ℕ) → byte_of 0x00ff0000 16 ip ≡ ip / 2 ^ 16 % 256
unfolding byte_of
byte_of-eq_16 ip =
    omega (arith, masked 16 (ip / 2 ^ 16) (ip % 2 ^ 16) ip (omega arith) (omega arith))

byte_of-eq_8 : (ip : ℕ) → byte_of 0x0000ff00 8 ip ≡ ip / 2 ^ 8 % 256
unfolding byte_of
byte_of-eq_8 ip = omega (arith, masked 8 (ip / 2 ^ 8) (ip % 2 ^ 8) ip (omega arith) (omega arith))

byte_of-eq_0 : (ip : ℕ) → byte_of 0x000000ff 0 ip ≡ ip % 256
unfolding byte_of
byte_of-eq_0 ip = omega (arith, and_mask 8 ip)

of_parts-eq :
    (a b c d : ℕ) → a < 256 → b < 256 → c < 256 → d < 256 → of_parts a b c d ≡ dotted a b c d
unfolding of_parts
of_parts-eq a b c d p q r s =
    ap (λ t. bit_or t d)
      (ap₂ bit_or
          (ap₂ bit_or (omega arith) (omega arith)
            ∙ or_fields 24 a (b * 2 ^ 16) (omega arith)
            ∙ omega arith)
          (omega arith)
        ∙ or_fields 16 (a * 256 + b) (c * 2 ^ 8) (omega arith)
        ∙ omega arith)
    ∙ or_fields 8 ((a * 256 + b) * 256 + c) d (omega arith)
    ∙ omega arith

-- Four printed bytes, as `str2ip` reads them.
read_dotted :
    (a b c d : ℕ)
    → a < 256
    → b < 256
    → c < 256
    → d < 256
    → str2ip (decimal a ++ b'.' ∷ (decimal b ++ b'.' ∷ (decimal c ++ b'.' ∷ (decimal d ++ []))))
      ≡ some (dotted a b c d)
unfolding str2ip read_char is_digit
read_dotted a b c d p q r s = rw (
  read_unsigned-decimal a (b'.' ∷ (decimal b ++ b'.' ∷ (decimal c ++ b'.' ∷ (decimal d ++ []))))
      (omega arith) refl,
  read_unsigned-decimal b (b'.' ∷ (decimal c ++ b'.' ∷ (decimal d ++ []))) (omega arith) refl,
  read_unsigned-decimal c (b'.' ∷ (decimal d ++ [])) (omega arith) refl,
  read_unsigned-decimal d [] (omega arith) tt,
  of_parts-eq a b c d p q r s,
)

-- Four printed bytes, as `str2ip` reads them.
str2ip-dotted :
    (a b c d : ℕ)
    → a < 256
    → b < 256
    → c < 256
    → d < 256
    → str2ip (decimal a ++ b'.' ∷ (decimal b ++ b'.' ∷ (decimal c ++ b'.' ∷ decimal d)))
      ≡ some (dotted a b c d)
str2ip-dotted a b c d p q r s =
    ap (λ t. str2ip (decimal a ++ b'.' ∷ (decimal b ++ b'.' ∷ (decimal c ++ b'.' ∷ t))))
      (sym (append-nil (decimal d)))
    ∙ read_dotted a b c d p q r s

-- `str2ip` reads back the address that `ip2str` prints, for every 32-bit address.
pub str2ip-ip2str : (ip : ℕ) → ip < 2 ^ 32 → str2ip (ip2str ip) ≡ some ip
unfolding ip2str
str2ip-ip2str ip h =
    str2ip-dotted (byte_of 0xff000000 24 ip) (byte_of 0x00ff0000 16 ip) (byte_of 0x0000ff00 8 ip)
      (byte_of 0x000000ff 0 ip) (omega (arith, byte_of-eq_24 ip)) (omega (arith, byte_of-eq_16 ip))
      (omega (arith, byte_of-eq_8 ip)) (omega (arith, byte_of-eq_0 ip))
    ∙ ap some (omega (arith, byte_of-eq_24 ip, byte_of-eq_16 ip, byte_of-eq_8 ip, byte_of-eq_0 ip))

-- A printed address and its NUL fit `char ip[32]`.
pub length-ip2str : (ip : ℕ) → length (ip2str ip) ≤ 15
unfolding ip2str
length-ip2str ip =
    let a = byte_of 0xff000000 24 ip in
    let b = byte_of 0x00ff0000 16 ip in
    let c = byte_of 0x0000ff00 8 ip in
    let d = byte_of 0x000000ff 0 ip in
    omega (
      arith,
      length-append (decimal a) (b'.' ∷ (decimal b ++ b'.' ∷ (decimal c ++ b'.' ∷ decimal d))),
      length-append (decimal b) (b'.' ∷ (decimal c ++ b'.' ∷ decimal d)),
      length-append (decimal c) (b'.' ∷ decimal d),
      length-decimal_byte a (omega (arith, byte_of-eq_24 ip)),
      length-decimal_byte b (omega (arith, byte_of-eq_16 ip)),
      length-decimal_byte c (omega (arith, byte_of-eq_8 ip)),
      length-decimal_byte d (omega (arith, byte_of-eq_0 ip)),
    )

has-dotted : (n : ℕ) (t : Bytes) → has 0 t ≡ false → has 0 (decimal n ++ b'.' ∷ t) ≡ false
unfolding is_digit
has-dotted n t k = ground (arith, has-append 0 (decimal n) (b'.' ∷ t), has-decimal 0 n refl)

-- A printed address holds no NUL.
pub has-ip2str : (ip : ℕ) → has 0 (ip2str ip) ≡ false
unfolding ip2str is_digit
has-ip2str ip =
    let c = byte_of 0x0000ff00 8 ip in
    let d = byte_of 0x000000ff 0 ip in
    has-dotted (byte_of 0xff000000 24 ip)
      (decimal (byte_of 0x00ff0000 16 ip) ++ b'.' ∷ (decimal c ++ b'.' ∷ decimal d))
      (has-dotted (byte_of 0x00ff0000 16 ip) (decimal c ++ b'.' ∷ decimal d)
        (has-dotted c (decimal d) (has-decimal 0 d refl)))
