-- ===== src/Blowfish.antt =====
-- ifc/lib/blowfish/blowfish.c and ifc/include/blowfish/blowfish.h: the cipher on pairs of 32-bit
-- words, with the little-endian `union aword`.
pub mod Cipher
pub mod Modes
mod Tests
use i_free_chat.Base.{
  ℕ, zero, suc, ◌+◌, ◌*◌, ◌/◌, ◌%◌, ◌^◌, Bool, true, false, List, [], ◌∷◌, ◌==◌, if◌then◌else◌,
  bit_xor, get_or, length, update, ltb,
}

-- `PArray` and `SBoxes`.
pub record Schedule : Type 0 where
  pub p_array : ℕ → ℕ
  pub s_boxes : ℕ → ℕ → ℕ

-- `w.byte0`, the highest byte, to `w.byte3`.
abbrev pub byte0 : ℕ → ℕ
byte0 x = x / 2 ^ 24 % 256

abbrev pub byte1 : ℕ → ℕ
byte1 x = x / 2 ^ 16 % 256

abbrev pub byte2 : ℕ → ℕ
byte2 x = x / 2 ^ 8 % 256

abbrev pub byte3 : ℕ → ℕ
byte3 x = x % 256

-- `bf_F`
pub mix : Schedule → ℕ → ℕ
mix bf x =
    let a = (bf.s_boxes 0 (byte0 x) + bf.s_boxes 1 (byte1 x)) % 2 ^ 32 in
    (bit_xor a (bf.s_boxes 2 (byte2 x)) + bf.s_boxes 3 (byte3 x)) % 2 ^ 32

-- `ROUND(a, b, n)`, the new `a`.
pub round : Schedule → (a b n : ℕ) → ℕ
unfolding mix
round bf a b n = bit_xor a (bit_xor (mix bf b) (bf.p_array n))

-- `ROUND(Xr, Xl, n);  ROUND(Xl, Xr, n + 1);` on `(Xl, Xr)`
pub forth : Schedule → ℕ → ℕ × ℕ → ℕ × ℕ
unfolding round
forth bf n (l, r) = let r' = round bf r l n in (round bf l r' (n + 1), r')

-- `ROUND(Xr, Xl, n + 1);  ROUND(Xl, Xr, n);` on `(Xl, Xr)`
pub back : Schedule → ℕ → ℕ × ℕ → ℕ × ℕ
unfolding round
back bf n (l, r) = let r' = round bf r l (n + 1) in (round bf l r' n, r')

-- The words of a block, `(*xl, *xr)`.
unfoldable pub blowfish_encipher : Schedule → ℕ × ℕ → ℕ × ℕ
blowfish_encipher bf (xl, xr) =
    let (l, r) = forth bf 15 (
      forth bf 13 (
        forth bf 11 (
          forth bf 9 (
            forth bf 7 (forth bf 5 (forth bf 3 (forth bf 1 (bit_xor xl (bf.p_array 0), xr)))))))) in
    (bit_xor r (bf.p_array 17), l)

pub blowfish_decipher : Schedule → ℕ × ℕ → ℕ × ℕ
blowfish_decipher bf (xl, xr) =
    let (l, r) = back bf 1 (
      back bf 3 (
        back bf 5 (
          back bf 7 (
            back bf 9 (back bf 11 (back bf 13 (back bf 15 (bit_xor xl (bf.p_array 17), xr)))))))) in
    (bit_xor r (bf.p_array 0), l)

key_byte : (key : List ℕ) (j : ℕ) → ℕ
key_byte key j = get_or key (j % length key) 0

-- The key's word for `PArray[i]`: four bytes, going round the key.
pub key_word : (key : List ℕ) (i : ℕ) → ℕ
unfolding key_byte
key_word key i =
    key_byte key (4 * i) * 2 ^ 24
    + key_byte key (4 * i + 1) * 2 ^ 16
    + key_byte key (4 * i + 2) * 2 ^ 8
    + key_byte key (4 * i + 3)

-- The loop that fills `PArray` by twos: `n` pairs from `i` on.
pub fill_p : (n i : ℕ) → ℕ × ℕ → Schedule → (ℕ × ℕ) × Schedule
fill_p zero i x bf = (x, bf)
fill_p (suc n) i x bf =
    let (l, r) = blowfish_encipher bf x in
    fill_p n (i + 2) (l, r) (record bf { p_array = update (update bf.p_array i l) (i + 1) r })

-- The loop that fills `SBoxes[i]` by twos: `n` pairs from `j` on.
pub fill_s : (n i j : ℕ) → ℕ × ℕ → Schedule → (ℕ × ℕ) × Schedule
fill_s zero i j x bf = (x, bf)
fill_s (suc n) i j x bf =
    let (l, r) = blowfish_encipher bf x in
    let box = update (update (bf.s_boxes i) j l) (j + 1) r in
    fill_s n i (j + 2) (l, r) (record bf { s_boxes = update bf.s_boxes i box })

-- `tables` are `bf_P` and `bf_S`; the key is not empty.
pub initialize : (tables : Schedule) (key : List ℕ) → Schedule
unfolding fill_p fill_s key_word
initialize tables key =
    let bf = record tables { p_array = λ i. bit_xor (tables.p_array i) (key_word key i) } in
    let (x₀, bf₀) = fill_p 9 0 (0, 0) bf in
    let (x₁, bf₁) = fill_s 128 0 0 x₀ bf₀ in
    let (x₂, bf₂) = fill_s 128 1 0 x₁ bf₁ in
    let (x₃, bf₃) = fill_s 128 2 0 x₂ bf₂ in let (x₄, bf₄) = fill_s 128 3 0 x₃ bf₃ in bf₄

-- `GetOutputLength`; `padded` is `mode & BF_PKCS5`.
pub get_output_length : (padded : Bool) → ℕ → ℕ
get_output_length padded n =
    let n' = if padded then (n + 1) % 2 ^ 32 else n in (n' + 7) % 2 ^ 32 / 8 * 8
