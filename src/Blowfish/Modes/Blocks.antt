-- ===== src/Blowfish/Modes/Blocks.antt =====
-- Bytes, words and blocks of the cipher.
use i_free_chat.Base.{
  ℕ, zero, suc, ◌+◌, ◌*◌, ◌^◌, ◌<◌, ◌≡◌, refl, ap, ap₂, ◌∙◌, Bool, true, false, List, [], ◌∷◌,
  if◌then◌else◌, bit_xor, length, arith, All,
}
use i_free_chat.Base.Bits.{xor-lt, xor_cancel}
use i_free_chat.Blowfish.{
  Schedule, byte0, byte1, byte2, byte3, mix, round, forth, blowfish_encipher, blowfish_decipher,
}
use i_free_chat.Blowfish.Cipher.{decipher-encipher}
use i_free_chat.Blowfish.Modes.{
  Block, word_of, words, block_of, xor_block, to_blocks, of_blocks, encrypt_block, decrypt_block,
  encrypt_blocks, decrypt_blocks,
}

abbrev pub IsByte : ℕ → Type 0
IsByte c = c < 256

pub record IsByteBlock (x : Block) : Type 0 where
  pub c0 : IsByte x.b0
  pub c1 : IsByte x.b1
  pub c2 : IsByte x.b2
  pub c3 : IsByte x.b3
  pub c4 : IsByte x.b4
  pub c5 : IsByte x.b5
  pub c6 : IsByte x.b6
  pub c7 : IsByte x.b7

-- The words of the key schedule have 32 bits.
pub record IsSchedule (bf : Schedule) : Type 0 where
  pub p_fits : (i : ℕ) → bf.p_array i < 2 ^ 32

block_eq :
    (x y : Block)
    → x.b0 ≡ y.b0
    → x.b1 ≡ y.b1
    → x.b2 ≡ y.b2
    → x.b3 ≡ y.b3
    → x.b4 ≡ y.b4
    → x.b5 ≡ y.b5
    → x.b6 ≡ y.b6
    → x.b7 ≡ y.b7
    → x ≡ y
block_eq x y e0 e1 e2 e3 e4 e5 e6 e7 = λ t. record {
  b0 = e0 t;
  b1 = e1 t;
  b2 = e2 t;
  b3 = e3 t;
  b4 = e4 t;
  b5 = e5 t;
  b6 = e6 t;
  b7 = e7 t;
}

block_of-words : (x : Block) → IsByteBlock x → block_of (words x) ≡ x
block_of-words x h =
    block_eq (block_of (words x)) x (omega (arith, h)) (omega (arith, h)) (omega (arith, h))
      (omega (arith, h)) (omega (arith, h)) (omega (arith, h)) (omega (arith, h)) (omega (arith, h))

-- Both words of a pair have 32 bits.
abbrev pub Fits : ℕ × ℕ → Type 0
Fits w = (w.0 < 2 ^ 32) × (w.1 < 2 ^ 32)

words-block_of : (w : ℕ × ℕ) → Fits w → words (block_of w) ≡ w
words-block_of (l, r) (h, k) = λ t. (word l h t, word r k t)
  where
    word : (n : ℕ) → n < 2 ^ 32 → word_of (byte0 n) (byte1 n) (byte2 n) (byte3 n) ≡ n
    word n f = omega arith

words-Fits : (x : Block) → IsByteBlock x → Fits (words x)
words-Fits x h = (omega (arith, h), omega (arith, h))

block_of-IsByteBlock : (w : ℕ × ℕ) → IsByteBlock (block_of w)
block_of-IsByteBlock w = record {
  c0 = omega arith;
  c1 = omega arith;
  c2 = omega arith;
  c3 = omega arith;
  c4 = omega arith;
  c5 = omega arith;
  c6 = omega arith;
  c7 = omega arith;
}

xor-IsByteBlock : (x y : Block) → IsByteBlock x → IsByteBlock y → IsByteBlock (xor_block x y)
xor-IsByteBlock x y h k = record {
  c0 = xor-lt 8 _ _ h.c0 k.c0;
  c1 = xor-lt 8 _ _ h.c1 k.c1;
  c2 = xor-lt 8 _ _ h.c2 k.c2;
  c3 = xor-lt 8 _ _ h.c3 k.c3;
  c4 = xor-lt 8 _ _ h.c4 k.c4;
  c5 = xor-lt 8 _ _ h.c5 k.c5;
  c6 = xor-lt 8 _ _ h.c6 k.c6;
  c7 = xor-lt 8 _ _ h.c7 k.c7;
}

xor_block_cancel : (x y : Block) → xor_block (xor_block x y) y ≡ x
xor_block_cancel x y =
    block_eq (xor_block (xor_block x y) y) x (xor_cancel x.b0 y.b0) (xor_cancel x.b1 y.b1)
      (xor_cancel x.b2 y.b2) (xor_cancel x.b3 y.b3) (xor_cancel x.b4 y.b4) (xor_cancel x.b5 y.b5)
      (xor_cancel x.b6 y.b6) (xor_cancel x.b7 y.b7)

round-lt : (bf : Schedule) (a b n : ℕ) → IsSchedule bf → a < 2 ^ 32 → round bf a b n < 2 ^ 32
unfolding round mix
round-lt bf a b n s h = xor-lt 32 a _ h (xor-lt 32 _ (bf.p_array n) (omega arith) (s.p_fits n))

forth-Fits : (bf : Schedule) (n : ℕ) (w : ℕ × ℕ) → IsSchedule bf → Fits w → Fits (forth bf n w)
unfolding forth
forth-Fits bf n (l, r) s (h, k) =
    (round-lt bf l (round bf r l n) (n + 1) s h, round-lt bf r l n s k)

encipher-Fits : (bf : Schedule) (w : ℕ × ℕ) → IsSchedule bf → Fits w → Fits (blowfish_encipher bf w)
unfolding blowfish_encipher
encipher-Fits bf (xl, xr) s (h, k) =
    let start : Fits (bit_xor xl (bf.p_array 0), xr) =
      (xor-lt 32 xl (bf.p_array 0) h (s.p_fits 0), k) in
    let half =
      forth-Fits bf 7 _ s (forth-Fits bf 5 _ s (forth-Fits bf 3 _ s (forth-Fits bf 1 _ s start))) in
    let all =
      forth-Fits bf 15 _ s
        (forth-Fits bf 13 _ s (forth-Fits bf 11 _ s (forth-Fits bf 9 _ s half))) in
    (xor-lt 32 _ (bf.p_array 17) all.1 (s.p_fits 17), all.0)

pub to_blocks-of_blocks : (xs : List Block) → to_blocks (of_blocks xs) ≡ xs
unfolding to_blocks of_blocks
to_blocks-of_blocks [] = refl
to_blocks-of_blocks (x ∷ xs) = ap (◌∷◌ x) (to_blocks-of_blocks xs)

pub of_blocks-to_blocks : (k : ℕ) (s : List ℕ) → length s ≡ 8 * k → of_blocks (to_blocks s) ≡ s
unfolding to_blocks of_blocks
of_blocks-to_blocks zero [] l = refl
of_blocks-to_blocks zero (x ∷ s) l = absurd (omega (arith, l))
of_blocks-to_blocks (suc k) [] l = absurd (omega (arith, l))
of_blocks-to_blocks (suc k) (x0 ∷ []) l = absurd (omega (arith, l))
of_blocks-to_blocks (suc k) (x0 ∷ x1 ∷ []) l = absurd (omega (arith, l))
of_blocks-to_blocks (suc k) (x0 ∷ x1 ∷ x2 ∷ []) l = absurd (omega (arith, l))
of_blocks-to_blocks (suc k) (x0 ∷ x1 ∷ x2 ∷ x3 ∷ []) l = absurd (omega (arith, l))
of_blocks-to_blocks (suc k) (x0 ∷ x1 ∷ x2 ∷ x3 ∷ x4 ∷ []) l = absurd (omega (arith, l))
of_blocks-to_blocks (suc k) (x0 ∷ x1 ∷ x2 ∷ x3 ∷ x4 ∷ x5 ∷ []) l = absurd (omega (arith, l))
of_blocks-to_blocks (suc k) (x0 ∷ x1 ∷ x2 ∷ x3 ∷ x4 ∷ x5 ∷ x6 ∷ []) l = absurd (omega (arith, l))
of_blocks-to_blocks (suc k) (x0 ∷ x1 ∷ x2 ∷ x3 ∷ x4 ∷ x5 ∷ x6 ∷ x7 ∷ s) l =
    ap (λ t. x0 ∷ x1 ∷ x2 ∷ x3 ∷ x4 ∷ x5 ∷ x6 ∷ x7 ∷ t) (of_blocks-to_blocks k s (omega (arith, l)))

encrypt_block-IsByteBlock :
    (bf : Schedule) (cbc : Bool) (x : Block) → IsByteBlock (encrypt_block bf cbc x)
unfolding encrypt_block
encrypt_block-IsByteBlock bf cbc x = block_of-IsByteBlock (blowfish_encipher bf (words x))

-- One block is decrypted to what was encrypted.
pub decrypt-encrypt_block :
    (bf : Schedule) (cbc : Bool) (x : Block)
    → IsSchedule bf
    → IsByteBlock x
    → decrypt_block bf cbc (encrypt_block bf cbc x) ≡ x
unfolding encrypt_block decrypt_block
decrypt-encrypt_block bf cbc x s h =
    ap (λ w. block_of (blowfish_decipher bf w))
      (words-block_of (blowfish_encipher bf (words x))
        (encipher-Fits bf (words x) s (words-Fits x h)))
    ∙ ap block_of (decipher-encipher bf _ _)
    ∙ block_of-words x h

abbrev pub Bytewise : List Block → Type 0
Bytewise = All IsByteBlock

-- The loops invert each other, whatever the vector.
pub decrypt-encrypt_blocks :
    (bf : Schedule) (cbc : Bool) (iv : Block) (xs : List Block)
    → IsSchedule bf
    → IsByteBlock iv
    → Bytewise xs
    → decrypt_blocks bf cbc iv (encrypt_blocks bf cbc iv xs) ≡ xs
unfolding encrypt_blocks decrypt_blocks
decrypt-encrypt_blocks bf cbc iv [] s v h = refl
decrypt-encrypt_blocks bf false iv (x ∷ xs) s v h =
    ap₂ ◌∷◌ (decrypt-encrypt_block bf false x s h.0) (decrypt-encrypt_blocks bf false iv xs s v h.1)
decrypt-encrypt_blocks bf true iv (x ∷ xs) s v h =
    let y = encrypt_block bf true (xor_block x iv) in
    ap₂ ◌∷◌
      (ap (λ b. xor_block b iv)
          (decrypt-encrypt_block bf true (xor_block x iv) s (xor-IsByteBlock x iv h.0 v))
        ∙ xor_block_cancel x iv)
      (decrypt-encrypt_blocks bf true y xs s (encrypt_block-IsByteBlock bf true (xor_block x iv))
        h.1)

pub length-of_blocks-encrypt :
    (bf : Schedule) (cbc : Bool) (iv : Block) (xs : List Block)
    → length (of_blocks (encrypt_blocks bf cbc iv xs)) ≡ length (of_blocks xs)
unfolding of_blocks encrypt_blocks
length-of_blocks-encrypt bf cbc iv [] = refl
length-of_blocks-encrypt bf cbc iv (x ∷ xs) =
    let y = encrypt_block bf cbc (if cbc then xor_block x iv else x) in
    ap (λ n. suc (suc (suc (suc (suc (suc (suc (suc n))))))))
      (length-of_blocks-encrypt bf cbc (if cbc then y else iv) xs)

pub to_blocks-Bytewise :
    (k : ℕ) (s : List ℕ) → length s ≡ 8 * k → All IsByte s → Bytewise (to_blocks s)
unfolding to_blocks
to_blocks-Bytewise zero [] l h = tt
to_blocks-Bytewise zero (x ∷ s) l h = absurd (omega (arith, l))
to_blocks-Bytewise (suc k) [] l h = absurd (omega (arith, l))
to_blocks-Bytewise (suc k) (x0 ∷ []) l h = absurd (omega (arith, l))
to_blocks-Bytewise (suc k) (x0 ∷ x1 ∷ []) l h = absurd (omega (arith, l))
to_blocks-Bytewise (suc k) (x0 ∷ x1 ∷ x2 ∷ []) l h = absurd (omega (arith, l))
to_blocks-Bytewise (suc k) (x0 ∷ x1 ∷ x2 ∷ x3 ∷ []) l h = absurd (omega (arith, l))
to_blocks-Bytewise (suc k) (x0 ∷ x1 ∷ x2 ∷ x3 ∷ x4 ∷ []) l h = absurd (omega (arith, l))
to_blocks-Bytewise (suc k) (x0 ∷ x1 ∷ x2 ∷ x3 ∷ x4 ∷ x5 ∷ []) l h = absurd (omega (arith, l))
to_blocks-Bytewise (suc k) (x0 ∷ x1 ∷ x2 ∷ x3 ∷ x4 ∷ x5 ∷ x6 ∷ []) l h = absurd (omega (arith, l))
to_blocks-Bytewise (suc k) (x0 ∷ x1 ∷ x2 ∷ x3 ∷ x4 ∷ x5 ∷ x6 ∷ x7 ∷ s) l
      (h0, (h1, (h2, (h3, (h4, (h5, (h6, (h7, h)))))))) =
    (
      record { c0 = h0; c1 = h1; c2 = h2; c3 = h3; c4 = h4; c5 = h5; c6 = h6; c7 = h7 },
      to_blocks-Bytewise k s (omega (arith, l)) h,
    )
