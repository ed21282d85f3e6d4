-- ===== src/Blowfish/Modes.antt =====
-- `Encrypt` and `Decrypt` of ifc/lib/blowfish/blowfish.c: a buffer of bytes, eight at a time.
pub mod Blocks
pub mod RoundTrip
use i_free_chat.Base.{
  ℕ, zero, suc, ◌+◌, ◌-◌, ◌*◌, ◌/◌, ◌%◌, ◌^◌, Bool, true, false, ◌||◌, List, [], ◌∷◌, ◌++◌, leb,
  ltb, not, ◌==◌, if◌then◌else◌, bit_xor, get_or, set, length, replicate,
}
use i_free_chat.MemPool.{Outcome, ret, fault}
use i_free_chat.Blowfish.{
  Schedule, byte0, byte1, byte2, byte3, blowfish_encipher, blowfish_decipher, get_output_length,
}

-- Eight bytes of the buffer, and the bytes of an initialisation vector.
pub record Block : Type 0 where
  pub b0 : ℕ
  pub b1 : ℕ
  pub b2 : ℕ
  pub b3 : ℕ
  pub b4 : ℕ
  pub b5 : ℕ
  pub b6 : ℕ
  pub b7 : ℕ

-- The word of four bytes after `change_order`: the first byte is the highest.
abbrev pub word_of : (a b c d : ℕ) → ℕ
word_of a b c d = a * 2 ^ 24 + b * 2 ^ 16 + c * 2 ^ 8 + d

abbrev pub words : Block → ℕ × ℕ
words x = (word_of x.b0 x.b1 x.b2 x.b3, word_of x.b4 x.b5 x.b6 x.b7)

abbrev pub block_of : ℕ × ℕ → Block
block_of (l, r) = record {
  b0 = byte0 l;
  b1 = byte1 l;
  b2 = byte2 l;
  b3 = byte3 l;
  b4 = byte0 r;
  b5 = byte1 r;
  b6 = byte2 r;
  b7 = byte3 r;
}

-- `*(_int64 *)dwOutput ^= IV`
abbrev pub xor_block : Block → Block → Block
xor_block x y = record {
  b0 = bit_xor x.b0 y.b0;
  b1 = bit_xor x.b1 y.b1;
  b2 = bit_xor x.b2 y.b2;
  b3 = bit_xor x.b3 y.b3;
  b4 = bit_xor x.b4 y.b4;
  b5 = bit_xor x.b5 y.b5;
  b6 = bit_xor x.b6 y.b6;
  b7 = bit_xor x.b7 y.b7;
}

pub to_blocks : List ℕ → List Block
to_blocks (a ∷ b ∷ c ∷ d ∷ e ∷ f ∷ g ∷ h ∷ s) =
    record { b0 = a; b1 = b; b2 = c; b3 = d; b4 = e; b5 = f; b6 = g; b7 = h } ∷ to_blocks s
to_blocks _ = []

pub of_blocks : List Block → List ℕ
of_blocks [] = []
of_blocks (x ∷ xs) = x.b0 ∷ x.b1 ∷ x.b2 ∷ x.b3 ∷ x.b4 ∷ x.b5 ∷ x.b6 ∷ x.b7 ∷ of_blocks xs

-- The end of `Decrypt` with `BF_PKCS5`: the result and the buffer. An empty buffer is read in
-- front of its first byte.
pub remove_padding : List ℕ → Outcome (ℕ × List ℕ)
remove_padding [] = fault
remove_padding (c ∷ s) =
    let out = c ∷ s in
    let n = length out in
    let more = get_or out (n - 1) 0 in
    if more == 0 || ltb 8 more || not (get_or out (n - more) 0 == more)
    then ret (0, out)
    else ret (n - more, set out (n - more) 0)

module _ (bf : Schedule) (cbc : Bool) where
  -- The body of the loop of `Encrypt`, between the two uses of the vector.
  pub encrypt_block : Block → Block
  encrypt_block x = block_of (blowfish_encipher bf (words x))

  pub decrypt_block : Block → Block
  decrypt_block x = block_of (blowfish_decipher bf (words x))

  pub encrypt_blocks : (iv : Block) → List Block → List Block
  unfolding encrypt_block
  encrypt_blocks iv [] = []
  encrypt_blocks iv (x ∷ xs) =
      let y = encrypt_block (if cbc then xor_block x iv else x) in
      y ∷ encrypt_blocks (if cbc then y else iv) xs

  pub decrypt_blocks : (iv : Block) → List Block → List Block
  unfolding decrypt_block
  decrypt_blocks iv [] = []
  decrypt_blocks iv (y ∷ ys) =
      let x = decrypt_block y in
      (if cbc then xor_block x iv else x) ∷ decrypt_blocks (if cbc then y else iv) ys

  -- The bytes that are written to `pOutput`; the result is their number. `padded` is
  -- `mode & BF_PKCS5`.
  pub encrypt : (padded : Bool) (iv : Block) → List ℕ → List ℕ
  unfolding to_blocks of_blocks encrypt_blocks get_output_length
  encrypt padded iv s =
      let more = get_output_length padded (length s) - length s in
      of_blocks (encrypt_blocks iv (to_blocks (s ++ replicate more (if padded then more else 0))))

  -- An input that is not a number of whole blocks is read past its end.
  pub decrypt : (padded : Bool) (iv : Block) → List ℕ → Outcome (ℕ × List ℕ)
  unfolding to_blocks of_blocks decrypt_blocks remove_padding
  decrypt padded iv s =
      let out = of_blocks (decrypt_blocks iv (to_blocks s)) in
      if not (length s % 8 == 0)
      then fault
      else if padded
      then remove_padding out
      else ret (length out, out)
