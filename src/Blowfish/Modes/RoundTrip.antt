-- ===== src/Blowfish/Modes/RoundTrip.antt =====
-- `Decrypt` takes back what `Encrypt` wrote, padding included.
use i_free_chat.Base.{
  ℕ, zero, suc, ◌+◌, ◌-◌, ◌*◌, ◌/◌, ◌%◌, ◌^◌, ◌≤◌, ◌<◌, ◌≡◌, refl, ap, ◌∙◌, Bool, true, List, [],
  ◌∷◌, ◌++◌, ◌==◌, get_or, set, take, length, length-append, length-replicate, replicate, arith,
  All,
}
use i_free_chat.MemPool.{ret}
use i_free_chat.Blowfish.{Schedule, get_output_length}
use i_free_chat.Blowfish.Cipher.{get_output_length-bounds}
use i_free_chat.Blowfish.Modes.{
  Block, to_blocks, of_blocks, encrypt_blocks, decrypt_blocks, encrypt, decrypt, remove_padding,
}
use i_free_chat.Blowfish.Modes.Blocks.{
  IsByte, IsByteBlock, IsSchedule, decrypt-encrypt_blocks, length-of_blocks-encrypt,
  to_blocks-of_blocks, of_blocks-to_blocks, to_blocks-Bytewise,
}

All-append : (s t : List ℕ) → All IsByte s → All IsByte t → All IsByte (s ++ t)
All-append [] t h k = k
All-append (c ∷ s) t h k = (h.0, All-append s t h.1 k)

All-replicate : (n c : ℕ) → IsByte c → All IsByte (replicate n c)
All-replicate zero c h = tt
All-replicate (suc n) c h = (h, All-replicate n c h)

get_or-append : (s t : List ℕ) (i : ℕ) → get_or (s ++ t) (length s + i) 0 ≡ get_or t i 0
get_or-append [] t i = let e : 0 + i ≡ i = omega arith in ap (λ j. get_or t j 0) e
get_or-append (c ∷ s) t i =
    let e : suc (length s) + i ≡ suc (length s + i) = omega arith in
    ap (λ j. get_or (c ∷ (s ++ t)) j 0) e ∙ get_or-append s t i

get_or-replicate : (n i c : ℕ) → i < n → get_or (replicate n c) i 0 ≡ c
get_or-replicate zero i c h = absurd (omega arith)
get_or-replicate (suc n) zero c h = refl
get_or-replicate (suc n) (suc i) c h = get_or-replicate n i c (omega arith)

take-set : (s t : List ℕ) (v : ℕ) → take (length s) (set (s ++ t) (length s) v) ≡ s
take-set [] t v = refl
take-set (c ∷ s) t v = ap (◌∷◌ c) (take-set s t v)

remove_padding_lem :
    (out : List ℕ) (more : ℕ)
    → 0 < more
    → more ≤ 8
    → more ≤ length out
    → get_or out (length out - 1) 0 ≡ more
    → get_or out (length out - more) 0 ≡ more
    → remove_padding out ≡ ret (length out - more, set out (length out - more) 0)
unfolding remove_padding
remove_padding_lem [] more p q l e f = absurd (omega arith)
remove_padding_lem (c ∷ s) more p q l e f = rw (e, f) (ground arith)

-- The loops of `Decrypt` on the output of the loops of `Encrypt`.
module _ (bf : Schedule) (cbc : Bool) (iv : Block) (buf : List ℕ) (k : ℕ) (sched : IsSchedule bf)
    (vec : IsByteBlock iv) (bytes : All IsByte buf) (whole : length buf ≡ 8 * k) where
  abbrev cipher_text : List ℕ
  cipher_text = of_blocks (encrypt_blocks bf cbc iv (to_blocks buf))

  pub plain_again : of_blocks (decrypt_blocks bf cbc iv (to_blocks cipher_text)) ≡ buf
  plain_again =
      ap (λ b. of_blocks (decrypt_blocks bf cbc iv b))
        (to_blocks-of_blocks (encrypt_blocks bf cbc iv (to_blocks buf)))
      ∙ ap of_blocks (
          decrypt-encrypt_blocks bf cbc iv (to_blocks buf) sched vec
            (to_blocks-Bytewise k buf whole bytes))
      ∙ of_blocks-to_blocks k buf whole

  pub cipher_whole : length cipher_text ≡ 8 * k
  cipher_whole =
      length-of_blocks-encrypt bf cbc iv (to_blocks buf)
      ∙ ap length (of_blocks-to_blocks k buf whole)
      ∙ whole

module _ (bf : Schedule) (cbc : Bool) (iv : Block) (s : List ℕ) (sched : IsSchedule bf)
    (vec : IsByteBlock iv) (bytes : All IsByte s) (small : length s + 8 < 2 ^ 32) where
  abbrev out : ℕ
  out = get_output_length true (length s)

  abbrev more : ℕ
  more = out - length s

  abbrev buf : List ℕ
  buf = s ++ replicate more more

  more_fits : (0 < more) × (more ≤ 8) × (length s + more ≡ out) × (out ≡ 8 * (out / 8))
  more_fits =
      let b = get_output_length-bounds (length s) small in
      (omega (arith, b), omega (arith, b), omega (arith, b), omega (arith, b))

  length-buf : length buf ≡ out
  length-buf =
      length-append s (replicate more more)
      ∙ ap (λ n. length s + n) (length-replicate more more)
      ∙ more_fits.2

  whole_buf : length buf ≡ 8 * (out / 8)
  whole_buf = length-buf ∙ more_fits.3

  bytes_buf : All IsByte buf
  bytes_buf =
      All-append s (replicate more more) bytes (All-replicate more more (omega (arith, more_fits)))

  last_byte : get_or buf (length buf - 1) 0 ≡ more
  last_byte =
      ap (λ i. get_or buf i 0) (omega (arith, length-buf, more_fits))
      ∙ get_or-append s (replicate more more) (more - 1)
      ∙ get_or-replicate more (more - 1) more (omega (arith, more_fits))

  first_byte : get_or buf (length buf - more) 0 ≡ more
  first_byte =
      ap (λ i. get_or buf i 0) (omega (arith, length-buf, more_fits))
      ∙ get_or-append s (replicate more more) 0
      ∙ get_or-replicate more 0 more (more_fits.0)

  length_back : length buf - more ≡ length s
  length_back = omega (arith, length-buf, more_fits)

  stripped : remove_padding buf ≡ ret (length s, set buf (length s) 0)
  stripped =
      remove_padding_lem buf more (more_fits.0) (more_fits.1) (omega (arith, length-buf, more_fits))
        last_byte first_byte
      ∙ ap (λ n. ret (n, set buf n 0)) length_back

  -- With padding, `Decrypt` of what `Encrypt` wrote returns the length of the text, and the buffer
  -- then begins with the text, in both modes, for any bytes, any vector and any schedule of
  -- 32-bit words, if the text is not within 8 bytes of 2 ^ 32.
  pub decrypt-encrypt :
      (after : List ℕ) × (decrypt bf cbc true iv (encrypt bf cbc true iv s) ≡ ret (length s, after))
      × (take (length s) after ≡ s)
  unfolding encrypt decrypt
  decrypt-encrypt =
      let n = cipher_whole bf cbc iv buf (out / 8) sched vec bytes_buf whole_buf in
      let ok : (length (of_blocks (encrypt_blocks bf cbc iv (to_blocks buf))) % 8 == 0) ≡ true =
        ground (arith, n) in
      (
        set buf (length s) 0,
        rw (ok, plain_again bf cbc iv buf (out / 8) sched vec bytes_buf whole_buf) stripped,
        take-set s (replicate more more) 0,
      )
