-- ===== src/Blowfish/Cipher.antt =====
-- Deciphering inverts enciphering, whatever the key schedule is.
use i_free_chat.Base.{
  ℕ, ◌+◌, ◌%◌, ◌^◌, ◌≤◌, ◌<◌, true, false, arith, ◌≡◌, refl, sym, ap, ◌∙◌, bit_xor,
}
use i_free_chat.Base.Bits.{xor_cancel}
use i_free_chat.Blowfish.{
  Schedule, mix, round, forth, back, blowfish_encipher, blowfish_decipher, get_output_length,
}

abbrev swap : ℕ × ℕ → ℕ × ℕ
swap (l, r) = (r, l)

-- A round with the same other word and the same key undoes itself.
round_twice : (bf : Schedule) (a b n : ℕ) → round bf (round bf a b n) b n ≡ a
unfolding round
round_twice bf a b n = xor_cancel a (bit_xor (mix bf b) (bf.p_array n))

back-forth : (bf : Schedule) (n : ℕ) (x : ℕ × ℕ) → back bf n (swap (forth bf n x)) ≡ swap x
unfolding back forth
back-forth bf n (l, r) = rw (round_twice bf l (round bf r l n) (n + 1), round_twice bf r l n)

forth-back : (bf : Schedule) (n : ℕ) (x : ℕ × ℕ) → forth bf n (swap (back bf n x)) ≡ swap x
unfolding back forth
forth-back bf n (l, r) = rw (round_twice bf l (round bf r l (n + 1)) n, round_twice bf r l (n + 1))

undo_all :
    (bf : Schedule) (x : ℕ × ℕ)
    → back bf 1 (
        back bf 3 (
          back bf 5 (
            back bf 7 (
              back bf 9 (
                back bf 11 (
                  back bf 13 (
                    back bf 15 (
                      swap (
                        forth bf 15 (
                          forth bf 13 (
                            forth bf 11 (
                              forth bf 9
                                (forth bf 7 (forth bf 5 (forth bf 3 (forth bf 1 x))))))))))))))))
      ≡ swap x
undo_all bf x = rw (
  back-forth bf 15 (
      forth bf 13 (forth bf 11 (forth bf 9 (forth bf 7 (forth bf 5 (forth bf 3 (forth bf 1 x))))))),
  back-forth bf 13 (forth bf 11 (forth bf 9 (forth bf 7 (forth bf 5 (forth bf 3 (forth bf 1 x)))))),
  back-forth bf 11 (forth bf 9 (forth bf 7 (forth bf 5 (forth bf 3 (forth bf 1 x))))),
  back-forth bf 9 (forth bf 7 (forth bf 5 (forth bf 3 (forth bf 1 x)))),
  back-forth bf 7 (forth bf 5 (forth bf 3 (forth bf 1 x))),
  back-forth bf 5 (forth bf 3 (forth bf 1 x)),
  back-forth bf 3 (forth bf 1 x),
  back-forth bf 1 x,
)

-- Both functions take the words apart around the rounds.
encipher_of :
    (bf : Schedule) (xl xr l r : ℕ)
    → forth bf 15 (
        forth bf 13 (
          forth bf 11 (
            forth bf 9
              (forth bf 7 (forth bf 5 (forth bf 3 (forth bf 1 (bit_xor xl (bf.p_array 0), xr))))))))
      ≡ (l, r)
    → blowfish_encipher bf (xl, xr) ≡ (bit_xor r (bf.p_array 17), l)
unfolding blowfish_encipher
encipher_of bf xl xr l r e = rw e

decipher_of :
    (bf : Schedule) (xl xr l r : ℕ)
    → back bf 1 (
        back bf 3 (
          back bf 5 (
            back bf 7
              (back bf 9 (back bf 11 (back bf 13 (back bf 15 (bit_xor xl (bf.p_array 17), xr))))))))
      ≡ (l, r)
    → blowfish_decipher bf (xl, xr) ≡ (bit_xor r (bf.p_array 0), l)
unfolding blowfish_decipher
decipher_of bf xl xr l r e = rw e

decipher_mid :
    (bf : Schedule) (xl xr : ℕ) (y : ℕ × ℕ)
    → forth bf 15 (
        forth bf 13 (
          forth bf 11 (
            forth bf 9
              (forth bf 7 (forth bf 5 (forth bf 3 (forth bf 1 (bit_xor xl (bf.p_array 0), xr))))))))
      ≡ y
    → blowfish_decipher bf (blowfish_encipher bf (xl, xr)) ≡ (xl, xr)
decipher_mid bf xl xr (l, r) e =
    ap (blowfish_decipher bf) (encipher_of bf xl xr l r e)
    ∙ decipher_of bf (bit_xor r (bf.p_array 17)) l xr (bit_xor xl (bf.p_array 0)) (
        rw (xor_cancel r (bf.p_array 17)) (
          ap
            (λ z. back bf 1 (
              back bf 3 (
                back bf 5 (back bf 7 (back bf 9 (back bf 11 (back bf 13 (back bf 15 (swap z)))))))))
            (sym e)
          ∙ undo_all bf (bit_xor xl (bf.p_array 0), xr)))
    ∙ ap (λ w. (w, xr)) (xor_cancel xl (bf.p_array 0))

-- `Blowfish_decipher` after `Blowfish_encipher` gives a block back, for every key schedule.
pub decipher-encipher :
    (bf : Schedule) (xl xr : ℕ) → blowfish_decipher bf (blowfish_encipher bf (xl, xr)) ≡ (xl, xr)
decipher-encipher bf xl xr = decipher_mid bf xl xr _ refl

-- With padding, the output is the least multiple of 8 beyond the input's length; without, the least
-- that is not below it, if the input is not within 8 bytes of 2 ^ 32.
pub get_output_length-bounds :
    (n : ℕ)
    → n + 8 < 2 ^ 32
    → (get_output_length true n % 8 ≡ 0)
      × (n < get_output_length true n)
      × (get_output_length true n ≤ n + 8)
      × (get_output_length false n % 8 ≡ 0)
      × (n ≤ get_output_length false n)
      × (get_output_length false n < n + 8)
unfolding get_output_length
get_output_length-bounds n h = ground arith
