-- ===== src/Blowfish/Tests.antt =====
-- A block under a schedule of small numbers.
use i_free_chat.Base.{ℕ, ◌+◌, ◌≡◌, true, List, [], ◌∷◌, take, arith}
use i_free_chat.MemPool.{ret}
use i_free_chat.Blowfish.Modes.{Block, encrypt, decrypt}
use i_free_chat.Blowfish.Modes.Blocks.{IsSchedule, IsByteBlock}
use i_free_chat.Blowfish.Modes.RoundTrip.{decrypt-encrypt}
use i_free_chat.Blowfish.{Schedule, blowfish_encipher, blowfish_decipher}
use i_free_chat.Blowfish.Cipher.{decipher-encipher}

abbrev schedule_a : Schedule
schedule_a = record { p_array = λ i. i + 7; s_boxes = λ i j. i + j + 100 }

decipher-encipher_example :
    blowfish_decipher schedule_a (blowfish_encipher schedule_a (1, 2)) ≡ (1, 2)
decipher-encipher_example = decipher-encipher schedule_a 1 2

abbrev schedule_b : Schedule
schedule_b = record { p_array = λ i. 7; s_boxes = λ i j. 9 }

schedule_b-IsSchedule : IsSchedule schedule_b
schedule_b-IsSchedule = record { p_fits = λ i. omega arith }

abbrev vector_a : Block
vector_a = record { b0 = 1; b1 = 2; b2 = 3; b3 = 4; b4 = 5; b5 = 6; b6 = 7; b7 = 8 }

vector_a-IsByteBlock : IsByteBlock vector_a
vector_a-IsByteBlock = record {
  c0 = omega arith;
  c1 = omega arith;
  c2 = omega arith;
  c3 = omega arith;
  c4 = omega arith;
  c5 = omega arith;
  c6 = omega arith;
  c7 = omega arith;
}

abbrev text_a : List ℕ
text_a = 104 ∷ 105 ∷ 33 ∷ []

decrypt-encrypt_example :
    (after : List ℕ) × (decrypt schedule_b true true vector_a
        (encrypt schedule_b true true vector_a text_a)
      ≡ ret (3, after))
    × (take 3 after ≡ text_a)
decrypt-encrypt_example =
    decrypt-encrypt schedule_b true vector_a text_a schedule_b-IsSchedule vector_a-IsByteBlock
      (omega arith) (omega arith)
