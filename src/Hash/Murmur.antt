-- ===== src/Hash/Murmur.antt =====
-- ifc/lib/hash/murmurhash.c: `MurmurHash2` of a byte string.
use i_free_chat.Base.{ℕ, ◌+◌, ◌*◌, ◌/◌, ◌%◌, ◌^◌, ◌<◌, List, [], ◌∷◌, length, bit_xor, arith}
use i_free_chat.Base.Bits.{xor-lt}

-- Multiplication by the constant `m`.
abbrev times_m : ℕ → ℕ
times_m x = x * 0x5bd1e995 % 2 ^ 32

-- `h ^= h >> r`
abbrev fold : (r x : ℕ) → ℕ
fold r x = bit_xor x (x / 2 ^ r)

-- One round of the loop, with the word that is read.
mix_word : (h k : ℕ) → ℕ
mix_word h k = bit_xor (times_m h) (times_m (fold 24 (times_m k)))

-- The loop, and the switch over what is left.
mix_bytes : List ℕ → ℕ → ℕ
unfolding mix_word
mix_bytes [] h = h
mix_bytes (a ∷ []) h = times_m (bit_xor h a)
mix_bytes (a ∷ b ∷ []) h = times_m (bit_xor (bit_xor h (b * 2 ^ 8)) a)
mix_bytes (a ∷ b ∷ c ∷ []) h = times_m (bit_xor (bit_xor (bit_xor h (c * 2 ^ 16)) (b * 2 ^ 8)) a)
mix_bytes (a ∷ b ∷ c ∷ d ∷ s) h = mix_bytes s (mix_word h (a + b * 2 ^ 8 + c * 2 ^ 16 + d * 2 ^ 24))

final_mix : ℕ → ℕ
final_mix h = fold 15 (times_m (fold 13 h))

-- The length is that of the key.
pub murmur_hash2 : (key : List ℕ) (seed : ℕ) → ℕ
unfolding mix_bytes final_mix
murmur_hash2 key seed = final_mix (mix_bytes key (bit_xor seed (length key)))

fold-lt : (r x : ℕ) → x / 2 ^ r < 2 ^ 32 → x < 2 ^ 32 → fold r x < 2 ^ 32
fold-lt r x k h = xor-lt 32 x (x / 2 ^ r) h k

-- Every hash is a 32-bit number.
pub murmur_hash2-lt : (key : List ℕ) (seed : ℕ) → murmur_hash2 key seed < 2 ^ 32
unfolding murmur_hash2 final_mix
murmur_hash2-lt key seed = fold-lt 15 (times_m (fold 13 _)) (omega arith) (omega arith)
