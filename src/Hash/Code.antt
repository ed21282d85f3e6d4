-- ===== src/Hash/Code.antt =====
-- The hash functions of hash.c and murmurhash.c, on 32-bit unsigned numbers.
use i_free_chat.Base.{ℕ, ◌+◌, ◌-◌, ◌*◌, ◌/◌, ◌%◌, ◌^◌, ◌<◌, List, [], ◌∷◌, bit_xor, arith}
use i_free_chat.Base.Bits.{xor-lt}

abbrev u32 : ℕ → ℕ
u32 n = n % 2 ^ 32

-- `x << k`, `x >> k` and `~x`
abbrev shl : ℕ → ℕ → ℕ
shl x k = u32 (x * 2 ^ k)

abbrev shr : ℕ → ℕ → ℕ
shr x k = x / 2 ^ k

abbrev complement : ℕ → ℕ
complement x = 2 ^ 32 - 1 - x

-- Thomas Wang's mix function, an assignment to each `let`.
pub hash_integer : ℕ → ℕ
hash_integer key =
    let a = u32 (key + complement (shl key 15)) in
    let b = bit_xor a (shr a 10) in
    let c = u32 (b + shl b 3) in
    let d = bit_xor c (shr c 6) in let e = u32 (d + complement (shl d 11)) in bit_xor e (shr e 16)

-- The loop of `hash_string` over the bytes that are left.
hash_bytes : List ℕ → ℕ → ℕ
hash_bytes [] hash = hash
hash_bytes (c ∷ buf) hash = hash_bytes buf (u32 (u32 (shl hash 5 + hash) + c))

pub hash_string : List ℕ → ℕ
unfolding hash_bytes
hash_string buf = hash_bytes buf 5381

hash_bytes-lt : (buf : List ℕ) (hash : ℕ) → hash < 2 ^ 32 → hash_bytes buf hash < 2 ^ 32
unfolding hash_bytes
hash_bytes-lt [] hash h = h
hash_bytes-lt (c ∷ buf) hash h = hash_bytes-lt buf _ (omega arith)

-- Both functions stay within 32 bits.
pub hash_integer-lt : (key : ℕ) → hash_integer key < 2 ^ 32
unfolding hash_integer
hash_integer-lt key = xor-lt 32 _ _ (omega arith) (omega arith)

pub hash_string-lt : (buf : List ℕ) → hash_string buf < 2 ^ 32
unfolding hash_string
hash_string-lt buf = hash_bytes-lt buf 5381 (omega arith)
