-- ===== src/Hash/Key.antt =====
-- Keys of the two kinds, and how they lie in memory.
use i_free_chat.Base.{
  ℕ, ◌+◌, ◌^◌, ◌≤◌, ◌<◌, ◌≡◌, ◌≢◌, ◌⊎◌, Bool, true, List, [], ◌∷◌, ◌++◌, arith, ◌==◌, length, All,
  str_eq, str_eq_refl, ==_refl, update, ◌∙◌, length-append,
}
use i_free_chat.Base.Memory.{
  Memory, load32, store32, store_bytes, str_at, load32-store32, store32_apart, store_bytes_apart,
}

-- The anonymous `enum` of hash.h.
pub data Ktype : Type 0 where
  key_int key_str : Ktype

-- What the `const void *key` of a table of the kind points to: a number, or the bytes of a C
-- string before its NUL.
abbrev pub Key : Ktype → Type 0
Key key_int = ℕ
Key key_str = List ℕ

-- `sizeof(unsigned int)`, `strlen(key) + 1`
abbrev pub key_bytes : (k : Ktype) → Key k → ℕ
key_bytes key_int n = 4
key_bytes key_str s = length s + 1

-- `memcpy(entry->key, key, size)`
abbrev pub copy_key : (k : Ktype) → Key k → ℕ → Memory → Memory
copy_key key_int n a m = store32 a n m
copy_key key_str s a m = store_bytes a (s ++ 0 ∷ []) m

-- `hash_key_equal` of the key at an address and a key of the caller.
pub hash_key_equal : (k : Ktype) → Memory → ℕ → Key k → Bool
hash_key_equal key_int m a n = load32 m a == n
hash_key_equal key_str m a s = str_at m a s

-- A number of 32 bits; a string without a NUL inside.
abbrev pub IsKey : (k : Ktype) → Key k → Type 0
IsKey key_int n = n < 2 ^ 32
IsKey key_str s = All (λ c. c ≢ 0) s

-- Equality of keys as values.
abbrev pub key_eq : (k : Ktype) → Key k → Key k → Bool
key_eq key_int a b = a == b
key_eq key_str a b = str_eq a b

pub key_eq_refl : (k : Ktype) (x : Key k) → key_eq k x x ≡ true
key_eq_refl key_int n = ==_refl n
key_eq_refl key_str s = str_eq_refl s

-- The key lies at the address.
abbrev pub Stored : (k : Ktype) → Memory → ℕ → Key k → Type 0
Stored key_int m a n = load32 m a ≡ n
Stored key_str m a s = str_at m a s ≡ true

str_at-str_eq :
    (m : Memory) (a : ℕ) (s t : List ℕ)
    → All (λ c. c ≢ 0) s
    → All (λ c. c ≢ 0) t
    → str_at m a s ≡ true
    → str_at m a t ≡ str_eq s t
unfolding str_at
str_at-str_eq m a [] [] hs ht e = e
str_at-str_eq m a [] (d ∷ t) hs ht e = ground arith
str_at-str_eq m a (c ∷ s) [] hs ht e = ground arith
str_at-str_eq m a (c ∷ s) (d ∷ t) hs ht e = ground (arith, str_at-str_eq m (a + 1) s t hs.1 ht.1)

-- The comparison with a stored key decides equality of the keys.
pub hash_key_equal-key_eq :
    (k : Ktype) (m : Memory) (a : ℕ) (x y : Key k)
    → IsKey k x
    → IsKey k y
    → Stored k m a x
    → hash_key_equal k m a y ≡ key_eq k x y
unfolding hash_key_equal
hash_key_equal-key_eq key_int m a x y hx hy e = rw e
hash_key_equal-key_eq key_str m a x y hx hy e = str_at-str_eq m a x y hx hy e

str_at-store_bytes :
    (s : List ℕ) (a : ℕ) (m : Memory) → str_at (store_bytes a (s ++ 0 ∷ []) m) a s ≡ true
unfolding str_at store_bytes
str_at-store_bytes [] a m = ground arith
str_at-store_bytes (c ∷ s) a m = ground (
  arith,
  str_at-store_bytes s (a + 1) (update m a c),
  store_bytes_apart (a + 1) (s ++ 0 ∷ []) a (update m a c),
)

-- What is copied is stored.
pub Stored-copy_key :
    (k : Ktype) (x : Key k) (a : ℕ) (m : Memory) → IsKey k x → Stored k (copy_key k x a m) a x
Stored-copy_key key_int n a m h = load32-store32 a n m h
Stored-copy_key key_str s a m h = str_at-store_bytes s a m

str_at_frame :
    (s : List ℕ) (a : ℕ) (m g : Memory)
    → ((b : ℕ) → a ≤ b → b < a + (length s + 1) → g b ≡ m b)
    → str_at g a s ≡ str_at m a s
unfolding str_at
str_at_frame [] a m g same = ground (arith, same a)
str_at_frame (c ∷ s) a m g same =
    ground (arith, same a, str_at_frame s (a + 1) m g (λ b h k. same b (omega arith) (omega arith)))

-- A stored key survives any change that spares its bytes.
pub Stored-frame :
    (k : Ktype) (x : Key k) (a : ℕ) (m g : Memory)
    → ((b : ℕ) → a ≤ b → b < a + key_bytes k x → g b ≡ m b)
    → Stored k m a x
    → Stored k g a x
unfolding load32
Stored-frame key_int n a m g same e =
    ground (arith, same a, same (a + 1), same (a + 2), same (a + 3))
Stored-frame key_str s a m g same e = str_at_frame s a m g same ∙ e

-- Copying a key writes its bytes only.
pub copy_key_apart :
    (k : Ktype) (x : Key k) (a b : ℕ) (m : Memory)
    → (b < a) ⊎ (a + key_bytes k x ≤ b)
    → copy_key k x a m b ≡ m b
copy_key_apart key_int n a b m h = store32_apart a n b m h
copy_key_apart key_str s a b m h =
    store_bytes_apart a (s ++ 0 ∷ []) b m (ground (arith, length-append s (0 ∷ [])))
