-- ===== src/Base/Memory.antt =====
-- Memory as bytes at addresses, the 32-bit words in it, and C strings.
use Prim.Native.Nat.{ℕ, zero, suc, ◌+◌, ◌*◌, ◌/◌, ◌%◌, ◌^◌, ◌≤◌, ◌<◌}
use mathlib.Core.Path.{◌≡◌, refl, ap₂, ◌∙◌}
use mathlib.Core.Logic.{◌⊎◌, inl}
use mathlib.Core.Bool.{Bool, true, ◌&&◌}
use mathlib.Core.List.{List, [], ◌∷◌, ◌++◌}
use native.Mathlib.Omega.{arith}
use i_free_chat.Base.Tests.{leb, ltb, ◌==◌, if◌then◌else◌}
use i_free_chat.Base.Lists.{update, length}

abbrev pub Memory : Type 0
Memory = ℕ → ℕ

-- `*(uint32_t *)a`, little endian.
unfoldable pub load32 : Memory → ℕ → ℕ
load32 m a = m a + 256 * m (a + 1) + 65536 * m (a + 2) + 16777216 * m (a + 3)

unfoldable pub store32 : ℕ → ℕ → Memory → Memory
store32 a v m =
    update
      (update (update (update m a (v % 256)) (a + 1) (v / 256 % 256)) (a + 2) (v / 65536 % 256))
      (a + 3) (v / 16777216 % 256)

-- `memcpy` of the bytes to `a`.
unfoldable pub store_bytes : ℕ → List ℕ → Memory → Memory
store_bytes a [] m = m
store_bytes a (c ∷ s) m = store_bytes (a + 1) s (update m a c)

-- `strcmp` of the string at `a` with `s`, as a test for equality.
unfoldable pub str_at : Memory → ℕ → List ℕ → Bool
str_at m a [] = m a == 0
str_at m a (c ∷ s) = (m a == c) && str_at m (a + 1) s

-- A word is read back as it was written, and no other byte changes.
pub load32-store32 : (a v : ℕ) (m : Memory) → v < 2 ^ 32 → load32 (store32 a v m) a ≡ v
unfolding load32 store32
load32-store32 a v m h = ground arith

pub store32_apart : (a v b : ℕ) (m : Memory) → (b < a) ⊎ (a + 4 ≤ b) → store32 a v m b ≡ m b
unfolding store32
store32_apart a v b m h = ground arith

pub store_bytes_apart :
    (a : ℕ) (s : List ℕ) (b : ℕ) (m : Memory)
    → (b < a) ⊎ (a + length s ≤ b)
    → store_bytes a s m b ≡ m b
unfolding store_bytes
store_bytes_apart a [] b m h = refl
store_bytes_apart a (c ∷ s) b m h = ground (arith, store_bytes_apart (a + 1) s b (update m a c))

-- `n` bytes from an address.
unfoldable pub read_bytes : ℕ → Memory → ℕ → List ℕ
read_bytes zero m a = []
read_bytes (suc n) m a = m a ∷ read_bytes n m (a + 1)

-- `memset(..., 0, n)` at an address.
unfoldable pub clear : (a n : ℕ) → Memory → Memory
clear a n m b = if leb a b && ltb b (a + n) then 0 else m b

pub clear_apart : (a n b : ℕ) (m : Memory) → (b < a) ⊎ (a + n ≤ b) → clear a n m b ≡ m b
unfolding clear
clear_apart a n b m h = ground arith

-- A string that is copied is found there.
pub str_at-store_bytes :
    (a : ℕ) (s : List ℕ) (m : Memory) → str_at (store_bytes a (s ++ 0 ∷ []) m) a s ≡ true
unfolding str_at store_bytes
str_at-store_bytes a [] m = ground arith
str_at-store_bytes a (c ∷ s) m = ground (
  arith,
  store_bytes_apart (a + 1) (s ++ 0 ∷ []) a (update m a c) (inl (omega arith)),
  str_at-store_bytes (a + 1) s (update m a c),
)

pub read-store_bytes :
    (a : ℕ) (s : List ℕ) (m : Memory) → read_bytes (length s) (store_bytes a s m) a ≡ s
unfolding read_bytes store_bytes
read-store_bytes a [] m = refl
read-store_bytes a (c ∷ s) m =
    ap₂ ◌∷◌ (store_bytes_apart (a + 1) s a (update m a c) (inl (omega arith)) ∙ ground arith)
      (read-store_bytes (a + 1) s (update m a c))

-- Two memories that agree on a string and the NUL behind it hold the same string there.
pub str_at_agree :
    (m m' : Memory) (a : ℕ) (s : List ℕ)
    → ((b : ℕ) → a ≤ b → b ≤ a + length s → m' b ≡ m b)
    → str_at m a s ≡ true
    → str_at m' a s ≡ true
unfolding str_at
str_at_agree m m' a [] h e = ground (arith, h a (omega arith) (omega arith))
str_at_agree m m' a (c ∷ s) h e = ground (
  arith,
  h a (omega arith) (omega arith),
  str_at_agree m m' (a + 1) s (λ b p q. h b (omega arith) (omega arith)),
)

-- A string that is copied behind or in front of another leaves it in place.
pub str_at-store_apart :
    (a : ℕ) (s : List ℕ) (b : ℕ) (t : List ℕ) (m : Memory)
    → (a + length s < b) ⊎ (b + length t ≤ a)
    → str_at m a s ≡ true
    → str_at (store_bytes b t m) a s ≡ true
str_at-store_apart a s b t m h =
    str_at_agree m (store_bytes b t m) a s (λ c p q. store_bytes_apart b t c m (ground arith))

pub str_at-clear_apart :
    (a : ℕ) (s : List ℕ) (b n : ℕ) (m : Memory)
    → (a + length s < b) ⊎ (b + n ≤ a)
    → str_at m a s ≡ true
    → str_at (clear b n m) a s ≡ true
str_at-clear_apart a s b n m h =
    str_at_agree m (clear b n m) a s (λ c p q. clear_apart b n c m (ground arith))

-- Bytes that are read and end in a NUL are a string.
pub str_at-read_bytes :
    (s : List ℕ) (m : Memory) (a : ℕ)
    → read_bytes (length (s ++ 0 ∷ [])) m a ≡ s ++ 0 ∷ []
    → str_at m a s ≡ true
unfolding read_bytes str_at
str_at-read_bytes [] m a e = ground arith
str_at-read_bytes (c ∷ s) m a e = ground (arith, str_at-read_bytes s m (a + 1))
