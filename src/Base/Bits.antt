-- ===== src/Base/Bits.antt =====
-- The native bit operations at variables: the equation for the lowest digit, masks and xor.
use Prim.Native.Nat.{ℕ, zero, suc, ◌+◌, ◌-◌, ◌*◌, ◌/◌, ◌%◌, ◌^◌, ◌≤◌, ◌<◌}
use Prim.Native.Nat.{min, max, differ, bit_and, bit_or, bit_xor, digits, bitwise}
use Prim.Native.Nat.{bit_and-bitwise, bit_or-bitwise, bit_xor-bitwise}
use mathlib.Core.Path.{◌≡◌, refl, sym, ap, ap₂, ◌∙◌}
use native.Mathlib.Nat.{le_refl, pow-suc, one-le-pow}
use native.Mathlib.Omega.{arith}

module _ (low : ℕ → ℕ) (digit : ℕ → ℕ → ℕ) where
  no_digits : (fuel b : ℕ) → digits low digit fuel 0 b ≡ low b
  no_digits zero b = refl
  no_digits (suc fuel) b = refl

  -- Any fuel that is not below the first number gives the same result.
  fuel_free : (k a b m : ℕ) → a ≤ k → a ≤ m → digits low digit k a b ≡ digits low digit m a b
  fuel_free k zero b m h _ = no_digits k b ∙ sym (no_digits m b)
  fuel_free zero (suc a) b m h l = absurd (omega arith)
  fuel_free (suc k) (suc a) b zero h l = absurd (omega arith)
  fuel_free (suc k) (suc a) b (suc m) h l =
      ap (λ d. d * 2 + digit (suc a % 2) (b % 2))
        (fuel_free k (suc a / 2) (b / 2) m (omega arith) (omega arith))

  halves :
      (n b : ℕ)
      → 0 < n
      → bitwise low digit n b ≡ 2 * bitwise low digit (n / 2) (b / 2) + digit (n % 2) (b % 2)
  halves zero b h = absurd (omega arith)
  halves (suc n) b h =
      let e = fuel_free n (suc n / 2) (b / 2) (suc n / 2) (omega arith) (omega arith) in
      omega (arith, e)

-- The three operations by the lowest digits and the halves.
pub or_halves : (x y : ℕ) → bit_or x y ≡ 2 * bit_or (x / 2) (y / 2) + max (x % 2) (y % 2)
or_halves zero y = simp bit_or-bitwise (omega arith)
or_halves (suc x) y = simp bit_or-bitwise (halves (λ d. d) max (suc x) y (omega arith))

pub and_halves : (x y : ℕ) → bit_and x y ≡ 2 * bit_and (x / 2) (y / 2) + min (x % 2) (y % 2)
and_halves zero y = simp bit_and-bitwise (omega arith)
and_halves (suc x) y = simp bit_and-bitwise (halves (λ d. 0) min (suc x) y (omega arith))

zero-bit_xor : (b : ℕ) → bit_xor 0 b ≡ b
zero-bit_xor b = bit_xor-bitwise 0 b

pub xor_halves : (x y : ℕ) → bit_xor x y ≡ 2 * bit_xor (x / 2) (y / 2) + differ (x % 2) (y % 2)
xor_halves zero y = omega (arith, zero-bit_xor y, zero-bit_xor (y / 2))
xor_halves (suc x) y = simp bit_xor-bitwise (halves (λ d. d) differ (suc x) y (omega arith))

differ-lt : (x y : ℕ) → x < 2 → y < 2 → differ x y < 2
differ-lt zero y p q = q
differ-lt (suc x) zero p q = p
differ-lt (suc zero) (suc y) p q = omega arith
differ-lt (suc (suc x)) (suc y) p q = absurd (omega arith)

differ_cancel : (x y : ℕ) → x < 2 → y < 2 → differ (differ x y) y ≡ x
differ_cancel zero zero p q = refl
differ_cancel zero (suc zero) p q = refl
differ_cancel zero (suc (suc y)) p q = absurd (omega arith)
differ_cancel (suc zero) zero p q = refl
differ_cancel (suc zero) (suc zero) p q = refl
differ_cancel (suc zero) (suc (suc y)) p q = absurd (omega arith)
differ_cancel (suc (suc x)) y p q = absurd (omega arith)

xor_parts :
    (a b : ℕ)
    → (bit_xor a b / 2 ≡ bit_xor (a / 2) (b / 2)) × (bit_xor a b % 2 ≡ differ (a % 2) (b % 2))
xor_parts a b = omega (arith, xor_halves a b, differ-lt (a % 2) (b % 2) (omega arith) (omega arith))

xor_cancel_fuel : (n a b : ℕ) → a ≤ n → b ≤ n → bit_xor (bit_xor a b) b ≡ a
xor_cancel_fuel zero zero zero p q = refl
xor_cancel_fuel zero (suc a) b p q = absurd (omega arith)
xor_cancel_fuel zero zero (suc b) p q = absurd (omega arith)
xor_cancel_fuel (suc n) a b p q =
    rw (xor_halves (bit_xor a b) b, (xor_parts a b).0, (xor_parts a b).1)
      (omega (
        arith,
        xor_cancel_fuel n (a / 2) (b / 2) (omega arith) (omega arith),
        differ_cancel (a % 2) (b % 2) (omega arith) (omega arith),
      ))

-- Exclusive or with the same number twice gives the first back.
pub xor_cancel : (a b : ℕ) → bit_xor (bit_xor a b) b ≡ a
xor_cancel a b = xor_cancel_fuel (a + b) a b (omega arith) (omega arith)

pub xor-lt : (k a b : ℕ) → a < 2 ^ k → b < 2 ^ k → bit_xor a b < 2 ^ k
xor-lt zero a b p q =
    let ea : a ≡ 0 = omega arith in let eb : b ≡ 0 = omega arith in rw (ea, eb) (omega arith)
xor-lt (suc k) a b p q = omega (
  arith,
  pow-suc 2 k,
  xor_parts a b,
  xor-lt k (a / 2) (b / 2) (omega (arith, pow-suc 2 k)) (omega (arith, pow-suc 2 k)),
)

and_nothing : (k x : ℕ) → x ≤ k → bit_and x 0 ≡ 0
and_nothing zero zero h = refl
and_nothing zero (suc x) h = absurd (omega arith)
and_nothing (suc k) zero h = refl
and_nothing (suc k) (suc x) h =
    omega (arith, and_halves (suc x) 0, and_nothing k (suc x / 2) (omega arith))

and-le_fuel : (n a m : ℕ) → m ≤ n → bit_and a m ≤ m
and-le_fuel zero a m p =
    let e : m ≡ 0 = omega arith in rw (e, and_nothing a a (le_refl a)) (le_refl 0)
and-le_fuel (suc n) a m p =
    omega (arith, and_halves a m, and-le_fuel n (a / 2) (m / 2) (omega arith))

-- A masked number is at most the mask.
pub and-le : (a m : ℕ) → bit_and a m ≤ m
and-le a m = and-le_fuel m a m (le_refl m)

or_nothing : (k x : ℕ) → x ≤ k → bit_or x 0 ≡ x
or_nothing k zero h = refl
or_nothing zero (suc x) h = absurd (omega arith)
or_nothing (suc k) (suc x) h =
    omega (arith, or_halves (suc x) 0, or_nothing k (suc x / 2) (omega arith))

bit_or-zero : (x : ℕ) → bit_or x 0 ≡ x
bit_or-zero x = or_nothing x x (le_refl x)

-- `(q << k) | r` is a sum when `r` fits `k` bits.
pub or_fields : (k q r : ℕ) → r < 2 ^ k → bit_or (q * 2 ^ k) r ≡ q * 2 ^ k + r
or_fields zero q r fits = ground (arith, bit_or-zero q)
or_fields (suc k) q r fits =
    let e : q * 2 ^ suc k ≡ 2 * (q * 2 ^ k) = omega (arith, ap (λ (t : ℕ). q * t) (pow-suc 2 k)) in
    ground (
      arith,
      or_halves (q * 2 ^ suc k) r,
      e,
      pow-suc 2 k,
      or_fields k q (r / 2) (omega (arith, pow-suc 2 k)),
    )

and_fields : (k q r : ℕ) → r < 2 ^ k → bit_and (q * 2 ^ k + r) (2 ^ k - 1) ≡ r
and_fields zero q r fits = omega (arith, and_nothing (q * 1 + r) (q * 1 + r) (le_refl _))
and_fields (suc k) q r fits =
    let e : q * 2 ^ suc k ≡ 2 * (q * 2 ^ k) = omega (arith, ap (λ (t : ℕ). q * t) (pow-suc 2 k)) in
    ground (
      arith,
      and_halves (q * 2 ^ suc k + r) (2 ^ suc k - 1),
      e,
      pow-suc 2 k,
      one-le-pow k 2,
      and_fields k q (r / 2) (omega (arith, pow-suc 2 k)),
    )

-- A mask of `k` low bits is the remainder by `2 ^ k`.
pub and_mask : (k a : ℕ) → bit_and a (2 ^ k - 1) ≡ a % 2 ^ k
and_mask k a = ground (arith, one-le-pow k 2, and_fields k (a / 2 ^ k) (a % 2 ^ k))

-- A mask of high bits keeps those of the number.
pub and_high : (k q r m : ℕ) → r < 2 ^ k → bit_and (q * 2 ^ k + r) (m * 2 ^ k) ≡ bit_and q m * 2 ^ k
and_high zero q r m fits =
    let e : q * 1 + r ≡ q = omega arith in
    let d : m * 1 ≡ m = omega arith in ap₂ bit_and e d ∙ omega arith
and_high (suc k) q r m fits =
    let e : q * 2 ^ suc k ≡ 2 * (q * 2 ^ k) = omega (arith, ap (λ (t : ℕ). q * t) (pow-suc 2 k)) in
    let d : m * 2 ^ suc k ≡ 2 * (m * 2 ^ k) = omega (arith, ap (λ (t : ℕ). m * t) (pow-suc 2 k)) in
    let f : bit_and q m * 2 ^ suc k ≡ 2 * (bit_and q m * 2 ^ k) =
      omega (arith, ap (λ (t : ℕ). bit_and q m * t) (pow-suc 2 k)) in
    ground (
      arith,
      and_halves (q * 2 ^ suc k + r) (m * 2 ^ suc k),
      e,
      d,
      f,
      pow-suc 2 k,
      and_high k q (r / 2) m (omega (arith, pow-suc 2 k)),
    )
