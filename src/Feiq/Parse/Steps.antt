-- ===== src/Feiq/Parse/Steps.antt =====
-- What each step of the parser makes of the text that the builder prints.
use i_free_chat.Base.{
  ℕ, ◌+◌, ◌^◌, ◌≤◌, ◌<◌, ◌≡◌, refl, sym, ap, ◌∙◌, false, some, [], ◌∷◌, ◌++◌, ◌==◌, length, has,
  length-append, has-append, append-nil, arith,
}
use i_free_chat.Base.Memory.{store_bytes}
use i_free_chat.Text.{Bytes, codes, decimal, atoi, starts_with, is_digit}
use i_free_chat.Text.Decimal.{atoi-decimal, has-decimal, length-decimal}
use i_free_chat.Text.Cut.{strchr-append, strrchr-append}
use i_free_chat.MemPool.{ret}
use i_free_chat.Feiq.{Msg, copy_to, strcpy_to, msg_bytes}
use i_free_chat.Feiq.Build.{version_text}
use i_free_chat.Feiq.Parse.{
  found, until, next_mark, get_avatar_id_from_version, get_mac_from_version,
  get_gpmsg_size_from_version, cut, less,
}

-- A string without `:`.
abbrev pub IsField : Bytes → Type 0
IsField s = (has b':' s ≡ false) × (has 0 s ≡ false)

-- A part of the version: a string without `:`, `#` and `_`.
abbrev pub IsPart : Bytes → Type 0
IsPart s = (has b':' s ≡ false) × (has 0 s ≡ false) × (has b'#' s ≡ false) × (has b'_' s ≡ false)

pub lacks-append :
    (c : ℕ) (s t : Bytes) → has c s ≡ false → has c t ≡ false → has c (s ++ t) ≡ false
lacks-append c s t h k = ground (arith, has-append c s t)

pub decimal-IsPart : (n : ℕ) → IsPart (decimal n)
unfolding is_digit
decimal-IsPart n = (
  has-decimal b':' n refl,
  has-decimal 0 n refl,
  has-decimal b'#' n refl,
  has-decimal b'_' n refl,
)

pub cut-append : (s t : Bytes) → IsField s → cut (s ++ b':' ∷ t) ≡ ret (s, t)
unfolding cut found
cut-append s t (h, k) = rw (strchr-append b':' s t h k)

next_mark-append :
    (s t : Bytes) → has b'#' s ≡ false → has 0 s ≡ false → next_mark (s ++ b'#' ∷ t) ≡ ret t
unfolding next_mark found
next_mark-append s t h k = rw (strchr-append b'#' s t h k)

until-append : (c : ℕ) (s t u : Bytes) → has c s ≡ false → until c ((s ++ c ∷ t) ++ u) ≡ some s
unfolding until
until-append c [] t u h = ground arith
until-append c (d ∷ s) t u h = ground (arith, until-append c s t u)

-- A copy that fits the structure.
abbrev pub written : ℕ → Bytes → Msg → Msg
written offset s m = record m { text = store_bytes offset (s ++ 0 ∷ []) m.text }

pub strcpy_to-fits :
    (offset : ℕ) (s : Bytes) (m : Msg)
    → offset + length s < msg_bytes
    → strcpy_to offset s m ≡ ret (written offset s m)
unfolding strcpy_to copy_to
strcpy_to-fits offset s m h = ground (arith, length-append s (0 ∷ []))

pub less-append :
    (s t : Bytes) → length (s ++ b':' ∷ t) < 2 ^ 32 → less (length (s ++ b':' ∷ t)) s ≡ length t
less-append s t h = omega (arith, length-append s (b':' ∷ t), h)

-- The parts of the version.
module _ (kind mac : Bytes) (a g : ℕ) (pk : IsPart kind) (pm : IsPart mac) where
  abbrev version : Bytes
  version = version_text kind a mac g

  -- From the group message size, the two reserved numbers, the address and the kind on.
  abbrev tail3 : Bytes
  tail3 = b'0' ∷ b'#' ∷ b'0' ∷ b'#' ∷ decimal g

  abbrev tail2 : Bytes
  tail2 = mac ++ b'#' ∷ tail3

  abbrev tail1 : Bytes
  tail1 = kind ++ b'#' ∷ tail2

  lacks_tail :
      (c : ℕ)
      → is_digit c ≡ false
      → (c == b'#') ≡ false
      → (c == b'0') ≡ false
      → has c kind ≡ false
      → has c mac ≡ false
      → has c (decimal a ++ b'#' ∷ tail1) ≡ false
  lacks_tail c h e z p q = ground (
    arith,
    lacks-append c (decimal a) (b'#' ∷ tail1) (has-decimal c a h),
    lacks-append c kind (b'#' ∷ tail2) p,
    lacks-append c mac (b'#' ∷ tail3) q,
    has-decimal c g h,
  )

  lacks_version :
      (c : ℕ)
      → is_digit c ≡ false
      → has c (codes "1_lbt4_") ≡ false
      → (c == b'#') ≡ false
      → (c == b'0') ≡ false
      → has c kind ≡ false
      → has c mac ≡ false
      → has c version ≡ false
  unfolding version_text
  lacks_version c h k e z p q =
      lacks-append c (codes "1_lbt4_") (decimal a ++ b'#' ∷ tail1) k (lacks_tail c h e z p q)

  tail0_lacks_low : has b'_' (decimal a ++ b'#' ∷ tail1) ≡ false
  unfolding is_digit
  tail0_lacks_low = lacks_tail b'_' refl refl refl (pk.3) (pm.3)

  pub version_text-IsField : IsField version
  unfolding is_digit
  version_text-IsField = (
    lacks_version b':' refl refl refl refl (pk.0) (pm.0),
    lacks_version 0 refl refl refl refl (pk.1) (pm.1),
  )

  pub length-version_text : length version ≤ 40 + length kind + length mac
  unfolding version_text
  length-version_text = omega (
    arith,
    length-append (decimal a) (b'#' ∷ tail1),
    length-append kind (b'#' ∷ tail2),
    length-append mac (b'#' ∷ tail3),
    length-decimal a,
    length-decimal g,
  )

  pub get_avatar_id-version_text : a < 2 ^ 31 → get_avatar_id_from_version version ≡ ret a
  unfolding get_avatar_id_from_version version_text found starts_with is_digit
  get_avatar_id-version_text h = rw (
    strrchr-append b'_' (codes "1_lbt4") (decimal a ++ b'#' ∷ tail1) tail0_lacks_low,
    atoi-decimal a (b'#' ∷ tail1) h refl,
  )

  pub get_mac-version_text : (behind : Bytes) → get_mac_from_version version behind ≡ ret mac
  unfolding get_mac_from_version version_text found starts_with
  get_mac-version_text behind = rw (
    strchr-append b'#' (codes "1_lbt4_" ++ decimal a) tail1 ((decimal-IsPart a).2)
        ((decimal-IsPart a).1),
    strchr-append b'#' kind tail2 (pk.2) (pk.1),
    until-append b'#' mac tail3 (0 ∷ behind) (pm.2),
  )

  pub get_gpmsg_size-version_text : g < 2 ^ 31 → get_gpmsg_size_from_version version ≡ ret g
  unfolding get_gpmsg_size_from_version version_text
  get_gpmsg_size-version_text h = rw (
    next_mark-append (codes "1_lbt4_" ++ decimal a) tail1 ((decimal-IsPart a).2)
        ((decimal-IsPart a).1),
    next_mark-append kind tail2 (pk.2) (pk.1),
    next_mark-append mac tail3 (pm.2) (pm.1),
    next_mark-append (b'0' ∷ []) (b'0' ∷ b'#' ∷ decimal g) refl refl,
    next_mark-append (b'0' ∷ []) (decimal g) refl refl,
    ap atoi (sym (append-nil (decimal g))) ∙ atoi-decimal g [] h tt,
  )
