-- ===== src/Text/Cut.antt =====
-- `strchr` finds the first separator behind a text that lacks it.
use i_free_chat.Base.{ℕ, ◌≡◌, refl, false, none, some, [], ◌∷◌, ◌++◌, arith, has}
use i_free_chat.Text.{Bytes, strchr, strrchr}

pub strchr-append :
    (c : ℕ) (s rest : Bytes)
    → has c s ≡ false
    → has 0 s ≡ false
    → strchr c (s ++ c ∷ rest) ≡ some (s, rest)
unfolding strchr
strchr-append c [] rest h k = ground arith
strchr-append c (d ∷ s) rest h k = ground (arith, strchr-append c s rest)

-- Behind the last separator.
pub strrchr-none : (c : ℕ) (s : Bytes) → has c s ≡ false → strrchr c s ≡ none
unfolding strrchr
strrchr-none c [] h = refl
strrchr-none c (d ∷ s) h = ground (arith, strrchr-none c s)

pub strrchr-append : (c : ℕ) (s t : Bytes) → has c t ≡ false → strrchr c (s ++ c ∷ t) ≡ some t
unfolding strrchr
strrchr-append c [] t h = ground (arith, strrchr-none c t h)
strrchr-append c (d ∷ s) t h = ground (arith, strrchr-append c s t h)
