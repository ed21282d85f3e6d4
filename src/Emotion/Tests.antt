-- ===== src/Emotion/Tests.antt =====
-- The message "hi#5#".
use i_free_chat.Base.{
  ◌+◌, ◌≡◌, refl, Bool, false, ◌||◌, some, List, [], ◌∷◌, ◌++◌, arith, get_or, has, has-append,
  length, All,
}
use i_free_chat.Text.{Bytes, codes, decimal, is_digit, starts_with}
use i_free_chat.Text.Decimal.{has-decimal}
use i_free_chat.Emotion.{Cell, char, face, insert_msg, emotion_list, replace_emotion}
use i_free_chat.Emotion.Shown.{print, shown-print, insert_msg_ends}

abbrev contains : Bytes → Bytes → Bool
contains [] t = starts_with t []
contains (c ∷ s) t = starts_with t (c ∷ s) || contains s t

abbrev whole : Bytes → Bytes → List Bytes
whole s t = s ∷ []

abbrev first_of : Bytes → List Bytes → Bytes
first_of t [] = []
first_of t (s ∷ l) = s

abbrev cells_a : List Cell
cells_a = char 104 ∷ char 105 ∷ face 5 ∷ []

slash : (s t : Bytes) → has b'/' s ≡ false → get_or t 0 0 ≡ b'/' → contains s t ≡ false
unfolding starts_with
slash s [] k h = absurd (omega arith)
slash [] (c ∷ t) k h = refl
slash (d ∷ s) (c ∷ t) k h = ground (arith, slash s (c ∷ t))

abbrev StartAll : List Bytes → Type 0
StartAll [] = Unit
StartAll (t ∷ l) = (get_or t 0 0 ≡ b'/') × StartAll l

no_code :
    (s : Bytes) (l : List Bytes)
    → has b'/' s ≡ false
    → StartAll l
    → All (λ t. contains s t ≡ false) l
no_code s [] k h = tt
no_code s (t ∷ l) k h = (slash s t k h.0, no_code s l k h.1)

hi_5 : has b'/' (print cells_a) ≡ false
unfolding is_digit
hi_5 = ground (arith, has-append b'/' (decimal 5) (35 ∷ []), has-decimal b'/' 5 refl)

shown-print_example :
    insert_msg
      (length (print cells_a) + 1)
      (replace_emotion contains whole first_of (print cells_a))
    ≡ some (cells_a ++ char 10 ∷ [])
shown-print_example =
    shown-print contains whole first_of cells_a (omega arith)
      (no_code (print cells_a) emotion_list hi_5 (omega arith))

insert_msg_ends_example :
    (cells : List Cell) × (insert_msg (length (codes "#1#2#") + 1) (codes "#1#2#") ≡ some cells)
insert_msg_ends_example = insert_msg_ends (codes "#1#2#")
