-- ===== src/Emotion/Shown.antt =====
-- What is shown of a message with faces.
use i_free_chat.Base.{
  ℕ, zero, suc, ◌+◌, ◌-◌, ◌<◌, ◌≡◌, refl, sym, ap, ap₂, ◌∙◌, ◌≢◌, Bool, false, Bool-cases,
  Option-cases, inl, inr, none, some, List, [], ◌∷◌, ◌++◌, append-nil, append_assoc, arith, ◌==◌,
  length, length-append, get_or, take, drop, All,
}
use i_free_chat.Text.{Bytes, decimal, atoi, is_digit}
use i_free_chat.Text.Cut.{strchr-append}
use i_free_chat.Text.Decimal.{atoi-decimal, has-decimal, length-decimal_small}
use i_free_chat.Emotion.{
  Cell, char, face, chars, mark, mark_at, insert_from, insert_msg, emotion_list, replace_from,
  replace_emotion,
}

-- A message for a list of characters and faces, each face between two `#`, as `replace_emotion`
-- writes it.
abbrev pub print : List Cell → Bytes
print [] = []
print (char c ∷ cells) = c ∷ print cells
print (face id ∷ cells) = b'#' ∷ (decimal id ++ b'#' ∷ print cells)

-- A character of a message that is no `#`, or a face of the list.
abbrev pub IsPlain : Cell → Type 0
IsPlain (char c) = (c ≢ 0) × (c ≢ b'#')
IsPlain (face id) = id < 96

get_or_behind : (s t : Bytes) → get_or (s ++ t) (length s) 0 ≡ get_or t 0 0
get_or_behind [] t = refl
get_or_behind (c ∷ s) t = get_or_behind s t

drop_behind : (s t : Bytes) → drop (length s) (s ++ t) ≡ t
drop_behind [] t = refl
drop_behind (c ∷ s) t = drop_behind s t

take_front : (s t : Bytes) → take (length s) (s ++ t) ≡ s
take_front [] t = refl
take_front (c ∷ s) t = ap (◌∷◌ c) (take_front s t)

chars-append : (s t : Bytes) → chars (s ++ t) ≡ chars s ++ chars t
unfolding chars
chars-append [] t = refl
chars-append (c ∷ s) t = ap (◌∷◌ (char c)) (chars-append s t)

mark-decimal :
    (id : ℕ) (rest : Bytes)
    → id < 96
    → mark (decimal id ++ b'#' ∷ rest) ≡ some (length (decimal id), id)
unfolding mark is_digit
mark-decimal id rest h =
    let e =
      strchr-append b'#' (decimal id) rest (has-decimal b'#' id refl) (has-decimal 0 id refl) in
    let v : atoi (decimal id) ≡ id =
      ap atoi (sym (append-nil (decimal id))) ∙ atoi-decimal id [] (omega arith) tt in
    ground (arith, e, v, length-decimal_small id (omega arith))

module _ (fuel : ℕ) (str : Bytes) (i j : ℕ) where
  step_end : get_or str i 0 ≡ 0 → insert_from (suc fuel) str i j ≡ some (chars (drop j str))
  unfolding insert_from
  step_end e = ground arith

  step_next :
      (get_or str i 0 == 0) ≡ false
      → mark_at str i ≡ none
      → insert_from (suc fuel) str i j ≡ insert_from fuel str (i + 1) j
  unfolding insert_from
  step_next z e = rw (z, e, insert_from) refl

  step_mark :
      (n id : ℕ) (cells : List Cell)
      → (get_or str i 0 == 0) ≡ false
      → mark_at str i ≡ some (n, id)
      → insert_from fuel str (i + n + 2) (i + n + 2) ≡ some cells
      → insert_from (suc fuel) str i j ≡ some (chars (take (i - j) (drop j str)) ++ face id ∷ cells)
  unfolding insert_from
  step_mark n id cells z e r = rw (z, e, r, insert_from) refl

  step_char :
      (c : ℕ)
      → get_or str i 0 ≡ c
      → c ≢ 0
      → c ≢ b'#'
      → insert_from (suc fuel) str i j ≡ insert_from fuel str (i + 1) j
  step_char c e z h = step_next (ground arith) (ground arith)

  step_face :
      (n id : ℕ) (cells : List Cell)
      → get_or str i 0 ≡ b'#'
      → mark (drop (i + 1) str) ≡ some (n, id)
      → insert_from fuel str (i + n + 2) (i + n + 2) ≡ some cells
      → insert_from (suc fuel) str i j ≡ some (chars (take (i - j) (drop j str)) ++ face id ∷ cells)
  step_face n id cells e k r = step_mark n id cells (ground arith) (ground (arith, k)) r

-- The index that the loop is at, and the text from the last face to it.
abbrev laid : (before pending : Bytes) → List Cell → Bytes
laid before pending cells = before ++ (pending ++ print cells)

here_at :
    (before pending : Bytes) (cells : List Cell)
    → get_or (laid before pending cells) (length before + length pending) 0
      ≡ get_or (print cells) 0 0
here_at before pending cells =
    ap₂ (λ s i. get_or s i 0) (sym (append_assoc before pending (print cells)))
      (sym (length-append before pending))
    ∙ get_or_behind (before ++ pending) (print cells)

pending_at :
    (before pending : Bytes) (cells : List Cell)
    → take
        (length before + length pending - length before)
        (drop (length before) (laid before pending cells))
      ≡ pending
pending_at before pending cells =
    ap₂ take (omega arith) (drop_behind before (pending ++ print cells))
    ∙ take_front pending (print cells)

-- A character joins the text that is not shown yet.
char_laid :
    (before pending : Bytes) (c : ℕ) (cells : List Cell)
    → laid before pending (char c ∷ cells) ≡ laid before (pending ++ c ∷ []) cells
char_laid before pending c cells =
    ap (λ s. before ++ s) (sym (append_assoc pending (c ∷ []) (print cells)))

abbrev marked : ℕ → Bytes
marked id = b'#' ∷ (decimal id ++ b'#' ∷ [])

face_laid :
    (before pending : Bytes) (id : ℕ) (cells : List Cell)
    → laid before pending (face id ∷ cells) ≡ laid (before ++ (pending ++ marked id)) [] cells
face_laid before pending id cells = simp append_assoc refl

length_face :
    (before pending : Bytes) (id : ℕ)
    → length (before ++ (pending ++ marked id))
      ≡ length before + length pending + length (decimal id) + 2
length_face before pending id = omega (
  arith,
  length-append before (pending ++ marked id),
  length-append pending (marked id),
  length-append (decimal id) (b'#' ∷ []),
)

mark-laid :
    (before pending : Bytes) (id : ℕ) (cells : List Cell)
    → id < 96
    → mark (drop (length before + length pending + 1) (laid before pending (face id ∷ cells)))
      ≡ some (length (decimal id), id)
mark-laid before pending id cells h =
    let s : Bytes = before ++ (pending ++ b'#' ∷ []) in
    let rest : Bytes = decimal id ++ b'#' ∷ print cells in
    let n : length before + length pending + 1 ≡ length s =
      omega
        (arith, length-append before (pending ++ b'#' ∷ []), length-append pending (b'#' ∷ [])) in
    let e : laid before pending (face id ∷ cells) ≡ s ++ rest = simp append_assoc refl in
    ap₂ (λ i t. mark (drop i t)) n e
    ∙ ap mark (drop_behind s rest)
    ∙ mark-decimal id (print cells) h

insert_from-laid :
    (fuel : ℕ) (before pending : Bytes) (cells : List Cell)
    → All IsPlain cells
    → length (print cells) < fuel
    → insert_from fuel (laid before pending cells) (length before + length pending) (length before)
      ≡ some (chars pending ++ cells)
unfolding chars
insert_from-laid zero before pending cells ok f = absurd (omega arith)
insert_from-laid (suc fuel) before pending [] ok f =
    step_end fuel (laid before pending []) (length before + length pending) (length before)
      (here_at before pending [])
    ∙ ap (λ s. some (chars s)) (drop_behind before (pending ++ []) ∙ append-nil pending)
    ∙ ap some (sym (append-nil (chars pending)))
insert_from-laid (suc fuel) before pending (char c ∷ cells) ok f =
    let i : length before + length pending + 1 ≡ length before + length (pending ++ c ∷ []) =
      omega (arith, length-append pending (c ∷ [])) in
    let ih = insert_from-laid fuel before (pending ++ c ∷ []) cells ok.1 (omega arith) in
    step_char fuel (laid before pending (char c ∷ cells)) (length before + length pending)
      (length before) c (here_at before pending (char c ∷ cells)) ok.0.0 ok.0.1
    ∙ ap₂ (λ s n. insert_from fuel s n (length before)) (char_laid before pending c cells) i
    ∙ ih
    ∙ ap some (ap (λ x. x ++ cells) (chars-append pending (c ∷ [])) ∙ one c)
  where
    one : (d : ℕ) → (chars pending ++ chars (d ∷ [])) ++ cells ≡ chars pending ++ char d ∷ cells
    one d = append_assoc (chars pending) (chars (d ∷ [])) cells
insert_from-laid (suc fuel) before pending (face id ∷ cells) ok f =
    let next : Bytes = before ++ (pending ++ marked id) in
    let l = length-append (decimal id) (b'#' ∷ print cells) in
    let ih = insert_from-laid fuel next [] cells ok.1 (omega (arith, l)) in
    let i : length before + length pending + length (decimal id) + 2 ≡ length next + 0 =
      omega (arith, length_face before pending id) in
    let j : length before + length pending + length (decimal id) + 2 ≡ length next =
      sym (length_face before pending id) in
    let r : insert_from fuel (laid before pending (face id ∷ cells))
          (length before + length pending + length (decimal id) + 2)
          (length before + length pending + length (decimal id) + 2)
        ≡ some cells =
      ap
        (λ s.
          insert_from fuel s (length before + length pending + length (decimal id) + 2)
            (length before + length pending + length (decimal id) + 2))
        (face_laid before pending id cells)
      ∙ ap₂ (λ m n. insert_from fuel (laid next [] cells) m n) i j
      ∙ ih in
    step_face fuel (laid before pending (face id ∷ cells)) (length before + length pending)
      (length before) (length (decimal id)) id cells (here_at before pending (face id ∷ cells))
      (mark-laid before pending id cells ok.0) r
    ∙ ap (λ s. some (chars s ++ face id ∷ cells)) (pending_at before pending (face id ∷ cells))

insert_msg-print :
    (cells : List Cell)
    → All IsPlain cells
    → insert_msg (length (print cells) + 1) (print cells) ≡ some (cells ++ char 10 ∷ [])
unfolding insert_msg
insert_msg-print cells ok =
    ground (arith, insert_from-laid (length (print cells) + 1) [] [] cells ok (omega arith))

-- A text that holds none of the texts that stand for faces is not changed.
replace_from-none :
    (strstr : Bytes → Bytes → Bool) (strsplit : Bytes → Bytes → List Bytes)
    (strjoinv : Bytes → List Bytes → Bytes) (descs : List Bytes) (i : ℕ) (str : Bytes)
    → All (λ desc. strstr str desc ≡ false) descs
    → replace_from strstr strsplit strjoinv descs i str ≡ str
unfolding replace_from
replace_from-none strstr strsplit strjoinv [] i str h = refl
replace_from-none strstr strsplit strjoinv (desc ∷ descs) i str h =
    rw (h.0) (replace_from-none strstr strsplit strjoinv descs (i + 1) str h.1)

-- A message printed from characters, none of them a `#`, and faces of the list, is shown as exactly
-- these, with a newline behind them, where it holds none of the texts that stand for faces.
pub shown-print :
    (strstr : Bytes → Bytes → Bool) (strsplit : Bytes → Bytes → List Bytes)
    (strjoinv : Bytes → List Bytes → Bytes) (cells : List Cell)
    → All IsPlain cells
    → All (λ desc. strstr (print cells) desc ≡ false) emotion_list
    → insert_msg (length (print cells) + 1) (replace_emotion strstr strsplit strjoinv (print cells))
      ≡ some (cells ++ char 10 ∷ [])
unfolding replace_emotion
shown-print strstr strsplit strjoinv cells ok h =
    ap (insert_msg (length (print cells) + 1))
      (replace_from-none strstr strsplit strjoinv emotion_list 0 (print cells) h)
    ∙ insert_msg-print cells ok

get_or_inside : (s : Bytes) (i : ℕ) → get_or s i 0 ≢ 0 → i < length s
get_or_inside [] i h = absurd (h refl)
get_or_inside (c ∷ s) zero h = omega arith
get_or_inside (c ∷ s) (suc i) h = omega (arith, get_or_inside s i h)

insert_from_ends :
    (fuel : ℕ) (str : Bytes) (i j : ℕ)
    → 0 < fuel
    → length str < i + fuel
    → (cells : List Cell) × (insert_from fuel str i j ≡ some cells)
insert_from_ends zero str i j p f = absurd (omega arith)
insert_from_ends (suc fuel) str i j p f = elim (Bool-cases (get_or str i 0 == 0)) [
  | inl z ↦ (chars (drop j str), step_end fuel str i j (ground arith))
  | inr z ↦
      let inside : i < length str = get_or_inside str i (ground arith) in
      elim (Option-cases (mark_at str i)) [
        | inl e ↦
            let (cells, r) = insert_from_ends fuel str (i + 1) j (omega arith) (omega arith) in
            (cells, step_next fuel str i j z e ∙ r)
        | inr ((n, id), e) ↦
            let (cells, r) =
              insert_from_ends fuel str (i + n + 2) (i + n + 2) (omega arith) (omega arith) in
            (
              chars (take (i - j) (drop j str)) ++ face id ∷ cells,
              step_mark fuel str i j n id cells z e r,
            )
      ]
]

-- For any message the loop ends, within as many rounds as the message is long and one.
pub insert_msg_ends :
    (str : Bytes) → (cells : List Cell) × (insert_msg (length str + 1) str ≡ some cells)
unfolding insert_msg
insert_msg_ends str =
    let (cells, e) = insert_from_ends (length str + 1) str 0 0 (omega arith) (omega arith) in
    (cells ++ char 10 ∷ [], ground (arith, e))
