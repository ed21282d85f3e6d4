-- ===== src/Emotion.antt =====
-- The faces in messages: ifc/src/ui/emotion_box.c, and the loop of ifc/src/ui/chatbox.c that puts
-- a message into the view of its chat.
pub mod Shown
mod Tests
use i_free_chat.Base.{
  ℕ, zero, suc, ◌+◌, ◌-◌, Bool, true, false, ◌||◌, ◌&&◌, Option, none, some, List, [], ◌∷◌, ◌++◌,
  ◌==◌, ltb, leb, if◌then◌else◌, length, get_or, take, drop,
}
use i_free_chat.Text.{Bytes, codes, decimal, atoi, strchr}

-- `emotion_list`: the text that stands for each face.
abbrev pub emotion_list : List Bytes
emotion_list =
    codes "/:)"
    ∷ codes "/:~"
    ∷ codes "/:*"
    ∷ codes "/:|"
    ∷ codes "/8-)"
    ∷ codes "/:<"
    ∷ codes "/:$"
    ∷ codes "/:X"
    ∷ codes "/:Z"
    ∷ codes "/:'("
    ∷ codes "/:-|"
    ∷ codes "/:-@"
    ∷ codes "/:P"
    ∷ codes "/:D"
    ∷ codes "/:O"
    ∷ codes "/<rotate>"
    ∷ codes "/:("
    ∷ codes "/:+"
    ∷ codes "/:lenhan"
    ∷ codes "/:Q"
    ∷ codes "/:T"
    ∷ codes "/;P"
    ∷ codes "/;-D"
    ∷ codes "/;d"
    ∷ codes "/;o"
    ∷ codes "/:g"
    ∷ codes "/|-)"
    ∷ codes "/:!"
    ∷ codes "/:L"
    ∷ codes "/:>"
    ∷ codes "/;bin"
    ∷ codes "/:fw"
    ∷ codes "/;fd"
    ∷ codes "/:-S"
    ∷ codes "/;?"
    ∷ codes "/;x"
    ∷ codes "/;@"
    ∷ codes "/:8"
    ∷ codes "/;!"
    ∷ codes "/!!!"
    ∷ codes "/:xx"
    ∷ codes "/:bye"
    ∷ codes "/:csweat"
    ∷ codes "/:knose"
    ∷ codes "/:applause"
    ∷ codes "/:cdale"
    ∷ codes "/:huaixiao"
    ∷ codes "/:shake"
    ∷ codes "/:lhenhen"
    ∷ codes "/:rhenhen"
    ∷ codes "/:yawn"
    ∷ codes "/:snooty"
    ∷ codes "/:chagrin"
    ∷ codes "/:kcry"
    ∷ codes "/:yinxian"
    ∷ codes "/:qinqin"
    ∷ codes "/:xiaren"
    ∷ codes "/:kelin"
    ∷ codes "/:caidao"
    ∷ codes "/:xig"
    ∷ codes "/:bj"
    ∷ codes "/:basketball"
    ∷ codes "/:pingpong"
    ∷ codes "/:jump"
    ∷ codes "/:coffee"
    ∷ codes "/:eat"
    ∷ codes "/:pig"
    ∷ codes "/:rose"
    ∷ codes "/:fade"
    ∷ codes "/:kiss"
    ∷ codes "/:heart"
    ∷ codes "/:break"
    ∷ codes "/:cake"
    ∷ codes "/:shd"
    ∷ codes "/:bomb"
    ∷ codes "/:dao"
    ∷ codes "/:footb"
    ∷ codes "/:piaocon"
    ∷ codes "/:shit"
    ∷ codes "/:oh"
    ∷ codes "/:moon"
    ∷ codes "/:sun"
    ∷ codes "/;gift"
    ∷ codes "/:hug"
    ∷ codes "/:strong"
    ∷ codes "/;weak"
    ∷ codes "/:share"
    ∷ codes "/:shl"
    ∷ codes "/:baoquan"
    ∷ codes "/:cajole"
    ∷ codes "/:quantou"
    ∷ codes "/:chajin"
    ∷ codes "/:aini"
    ∷ codes "/:sayno"
    ∷ codes "/:sayok"
    ∷ codes "/:love"
    ∷ []

-- The functions of glib: whether a text holds another, a text cut at every other, and texts joined
-- with another between them.
module _ (strstr : Bytes → Bytes → Bool) (strsplit : Bytes → Bytes → List Bytes)
    (strjoinv : Bytes → List Bytes → Bytes) where
  pub str_replace : (str oldstr newstr : Bytes) → Bytes
  str_replace str oldstr newstr = strjoinv newstr (strsplit str oldstr)

  -- The rounds of `replace_emotion` from `i` on.
  pub replace_from : List Bytes → (i : ℕ) → Bytes → Bytes
  unfolding str_replace
  replace_from [] i str = str
  replace_from (desc ∷ descs) i str =
      replace_from descs (i + 1)
        (if strstr str desc then str_replace str desc (b'#' ∷ (decimal i ++ b'#' ∷ [])) else str)

  pub replace_emotion : Bytes → Bytes
  unfolding replace_from
  replace_emotion str = replace_from emotion_list 0 str

-- What the view of a chat holds: characters, and images of faces.
pub data Cell : Type 0 where
  char : ℕ → Cell
  face : ℕ → Cell

pub chars : Bytes → List Cell
chars [] = []
chars (c ∷ s) = char c ∷ chars s

-- Whether a face starts behind a `#`: the number of characters up to the next one, and the face.
pub mark : Bytes → Option (ℕ × ℕ)
mark p = elim (strchr b'#' p) [
  | none ↦ none
  | some (code, rest) ↦
      let n = length code in
      if (n == 1 || n == 2) && ltb (atoi code) 96 then some (n, atoi code) else none
]

-- The mark that starts at `i`, if one does.
abbrev pub mark_at : Bytes → ℕ → Option (ℕ × ℕ)
mark_at str i = if get_or str i 0 == b'#' then mark (drop (i + 1) str) else none

-- The loop of `insert_msg_with_emotion_to_textview`: what it and the call behind it insert. `none`
-- is a loop that has not ended within the fuel.
pub insert_from : (fuel : ℕ) → (str : Bytes) → (i j : ℕ) → Option (List Cell)
unfolding chars mark
insert_from zero str i j = none
insert_from (suc fuel) str i j = elim (get_or str i 0 == 0) [
  | true ↦ some (chars (drop j str))
  | false ↦ elim (mark_at str i) [
    | none ↦ insert_from fuel str (i + 1) j
    | some (n, id) ↦ elim (insert_from fuel str (i + n + 2) (i + n + 2)) [
      | none ↦ none
      | some cells ↦ some (chars (take (i - j) (drop j str)) ++ face id ∷ cells)
    ]
  ]
]

-- `insert_msg_with_emotion_to_textview`, of the text that `replace_emotion` gives.
pub insert_msg : (fuel : ℕ) → Bytes → Option (List Cell)
unfolding insert_from
insert_msg fuel str = elim (insert_from fuel str 0 0) [
  | none ↦ none
  | some cells ↦ some (cells ++ char 10 ∷ [])
]
