-- ===== src/Older/Treeview/Rows.antt =====
-- The row of a user whose category has one.
use i_free_chat.Base.{
  ℕ, ◌<◌, ◌≡◌, ◌≢◌, ap, not, true, false, some, [], ◌∷◌, arith, leb, ◌==◌, length, str_eq,
}
use i_free_chat.Text.{Bytes}
use i_free_chat.Dlist.{dlist_foreach}
use i_free_chat.MemPool.{ret}
use i_free_chat.Older.{Ifreechat, row_title, user_row, emit}
use i_free_chat.Older.Users.{UserTexts}
use i_free_chat.Older.Users.Layout.{Holds}
use i_free_chat.Older.Treeview.{count_up, category_title, append_user, add_user_to_treeview}

-- The title that a category's row gets when its count grows.
abbrev pub next_title : (cat : ℕ) → Ifreechat → Bytes
next_title cat c = category_title ((count_up cat c).categories cat)

-- The state behind the row.
abbrev pub with_row : (cat user : ℕ) → UserTexts → Ifreechat → Ifreechat
with_row cat user t c =
    emit (row_title cat (next_title cat c) ∷ user_row cat user t.nickname t.ipaddr t.macaddr ∷ [])
      (count_up cat c)

-- The search for a category by its name.
abbrev pub CategoryIs : (fuel cat : ℕ) (name : Bytes) → Ifreechat → Type 0
CategoryIs fuel cat name c =
    dlist_foreach c.cnodes c.clist (λ p. str_eq (c.categories p).name name) fuel
      (c.cnodes.next c.clist)
    ≡ some (some cat)

append_user-ret :
    (cat user : ℕ) (t : UserTexts) (c : Ifreechat)
    → Holds c.memory (c.users user) t
    → length (next_title cat c) < 128
    → append_user cat user c ≡ ret (with_row cat user t c)
unfolding append_user count_up
append_user-ret cat user t c h short =
    let fits : leb 128 (length (next_title cat c)) ≡ false = ground arith in
    rw (h.nickname, h.ipaddr, h.macaddr, fits)

-- A user whose category is in the list gets a row below it, and the category's count grows.
pub add_user_to_treeview-ret :
    (fuel base cat user : ℕ) (t : UserTexts) (c : Ifreechat)
    → c.treeview ≡ true
    → user ≢ 0
    → Holds c.memory (c.users user) t
    → CategoryIs fuel cat t.category c
    → length (next_title cat c) < 128
    → add_user_to_treeview fuel base user c ≡ ret (true, with_row cat user t c)
unfolding add_user_to_treeview
add_user_to_treeview-ret fuel base cat user t c shown ne h found short =
    let not_null : (user == 0) ≡ false = ground arith in
    let is_shown : not c.treeview ≡ false = ap not shown in
    rw (is_shown, not_null, h.category, found, append_user-ret cat user t c h short)
