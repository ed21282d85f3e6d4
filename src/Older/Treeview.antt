-- ===== src/Older/Treeview.antt =====
-- src/treeview.c and src/category.c: the rows of the list of contacts.
pub mod Rows
use i_free_chat.Base.{
  ℕ, ◌+◌, ◌%◌, ◌^◌, Bool, true, false, not, Option, none, some, [], ◌∷◌, ◌++◌, leb, ◌==◌,
  if◌then◌else◌, length, str_eq, update,
}
use i_free_chat.Text.{Bytes}
use i_free_chat.Dlist.{init_dlist_node, dlist_add_tail, dlist_foreach}
use i_free_chat.MemPool.{Outcome, ret, fault, ◌>>=◌}
use i_free_chat.Client.{ended, int_text}
use i_free_chat.Older.{CategoryBlock, Ifreechat, category_row, row_title, user_row, emit, string_at}

-- `new_category`; `base` is what `malloc` returns, and the result is the address, 0 for NULL. A name
-- that does not fit its 128 bytes is a fault.
pub new_category : (base : ℕ) → Bytes → Ifreechat → Outcome (ℕ × Ifreechat)
new_category base name c =
    if base == 0
    then ret (0, c)
    else if leb 128 (length name)
    then fault
    else ret (
      base,
      record c {
        categories = update c.categories base (record { name = name; count = 0 });
        cnodes = init_dlist_node base c.cnodes;
      },
    )

-- The row of a category that is not in the list.
pub append_category : (base : ℕ) → Bytes → Ifreechat → Outcome (ℕ × Ifreechat)
unfolding new_category
append_category base name c = do
  (cat, c) ← new_category base name c
  if cat == 0
      then fault
      else ret (
        cat,
        emit (category_row cat (c.categories cat).name ∷ [])
            (record c { cnodes = dlist_add_tail cat c.clist c.cnodes }),
      )

-- `cat->count++`
unfoldable pub count_up : (cat : ℕ) → Ifreechat → Ifreechat
count_up cat c = record c {
  categories =
      update c.categories cat
        (record (c.categories cat) { count = ((c.categories cat).count + 1) % 2 ^ 32 });
}

-- `"%s[%d]"`
unfoldable pub category_title : CategoryBlock → Bytes
category_title k = k.name ++ (b'[' ∷ int_text k.count ++ (b']' ∷ []))

-- The category's title and the user's row. A title that does not fit its 128 bytes is a fault.
pub append_user : (cat user : ℕ) → Ifreechat → Outcome Ifreechat
append_user cat user c =
    let c' = count_up cat c in
    let title = category_title (c'.categories cat) in
    let u = c'.users user in
    do
      nickname ← string_at c'.memory u.nickname u.bound
      ipaddr ← string_at c'.memory u.ipaddr u.bound
      macaddr ← string_at c'.memory u.macaddr u.bound
      if leb 128 (length title)
          then fault
          else ret (emit (row_title cat title ∷ user_row cat user nickname ipaddr macaddr ∷ []) c')

-- `base` is what `malloc` returns for a category. The flag is whether 0 is returned.
pub add_user_to_treeview : (fuel base user : ℕ) → Ifreechat → Outcome (Bool × Ifreechat)
add_user_to_treeview fuel base user c =
    if not c.treeview then ret (false, c) else if user == 0 then ret (false, c) else do
      name ← string_at c.memory (c.users user).category (c.users user).bound
      found ← ended (
          dlist_foreach c.cnodes c.clist (λ p. str_eq (c.categories p).name name) fuel
            (c.cnodes.next c.clist))
      (cat, c) ← (elim found [ none ↦ append_category base name c | some cat ↦ ret (cat, c) ])
      c ← append_user cat user c
      ret (true, c)
