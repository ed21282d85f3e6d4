-- ===== src/Client/Views.antt =====
-- ifc/src/ui/user_treeview.c: the rows of the list of contacts, and the messages that arrive.
pub mod Keep
use i_free_chat.Base.{
  ℕ, ◌+◌, ◌-◌, ◌%◌, ◌^◌, Bool, true, false, Option, none, some, List, [], ◌∷◌, ◌++◌, ltb, leb, ◌==◌,
  if◌then◌else◌, not, length, update,
}
use i_free_chat.Text.{Bytes, codes}
use i_free_chat.Dlist.{Links, init_dlist_node, dlist_add_tail, dlist_del}
use i_free_chat.MemPool.{Outcome, ret, deadlock, fault, ◌>>=◌, Pool, pool_alloc, pool_free, poke}
use i_free_chat.Registry.{UserEntry, CategoryEntry, Heap, Registry, Mallocs, alloc}
use i_free_chat.Feiq.{Msg, field, data_at}
use i_free_chat.Client.{
  Client, Event, category_row, row_title, user_row, alert, chat_line, int_text,
}

-- `entry->pos = p` of a category and of a user.
abbrev pub with_category_pos : (entry pos : ℕ) → Heap → Heap
with_category_pos e pos h = record h {
  categories = update h.categories e (record (h.categories e) { pos = pos });
}

abbrev pub with_user_pos : (entry pos : ℕ) → Heap → Heap
with_user_pos e pos h = record h { users = update h.users e (record (h.users e) { pos = pos }) }

abbrev pub log : List Event → Client → Client
log es c = record c { events = c.events ++ es }

-- `"%s[%d]"`
abbrev pub title_of : CategoryEntry → Bytes
title_of e = e.name ++ (b'[' ∷ int_text e.count ++ (b']' ∷ []))

-- `iter_bytes` is `sizeof(GtkTreeIter)`.
module _ (iter_bytes : ℕ) where
  pub add_category_to_treeview : Mallocs → (entry : ℕ) → Client → Outcome Client
  add_category_to_treeview a entry c = do
    (iter, h) ← alloc a iter_bytes c.heap
    if entry == 0
        then fault
        else ret (
            log (category_row iter (h.categories entry).name ∷ [])
              (record c { heap = with_category_pos entry iter h }))

  -- The row of the user's category, which is made where it is missing.
  pub category_iter : Mallocs → (cat : ℕ) → Client → Outcome (ℕ × Client)
  category_iter a cat c =
      let pos = (c.heap.categories cat).pos in
      if not (pos == 0) then ret (pos, c) else do
        (iter, h) ← alloc a iter_bytes c.heap
        ret (
          iter,
          log (category_row iter (h.categories cat).name ∷ [])
              (record c { heap = with_category_pos cat iter h }),
        )

  -- The end of `add_user_to_treeview`: the title of the category's row, and the user's row. A
  -- title that does not fit its 128 bytes is a fault.
  pub show_user : Mallocs → (user cat citer : ℕ) → Client → Outcome Client
  show_user a user cat citer c =
      let title = title_of (c.heap.categories cat) in
      if leb 128 (length title) then fault else do
        (iter, h) ← alloc a iter_bytes c.heap
        ret (
            log (row_title citer title ∷ user_row iter citer user ∷ [])
              (record c { heap = with_user_pos user iter h }))

  -- The flag is whether 0 is returned.
  unfoldable pub add_user_to_treeview :
      (a b : Mallocs) → (user : ℕ) → Client → Outcome (Bool × Client)
  unfolding category_iter show_user
  add_user_to_treeview a b user c =
      let cat = (c.heap.users user).category_entry in
      if not c.treeview
      then ret (false, c)
      else if user == 0
      then ret (false, c)
      else if cat == 0
      then fault
      else do (citer, c) ← category_iter a cat c; c ← show_user b user cat citer c; ret (true, c)

-- `mem_pool_free` of the message at `addr`, which reads its first word for a size.
abbrev pub release_msg : (addr : ℕ) → Msg → Pool → Outcome Pool
release_msg addr m p = pool_free addr (poke addr m.data_size p)

-- `insert_chat_msg`: a message waits in the list until its chat is opened, or is shown and released.
unfoldable pub insert_chat_msg : (user : ℕ) → Msg → Client → Outcome Client
insert_chat_msg user m c =
    let chatbox = (c.heap.users user).chatbox in
    if chatbox == 0
    then ret (
        log (alert ∷ []) (record c {
          msgs = update c.msgs m.addr (record m { user_data = user });
          mnodes = dlist_add_tail m.addr c.mlist (init_dlist_node m.addr c.mnodes);
        }))
    else do
      p ← release_msg m.addr m c.heap.pool
      ret (
          log (chat_line chatbox (c.heap.users user).nickname (field data_at m) ∷ [])
            (record c { heap = record c.heap { pool = p } }))
