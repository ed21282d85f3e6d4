-- ===== src/Client/Chats.antt =====
-- What the user does: a double click on a row of ifc/src/ui/user_treeview.c or
-- ifc/src/ui/group_listview.c, the buttons of a chat in ifc/src/ui/chatbox.c, ifc/src/ui/pchatbox.c
-- and ifc/src/ui/gchatbox.c, and the entry for the nickname in ifc/src/ui/window.c.
pub mod Groups
pub mod Again
mod Tests
use i_free_chat.Base.{
  ℕ, ◌+◌, ◌-◌, Bool, true, false, ◌||◌, Option, none, some, List, [], ◌∷◌, ◌++◌, ◌==◌, leb, length,
  if◌then◌else◌, not, update,
}
use i_free_chat.Base.Memory.{load32, read_bytes}
use i_free_chat.Text.{Bytes, codes}
use i_free_chat.MemPool.{Outcome, ret, deadlock, fault, ◌>>=◌, Pool, pool_free, poke}
use i_free_chat.Registry.{Heap, Mallocs}
use i_free_chat.Feiq.{Msg, Packet}
use i_free_chat.Feiq.Parse.{found, until}
use i_free_chat.Config.{Section, XmlLibrary, update_cfg}
use i_free_chat.Client.{
  Client, Event, user_row_again, open_group, present, close_window, chat_line, nickname_label,
}
use i_free_chat.Client.Views.{log}
use i_free_chat.Client.Callbacks.{send_pchat}
use i_free_chat.Client.Waiting.{new_pchatbox}

-- The offset of `chatbox` in `group_entry_t`.
abbrev pub chatbox_at : ℕ
chatbox_at = 16

-- `type` and `data` of a chat: the user or the group that it is with.
pub data Partner : Type 0 where
  pchatbox : (user : ℕ) → Partner
  gchatbox : (group : ℕ) → Partner

-- `chatbox = NULL` of the partner. A group's entry is bytes of the pool.
pub forget_chatbox : Partner → Heap → Heap
forget_chatbox (pchatbox u) h = record h {
  users = update h.users u (record (h.users u) { chatbox = 0 });
}
forget_chatbox (gchatbox g) h = record h { pool = poke (g + chatbox_at) 0 h.pool }

pub close_chatbox : Partner → (chatbox : ℕ) → Client → Outcome Client
unfolding forget_chatbox
close_chatbox w chatbox c = do
  let h = forget_chatbox w c.heap
  p ← pool_free chatbox h.pool
  ret (log (close_window chatbox ∷ []) (record c { heap = record h { pool = p } }))

-- The row of a category, at `depth` 1, does nothing.
pub contact_treeview_ondoubleclicked :
    (window : Option ℕ) → Mallocs → (depth user : ℕ) → Client → Outcome Client
contact_treeview_ondoubleclicked window a depth user c =
    let chatbox = (c.heap.users user).chatbox in
    if depth == 1
    then ret c
    else if not (chatbox == 0)
    then ret (log (present chatbox ∷ []) c)
    else do (b, c) ← new_pchatbox window a user c; ret c

-- The flag is whether 0 is returned.
pub update_user_to_treeview : (user : ℕ) → Client → Bool × Client
update_user_to_treeview user c =
    if not c.treeview || user == 0
    then (false, c)
    else (true, log (user_row_again (c.heap.users user).pos user ∷ []) c)

-- `chatbox` is what `malloc` returns. A title that does not fit its 128 bytes is a fault, and so is
-- a name without an end that is near enough. The group's entry is not changed.
pub new_gchatbox : (loads : Bool) → (chatbox group : ℕ) → Client → Outcome Client
unfolding found until
new_gchatbox loads chatbox group c = if chatbox == 0 || not loads then fault else do
  name ← found (until 0 (read_bytes 117 c.heap.pool.mem (c.heap.groups group).group_name))
  ret (log (open_group chatbox group (codes "Group Room " ++ name) ∷ []) c)

-- No code stores a chat in the entry of a group, so a pointer that is not NULL is the address of no
-- chat, and its window is read in memory that holds none.
pub group_treeview_ondoubleclicked : (loads : Bool) → (malloced group : ℕ) → Client → Outcome Client
unfolding new_gchatbox
group_treeview_ondoubleclicked loads malloced group c =
    let chatbox = load32 c.heap.pool.mem (group + chatbox_at) in
    if not (chatbox == 0) then fault else new_gchatbox loads malloced group c

module _ (build : Msg → Pool → Outcome (Option Packet × Pool)) where
  -- The button of a chat with a user: `text` is what is in the input. Without any nothing is sent.
  pub on_send_message :
      (now : ℕ) (text : Bytes) (chatbox user : ℕ) → Msg → Client → Outcome (Option Packet × Client)
  on_send_message now [] chatbox user m c = ret (none, c)
  on_send_message now (x ∷ text) chatbox user m c =
      send_pchat build now (x ∷ text) user m (log (chat_line chatbox c.nickname (x ∷ text) ∷ []) c)

-- The button of a chat with a group: the line is shown, and nothing is sent.
pub on_send_gpmessage : (text : Bytes) → (chatbox : ℕ) → Client → Client
on_send_gpmessage [] chatbox c = c
on_send_gpmessage (x ∷ text) chatbox c = log (chat_line chatbox c.nickname (x ∷ text) ∷ []) c

-- The entry of the nickname, and the file with the settings. `live` is whether the pair that is the
-- handler's argument has not been freed, which the handler does itself.
pub on_nickname_entry_activate :
    XmlLibrary
    → (nickname : Bytes) → (live : Bool) × Option (Option (List Section)) × Client
    → Outcome ((live : Bool) × Option (Option (List Section)) × Client)
on_nickname_entry_activate lib nickname (live, file, c) =
    if not live || leb 64 (length nickname)
    then fault
    else ret (
      false,
      (update_cfg lib (codes "user") (codes "nickname") nickname file).1,
      log (nickname_label nickname ∷ []) (record c { nickname = nickname }),
    )
