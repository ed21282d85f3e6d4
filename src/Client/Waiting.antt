-- ===== src/Client/Waiting.antt =====
-- The handler `tray_icon_activated` of ifc/src/ui/window.c, and the chats that it opens.
pub mod Lost
mod Tests
use i_free_chat.Base.{
  ℕ, Bool, true, false, ◌||◌, Option, none, some, [], ◌∷◌, ◌==◌, leb, length, if◌then◌else◌, not,
  update,
}
use i_free_chat.Dlist.{Links, dlist_del}
use i_free_chat.MemPool.{Outcome, ret, deadlock, fault, ◌>>=◌, poke}
use i_free_chat.Registry.{Heap, Mallocs, alloc}
use i_free_chat.Feiq.{Msg, field, data_at}
use i_free_chat.Client.{Client, Event, calm, show_window, open_chat, present, chat_line}
use i_free_chat.Client.Views.{log, release_msg}

-- `sizeof(pchatbox_t)`
abbrev chatbox_bytes : ℕ
chatbox_bytes = 60

-- `new_pchatbox` of ifc/src/ui/pchatbox.c; `window` is the window that glade gives, `none` where it
-- cannot read the file of the window, whose widgets are used nonetheless. The window is the first
-- word of the chat. A title that does not fit its 128 bytes is a fault.
unfoldable pub new_pchatbox :
    (window : Option ℕ) → Mallocs → (user : ℕ) → Client → Outcome (ℕ × Client)
new_pchatbox window a user c = do
  (chatbox, h) ← alloc a chatbox_bytes c.heap
  elim window [
    | none ↦ fault
    | some w ↦
        let h' : Heap = record h {
          pool = poke chatbox w h.pool;
          users = update h.users user (record (h.users user) { chatbox = chatbox });
        } in
        if chatbox == 0 || leb 118 (length (h.users user).nickname)
        then fault
        else ret (chatbox, log (open_chat chatbox user ∷ []) (record c { heap = h' }))
  ]

-- The first message of the list: its chat is opened and it is shown, or its chat is only brought to
-- the front. Nothing is shown of a message with a group.
pub show_message : (window : Option ℕ) → Mallocs → Msg → Client → Outcome Client
unfolding new_pchatbox
show_message window a m c =
    let user = c.heap.users m.user_data in
    if not (m.gpid == 0)
    then ret c
    else if not (user.chatbox == 0)
    then ret (log (present user.chatbox ∷ []) c)
    else do
      (chatbox, c) ← new_pchatbox window a m.user_data c
      ret (log (chat_line chatbox user.nickname (field data_at m) ∷ []) c)

-- The rest of the handler, for the message at `node`.
pub take_message : (window : Option ℕ) → Mallocs → (node : ℕ) → Client → Outcome Client
unfolding show_message
take_message window a node c =
    let mnodes = dlist_del node c.mnodes in
    let quiet = if mnodes.next c.mlist == c.mlist then calm ∷ [] else [] in
    do
      c ← show_message window a (c.msgs node) (record c { mnodes = mnodes })
      p ← release_msg node (c.msgs node) c.heap.pool
      ret (log quiet (record c { heap = record c.heap { pool = p } }))

pub tray_icon_activated : (window : Option ℕ) → Mallocs → Client → Outcome Client
unfolding take_message
tray_icon_activated window a c =
    let node = c.mnodes.next c.mlist in
    if node == c.mlist then ret (log (calm ∷ show_window ∷ []) c) else take_message window a node c
