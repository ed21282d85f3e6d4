-- ===== src/Client.antt =====
-- The program's state, `ifreechat_t` of ifc/include/ifreechat.h, which the handlers of packets, the
-- views of the window and the start of the program share.
pub mod Frame
pub mod Views
pub mod Waiting
pub mod Chats
pub mod Start
mod Samples
pub mod Callbacks
pub mod Loop
use i_free_chat.Base.{
  ℕ, ◌+◌, ◌-◌, ◌%◌, ◌^◌, Bool, true, false, Option, none, some, List, [], ◌∷◌, ◌++◌, ltb, ◌==◌,
  if◌then◌else◌,
}
use i_free_chat.Text.{Bytes, decimal}
use i_free_chat.Dlist.{Links}
use i_free_chat.MemPool.{Outcome, ret, deadlock, fault, ◌>>=◌, Pool}
use i_free_chat.Socket.{UdpSocket}
use i_free_chat.Registry.{Heap, Registry}
use i_free_chat.Feiq.{Msg}

-- What the functions of GTK are called for: a row for a category and the text of one, a row for a
-- user, a row that is written again, the icon that blinks or no longer does, the window, a new
-- window for a chat with a user or a group, one that is brought to the front or goes, a line of a
-- chat, and the label with the nickname.
pub data Event : Type 0 where
  category_row : (iter : ℕ) → (name : Bytes) → Event
  row_title : (iter : ℕ) → (title : Bytes) → Event
  user_row : (iter parent user : ℕ) → Event
  user_row_again : (iter user : ℕ) → Event
  alert : Event
  calm : Event
  show_window : Event
  open_chat : (chatbox user : ℕ) → Event
  open_group : (chatbox group : ℕ) → (title : Bytes) → Event
  present : (chatbox : ℕ) → Event
  close_window : (chatbox : ℕ) → Event
  chat_line : (chatbox : ℕ) → (sender text : Bytes) → Event
  nickname_label : Bytes → Event

-- `ifreechat_t`: the pool is that of the heap; `treeview` is whether the window has its list of
-- contacts; `mlist` is where the head of the list of waiting messages is, `mnodes` are their
-- nodes, and `msgs` what they hold.
pub record Client : Type 0 where
  pub nickname : Bytes
  pub username : Bytes
  pub hostname : Bytes
  pub category : Bytes
  pub avatar_id : ℕ
  pub macaddr : Bytes
  pub port : ℕ
  pub heap : Heap
  pub usock : UdpSocket
  pub clist : Registry
  pub glist : Registry
  pub ulist : Registry
  pub treeview : Bool
  pub events : List Event
  pub mlist : ℕ
  pub mnodes : Links
  pub msgs : ℕ → Msg
  pub shutdown : Bool

-- A search that has not ended within its fuel counts as one that never does.
abbrev pub ended {ℓ} : {A : Type ℓ} → Option A → Outcome A
ended none = deadlock
ended (some a) = ret a

-- %d
unfoldable pub int_text : ℕ → Bytes
int_text n = if ltb n (2 ^ 31) then decimal n else b'-' ∷ decimal (2 ^ 32 - n)
