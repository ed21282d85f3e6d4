-- ===== src/Older.antt =====
-- The older program, src/: its state, `ifreechat_t` of src/ifreechat.h, and the blocks of
-- src/msg.h, src/user.h, src/group.h and src/category.h. Every block comes from `malloc`; a block's
-- address also stands for those of its nodes, and a list is known by where its head is. The list of
-- a group's members has its head at the group's address.
pub mod Message
pub mod Texts
pub mod Users
pub mod Groups
pub mod Treeview
pub mod Broadcast
pub mod Buddy
pub mod Process
pub mod Socket
pub mod Samples
mod Tests
use i_free_chat.Base.{
  ℕ, ◌+◌, ◌-◌, ◌%◌, ◌^◌, Bool, true, false, Option, none, some, List, [], ◌∷◌, ◌++◌, leb, ltb, ◌==◌,
  if◌then◌else◌, length, update,
}
use i_free_chat.Base.Memory.{Memory, read_bytes, store_bytes}
use i_free_chat.Text.{Bytes}
use i_free_chat.Dlist.{Links}
use i_free_chat.MemPool.{Outcome, ret, fault, ◌>>=◌}
use i_free_chat.Feiq.Parse.{found, until}

-- `msg_t`: the texts are those that lie behind the structure in its block, and `contents` is what
-- `data` points to, to the end of the block with its NULs. `user` is an address, 0 for NULL.
pub record MsgBlock : Type 0 where
  pub gpid : ℕ
  pub port : ℕ
  pub ip : Bytes
  pub version : Bytes
  pub packet_no : Bytes
  pub username : Bytes
  pub hostname : Bytes
  pub cmd : Bytes
  pub contents : Bytes
  pub user : ℕ

-- `user_t`: the addresses of its texts in the memory, and the end of its block.
pub record UserBlock : Type 0 where
  pub nickname : ℕ
  pub username : ℕ
  pub hostname : ℕ
  pub avatar : ℕ
  pub ipaddr : ℕ
  pub macaddr : ℕ
  pub signature : ℕ
  pub category : ℕ
  pub encoding : ℕ
  pub bound : ℕ

-- `group_t`: likewise.
pub record GroupBlock : Type 0 where
  pub group_name : ℕ
  pub group_info : ℕ
  pub group_id : ℕ
  pub bound : ℕ

-- `category_t`, whose count is an `int`, as a 32-bit pattern.
pub record CategoryBlock : Type 0 where
  pub name : Bytes
  pub count : ℕ

-- What leaves the program: a datagram, the icon that blinks, a line of a chat, and the rows of the
-- list of contacts.
pub data Effect : Type 0 where
  datagram : (ip : Bytes) → (port : ℕ) → (payload : Bytes) → Effect
  blink : Effect
  chat_line : (chatbox : ℕ) → (sender text : Bytes) → Effect
  category_row : (category : ℕ) → (name : Bytes) → Effect
  row_title : (category : ℕ) → (title : Bytes) → Effect
  user_row : (category user : ℕ) → (nickname ipaddr macaddr : Bytes) → Effect

-- `ifreechat_t`: after its texts, the memory of the users' and groups' texts, the blocks at their
-- addresses with the nodes of each kind, and the heads of the lists. `chat_data` is the `data` of a
-- chat box, `freed` the blocks that were given to `free`, and `effects` what left the program. The
-- avatar's number is not negative; `treeview` is whether the window has its list of contacts.
pub record Ifreechat : Type 0 where
  pub nickname : Bytes
  pub username : Bytes
  pub hostname : Bytes
  pub category : Bytes
  pub macaddr : Bytes
  pub avatar_id : ℕ
  pub port : ℕ
  pub memory : Memory
  pub users : ℕ → UserBlock
  pub unodes : Links
  pub members : Links
  pub groups : ℕ → GroupBlock
  pub gnodes : Links
  pub categories : ℕ → CategoryBlock
  pub cnodes : Links
  pub msgs : ℕ → MsgBlock
  pub mnodes : Links
  pub chat_data : ℕ → ℕ
  pub pchatbox_nodes : Links
  pub gchatbox_nodes : Links
  pub ulist : ℕ
  pub glist : ℕ
  pub clist : ℕ
  pub mlist : ℕ
  pub pchatbox : ℕ
  pub gchatbox : ℕ
  pub treeview : Bool
  pub freed : List ℕ
  pub effects : List Effect

abbrev pub emit : List Effect → Ifreechat → Ifreechat
emit es c = record c { effects = c.effects ++ es }

-- `free(block)`
abbrev pub free_block : ℕ → Ifreechat → Ifreechat
free_block a c = record c { freed = a ∷ c.freed }

-- The string at an address of a block that ends at `bound`; without a NUL there it is read on
-- behind the block.
unfoldable pub string_at : Memory → (a bound : ℕ) → Outcome Bytes
unfolding found until
string_at mem a bound = found (until 0 (read_bytes (bound - a) mem a))

-- `strcpy` to an address of a block that ends at `bound`.
unfoldable pub strcpy_at : (a bound : ℕ) → Bytes → Ifreechat → Outcome Ifreechat
strcpy_at a bound s c =
    if leb (a + length s + 1) bound
    then ret (record c { memory = store_bytes a (s ++ 0 ∷ []) c.memory })
    else fault

-- Copies in a row, each to its address of one block.
unfoldable pub copy_all : (bound : ℕ) → List (ℕ × Bytes) → Ifreechat → Outcome Ifreechat
copy_all bound [] c = ret c
copy_all bound ((a, s) ∷ ws) c = do c ← strcpy_at a bound s c; copy_all bound ws c

-- The text that `msg->data` points to.
unfoldable pub msg_text : MsgBlock → Outcome Bytes
unfolding found until
msg_text m = found (until 0 m.contents)

-- `udp_send_msg`: the bytes go to the address; a failure is only printed.
abbrev pub udp_send_msg : (ip : Bytes) (port : ℕ) → Bytes → Ifreechat → Ifreechat
udp_send_msg ip port s c = emit (datagram ip port s ∷ []) c
