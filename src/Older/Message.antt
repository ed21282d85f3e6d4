-- ===== src/Older/Message.antt =====
-- src/process_msg.c: `parse_message`, which copies the fields of a packet into one block.
pub mod RoundTrip
use i_free_chat.Base.{
  ℕ, ◌+◌, ◌-◌, ◌%◌, ◌^◌, true, false, Option, none, some, [], ◌∷◌, ◌++◌, leb, ◌==◌, if◌then◌else◌,
  length, replicate, update,
}
use i_free_chat.Text.{Bytes}
use i_free_chat.Dlist.{init_dlist_node}
use i_free_chat.MemPool.{Outcome, ret, fault, ◌>>=◌}
use i_free_chat.Feiq.Parse.{cut}
use i_free_chat.Older.{MsgBlock, Ifreechat}

-- `sizeof(msg_t)`, and the room for `ip`.
abbrev pub msg_struct_bytes : ℕ
msg_struct_bytes = 56

abbrev pub ip_bytes : ℕ
ip_bytes = 20

-- `cap`, as a `size_t`.
abbrev pub msg_capacity : ℕ → ℕ
msg_capacity size = (1 + size + ip_bytes + msg_struct_bytes) % 2 ^ 32

-- `base += n`, by the room that is left in the block; what does not fit is written behind it.
pub take_room : (n room : ℕ) → Outcome ℕ
take_room n room = if leb n room then ret (room - n) else fault

-- One field: it ends at the next `:`, and is copied with its NUL.
pub copy_field : Bytes → (room : ℕ) → Outcome (Bytes × Bytes × ℕ)
unfolding take_room
copy_field s room = do (p, q) ← cut s; room ← take_room (1 + length p) room; ret (p, q, room)

-- The message in a block of `cap` zeros.
pub parse_block : (cap : ℕ) → Bytes → Outcome MsgBlock
parse_block cap s = do
  room ← take_room msg_struct_bytes cap
  room ← take_room ip_bytes room
  (version, s, room) ← copy_field s room
  (packet_no, s, room) ← copy_field s room
  (username, s, room) ← copy_field s room
  (hostname, s, room) ← copy_field s room
  (cmd, s, room) ← copy_field s room
  left ← take_room (length s) room
  ret (record {
    gpid = 0;
    port = 0;
    ip = [];
    version = version;
    packet_no = packet_no;
    username = username;
    hostname = hostname;
    cmd = cmd;
    contents = s ++ replicate left 0;
    user = 0;
  })

-- `base` is what `malloc` returns; the result is the message's address, or `none` for NULL. `s` is
-- the `size` bytes of the packet, which zeros follow.
pub parse_message : (base : ℕ) → Bytes → Ifreechat → Outcome (Option ℕ × Ifreechat)
parse_message base s c = if base == 0 then ret (none, c) else do
  m ← parse_block (msg_capacity (length s)) s
  ret (some base, record c { msgs = update c.msgs base m; mnodes = init_dlist_node base c.mnodes })
