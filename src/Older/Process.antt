-- ===== src/Older/Process.antt =====
-- src/process_msg.c: `process_message`, which the listening thread calls for every packet.
pub mod Answer
pub mod Presence
use i_free_chat.Base.{
  ℕ, ◌+◌, Bool, true, false, ◌||◌, Option, none, some, ◌==◌, leb, if◌then◌else◌, bit_and, length,
  update,
}
use i_free_chat.Text.{Bytes, atoi}
use i_free_chat.Blowfish.{Schedule}
use i_free_chat.MemPool.{Outcome, ret, fault, ◌>>=◌}
use i_free_chat.Older.{MsgBlock, Ifreechat, free_block}
use i_free_chat.Older.Message.{ip_bytes, parse_message}
use i_free_chat.Older.Buddy.{Blocks, put_msg, on_buddy_entry, on_buddy_sendmsg, on_buddy_sendgpmsg}

module _ (utf8_validate : Bytes → Bool) (convert : Bytes → Option Bytes) (tables : Schedule) where
  -- The `switch`. A message that is released is the one that only announces a user.
  unfoldable pub dispatch : (fuel now msg : ℕ) → Blocks → Ifreechat → Outcome Ifreechat
  dispatch fuel now msg b c =
      let k = bit_and (atoi (c.msgs msg).cmd) 0xff in
      if k == 1 || k == 3
      then (on_buddy_entry utf8_validate convert fuel now b (c.msgs msg) c
          >>= (λ c. ret (free_block msg c)))
      else if k == 0x20
      then on_buddy_sendmsg utf8_validate convert fuel now msg c
      else if k == 0x23
      then on_buddy_sendgpmsg utf8_validate convert tables fuel msg c
      else ret c

  -- `strcpy(msg->ip, ip)`: an address that does not fit its room is a fault.
  pub process_message :
      (fuel now base : ℕ)
      → Blocks
      → (ip : Bytes) (port : ℕ) (s : Bytes) → Ifreechat
      → Outcome Ifreechat
  unfolding dispatch
  process_message fuel now base b ip port s c = do
    (msg, c) ← parse_message base s c
    elim msg [
      | none ↦ ret c
      | some a ↦
          if leb ip_bytes (length ip)
          then fault
          else dispatch fuel now a b (put_msg a (record (c.msgs a) { ip = ip; port = port }) c)
    ]
