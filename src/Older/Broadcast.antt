-- ===== src/Older/Broadcast.antt =====
-- src/broadcast.c: what the program sends when it starts and when it ends.
use i_free_chat.Base.{ℕ, zero, suc, ◌%◌, ◌^◌, true, [], ◌∷◌, ◌++◌, ◌==◌, if◌then◌else◌, length}
use i_free_chat.Text.{Bytes, codes}
use i_free_chat.Text.Hex.{hexadecimal}
use i_free_chat.Blowfish.{Schedule, initialize}
use i_free_chat.Blowfish.Modes.{Block, encrypt}
use i_free_chat.MemPool.{Outcome, ret, deadlock}
use i_free_chat.Feiq.Build.{version_text, packet_text}
use i_free_chat.Older.{Ifreechat, udp_send_msg}

-- `BROADCAST_ADDR` and `MULTICAST_ADDR`
abbrev pub broadcast_addr : Bytes
broadcast_addr = codes "255.255.255.255"

abbrev pub multicast_addr : Bytes
multicast_addr = codes "226.81.9.8"

-- `"1_lbt4_%d#128#%s#0#0#%d:%lu:%s:%s:%u:%s"` at the time `now`.
unfoldable pub post_text :
    (gpmsg_size now : ℕ) (username hostname : Bytes) (command : ℕ) (text : Bytes)
    → Ifreechat
    → Bytes
unfolding version_text packet_text
post_text gpmsg_size now username hostname command text c =
    packet_text (version_text (codes "128") c.avatar_id c.macaddr gpmsg_size) (now % 2 ^ 32)
      username hostname command text

-- The post that says who the program's user is, with the category behind the nickname.
unfoldable pub presence_text : (now command : ℕ) → Ifreechat → Bytes
unfolding post_text
presence_text now command c =
    post_text 0 now c.username c.hostname command c.nickname c ++ 0 ∷ (c.category ++ 0 ∷ [])

-- The vector of the macros `BlowFish_Encrypt` and `BlowFish_Decrypt`.
abbrev pub zero_vector : Block
zero_vector = record { b0 = 0; b1 = 0; b2 = 0; b3 = 0; b4 = 0; b5 = 0; b6 = 0; b7 = 0 }

abbrev pub group_mark : ℕ → Bytes
group_mark gpid = codes "QUNMSGMARK#" ++ (hexadecimal gpid ++ b'#' ∷ [])

-- The post for one group. `unset` is the byte of `cipher` behind what was encrypted, which is sent
-- too.
pub group_text : (bf : Schedule) (now unset gpid : ℕ) → Ifreechat → Bytes
unfolding post_text
group_text bf now unset gpid c =
    let cipher = encrypt bf true true zero_vector (group_mark gpid) in
    post_text (length cipher) now c.username c.hostname 0x2000c9 [] c ++ (cipher ++ unset ∷ [])

-- The loop over the groups.
pub post_groups : (bf : Schedule) (now unset fuel pos : ℕ) → Ifreechat → Outcome Ifreechat
unfolding group_text
post_groups bf now unset zero pos c = deadlock
post_groups bf now unset (suc fuel) pos c =
    let text = group_text bf now unset (c.groups pos).group_id c in
    let rest =
      post_groups bf now unset fuel (c.gnodes.next pos)
        (udp_send_msg multicast_addr c.port text c) in
    if pos == c.glist then ret c else rest

-- `tables` are the digits that the key schedule starts from.
pub online_broadcast : (tables : Schedule) (now unset fuel : ℕ) → Ifreechat → Outcome Ifreechat
unfolding presence_text post_text post_groups
online_broadcast tables now unset fuel c =
    let greeting = post_text 0 now c.username c.hostname 0 [] c ++ 0 ∷ [] in
    let c' =
      udp_send_msg broadcast_addr c.port (presence_text now 0x101 c)
        (udp_send_msg broadcast_addr c.port greeting c) in
    post_groups (initialize tables c.macaddr) now unset fuel (c'.gnodes.next c'.glist) c'

pub offline_broadcast : (now : ℕ) → Ifreechat → Ifreechat
unfolding presence_text
offline_broadcast now c = udp_send_msg broadcast_addr c.port (presence_text now 2 c) c
