-- ===== src/Feiq/Build.antt =====
-- ifc/src/feiq/feiq.c: the packets that are sent.
use i_free_chat.Base.{
  ℕ, ◌+◌, ◌&&◌, Option, none, some, [], ◌∷◌, ◌++◌, leb, if◌then◌else◌, length, replicate,
}
use i_free_chat.Base.Memory.{read_bytes}
use i_free_chat.Text.{Bytes, codes, decimal}
use i_free_chat.Address.{str2ip}
use i_free_chat.MemPool.{Outcome, fault, Pool}
use i_free_chat.Feiq.{
  Packet, Msg, new_packet, field, macaddr_at, username_at, hostname_at, ip_at, data_at, msg_bytes,
}

-- `"1_lbt4_%u#<kind>#%s#0#0#%d"`, the first field of every packet.
unfoldable pub version_text :
    (kind : Bytes) (avatar_id : ℕ) (macaddr : Bytes) (gpmsg_size : ℕ) → Bytes
version_text kind avatar_id macaddr gpmsg_size =
    codes "1_lbt4_"
    ++ (decimal avatar_id
        ++ b'#'
          ∷ (kind ++ b'#' ∷ (macaddr ++ b'#' ∷ b'0' ∷ b'#' ∷ b'0' ∷ b'#' ∷ decimal gpmsg_size)))

-- `"%s:%u:%s:%s:%u:%s"`
unfoldable pub packet_text :
    (version : Bytes) (packet_id : ℕ) (username hostname : Bytes) (command : ℕ) (payload : Bytes)
    → Bytes
packet_text version packet_id username hostname command payload =
    version
    ++ b':'
      ∷ (decimal packet_id
          ++ b':' ∷ (username ++ b':' ∷ (hostname ++ b':' ∷ (decimal command ++ b':' ∷ payload))))

-- The packet with the first `size` bytes of a buffer of 65,535 bytes that holds `text` and then
-- zeros. A text or a size that does not fit uses memory behind the buffer, and an address that is
-- not four numbers leaves some of them uninitialised.
unfoldable pub pack :
    (chunk_ptr data_ptr now : ℕ) (ip : Option ℕ) (port : ℕ) (text : Bytes) (size : ℕ)
    → Pool
    → Outcome (Option Packet × Pool)
pack chunk_ptr data_ptr now none port text size p = fault
pack chunk_ptr data_ptr now (some ip) port text size p =
    if leb (length text) 65535 && leb size 65535
    then new_packet chunk_ptr data_ptr now ip port (text ++ replicate size 0) size p
    else fault

-- `msg->user_data` is the pool `p`.
unfoldable pub feiq_build_packet :
    (chunk_ptr data_ptr now : ℕ) → Msg → Pool → Outcome (Option Packet × Pool)
unfolding version_text packet_text pack
feiq_build_packet chunk_ptr data_ptr now m p =
    let text =
      packet_text (version_text (codes "131") m.avatar_id (field macaddr_at m) m.gpmsg_size)
        m.packet_id (field username_at m) (field hostname_at m) m.command
        (read_bytes m.data_size m.text data_at) in
    if leb (data_at + m.data_size) msg_bytes
    then pack chunk_ptr data_ptr now (str2ip (field ip_at m)) m.port text (length text) p
    else fault

-- The size counts the first text twice: the second `strlen` is of `buf`, not of `category`.
unfoldable pub feiq_entry_broadcast_pkt :
    (chunk_ptr data_ptr now avatar_id : ℕ) (macaddr : Bytes) (packet_id : ℕ)
    (username hostname nickname category : Bytes)
    → Pool
    → Outcome (Option Packet × Pool)
unfolding version_text packet_text pack
feiq_entry_broadcast_pkt chunk_ptr data_ptr now avatar_id macaddr packet_id username hostname
      nickname category p =
    let text =
      packet_text (version_text (codes "128") avatar_id macaddr 0) packet_id username hostname 0x101
        nickname in
    pack chunk_ptr data_ptr now (some 0xffffffff) 9090 (text ++ 0 ∷ category ++ 0 ∷ [])
      (length text + 1 + (length text + 1)) p

unfoldable pub feiq_sendmsg_pkt :
    (chunk_ptr data_ptr now : ℕ) (ip : Bytes) (avatar_id : ℕ) (macaddr : Bytes) (packet_id : ℕ)
    (username hostname payload : Bytes)
    → Pool
    → Outcome (Option Packet × Pool)
unfolding version_text packet_text pack
feiq_sendmsg_pkt chunk_ptr data_ptr now ip avatar_id macaddr packet_id username hostname payload p =
    let text =
      packet_text (version_text (codes "128") avatar_id macaddr 0) packet_id username hostname 0x120
        payload in
    pack chunk_ptr data_ptr now (str2ip ip) 2425 (text ++ 0 ∷ []) (length text + 1) p
