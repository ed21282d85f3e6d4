-- ===== src/Feiq.antt =====
-- ifc/src/feiq/feiq.c with ifc/lib/net/packet.c, ifc/include/net/packet.h and
-- ifc/include/net/msg.h: the FeiQ protocol, which prints messages as packets and reads them back.
pub mod Build
pub mod Parse
pub mod Exchange
pub mod Handle
mod Tests
use i_free_chat.Base.{
  ℕ, zero, suc, ◌+◌, ◌*◌, ◌/◌, ◌%◌, ◌^◌, Bool, ◌&&◌, true, false, Option, none, some, List, [], ◌∷◌,
  ◌++◌, ltb, leb, ◌==◌, if◌then◌else◌, length, take, replicate, update,
}
use i_free_chat.Base.Memory.{Memory, store32, store_bytes}
use i_free_chat.Text.{Bytes}
use i_free_chat.MemPool.{Outcome, ret, deadlock, fault, ◌>>=◌, Pool, pool_alloc, pool_free}

-- `packet_t`, at the address `addr`. `payload` is the `size` bytes of `data`, behind the structure.
pub record Packet : Type 0 where
  pub addr : ℕ
  pub mtime : ℕ
  pub ip : ℕ
  pub port : ℕ
  pub size : ℕ
  pub payload : Bytes

-- `sizeof(packet_t)`
abbrev pub packet_bytes : ℕ
packet_bytes = 20

store16 : ℕ → ℕ → Memory → Memory
store16 a v m = update (update m a (v % 256)) (a + 1) (v / 256 % 256)

-- What the fields of a packet are in memory.
pub write_packet : Packet → Memory → Memory
unfolding store16
write_packet k m = store_bytes (k.addr + 20) k.payload (
    store32 (k.addr + 16) (k.addr + 20) (
      store32 (k.addr + 12) k.size
        (store16 (k.addr + 8) k.port (store32 (k.addr + 4) k.ip (store32 k.addr k.mtime m)))))

unfoldable pub packet_at : (addr now ip port : ℕ) (payload : Bytes) (size : ℕ) → Packet
packet_at addr now ip port payload size = record {
  addr = addr;
  mtime = now;
  ip = ip;
  port = port;
  size = size;
  payload = take size payload;
}

-- `new_packet` at the time `now`; NULL is `none`. Of `payload` the first `size` bytes are copied.
unfoldable pub new_packet :
    (chunk_ptr data_ptr now ip port : ℕ) (payload : Bytes) (size : ℕ)
    → Pool
    → Outcome (Option Packet × Pool)
unfolding packet_at write_packet
new_packet chunk_ptr data_ptr now ip port payload size p = do
  (base, p') ← pool_alloc chunk_ptr data_ptr ((packet_bytes + size + 1) % 2 ^ 32) p
  let k = packet_at base now ip port payload size
  ret (if base == 0 then (none, p') else (some k, record p' { mem = write_packet k p'.mem }))

unfoldable pub free_packet : Packet → Pool → Outcome Pool
free_packet k p = pool_free k.addr p

-- `msg_t`, at the address `addr`. Its texts are bytes in `text`, at the offsets that they have in
-- the structure, so that a copy which is too long runs into the next one.
pub record Msg : Type 0 where
  pub addr : ℕ
  pub data_size : ℕ
  pub mtime : ℕ
  pub command : ℕ
  pub packet_id : ℕ
  pub port : ℕ
  pub avatar_id : ℕ
  pub gpmsg_size : ℕ
  pub gpid : ℕ
  pub text : Memory
  pub user_data : ℕ
  pub prev : ℕ
  pub next : ℕ

-- The offsets of the texts, of `list_node`, and `sizeof(msg_t)`.
abbrev pub ip_at : ℕ
ip_at = 28

abbrev pub macaddr_at : ℕ
macaddr_at = 60

abbrev pub version_at : ℕ
version_at = 92

abbrev pub username_at : ℕ
username_at = 108

abbrev pub hostname_at : ℕ
hostname_at = 140

abbrev pub nickname_at : ℕ
nickname_at = 172

abbrev pub avatar_at : ℕ
avatar_at = 204

abbrev pub category_at : ℕ
category_at = 268

abbrev pub data_at : ℕ
data_at = 300

abbrev pub data_capacity : ℕ
data_capacity = 1024

abbrev pub list_node_at : ℕ
list_node_at = 1328

abbrev pub msg_bytes : ℕ
msg_bytes = 1336

-- The string at an offset, at most `fuel` bytes of it.
unfoldable pub c_str : ℕ → Memory → ℕ → Bytes
c_str zero m a = []
c_str (suc fuel) m a = let rest = c_str fuel m (a + 1) in if m a == 0 then [] else m a ∷ rest

-- A text field: a string in the structure.
unfoldable pub field : ℕ → Msg → Bytes
unfolding c_str
field offset m = c_str msg_bytes m.text offset

-- `memcpy` to an offset of the structure.
unfoldable pub copy_to : ℕ → Bytes → Msg → Outcome Msg
copy_to offset s m =
    if leb (offset + length s) msg_bytes
    then ret (record m { text = store_bytes offset s m.text })
    else fault

-- `strcpy` to an offset of the structure.
unfoldable pub strcpy_to : ℕ → Bytes → Msg → Outcome Msg
unfolding copy_to
strcpy_to offset s m = copy_to offset (s ++ 0 ∷ []) m
