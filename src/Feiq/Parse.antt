-- ===== src/Feiq/Parse.antt =====
-- ifc/src/feiq/feiq.c: a packet that arrived, as a message.
pub mod Steps
pub mod RoundTrip
pub mod Carries
use i_free_chat.Base.{
  ℕ, zero, suc, ◌+◌, ◌*◌, ◌%◌, ◌^◌, Bool, true, false, not, Option, none, some, List, [], ◌∷◌, ◌++◌,
  ltb, leb, ◌==◌, if◌then◌else◌, length, take, replicate,
}
use i_free_chat.Base.Memory.{clear}
use i_free_chat.Text.{Bytes, codes, atoi, strchr, strrchr, starts_with}
use i_free_chat.Address.{ip2str}
use i_free_chat.MemPool.{Outcome, ret, fault, ◌>>=◌, Pool, sub_size}
use i_free_chat.Feiq.{
  Packet, Msg, copy_to, strcpy_to, macaddr_at, username_at, hostname_at, ip_at, version_at, data_at,
  data_capacity, list_node_at, msg_bytes,
}

-- What a call of `strchr` or `strrchr` found; its uses step past a NULL and read there.
unfoldable pub found {ℓ} : {A : Type ℓ} → Option A → Outcome A
found none = fault
found (some a) = ret a

unfoldable pub get_avatar_id_from_version : Bytes → Outcome ℕ
unfolding found
get_avatar_id_from_version version =
    if starts_with (codes "1_lbt") version
    then found (strrchr b'_' version) >>= (λ p. ret (atoi p))
    else ret 0

-- The bytes before the next `c`. The loop does not stop at a NUL, so it reads on in what follows
-- the string.
unfoldable pub until : ℕ → Bytes → Option Bytes
until c [] = none
until c (d ∷ s) =
    let rest = until c s in
    if d == c then some [] else elim rest [ none ↦ none | some t ↦ some (d ∷ t) ]

-- `behind` is what the packet holds behind the version.
pub get_mac_from_version : (version behind : Bytes) → Outcome Bytes
unfolding found until
get_mac_from_version version behind =
    if starts_with (codes "1_lbt") version
    then found (strchr b'#' version)
      >>= (λ u. found (strchr b'#' (u.1)) >>= (λ v. found (until b'#' (v.1 ++ 0 ∷ behind))))
    else ret (codes "000000000000")

-- Behind the next `#`.
pub next_mark : Bytes → Outcome Bytes
unfolding found
next_mark s = found (strchr b'#' s) >>= (λ u. ret (u.1))

pub get_gpmsg_size_from_version : Bytes → Outcome ℕ
unfolding next_mark
get_gpmsg_size_from_version version = do
  p ← next_mark version
  p ← next_mark p
  p ← next_mark p
  p ← next_mark p
  p ← next_mark p
  ret (atoi p)

-- `q = strchr(p, ':'); *q++ = '\0'`: the field and what is behind it. The NUL ends the field, which
-- a list needs none for.
unfoldable pub cut : Bytes → Outcome (Bytes × Bytes)
unfolding found
cut s = found (strchr b':' s)

-- `size -= strlen(p) + 1`
abbrev pub less : ℕ → Bytes → ℕ
less size s = sub_size size (length s + 1)

-- The end: the data, and the fields that are reset.
pub parse_data : (size : ℕ) → Bytes → Msg → Outcome Msg
parse_data size s m = do
  let m = record m { text = clear data_at data_capacity m.text }
  m ← (if ltb (length s) size then fault else copy_to data_at (take size s) m)
  ret (record m {
    data_size = size;
    user_data = 0;
    gpid = 0;
    prev = m.addr + list_node_at;
    next = m.addr + list_node_at;
  })

-- The fields behind the version.
pub parse_fields : (size : ℕ) → Bytes → Msg → Outcome Msg
parse_fields size s m = do
  (p, s) ← cut s
  let size = less size p
  let m = record m { packet_id = atoi p }
  (p, s) ← cut s
  m ← strcpy_to username_at p m
  let size = less size p
  (p, s) ← cut s
  m ← strcpy_to hostname_at p m
  let size = less size p
  (p, s) ← cut s
  let size = less size p
  let m = record m { command = atoi p }
  parse_data size s m

-- What the version says, and the sender's address.
pub parse_version : Packet → (version behind : Bytes) → Msg → Outcome Msg
parse_version k version behind m = do
  avatar_id ← get_avatar_id_from_version version
  mac ← get_mac_from_version version behind
  m ← strcpy_to macaddr_at mac (record m { avatar_id = avatar_id % 2 ^ 16 })
  gpmsg_size ← get_gpmsg_size_from_version version
  m ← strcpy_to ip_at (ip2str k.ip) (record m { gpmsg_size = gpmsg_size % 2 ^ 16 })
  ret (record m { port = k.port })

-- The flag is whether it returns 0; the message is what it is at the return.
pub feiq_parse_packet : Packet → Msg → Outcome (Bool × Msg)
feiq_parse_packet k m = do
  (version, s) ← cut k.payload
  m ← strcpy_to version_at version (record m { mtime = k.mtime })
  if not (starts_with (codes "1_lbt4") version)
      then ret (false, m)
      else (parse_version k version s m
          >>= (λ m. parse_fields (less k.size version) s m >>= (λ m. ret (true, m))))
