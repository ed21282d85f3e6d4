-- ===== src/Feiq/Tests.antt =====
-- A greeting from ann.
use i_free_chat.Base.{
  ◌∙◌, inr, length-append, ap, Bool, Option, none, ◌==◌, if◌then◌else◌, ℕ, ◌+◌, ◌%◌, ◌^◌, ◌≤◌, ◌≡◌,
  refl, true, false, some, [], ◌∷◌, ◌++◌, arith, length,
}
use i_free_chat.Base.Memory.{Memory, store_bytes, store_bytes_apart, str_at-store_bytes, str_at}
use i_free_chat.Text.{starts_with, Bytes, codes}
use i_free_chat.Address.{ip2str, length-ip2str, has-ip2str, str2ip, str2ip-ip2str}
use i_free_chat.MemPool.{ret, Pool, pool_alloc}
use i_free_chat.MemPool.Alloc.{IsValid, Allocated, request, pool_alloc-Allocated}
use i_free_chat.Feiq.Exchange.Reply.{built_text, IsSendable, length-built_text, Reads, build-parse}
use i_free_chat.Feiq.{
  ip_at, macaddr_at, username_at, hostname_at, field, version_at, data_at, avatar_at, nickname_at,
  category_at, Packet, Msg, packet_bytes,
}
use i_free_chat.Feiq.Build.{feiq_build_packet, version_text, packet_text, feiq_sendmsg_pkt}
use i_free_chat.Feiq.Handle.{avatar_text, feiq_on_entry}
use i_free_chat.Feiq.Handle.Entry.{field-str_at, on_entry-fields}
use i_free_chat.Feiq.Parse.{get_avatar_id_from_version, feiq_parse_packet}
use i_free_chat.Feiq.Parse.Carries.{Carries, parse-Carries}
use i_free_chat.Feiq.Exchange.{sent_text, length-sent_text, sendmsg-parse}

abbrev mac_a : Bytes
mac_a = codes "0a1b"

abbrev ann : Bytes
ann = codes "ann"

abbrev host_a : Bytes
host_a = codes "pc"

abbrev hello : Bytes
hello = codes "hello"

abbrev ip_a : ℕ
ip_a = 3232235786

abbrev msg_a : Msg
msg_a = record {
  addr = 400;
  data_size = 0;
  mtime = 0;
  command = 0;
  packet_id = 0;
  port = 0;
  avatar_id = 0;
  gpmsg_size = 0;
  gpid = 0;
  text = λ a. 0;
  user_data = 0;
  prev = 0;
  next = 0;
}

abbrev payload_a : Bytes
payload_a = packet_text (version_text (codes "131") 4 mac_a 0) 9 ann host_a 0x20 hello

abbrev packet_a : Packet
packet_a = record {
  addr = 100;
  mtime = 1;
  ip = ip_a;
  port = 2425;
  size = length payload_a;
  payload = payload_a;
}

parse-Carries_example :
    (m' : Msg) × (feiq_parse_packet packet_a msg_a ≡ ret (true, m'))
    × Carries m' ip_a 4 mac_a 0 9 ann host_a 0x20 hello
parse-Carries_example =
    parse-Carries (codes "131") mac_a 4 0 9 ann host_a 0x20 hello (refl, refl, refl, refl)
      (refl, refl, refl, refl) (omega arith) (omega arith) (omega arith) (omega arith) (refl, refl)
      (refl, refl) (omega arith) (omega arith) (omega arith) (omega arith) (omega arith) packet_a
      msg_a refl refl

abbrev pool_a : Pool
pool_a = record { size = 70000; quantum = 4; chunks = []; locked = false; mem = λ a. 0 }

pool_a-IsValid : IsValid pool_a
pool_a-IsValid = record { small = omega arith; each = tt; single = omega arith }

abbrev sent_a : Bytes
sent_a = sent_text 4 mac_a 9 ann host_a hello

ip_a_text : str2ip (ip2str ip_a) ≡ some ip_a
ip_a_text = str2ip-ip2str ip_a (omega arith)

sent_a_fits : length sent_a ≤ 65535
sent_a_fits =
    length-sent_text mac_a 4 9 ip_a (ip2str ip_a) ann host_a hello (refl, refl, refl, refl)
      (omega arith) (omega arith) ip_a_text (refl, refl) (refl, refl) (omega arith) (omega arith)
      (omega arith) (omega arith)

request_fits : (n : ℕ) → n ≤ 65535 → request pool_a ((packet_bytes + n + 1) % 2 ^ 32) ≤ 70000
request_fits n h = ground arith

block_a :
    (at : ℕ) × (q : Pool) × (pool_alloc 1 5000 ((packet_bytes + length sent_a + 1) % 2 ^ 32) pool_a
      ≡ ret (at + 4, q))
    × Allocated pool_a 5000 ((packet_bytes + length sent_a + 1) % 2 ^ 32) at q
block_a =
    pool_alloc-Allocated 1 5000 ((packet_bytes + length sent_a + 1) % 2 ^ 32) pool_a pool_a-IsValid
      refl (request_fits (length sent_a) sent_a_fits) (ground arith)
      (record { not_null = ground arith; in_memory = omega arith; free_fits = omega arith })

sendmsg-parse_example :
    (k : Packet) × (p'' : Pool) × (feiq_sendmsg_pkt 1 5000 1
        (ip2str ip_a)
        4
        mac_a
        9
        ann
        host_a
        hello
        pool_a
      ≡ ret (some k, p''))
    × (k.ip ≡ ip_a)
    × ((m : Msg)
        → (m' : Msg) × (feiq_parse_packet k m ≡ ret (true, m'))
          × Carries m' k.ip 4 mac_a 0 9 ann host_a 0x120 (hello ++ 0 ∷ []))
sendmsg-parse_example =
    sendmsg-parse mac_a 4 9 ip_a (ip2str ip_a) ann host_a hello (refl, refl, refl, refl)
      (omega arith) (omega arith) ip_a_text (refl, refl) (refl, refl) (omega arith) (omega arith)
      (omega arith) (omega arith) 1 5000 1 pool_a (block_a.0 + 4) (block_a.1)
      (block_a.2, ground arith)

-- A broadcast of the name "x" in the group "y".
abbrev text_b : Memory
text_b a = if a == 300 then b'x' else if a == 302 then b'y' else 0

abbrev msg_b : Msg
msg_b = record msg_a { text = text_b }

abbrev all_valid : Bytes → Bool
all_valid s = true

abbrev no_convert : Bytes → Option Bytes
no_convert s = none

no_version : get_avatar_id_from_version (field version_at msg_b) ≡ ret 0
unfolding str_at get_avatar_id_from_version starts_with
no_version =
    ap get_avatar_id_from_version (field-str_at version_at msg_b [] refl refl (omega arith))

lies_nick : str_at text_b data_at (codes "x") ≡ true
unfolding str_at
lies_nick = refl

lies_cat : str_at text_b (data_at + length (codes "x") + 1) (codes "y") ≡ true
unfolding str_at
lies_cat = refl

on_entry-fields_example :
    (m' : Msg) × (feiq_on_entry all_valid no_convert msg_b ≡ ret m')
    × (m'.avatar_id ≡ 0)
    × (str_at m'.text avatar_at (avatar_text 0) ≡ true)
    × (str_at m'.text nickname_at (codes "x") ≡ true)
    × (str_at m'.text category_at (codes "y") ≡ true)
on_entry-fields_example =
    on_entry-fields all_valid no_convert msg_b 0 (codes "x") (codes "y") (omega arith) no_version
      lies_nick lies_cat refl refl (omega arith) (omega arith) (omega arith) (omega arith) refl refl

-- A message of one letter for the address, without names.
abbrev text_c : Memory
text_c = store_bytes ip_at (ip2str ip_a ++ 0 ∷ []) (λ a. 0)

abbrev msg_c : Msg
msg_c = record msg_a { text = text_c; data_size = 1; command = 0x20; packet_id = 9 }

blank : (offset : ℕ) → ip_at + 16 ≤ offset → str_at text_c offset [] ≡ true
unfolding str_at
blank offset h = rw (
    store_bytes_apart ip_at (ip2str ip_a ++ 0 ∷ []) offset (λ a. 0)
      (inr (omega (arith, length-ip2str ip_a, length-append (ip2str ip_a) (0 ∷ [])))))

nothing : (offset : ℕ) → ip_at + 16 ≤ offset → field offset msg_c ≡ []
nothing offset h = field-str_at offset msg_c [] (blank offset h) refl (omega arith)

address_c : str2ip (field ip_at msg_c) ≡ some ip_a
address_c =
    ap str2ip (
      field-str_at ip_at msg_c (ip2str ip_a) (str_at-store_bytes ip_at (ip2str ip_a) (λ a. 0))
        (has-ip2str ip_a) (omega (arith, length-ip2str ip_a)))
    ∙ ip_a_text

msg_c-IsSendable : IsSendable msg_c ip_a
msg_c-IsSendable = record {
  mac = rw (nothing macaddr_at (omega arith)) (refl, refl, refl, refl);
  username = rw (nothing username_at (omega arith)) (refl, refl);
  hostname = rw (nothing hostname_at (omega arith)) (refl, refl);
  mac_fits = rw (nothing macaddr_at (omega arith)) (omega arith);
  username_fits = rw (nothing username_at (omega arith)) (omega arith);
  hostname_fits = rw (nothing hostname_at (omega arith)) (omega arith);
  data_fits = omega arith;
  avatar_fits = omega arith;
  gpmsg_fits = omega arith;
  id_fits = omega arith;
  command_fits = omega arith;
  address = address_c;
}

block_c :
    (at : ℕ) × (q : Pool) × (pool_alloc 1 5000
        ((packet_bytes + length (built_text msg_c) + 1) % 2 ^ 32)
        pool_a
      ≡ ret (at + 4, q))
    × Allocated pool_a 5000 ((packet_bytes + length (built_text msg_c) + 1) % 2 ^ 32) at q
block_c =
    pool_alloc-Allocated 1 5000 ((packet_bytes + length (built_text msg_c) + 1) % 2 ^ 32) pool_a
      pool_a-IsValid refl
      (request_fits (length (built_text msg_c)) (length-built_text msg_c ip_a msg_c-IsSendable))
      (ground arith)
      (record { not_null = ground arith; in_memory = omega arith; free_fits = omega arith })

build-parse_example :
    (k : Packet) × (p'' : Pool) × (feiq_build_packet 1 5000 1 msg_c pool_a ≡ ret (some k, p''))
    × (k.ip ≡ ip_a)
    × Reads msg_c ip_a msg_c-IsSendable k
build-parse_example =
    build-parse msg_c ip_a msg_c-IsSendable 1 5000 1 pool_a (block_c.0 + 4) (block_c.1)
      (block_c.2, ground arith)
