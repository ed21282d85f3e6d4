-- ===== src/Feiq/Exchange/Reply.antt =====
-- ifc/src/feiq/feiq.c: a message that is built from its fields, as the other side reads it.
use i_free_chat.Base.{
  ℕ, zero, suc, ap, ◌+◌, ◌^◌, ◌≤◌, ◌<◌, ◌≡◌, refl, true, some, length, leb, arith,
}
use i_free_chat.Base.Memory.{read_bytes}
use i_free_chat.Text.{Bytes, codes}
use i_free_chat.Address.{str2ip}
use i_free_chat.MemPool.{ret, Pool}
use i_free_chat.Feiq.{
  Packet, Msg, field, macaddr_at, username_at, hostname_at, ip_at, data_at, msg_bytes,
}
use i_free_chat.Feiq.Build.{version_text, packet_text, feiq_build_packet}
use i_free_chat.Feiq.Parse.{feiq_parse_packet}
use i_free_chat.Feiq.Parse.Steps.{IsField, IsPart, length-version_text}
use i_free_chat.Feiq.Parse.Carries.{Carries, parse-Carries}
use i_free_chat.Feiq.Exchange.{Gives, Makes, pack-Makes, length-packet_text}

-- The text that `feiq_build_packet` prints of a message.
abbrev pub built_text : Msg → Bytes
built_text m =
    packet_text (version_text (codes "131") m.avatar_id (field macaddr_at m) m.gpmsg_size)
      m.packet_id (field username_at m) (field hostname_at m) m.command
      (read_bytes m.data_size m.text data_at)

-- A message whose fields the protocol can carry: the strings end within their fields and hold no
-- separator, the numbers fit their types, and the address is four numbers.
pub record IsSendable (m : Msg) (ip : ℕ) : Type 0 where
  pub mac : IsPart (field macaddr_at m)
  pub username : IsField (field username_at m)
  pub hostname : IsField (field hostname_at m)
  pub mac_fits : length (field macaddr_at m) < 32
  pub username_fits : length (field username_at m) < 32
  pub hostname_fits : length (field hostname_at m) < 32
  pub data_fits : m.data_size ≤ 1024
  pub avatar_fits : m.avatar_id < 2 ^ 16
  pub gpmsg_fits : m.gpmsg_size < 2 ^ 16
  pub id_fits : m.packet_id < 2 ^ 31
  pub command_fits : m.command < 2 ^ 31
  pub address : str2ip (field ip_at m) ≡ some ip

length-read_bytes : (n : ℕ) (t : ℕ → ℕ) (a : ℕ) → length (read_bytes n t a) ≡ n
unfolding read_bytes
length-read_bytes zero t a = refl
length-read_bytes (suc n) t a = ap suc (length-read_bytes n t (a + 1))

module _ (m : Msg) (ip : ℕ) (v : IsSendable m ip) where
  payload_length : length (read_bytes m.data_size m.text data_at) ≤ 1024
  payload_length = omega (arith, length-read_bytes m.data_size m.text data_at, v.data_fits)

  pub length-built_text : length (built_text m) ≤ 65535
  length-built_text = omega (
    arith,
    length-packet_text (version_text (codes "131") m.avatar_id (field macaddr_at m) m.gpmsg_size)
        m.packet_id (field username_at m) (field hostname_at m) m.command
        (read_bytes m.data_size m.text data_at),
    length-version_text (codes "131") (field macaddr_at m) m.avatar_id m.gpmsg_size
        (refl, refl, refl, refl) v.mac,
    v.mac_fits,
    v.username_fits,
    v.hostname_fits,
    payload_length,
  )

  build-Makes :
      (chunk_ptr data_ptr now : ℕ) (p : Pool) (base : ℕ) (p' : Pool)
      → Gives chunk_ptr data_ptr (length (built_text m)) p base p'
      → Makes (feiq_build_packet chunk_ptr data_ptr now m p) ip (built_text m)
  unfolding feiq_build_packet
  build-Makes chunk_ptr data_ptr now p base p' g =
      let inside : leb (data_at + m.data_size) msg_bytes ≡ true = ground (arith, v.data_fits) in
      rw (inside, v.address)
        (pack-Makes chunk_ptr data_ptr now ip m.port (built_text m) p base p' length-built_text g)

  abbrev pub Reads : Packet → Type 0
  Reads k =
      (m₀ : Msg)
      → (m' : Msg) × (feiq_parse_packet k m₀ ≡ ret (true, m'))
        × Carries m' k.ip m.avatar_id (field macaddr_at m) m.gpmsg_size m.packet_id
            (field username_at m) (field hostname_at m) m.command
            (read_bytes m.data_size m.text data_at)

  built_text-Reads : (k : Packet) → k.size ≡ length k.payload → k.payload ≡ built_text m → Reads k
  built_text-Reads k es ep m₀ =
      parse-Carries (codes "131") (field macaddr_at m) m.avatar_id m.gpmsg_size m.packet_id
        (field username_at m) (field hostname_at m) m.command
        (read_bytes m.data_size m.text data_at) (refl, refl, refl, refl) v.mac v.avatar_fits
        v.gpmsg_fits v.id_fits v.command_fits v.username v.hostname (omega arith) v.mac_fits
        v.username_fits v.hostname_fits payload_length k m₀ es ep

  -- When the pool gives a block for it, `feiq_build_packet` makes a packet of a message that the
  -- protocol can carry, for the message's address, and whoever parses that packet's payload gets
  -- the message's numbers, names and data.
  pub build-parse :
      (chunk_ptr data_ptr now : ℕ) (p : Pool) (base : ℕ) (p' : Pool)
      → Gives chunk_ptr data_ptr (length (built_text m)) p base p'
      → (k : Packet) × (p'' : Pool) × (feiq_build_packet chunk_ptr data_ptr now m p
          ≡ ret (some k, p''))
        × (k.ip ≡ ip)
        × Reads k
  build-parse chunk_ptr data_ptr now p base p' g =
      let (k, p'', e, q, es, ep) = build-Makes chunk_ptr data_ptr now p base p' g in
      (k, p'', e, q, built_text-Reads k es ep)
