-- ===== src/Feiq/Exchange.antt =====
-- ifc/src/feiq/feiq.c: what one side builds, the other side reads.
pub mod Reply
use i_free_chat.Base.{
  ℕ, ◌+◌, ◌%◌, ◌^◌, ◌≤◌, ◌<◌, ◌≡◌, refl, sym, ap, ◌∙◌, ◌≢◌, ◌&&◌, true, false, Option, some, [],
  ◌∷◌, ◌++◌, leb, ◌==◌, length, take, replicate, length-append, append_assoc, arith,
}
use i_free_chat.Text.{Bytes, codes, decimal}
use i_free_chat.Text.Decimal.{length-decimal}
use i_free_chat.Address.{str2ip}
use i_free_chat.MemPool.{Outcome, ret, Pool, pool_alloc}
use i_free_chat.Feiq.{Packet, Msg, packet_bytes, packet_at, write_packet, new_packet}
use i_free_chat.Feiq.Build.{version_text, packet_text, pack, feiq_sendmsg_pkt}
use i_free_chat.Feiq.Parse.{feiq_parse_packet}
use i_free_chat.Feiq.Parse.Steps.{IsField, IsPart, length-version_text}
use i_free_chat.Feiq.Parse.Carries.{Carries, parse-Carries, parse-Carries_at}

take-append : (s t : Bytes) → take (length s) (s ++ t) ≡ s
take-append [] t = refl
take-append (c ∷ s) t = ap (◌∷◌ c) (take-append s t)

-- The pool gives a block of that many bytes for a packet.
abbrev pub Gives : (chunk_ptr data_ptr size : ℕ) (p : Pool) (base : ℕ) (p' : Pool) → Type 0
Gives chunk_ptr data_ptr size p base p' =
    (pool_alloc chunk_ptr data_ptr ((packet_bytes + size + 1) % 2 ^ 32) p ≡ ret (base, p'))
    × (base ≢ 0)

-- A call that makes a packet with this payload for this address.
abbrev pub Makes : Outcome (Option Packet × Pool) → (ip : ℕ) (text : Bytes) → Type 0
Makes o ip text =
    (k : Packet) × (p : Pool) × (o ≡ ret (some k, p))
    × (k.ip ≡ ip)
    × (k.size ≡ length k.payload)
    × (k.payload ≡ text)

not_zero : (n : ℕ) → n ≢ 0 → (n == 0) ≡ false
not_zero n h = ground arith

fits : (n : ℕ) → n ≤ 65535 → (leb n 65535 && leb n 65535) ≡ true
fits n h = ground arith

new_packet-Makes :
    (chunk_ptr data_ptr now ip port : ℕ) (text rest : Bytes) (p : Pool) (base : ℕ) (p' : Pool)
    → Gives chunk_ptr data_ptr (length text) p base p'
    → Makes (new_packet chunk_ptr data_ptr now ip port (text ++ rest) (length text) p) ip text
unfolding new_packet packet_at
new_packet-Makes chunk_ptr data_ptr now ip port text rest p base p' (e, n) = (
  packet_at base now ip port (text ++ rest) (length text),
  record p' { mem = write_packet (packet_at base now ip port (text ++ rest) (length text)) p'.mem },
  rw (e, not_zero base n),
  refl,
  ap length (sym (take-append text rest)),
  take-append text rest,
)

pub pack-Makes :
    (chunk_ptr data_ptr now ip port : ℕ) (text : Bytes) (p : Pool) (base : ℕ) (p' : Pool)
    → length text ≤ 65535
    → Gives chunk_ptr data_ptr (length text) p base p'
    → Makes (pack chunk_ptr data_ptr now (some ip) port text (length text) p) ip text
unfolding pack
pack-Makes chunk_ptr data_ptr now ip port text p base p' l g =
    rw (fits (length text) l)
      (new_packet-Makes chunk_ptr data_ptr now ip port text (replicate (length text) 0) p base p' g)

-- What a text of the builder is, with a bound on its length.
pub length-packet_text :
    (v : Bytes) (i : ℕ) (u h : Bytes) (c : ℕ) (s : Bytes)
    → length (packet_text v i u h c s) ≤ length v + length u + length h + length s + 25
unfolding packet_text
length-packet_text v i u h c s = omega (
  arith,
  length-append v
      (b':' ∷ (decimal i ++ b':' ∷ (u ++ b':' ∷ (h ++ b':' ∷ (decimal c ++ b':' ∷ s))))),
  length-append (decimal i) (b':' ∷ (u ++ b':' ∷ (h ++ b':' ∷ (decimal c ++ b':' ∷ s)))),
  length-append u (b':' ∷ (h ++ b':' ∷ (decimal c ++ b':' ∷ s))),
  length-append h (b':' ∷ (decimal c ++ b':' ∷ s)),
  length-append (decimal c) (b':' ∷ s),
  length-decimal i,
  length-decimal c,
)

-- A NUL behind the text is a NUL behind its last field.
packet_text-append :
    (v : Bytes) (i : ℕ) (u h : Bytes) (c : ℕ) (s t : Bytes)
    → packet_text v i u h c s ++ t ≡ packet_text v i u h c (s ++ t)
unfolding packet_text
packet_text-append v i u h c s t = simp append_assoc

-- The text that `feiq_sendmsg_pkt` prints, with its NUL.
abbrev pub sent_text :
    (avatar_id : ℕ) (macaddr : Bytes) (packet_id : ℕ) (username hostname text : Bytes) → Bytes
sent_text a mac i u h s = packet_text (version_text (codes "128") a mac 0) i u h 0x120 s ++ 0 ∷ []

module _ (mac : Bytes) (a i ip : ℕ) (ip_text u h s : Bytes) (pm : IsPart mac) (ba : a < 2 ^ 16)
    (bi : i < 2 ^ 31) (eip : str2ip ip_text ≡ some ip) (fu : IsField u) (fh : IsField h)
    (lm : length mac < 32) (lu : length u < 32) (lh : length h < 32) (ls : length s < 1024) where
  nul_IsField : length (s ++ 0 ∷ []) ≤ 1024
  nul_IsField = omega (arith, length-append s (0 ∷ []), ls)

  pub length-sent_text : length (sent_text a mac i u h s) ≤ 65535
  length-sent_text = omega (
    arith,
    length-append (packet_text (version_text (codes "128") a mac 0) i u h 0x120 s) (0 ∷ []),
    length-packet_text (version_text (codes "128") a mac 0) i u h 0x120 s,
    length-version_text (codes "128") mac a 0 (refl, refl, refl, refl) pm,
    lm,
    lu,
    lh,
    ls,
  )

  sendmsg-Makes :
      (chunk_ptr data_ptr now : ℕ) (p : Pool) (base : ℕ) (p' : Pool)
      → Gives chunk_ptr data_ptr (length (sent_text a mac i u h s)) p base p'
      → Makes
          (feiq_sendmsg_pkt chunk_ptr data_ptr now ip_text a mac i u h s p)
          ip
          (sent_text a mac i u h s)
  unfolding feiq_sendmsg_pkt
  sendmsg-Makes chunk_ptr data_ptr now p base p' g =
      rw
        (
          eip,
          sym (
              length-append (packet_text (version_text (codes "128") a mac 0) i u h 0x120 s)
                (0 ∷ [])),
        )
        (pack-Makes chunk_ptr data_ptr now ip 2425 (sent_text a mac i u h s) p base p'
          length-sent_text g)

  -- What is read from a payload that is the text.
  abbrev Reads : Packet → Type 0
  Reads k =
      (m : Msg)
      → (m' : Msg) × (feiq_parse_packet k m ≡ ret (true, m'))
        × Carries m' k.ip a mac 0 i u h 0x120 (s ++ 0 ∷ [])

  sent_text-Reads :
      (k : Packet) → k.size ≡ length k.payload → k.payload ≡ sent_text a mac i u h s → Reads k
  sent_text-Reads k es ep m =
      parse-Carries (codes "128") mac a 0 i u h 0x120 (s ++ 0 ∷ []) (refl, refl, refl, refl) pm ba
        (omega arith) bi (omega arith) fu fh (omega arith) lm lu lh nul_IsField k m es
        (ep ∙ packet_text-append (version_text (codes "128") a mac 0) i u h 0x120 s (0 ∷ []))

  -- When the pool gives a block for it, `feiq_sendmsg_pkt` makes a packet for the address, and
  -- whoever parses that packet's payload gets the avatar, the hardware address, the number, the two
  -- names, the command and the text with its NUL, provided that the names have no `:` and fit their
  -- fields, the hardware address has no `:`, `#` or `_`, the numbers fit their types (the packet's
  -- number `int`), and the text is shorter than 1,024 bytes.
  pub sendmsg-parse :
      (chunk_ptr data_ptr now : ℕ) (p : Pool) (base : ℕ) (p' : Pool)
      → Gives chunk_ptr data_ptr (length (sent_text a mac i u h s)) p base p'
      → (k : Packet) × (p'' : Pool) × (feiq_sendmsg_pkt chunk_ptr data_ptr now ip_text a mac i u h s
            p
          ≡ ret (some k, p''))
        × (k.ip ≡ ip)
        × Reads k
  sendmsg-parse chunk_ptr data_ptr now p base p' g =
      let (k, p'', e, q, es, ep) = sendmsg-Makes chunk_ptr data_ptr now p base p' g in
      (k, p'', e, q, sent_text-Reads k es ep)

-- A packet that holds the text is read into the message that the parser is given.
pub sent_text-read :
    (mac : Bytes) (a i : ℕ) (u h s : Bytes)
    → IsPart mac
    → a < 2 ^ 16
    → i < 2 ^ 31
    → IsField u
    → IsField h
    → length mac < 32
    → length u < 32
    → length h < 32
    → length s < 1024
    → (k : Packet) (m : Msg) → k.size ≡ length k.payload
    → k.payload ≡ sent_text a mac i u h s
    → (m' : Msg) × (feiq_parse_packet k m ≡ ret (true, m'))
      × Carries m' k.ip a mac 0 i u h 0x120 (s ++ 0 ∷ [])
      × (m'.addr ≡ m.addr)
sent_text-read mac a i u h s pm ba bi fu fh lm lu lh ls k m es ep =
    parse-Carries_at (codes "128") mac a 0 i u h 0x120 (s ++ 0 ∷ []) (refl, refl, refl, refl) pm ba
      (omega arith) bi (omega arith) fu fh (omega arith) lm lu lh
      (omega (arith, length-append s (0 ∷ []), ls)) k m es
      (ep ∙ packet_text-append (version_text (codes "128") a mac 0) i u h 0x120 s (0 ∷ []))
