-- ===== src/Feiq/Parse/Carries.antt =====
-- What the message that the parser fills says.
use i_free_chat.Base.{
  ℕ, ◌+◌, ◌^◌, ◌≤◌, ◌<◌, ◌≡◌, refl, ap, ◌∙◌, inl, inr, true, [], ◌∷◌, ◌++◌, length, length-append,
  arith,
}
use i_free_chat.Base.Memory.{
  Memory, store_bytes, str_at, clear, read_bytes, str_at-store_bytes, str_at-store_apart,
  str_at-clear_apart, read-store_bytes,
}
use i_free_chat.Text.{Bytes}
use i_free_chat.Address.{ip2str, length-ip2str}
use i_free_chat.MemPool.{ret}
use i_free_chat.Feiq.{
  Packet, Msg, macaddr_at, username_at, hostname_at, ip_at, data_at, data_capacity,
}
use i_free_chat.Feiq.Build.{version_text, packet_text}
use i_free_chat.Feiq.Parse.{feiq_parse_packet}
use i_free_chat.Feiq.Parse.Steps.{IsField, IsPart}
use i_free_chat.Feiq.Parse.RoundTrip.{
  parsed, with_fields, with_data, with_version, parse-packet_text,
}

-- The message has these fields, and its texts lie at their offsets.
abbrev pub Carries :
    (m : Msg) (ip : ℕ) (a : ℕ) (mac : Bytes) (g i : ℕ) (u h : Bytes) (c : ℕ) (s : Bytes) → Type 0
Carries m ip a mac g i u h c s =
    (m.avatar_id ≡ a)
    × (m.gpmsg_size ≡ g)
    × (m.packet_id ≡ i)
    × (m.command ≡ c)
    × (m.data_size ≡ length s)
    × (str_at m.text ip_at (ip2str ip) ≡ true)
    × (str_at m.text macaddr_at mac ≡ true)
    × (str_at m.text username_at u ≡ true)
    × (str_at m.text hostname_at h ≡ true)
    × (read_bytes (length s) m.text data_at ≡ s)

module _ (u h s : Bytes) (lu : length u < 32) (lh : length h < 32) where
  -- The three copies that follow the version's.
  abbrev last : Memory → Memory
  last t = store_bytes data_at s (
      clear data_at data_capacity
        (store_bytes hostname_at (h ++ 0 ∷ []) (store_bytes username_at (u ++ 0 ∷ []) t)))

  -- A text in front of the user's name stays in place.
  last_keeps :
      (offset : ℕ) (q : Bytes) (t : Memory)
      → offset + length q < username_at
      → str_at t offset q ≡ true
      → str_at (last t) offset q ≡ true
  last_keeps offset q t l e = str_at-store_apart offset q data_at s _ (inl (omega arith)) (
      str_at-clear_apart offset q data_at data_capacity _ (inl (omega arith)) (
        str_at-store_apart offset q hostname_at (h ++ 0 ∷ []) _ (inl (omega arith))
          (str_at-store_apart offset q username_at (u ++ 0 ∷ []) t (inl (omega arith)) e)))

  last_username : (t : Memory) → str_at (last t) username_at u ≡ true
  last_username t = str_at-store_apart username_at u data_at s _ (inl (omega (arith, lu))) (
      str_at-clear_apart username_at u data_at data_capacity _ (inl (omega (arith, lu))) (
        str_at-store_apart username_at u hostname_at (h ++ 0 ∷ []) _ (inl (omega (arith, lu)))
          (str_at-store_bytes username_at u t)))

  last_hostname : (t : Memory) → str_at (last t) hostname_at h ≡ true
  last_hostname t = str_at-store_apart hostname_at h data_at s _ (inl (omega (arith, lh))) (
      str_at-clear_apart hostname_at h data_at data_capacity _ (inl (omega (arith, lh)))
        (str_at-store_bytes hostname_at h _))

module _ (kind mac : Bytes) (a g i : ℕ) (u h : Bytes) (c : ℕ) (s : Bytes) (pk : IsPart kind)
    (pm : IsPart mac) (ba : a < 2 ^ 16) (bg : g < 2 ^ 16) (bi : i < 2 ^ 31) (bc : c < 2 ^ 31)
    (fu : IsField u) (fh : IsField h) (lk : length kind < 32) (lm : length mac < 32)
    (lu : length u < 32) (lh : length h < 32) (ls : length s ≤ 1024) where
  parsed-Carries :
      (k : Packet) (m : Msg)
      → Carries (parsed k (version_text kind a mac g) a mac g i u h c s m) k.ip a mac g i u h c s
  unfolding parsed with_fields with_data with_version
  parsed-Carries k m = (
    refl,
    refl,
    refl,
    refl,
    refl,
    last_keeps u h s lu lh ip_at (ip2str k.ip) _ (omega (arith, length-ip2str k.ip))
        (str_at-store_bytes ip_at (ip2str k.ip) _),
    last_keeps u h s lu lh macaddr_at mac _ (omega (arith, lm)) (
        str_at-store_apart macaddr_at mac ip_at (ip2str k.ip ++ 0 ∷ []) _
          (inr (omega (arith, length-ip2str k.ip, length-append (ip2str k.ip) (0 ∷ []))))
          (str_at-store_bytes macaddr_at mac _)),
    last_username u h s lu lh _,
    last_hostname u h s lu lh _,
    read-store_bytes data_at s _,
  )

  -- The message also stays where it is.
  pub parse-Carries_at :
      (k : Packet) (m : Msg)
      → k.size ≡ length k.payload
      → k.payload ≡ packet_text (version_text kind a mac g) i u h c s
      → (m' : Msg) × (feiq_parse_packet k m ≡ ret (true, m'))
        × Carries m' k.ip a mac g i u h c s
        × (m'.addr ≡ m.addr)
  unfolding parsed with_fields with_data with_version
  parse-Carries_at k m es ep = (
    parsed k (version_text kind a mac g) a mac g i u h c s m,
    parse-packet_text kind mac a g i u h c s pk pm ba bg bi bc fu fh lk lm lu lh ls k m
        (es ∙ ap length ep) ep,
    parsed-Carries k m,
    refl,
  )

  -- The parser accepts any packet whose payload is printed from these fields, for the sender's
  -- address that the packet names, and fills the message with them, provided that the numbers fit
  -- their fields (the packet's number and the command `int`), the names have no `:` and fit their
  -- fields, the kind and the hardware address have no `:`, `#` or `_`, and the data are at most
  -- 1,024 bytes.
  pub parse-Carries :
      (k : Packet) (m : Msg)
      → k.size ≡ length k.payload
      → k.payload ≡ packet_text (version_text kind a mac g) i u h c s
      → (m' : Msg) × (feiq_parse_packet k m ≡ ret (true, m')) × Carries m' k.ip a mac g i u h c s
  parse-Carries k m es ep = let (m', e, f, at) = parse-Carries_at k m es ep in (m', e, f)
