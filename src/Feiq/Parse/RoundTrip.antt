-- ===== src/Feiq/Parse/RoundTrip.antt =====
-- A printed packet is read back.
use i_free_chat.Base.{
  ℕ, ◌+◌, ◌%◌, ◌^◌, ◌≤◌, ◌<◌, ◌≡◌, refl, sym, ap, ◌∙◌, true, [], ◌∷◌, ◌++◌, length, take,
  length-append, append-nil, arith,
}
use i_free_chat.Base.Memory.{store_bytes, clear}
use i_free_chat.Text.{Bytes, decimal, atoi, starts_with}
use i_free_chat.Text.Decimal.{atoi-decimal, length-decimal}
use i_free_chat.Address.{ip2str, length-ip2str}
use i_free_chat.MemPool.{ret}
use i_free_chat.Feiq.{
  Packet, Msg, copy_to, macaddr_at, username_at, hostname_at, ip_at, version_at, data_at,
  data_capacity, list_node_at,
}
use i_free_chat.Feiq.Build.{version_text, packet_text}
use i_free_chat.Feiq.Parse.{parse_data, parse_fields, parse_version, feiq_parse_packet}
use i_free_chat.Feiq.Parse.Steps.{
  IsField, IsPart, decimal-IsPart, cut-append, written, strcpy_to-fits, less-append,
  version_text-IsField, length-version_text, get_avatar_id-version_text, get_mac-version_text,
  get_gpmsg_size-version_text,
}

take-length : (s : Bytes) → take (length s) s ≡ s
take-length [] = refl
take-length (c ∷ s) = ap (◌∷◌ c) (take-length s)

atoi_of : (n : ℕ) → n < 2 ^ 31 → atoi (decimal n) ≡ n
atoi_of n h = ap atoi (sym (append-nil (decimal n))) ∙ atoi-decimal n [] h tt

fits_16 : (n : ℕ) → n < 2 ^ 16 → n % 2 ^ 16 ≡ n
fits_16 n h = omega arith

-- The message behind each step.
unfoldable pub with_data : Bytes → Msg → Msg
with_data s m = record m {
  text = store_bytes data_at s (clear data_at data_capacity m.text);
  data_size = length s;
  user_data = 0;
  gpid = 0;
  prev = m.addr + list_node_at;
  next = m.addr + list_node_at;
}

parse_data-eq :
    (s : Bytes) (m : Msg) → length s ≤ 1024 → parse_data (length s) s m ≡ ret (with_data s m)
unfolding parse_data with_data copy_to
parse_data-eq s m h = ground (arith, take-length s)

unfoldable pub with_fields :
    (packet_id : ℕ) (username hostname : Bytes) (command : ℕ) (payload : Bytes) → Msg → Msg
with_fields i u h c s m =
    with_data s
      (record (written hostname_at h (written username_at u (record m { packet_id = i }))) {
        command = c;
      })

-- The fields behind the last ones, from the end to the front.
abbrev text4 : (command : ℕ) (payload : Bytes) → Bytes
text4 c s = decimal c ++ b':' ∷ s

abbrev text3 : (hostname : Bytes) (command : ℕ) (payload : Bytes) → Bytes
text3 h c s = h ++ b':' ∷ text4 c s

abbrev text2 : (username hostname : Bytes) (command : ℕ) (payload : Bytes) → Bytes
text2 u h c s = u ++ b':' ∷ text3 h c s

abbrev text1 : (packet_id : ℕ) (username hostname : Bytes) (command : ℕ) (payload : Bytes) → Bytes
text1 i u h c s = decimal i ++ b':' ∷ text2 u h c s

module _ (i : ℕ) (u h : Bytes) (c : ℕ) (s : Bytes) (bi : i < 2 ^ 31) (bc : c < 2 ^ 31)
    (fu : IsField u) (fh : IsField h) (lu : length u < 32) (lh : length h < 32)
    (ls : length s ≤ 1024) where
  pub decimal-IsField : (n : ℕ) → IsField (decimal n)
  decimal-IsField n = ((decimal-IsPart n).0, (decimal-IsPart n).1)

  length4 : length (text4 c s) ≤ 1035
  length4 = omega (arith, length-append (decimal c) (b':' ∷ s), length-decimal c, ls)

  length3 : length (text3 h c s) ≤ 1070
  length3 = omega (arith, length-append h (b':' ∷ text4 c s), length4, lh)

  length2 : length (text2 u h c s) ≤ 1110
  length2 = omega (arith, length-append u (b':' ∷ text3 h c s), length3, lu)

  length1 : length (text1 i u h c s) ≤ 1130
  length1 =
      omega (arith, length-append (decimal i) (b':' ∷ text2 u h c s), length2, length-decimal i)

  parse_fields-eq :
      (m : Msg)
      → parse_fields (length (text1 i u h c s)) (text1 i u h c s) m ≡ ret (with_fields i u h c s m)
  unfolding parse_fields with_fields
  parse_fields-eq m = rw (
    cut-append (decimal i) (text2 u h c s) (decimal-IsField i),
    atoi_of i bi,
    less-append (decimal i) (text2 u h c s) (omega (arith, length1)),
    cut-append u (text3 h c s) fu,
    strcpy_to-fits username_at u (record m { packet_id = i }) (omega (arith, lu)),
    less-append u (text3 h c s) (omega (arith, length2)),
    cut-append h (text4 c s) fh,
    strcpy_to-fits hostname_at h (written username_at u (record m { packet_id = i }))
        (omega (arith, lh)),
    less-append h (text4 c s) (omega (arith, length3)),
    cut-append (decimal c) s (decimal-IsField c),
    atoi_of c bc,
    less-append (decimal c) s (omega (arith, length4)),
    parse_data-eq s
        (record (written hostname_at h (written username_at u (record m { packet_id = i }))) {
          command = c;
        })
        ls,
  )

unfoldable pub with_version : (a : ℕ) (mac : Bytes) (g : ℕ) (ip_text : Bytes) (port : ℕ) → Msg → Msg
with_version a mac g ip_text port m =
    record (written ip_at ip_text
      (record (written macaddr_at mac (record m { avatar_id = a })) { gpmsg_size = g })) {
        port = port;
      }

module _ (kind mac : Bytes) (a g : ℕ) (pk : IsPart kind) (pm : IsPart mac) (ba : a < 2 ^ 16)
    (bg : g < 2 ^ 16) (lk : length kind < 32) (lm : length mac < 32) where
  abbrev version : Bytes
  version = version_text kind a mac g

  parse_version-eq :
      (k : Packet) (behind : Bytes) (m : Msg)
      → parse_version k version behind m ≡ ret (with_version a mac g (ip2str k.ip) k.port m)
  unfolding parse_version with_version
  parse_version-eq k behind m = rw (
    get_avatar_id-version_text kind mac a g pk pm (omega arith),
    get_mac-version_text kind mac a g pk pm behind,
    fits_16 a ba,
    strcpy_to-fits macaddr_at mac (record m { avatar_id = a }) (omega (arith, lm)),
    get_gpmsg_size-version_text kind mac a g pk pm (omega arith),
    fits_16 g bg,
    strcpy_to-fits ip_at (ip2str k.ip)
        (record (written macaddr_at mac (record m { avatar_id = a })) { gpmsg_size = g })
        (omega (arith, length-ip2str k.ip)),
  )

-- The message that the parser leaves, from the packet's numbers and the printed fields.
unfoldable pub parsed :
    (k : Packet) (version : Bytes) (a : ℕ) (mac : Bytes) (g i : ℕ) (u h : Bytes) (c : ℕ) (s : Bytes)
    → Msg
    → Msg
unfolding with_fields with_version
parsed k version a mac g i u h c s m = with_fields i u h c s (
    with_version a mac g (ip2str k.ip) k.port
      (written version_at version (record m { mtime = k.mtime })))

module _ (kind mac : Bytes) (a g i : ℕ) (u h : Bytes) (c : ℕ) (s : Bytes) (pk : IsPart kind)
    (pm : IsPart mac) (ba : a < 2 ^ 16) (bg : g < 2 ^ 16) (bi : i < 2 ^ 31) (bc : c < 2 ^ 31)
    (fu : IsField u) (fh : IsField h) (lk : length kind < 32) (lm : length mac < 32)
    (lu : length u < 32) (lh : length h < 32) (ls : length s ≤ 1024) where
  abbrev version1 : Bytes
  version1 = version_text kind a mac g

  abbrev all : Bytes
  all = packet_text version1 i u h c s

  length-all : length all ≤ 1300
  unfolding packet_text
  length-all = omega (
    arith,
    length-append version1 (b':' ∷ text1 i u h c s),
    length1 i u h c s bi bc fu fh lu lh ls,
    length-version_text kind mac a g pk pm,
    lk,
    lm,
  )

  pub parse-packet_text :
      (k : Packet) (m : Msg)
      → k.size ≡ length all
      → k.payload ≡ all
      → feiq_parse_packet k m ≡ ret (true, parsed k version1 a mac g i u h c s m)
  unfolding feiq_parse_packet packet_text parsed starts_with version_text parse_version with_data
  parse-packet_text k m es ep = rw (
    es,
    ep,
    cut-append version1 (text1 i u h c s) (version_text-IsField kind mac a g pk pm),
    strcpy_to-fits version_at version1 (record m { mtime = k.mtime })
        (omega (arith, length-version_text kind mac a g pk pm, lk, lm)),
    parse_version-eq kind mac a g pk pm ba bg lk lm k (text1 i u h c s)
        (written version_at version1 (record m { mtime = k.mtime })),
    less-append version1 (text1 i u h c s) (omega (arith, length-all)),
    parse_fields-eq i u h c s bi bc fu fh lu lh ls (
        with_version a mac g (ip2str k.ip) k.port
          (written version_at version1 (record m { mtime = k.mtime }))),
  )
