-- ===== src/Older/Buddy/Update.antt =====
-- What becomes of the texts of a user that is known when it announces itself again.
use i_free_chat.Base.{
  ℕ, ◌+◌, ◌≤◌, ◌<◌, ◌≡◌, inl, false, [], ◌++◌, arith, has, length, length-append, drop, take, All,
}
use i_free_chat.Base.Memory.{Memory}
use i_free_chat.Text.{Bytes}
use i_free_chat.MemPool.{ret}
use i_free_chat.Older.{UserBlock, Ifreechat, string_at}
use i_free_chat.Older.Texts.{
  Apart, TextAt-store_texts, TextAt-overrun, store_texts, string_at-TextAt, string_at-read,
  string_at-copied, copy_all-ret, length-take,
}
use i_free_chat.Older.Users.{UserTexts, user_size, place_texts}
use i_free_chat.Older.Users.Layout.{Holds, IsRoomy, AreTexts}
use i_free_chat.Older.Buddy.{changes, update_user}

-- What an announcement changes of a user's texts.
abbrev pub renewed : (old t : UserTexts) → UserTexts
renewed old t = record t { ipaddr = old.ipaddr; signature = old.signature; encoding = old.encoding }

module _ (u : UserBlock) (old t : UserTexts) (m : Memory) (held : Holds m u old)
    (ok : AreTexts (renewed old t)) (r : IsRoomy u (renewed old t)) where
  abbrev after : Memory
  after = store_texts (changes u t) m

  kept :
      (a : ℕ) (s : Bytes)
      → string_at m a u.bound ≡ ret s
      → All (Apart a s) (changes u t)
      → string_at after a u.bound ≡ ret s
  kept a s e apart =
      let (text, short) = string_at-read e in
      string_at-TextAt u.bound short (TextAt-store_texts (changes u t) m a s apart text)

  changes-Holds : Holds after u (renewed old t)
  changes-Holds = record {
    nickname =
        string_at-copied u.nickname t.nickname (drop 1 (changes u t)) u.bound _ ok.nickname
          (omega arith) (ground arith);
    username =
        string_at-copied u.username t.username (drop 2 (changes u t)) u.bound _ ok.username
          (omega arith) (ground arith);
    hostname =
        string_at-copied u.hostname t.hostname (drop 3 (changes u t)) u.bound _ ok.hostname
          (omega arith) (ground arith);
    macaddr =
        string_at-copied u.macaddr t.macaddr (drop 4 (changes u t)) u.bound _ ok.macaddr
          (omega arith) (ground arith);
    category =
        string_at-copied u.category t.category (drop 5 (changes u t)) u.bound _ ok.category
          (omega arith) (ground arith);
    avatar = string_at-copied u.avatar t.avatar [] u.bound _ ok.avatar (omega arith) tt;
    ipaddr = kept u.ipaddr old.ipaddr held.ipaddr (ground arith);
    signature = kept u.signature old.signature held.signature (ground arith);
    encoding = kept u.encoding old.encoding held.encoding (ground arith);
  }

-- If each new text fits the room that the user's block has for it, the update of a known user leaves
-- the block with the new nickname, names, hardware address, category and avatar, and with the
-- address, signature and encoding that it held.
pub update_user-Holds :
    (user : ℕ) (old t : UserTexts) (c : Ifreechat)
    → Holds c.memory (c.users user) old
    → AreTexts (renewed old t)
    → IsRoomy (c.users user) (renewed old t)
    → (c' : Ifreechat) × (update_user user t c ≡ ret c')
      × Holds c'.memory (c'.users user) (renewed old t)
unfolding update_user
update_user-Holds user old t c held ok r =
    let u = c.users user in
    (
      record c { memory = store_texts (changes u t) c.memory },
      copy_all-ret u.bound (changes u t) c (ground arith),
      changes-Holds u old t c.memory held ok r,
    )

-- The new nickname is longer than the one that the block was made for, and nothing else is.
pub record Overruns (old t : UserTexts) : Type 0 where
  pub nickname : length old.nickname < length t.nickname
  pub within : length t.nickname + 53 ≤ user_size old
  pub username : length t.username ≤ length old.username
  pub hostname : length t.hostname ≤ length old.hostname
  pub macaddr : length t.macaddr ≤ length old.macaddr
  pub category : length t.category ≤ length old.category
  pub avatar : length t.avatar ≤ length old.avatar
  pub no_nul : (has 0 t.nickname ≡ false) × (has 0 t.username ≡ false)

module _ (user : ℕ) (old t : UserTexts) (ok : AreTexts old) (o : Overruns old t) where
  abbrev u : UserBlock
  u = place_texts user old

  changes-fit : All (λ w. w.0 + length (w.1) + 1 ≤ u.bound) (changes u t)
  unfolding place_texts user_size
  changes-fit =
      let f = ok.fits in
      let w = o.within in
      (omega arith, (omega arith, (omega arith, (omega arith, (omega arith, (omega arith, tt))))))

  overrun-read :
      (m : Memory)
      → string_at (store_texts (changes u t) m) u.nickname u.bound
        ≡ ret (take (1 + length old.nickname) t.nickname ++ t.username)
  unfolding place_texts user_size
  overrun-read m =
      let f = ok.fits in
      let k = 1 + length old.nickname in
      let a = u.nickname in
      let s = take k t.nickname ++ t.username in
      let n : length s ≡ k + length t.username = omega (
        arith,
        length-append (take k t.nickname) t.username,
        length-take k t.nickname,
        o.nickname,
      ) in
      let both =
        TextAt-overrun k a t.nickname t.username m (omega (arith, o.nickname)) ((o.no_nul).0)
          ((o.no_nul).1) in
      string_at-TextAt u.bound (omega arith) (
        TextAt-store_texts (drop 2 (changes u t)) _ a s
          (inl (omega arith), (inl (omega arith), (inl (omega arith), (inl (omega arith), tt))))
          both)

-- A user that was entered with the texts `old` announces a longer nickname, that does not run out of
-- the block, and other texts no longer than before: the nickname that is then read is as much of
-- the new one as overwrites the old with its NUL, and the username behind it.
pub update_user-Overruns :
    (user : ℕ) (old t : UserTexts) (c : Ifreechat)
    → c.users user ≡ place_texts user old
    → AreTexts old
    → Overruns old t
    → (c' : Ifreechat) × (update_user user t c ≡ ret c')
      × (string_at c'.memory (c'.users user).nickname (c'.users user).bound
          ≡ ret (take (1 + length old.nickname) t.nickname ++ t.username))
unfolding update_user
update_user-Overruns user old t c e ok o =
    let u = place_texts user old in
    (
      record c { memory = store_texts (changes u t) c.memory },
      rw e (copy_all-ret u.bound (changes u t) c (changes-fit user old t ok o)),
      rw e (overrun-read user old t ok o c.memory),
    )
