-- ===== src/Older/Users/Layout.antt =====
-- The texts of a new user lie in its block one behind the other.
use i_free_chat.Base.{
  ℕ, ◌+◌, ◌^◌, ◌≤◌, ◌<◌, ◌≡◌, ◌≢◌, ◌⊎◌, inl, inr, false, ◌==◌, ==_refl, arith, has, length, drop,
  update, All,
}
use i_free_chat.Base.Memory.{Memory}
use i_free_chat.Dlist.{init_dlist_node}
use i_free_chat.MemPool.{ret}
use i_free_chat.Older.{UserBlock, Ifreechat, string_at}
use i_free_chat.Older.Texts.{string_at-copied, store_texts, store_texts_apart, copy_all-ret}
use i_free_chat.Older.Users.{UserTexts, user_bytes, user_size, place_texts, copies, new_user}

-- The block holds the texts, as they are read.
pub record Holds (m : Memory) (u : UserBlock) (t : UserTexts) : Type 0 where
  pub nickname : string_at m u.nickname u.bound ≡ ret t.nickname
  pub username : string_at m u.username u.bound ≡ ret t.username
  pub hostname : string_at m u.hostname u.bound ≡ ret t.hostname
  pub avatar : string_at m u.avatar u.bound ≡ ret t.avatar
  pub ipaddr : string_at m u.ipaddr u.bound ≡ ret t.ipaddr
  pub macaddr : string_at m u.macaddr u.bound ≡ ret t.macaddr
  pub signature : string_at m u.signature u.bound ≡ ret t.signature
  pub category : string_at m u.category u.bound ≡ ret t.category
  pub encoding : string_at m u.encoding u.bound ≡ ret t.encoding

-- None of the texts holds a NUL, and the block is no larger than `malloc` can be asked for.
pub record AreTexts (t : UserTexts) : Type 0 where
  pub nickname : has 0 t.nickname ≡ false
  pub username : has 0 t.username ≡ false
  pub hostname : has 0 t.hostname ≡ false
  pub avatar : has 0 t.avatar ≡ false
  pub ipaddr : has 0 t.ipaddr ≡ false
  pub macaddr : has 0 t.macaddr ≡ false
  pub signature : has 0 t.signature ≡ false
  pub category : has 0 t.category ≡ false
  pub encoding : has 0 t.encoding ≡ false
  pub fits :
      length t.nickname
        + length t.username
        + length t.hostname
        + length t.avatar
        + length t.ipaddr
        + length t.macaddr
        + length t.signature
        + length t.category
        + length t.encoding
        + 61
      < 2 ^ 32

-- Each text fits the room before the next, and the last the room before the end.
pub record IsRoomy (u : UserBlock) (t : UserTexts) : Type 0 where
  pub nickname : u.nickname + length t.nickname + 1 ≤ u.username
  pub username : u.username + length t.username + 1 ≤ u.hostname
  pub hostname : u.hostname + length t.hostname + 1 ≤ u.avatar
  pub avatar : u.avatar + length t.avatar + 1 ≤ u.ipaddr
  pub ipaddr : u.ipaddr + length t.ipaddr + 1 ≤ u.macaddr
  pub macaddr : u.macaddr + length t.macaddr + 1 ≤ u.signature
  pub signature : u.signature + length t.signature + 1 ≤ u.category
  pub category : u.category + length t.category + 1 ≤ u.encoding
  pub encoding : u.encoding + length t.encoding + 1 ≤ u.bound

module _ (base : ℕ) (t : UserTexts) (ok : AreTexts t) where
  pub place_texts-IsRoomy : IsRoomy (place_texts base t) t
  unfolding place_texts user_size
  place_texts-IsRoomy =
      let f = ok.fits in
      record {
        nickname = omega arith;
        username = omega arith;
        hostname = omega arith;
        avatar = omega arith;
        ipaddr = omega arith;
        macaddr = omega arith;
        signature = omega arith;
        category = omega arith;
        encoding = omega arith;
      }

module _ (u : UserBlock) (t : UserTexts) (ok : AreTexts t) (r : IsRoomy u t) where
  copies-Holds : (m : Memory) → Holds (store_texts (copies u t) m) u t
  copies-Holds m = record {
    nickname =
        string_at-copied u.nickname t.nickname (drop 1 (copies u t)) u.bound _ ok.nickname
          (omega arith) (ground arith);
    username =
        string_at-copied u.username t.username (drop 2 (copies u t)) u.bound _ ok.username
          (omega arith) (ground arith);
    hostname =
        string_at-copied u.hostname t.hostname (drop 3 (copies u t)) u.bound _ ok.hostname
          (omega arith) (ground arith);
    avatar =
        string_at-copied u.avatar t.avatar (drop 4 (copies u t)) u.bound _ ok.avatar (omega arith)
          (ground arith);
    ipaddr =
        string_at-copied u.ipaddr t.ipaddr (drop 5 (copies u t)) u.bound _ ok.ipaddr (omega arith)
          (ground arith);
    macaddr =
        string_at-copied u.macaddr t.macaddr (drop 6 (copies u t)) u.bound _ ok.macaddr
          (omega arith) (ground arith);
    signature =
        string_at-copied u.signature t.signature (drop 7 (copies u t)) u.bound _ ok.signature
          (omega arith) (ground arith);
    category =
        string_at-copied u.category t.category (drop 8 (copies u t)) u.bound _ ok.category
          (omega arith) (ground arith);
    encoding =
        string_at-copied u.encoding t.encoding (drop 9 (copies u t)) u.bound _ ok.encoding
          (omega arith) (ground arith);
  }

-- The state that a new user leaves.
abbrev pub with_user : (base : ℕ) → UserTexts → Ifreechat → Ifreechat
with_user base t c = record c {
  memory = store_texts (copies (place_texts base t) t) c.memory;
  users = update c.users base (place_texts base t);
  unodes = init_dlist_node base c.unodes;
  members = init_dlist_node base c.members;
}

module _ (base : ℕ) (t : UserTexts) (c : Ifreechat) (ne : base ≢ 0) (ok : AreTexts t) where
  pub new_user-ret : new_user base t c ≡ ret (base, with_user base t c)
  unfolding new_user
  new_user-ret =
      let r = place_texts-IsRoomy base t ok in
      let u = place_texts base t in
      let not_null : (base == 0) ≡ false = ground arith in
      rw (not_null, copy_all-ret u.bound (copies u t) c (ground arith))

  outside :
      (a : ℕ)
      → (a < base + user_bytes) ⊎ (base + user_size t ≤ a)
      → All (λ w. (a < w.0) ⊎ (w.0 + length (w.1) + 1 ≤ a)) (copies (place_texts base t) t)
  unfolding place_texts user_size
  outside a out =
      let f = ok.fits in
      elim out [
        | inl p ↦ (
          inl (omega arith),
          (
            inl (omega arith),
            (
              inl (omega arith),
              (
                inl (omega arith),
                (
                  inl (omega arith),
                  (
                    inl (omega arith),
                    (inl (omega arith), (inl (omega arith), (inl (omega arith), tt))),
                  ),
                ),
              ),
            ),
          ),
        )
        | inr p ↦ (
          inr (omega arith),
          (
            inr (omega arith),
            (
              inr (omega arith),
              (
                inr (omega arith),
                (
                  inr (omega arith),
                  (
                    inr (omega arith),
                    (inr (omega arith), (inr (omega arith), (inr (omega arith), tt))),
                  ),
                ),
              ),
            ),
          ),
        )
      ]

  -- `new_user` with a block from `malloc` returns it; the block then holds the nine texts as they
  -- were given, and no byte outside it changes, nor any in front of the texts.
  pub new_user-Holds :
      (c' : Ifreechat) × (new_user base t c ≡ ret (base, c'))
      × Holds c'.memory (c'.users base) t
      × ((a : ℕ) → (a < base + user_bytes) ⊎ (base + user_size t ≤ a) → c'.memory a ≡ c.memory a)
  new_user-Holds = (
    with_user base t c,
    new_user-ret,
    rw (==_refl base)
        (copies-Holds (place_texts base t) t ok (place_texts-IsRoomy base t ok) c.memory),
    λ a out. store_texts_apart (copies (place_texts base t) t) c.memory a (outside a out),
  )

  -- The texts that the block then holds.
  pub new_user-held : Holds (with_user base t c).memory ((with_user base t c).users base) t
  new_user-held =
      rw (==_refl base)
        (copies-Holds (place_texts base t) t ok (place_texts-IsRoomy base t ok) c.memory)
