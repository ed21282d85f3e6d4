-- ===== src/Older/Users.antt =====
-- src/user.c: users, each one block with the texts behind the structure.
pub mod Layout
pub mod Members
mod Tests
use i_free_chat.Base.{
  ℕ, ◌+◌, ◌%◌, ◌^◌, Bool, true, false, Option, none, some, List, [], ◌∷◌, ◌++◌, ◌==◌, if◌then◌else◌,
  length, update,
}
use i_free_chat.Base.Memory.{store_bytes, str_at}
use i_free_chat.Text.{Bytes}
use i_free_chat.Dlist.{init_dlist_node, dlist_add_tail, dlist_del, dlist_foreach}
use i_free_chat.MemPool.{Outcome, ret, fault, ◌>>=◌}
use i_free_chat.Client.{ended}
use i_free_chat.Older.{UserBlock, Ifreechat, free_block, copy_all}

-- `sizeof(user_t)`
abbrev pub user_bytes : ℕ
user_bytes = 52

-- The arguments of `new_user`.
pub record UserTexts : Type 0 where
  pub nickname : Bytes
  pub username : Bytes
  pub hostname : Bytes
  pub avatar : Bytes
  pub ipaddr : Bytes
  pub macaddr : Bytes
  pub signature : Bytes
  pub category : Bytes
  pub encoding : Bytes

-- The size of the block.
unfoldable pub user_size : UserTexts → ℕ
user_size t =
    (1
      + length t.nickname
      + (1 + length t.username)
      + (1 + length t.hostname)
      + (1 + length t.avatar)
      + (1 + length t.ipaddr)
      + (1 + length t.macaddr)
      + (1 + length t.signature)
      + (1 + length t.category)
      + (1 + length t.encoding)
      + user_bytes)
    % 2 ^ 32

-- Where the texts lie in a block at `base`.
unfoldable pub place_texts : (base : ℕ) → UserTexts → UserBlock
place_texts base t =
    let nickname = base + user_bytes in
    let username = nickname + (1 + length t.nickname) in
    let hostname = username + (1 + length t.username) in
    let avatar = hostname + (1 + length t.hostname) in
    let ipaddr = avatar + (1 + length t.avatar) in
    let macaddr = ipaddr + (1 + length t.ipaddr) in
    let signature = macaddr + (1 + length t.macaddr) in
    let category = signature + (1 + length t.signature) in
    record {
      nickname = nickname;
      username = username;
      hostname = hostname;
      avatar = avatar;
      ipaddr = ipaddr;
      macaddr = macaddr;
      signature = signature;
      category = category;
      encoding = category + (1 + length t.category);
      bound = base + user_size t;
    }

-- The nine copies.
abbrev pub copies : UserBlock → UserTexts → List (ℕ × Bytes)
copies u t =
    (u.nickname, t.nickname)
    ∷ (u.username, t.username)
    ∷ (u.hostname, t.hostname)
    ∷ (u.avatar, t.avatar)
    ∷ (u.ipaddr, t.ipaddr)
    ∷ (u.macaddr, t.macaddr)
    ∷ (u.signature, t.signature)
    ∷ (u.category, t.category)
    ∷ (u.encoding, t.encoding)
    ∷ []

-- `base` is what `malloc` returns; the result is the user's address, 0 for NULL.
unfoldable pub new_user : (base : ℕ) → UserTexts → Ifreechat → Outcome (ℕ × Ifreechat)
new_user base t c = if base == 0 then ret (0, c) else do
  let u = place_texts base t
  c ← copy_all u.bound (copies u t) c
  ret (
    base,
    record c {
      users = update c.users base u;
      unodes = init_dlist_node base c.unodes;
      members = init_dlist_node base c.members;
    },
  )

-- The flag is whether 0 is returned. The list is `ulist`; an address 0 is NULL.
pub add_user : (ulist user : ℕ) → Ifreechat → Bool × Ifreechat
add_user ulist user c =
    if ulist == 0
    then (false, c)
    else if user == 0
    then (false, c)
    else (true, record c { unodes = dlist_add_tail user ulist c.unodes })

pub del_user : (ulist user : ℕ) → Ifreechat → Bool × Ifreechat
del_user ulist user c =
    if ulist == 0
    then (false, c)
    else if user == 0
    then (false, c)
    else (true, free_block user (record c { unodes = dlist_del user c.unodes }))

-- `strcmp(user->ipaddr, ip) == 0`
abbrev pub has_ip : Ifreechat → Bytes → ℕ → Bool
has_ip c ip user = str_at c.memory (c.users user).ipaddr ip

-- The loop over a list of users. Its result is the user, `none` for the head.
unfoldable pub search_user : (fuel ulist : ℕ) (ip : Bytes) → Ifreechat → Outcome (Option ℕ)
search_user fuel ulist ip c =
    ended (dlist_foreach c.unodes ulist (has_ip c ip) fuel (c.unodes.next ulist))

-- `ip` is not NULL.
pub find_user : (fuel ulist : ℕ) (ip : Bytes) → Ifreechat → Outcome (Option ℕ)
find_user fuel ulist ip c = if ulist == 0 then ret none else search_user fuel ulist ip c
