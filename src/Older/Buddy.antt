-- ===== src/Older/Buddy.antt =====
-- src/process_msg.c: what is done with the messages of other users.
pub mod Update
pub mod Waiting
mod Tests
use i_free_chat.Base.{
  ℕ, zero, suc, ◌+◌, ◌%◌, ◌^◌, Bool, true, false, not, ◌&&◌, Option, none, some, List, [], ◌∷◌,
  ◌++◌, leb, ◌==◌, if◌then◌else◌, bit_and, drop, length, take, str_eq, update,
}
use i_free_chat.Text.{Bytes, codes, decimal, atoi, strchr, starts_with}
use i_free_chat.Text.Hex.{strtoul}
use i_free_chat.Dlist.{dlist_add_tail, dlist_foreach}
use i_free_chat.Blowfish.{Schedule, initialize}
use i_free_chat.Blowfish.Modes.{decrypt}
use i_free_chat.MemPool.{Outcome, ret, fault, ◌>>=◌}
use i_free_chat.Client.{ended, int_text}
use i_free_chat.Feiq.Parse.{
  found, until, next_mark, get_avatar_id_from_version, get_mac_from_version,
  get_gpmsg_size_from_version,
}
use i_free_chat.Feiq.Handle.{or_else, string_validate}
use i_free_chat.Older.{
  MsgBlock, UserBlock, Ifreechat, blink, chat_line, emit, free_block, string_at, copy_all, msg_text,
  udp_send_msg,
}
use i_free_chat.Older.Users.{UserTexts, new_user, has_ip, search_user}
use i_free_chat.Older.Groups.{find_group}
use i_free_chat.Older.Treeview.{add_user_to_treeview}
use i_free_chat.Older.Broadcast.{post_text, zero_vector}

-- `p = string_validate(s, ...); if (p == NULL) p = s;`
abbrev pub validated : Option Bytes → Bytes → Bytes
validated none s = s
validated (some t) s = t

-- What lies behind the version in a message's block.
abbrev behind_version : MsgBlock → Bytes
behind_version m =
    m.packet_no ++ 0 ∷ (m.username ++ 0 ∷ (m.hostname ++ 0 ∷ (m.cmd ++ 0 ∷ m.contents)))

-- `avatar`
unfoldable pub avatar_file : ℕ → Bytes
avatar_file a =
    if a == 0
    then codes "pixmaps/avatar/default.png"
    else codes "pixmaps/avatar/" ++ (int_text a ++ codes ".bmp")

-- The six copies into the texts of a user that is known.
abbrev pub changes : UserBlock → UserTexts → List (ℕ × Bytes)
changes u t =
    (u.nickname, t.nickname)
    ∷ (u.username, t.username)
    ∷ (u.hostname, t.hostname)
    ∷ (u.macaddr, t.macaddr)
    ∷ (u.category, t.category)
    ∷ (u.avatar, t.avatar)
    ∷ []

unfoldable pub update_user : (user : ℕ) → UserTexts → Ifreechat → Outcome Ifreechat
update_user user t c = let u = c.users user in copy_all u.bound (changes u t) c

-- `sprintf` to a buffer of 1,024 bytes.
unfoldable pub in_buffer : Bytes → Outcome Bytes
in_buffer s = if leb 1024 (length s) then fault else ret s

-- What `malloc` returns for a user and for a category.
pub record Blocks : Type 0 where
  pub user : ℕ
  pub category : ℕ

-- The end of `on_buddy_entry`: the answer to a user that has just come online.
unfoldable pub answer_entry : (now : ℕ) → MsgBlock → Ifreechat → Outcome Ifreechat
unfolding in_buffer post_text
answer_entry now m c =
    if bit_and (atoi m.cmd) 1 == 0
    then ret c
    else if str_eq m.username c.username
    then ret c
    else do
      s ← in_buffer (post_text 0 now c.username c.hostname 0x103 c.nickname c)
      ret (udp_send_msg m.ip m.port s c)

-- A new user joins the end of the list. A block that `malloc` does not give is used all the same.
unfoldable pub enter_user :
    (fuel now : ℕ) → Blocks → UserTexts → MsgBlock → Ifreechat → Outcome Ifreechat
unfolding answer_entry
enter_user fuel now b t m c = do
  (user, c) ← new_user b.user t c
  c ←
      (if user == 0
        then fault
        else ret (record c { unodes = dlist_add_tail user c.ulist c.unodes }))
  (ok, c) ← add_user_to_treeview fuel b.category user c
  answer_entry now m c

unfoldable pub send_reply_msg : (now : ℕ) → MsgBlock → Ifreechat → Outcome Ifreechat
unfolding in_buffer post_text
send_reply_msg now m c = do
  s ← in_buffer (post_text 0 now m.username m.hostname 0x21 m.packet_no c)
  ret (udp_send_msg m.ip m.port s c)

-- The loop over the open chats, by the address of their user.
pub show_private : (fuel : ℕ) → MsgBlock → Ifreechat → Outcome Ifreechat
show_private fuel m c = do
  box ← ended (
      dlist_foreach c.pchatbox_nodes c.pchatbox (λ p. has_ip c m.ip (c.chat_data p)) fuel
        (c.pchatbox_nodes.next c.pchatbox))
  elim box [
    | none ↦ ret c
    | some p ↦
        let u = c.users (c.chat_data p) in
        do
          nickname ← string_at c.memory u.nickname u.bound
          text ← msg_text m
          ret (emit (chat_line p nickname text ∷ []) c)
  ]

-- The loop over the open group chats, by the group's number.
show_group : (fuel gpid user : ℕ) → Bytes → Ifreechat → Outcome Ifreechat
show_group fuel gpid user text c = do
  box ← ended (
      dlist_foreach c.gchatbox_nodes c.gchatbox (λ p. (c.groups (c.chat_data p)).group_id == gpid)
        fuel (c.gchatbox_nodes.next c.gchatbox))
  elim box [
    | none ↦ ret c
    | some p ↦
        let u = c.users user in
        do
          nickname ← string_at c.memory u.nickname u.bound
          ret (emit (chat_line p nickname text ∷ []) c)
  ]

-- `strcpy(msg->data, t)`
unfoldable pub strcpy_data : Bytes → MsgBlock → Outcome MsgBlock
strcpy_data t m =
    if leb (length t + 1) (length m.contents)
    then ret (record m { contents = t ++ 0 ∷ drop (length t + 1) m.contents })
    else fault

-- `if (data) strcpy(msg->data, data);`
unfoldable pub store_converted : Option Bytes → MsgBlock → Outcome MsgBlock
store_converted none m = ret m
store_converted (some t) m = strcpy_data t m

-- The message at `msg` joins the end of the list of unread messages.
abbrev pub queue_msg : (msg : ℕ) → MsgBlock → Ifreechat → Ifreechat
queue_msg msg m c = record c {
  msgs = update c.msgs msg m;
  mnodes = dlist_add_tail msg c.mlist c.mnodes;
}

abbrev pub put_msg : (msg : ℕ) → MsgBlock → Ifreechat → Ifreechat
put_msg msg m c = record c { msgs = update c.msgs msg m }

-- `get_group_id`: the number between the first `#` and the second.
unfoldable pub get_group_id : Bytes → Outcome ℕ
unfolding found
get_group_id msg = next_mark msg >>= (λ p. found (strchr b'#' p) >>= (λ u. ret (strtoul (u.0))))

-- The end of `on_buddy_sendmsg`, where `user` is not NULL.
unfoldable pub deliver : (fuel now msg : ℕ) → MsgBlock → Ifreechat → Outcome Ifreechat
unfolding send_reply_msg show_private
deliver fuel now msg m c = do
  c ← show_private fuel m (put_msg msg m c)
  if bit_and (atoi m.cmd) 0x100 == 0 then ret c else send_reply_msg now m c

-- The functions of glib, as in `Feiq.Handle`.
module _ (utf8_validate : Bytes → Bool) (convert : Bytes → Option Bytes) where
  abbrev pub validate : Bytes → Bytes
  validate s = validated (string_validate utf8_validate convert s) s

  -- The texts that a message announces. A category is looked for behind the NUL of the nickname.
  unfoldable pub entry_texts : MsgBlock → Outcome UserTexts
  unfolding msg_text found until avatar_file
  entry_texts m = do
    text ← msg_text m
    p ← found (until 0 (drop (length text + 1) m.contents))
    avatar_id ← get_avatar_id_from_version m.version
    mac ← get_mac_from_version m.version (behind_version m)
    if leb 20 (length mac)
        then fault
        else ret (record {
          nickname = if str_eq text [] then m.username else validate text;
          username = m.username;
          hostname = m.hostname;
          avatar = avatar_file avatar_id;
          ipaddr = m.ip;
          macaddr = mac;
          signature = codes "hello";
          category = if str_eq p [] then codes "no group" else validate p;
          encoding = codes "GBK";
        })

  unfoldable pub on_buddy_entry : (fuel now : ℕ) → Blocks → MsgBlock → Ifreechat → Outcome Ifreechat
  unfolding entry_texts
  on_buddy_entry fuel now b m c = if starts_with (codes "1_iptux") m.version then ret c else do
    t ← entry_texts m
    user ← search_user fuel c.ulist m.ip c
    elim user [ some u ↦ update_user u t c | none ↦ enter_user fuel now b t m c ]

  pub convert_data : MsgBlock → Outcome MsgBlock
  convert_data m = do
    text ← msg_text m
    store_converted (string_validate utf8_validate convert text) m

  -- The message has joined the list before its sender is looked for. `user` is still NULL behind the
  -- loop where the list is empty, and else the last user that was looked at.
  unfoldable pub on_buddy_sendmsg : (fuel now msg : ℕ) → Ifreechat → Outcome Ifreechat
  on_buddy_sendmsg fuel now msg c =
      let m = record (c.msgs msg) { gpid = 0 } in
      let c = queue_msg msg m c in
      do
        m ← convert_data m
        let c = emit (blink ∷ []) (put_msg msg m c)
        user ← search_user fuel c.ulist m.ip c
        elim user [
          | some u ↦ deliver fuel now msg (record m { user = u }) c
          | none ↦
              if c.unodes.next c.ulist == c.ulist
              then ret (free_block msg c)
              else deliver fuel now msg m c
        ]

  -- A message for the group `gp`: `text` is what was decrypted.
  group_message : (fuel gpid msg user : ℕ) → (text : Bytes) → Ifreechat → Outcome Ifreechat
  unfolding show_group
  group_message fuel gpid msg user text c = do
    p ← next_mark text
    p ← next_mark p
    m ← strcpy_data p (record (c.msgs msg) { user = user; gpid = gpid })
    show_group fuel gpid user p (emit (blink ∷ []) (queue_msg msg m c))

  -- `malloc` gives the block for the plain text. What lies behind the text that was decrypted is not
  -- set, so that a text without a NUL is a fault.
  pub decrypt_data : (tables : Schedule) (key : Bytes) → MsgBlock → Outcome Bytes
  unfolding found until
  decrypt_data tables key m = do
    size ← get_gpmsg_size_from_version m.version
    s ← (if leb size (length m.contents) then ret (take size m.contents) else fault)
    plain ← decrypt (initialize tables key) true true zero_vector s
    text ← found (until 0 (plain.1))
    ret (validate text)

  -- The sender and the group are both looked for; a message of no known sender is released.
  pub on_buddy_sendgpmsg : (tables : Schedule) (fuel msg : ℕ) → Ifreechat → Outcome Ifreechat
  unfolding decrypt_data group_message
  on_buddy_sendgpmsg tables fuel msg c =
      let m = c.msgs msg in
      if str_eq m.username c.username then ret c else do
        user ← search_user fuel c.ulist m.ip c
        elim user [
          | none ↦ ret (free_block msg c)
          | some u ↦ do
            key ← string_at c.memory (c.users u).macaddr (c.users u).bound
            text ← decrypt_data tables key m
            gpid ← get_group_id text
            group ← find_group fuel c.glist gpid c
            elim group [ none ↦ ret c | some gp ↦ group_message fuel gpid msg u text c ]
        ]
