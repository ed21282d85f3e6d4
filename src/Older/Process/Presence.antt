-- ===== src/Older/Process/Presence.antt =====
-- The post that a program sends when it starts, as another program takes it.
pub mod Enters
use i_free_chat.Base.{
  ℕ, suc, ◌+◌, ◌%◌, ◌^◌, ◌≤◌, ◌<◌, ◌≡◌, ◌≢◌, refl, sym, ap, ◌∙◌, Bool, true, false, Option, none,
  some, List, [], ◌∷◌, ◌++◌, append_assoc, arith, has, length, length-append, drop, leb, ltb,
  if◌then◌else◌, bit_and, ◌==◌, str_eq, update, ==_refl,
}
use i_free_chat.Text.{Bytes, codes, decimal, atoi, starts_with}
use i_free_chat.Dlist.{init_dlist_node, dlist_add_tail, dlist_foreach}
use i_free_chat.Dlist.Ring.{IsRing, init_apart-IsRing, add_tail-IsRing}
use i_free_chat.Blowfish.{Schedule}
use i_free_chat.MemPool.{Outcome, ret, fault, ◌>>=◌}
use i_free_chat.Feiq.Build.{version_text, packet_text}
use i_free_chat.Feiq.Handle.{string_validate}
use i_free_chat.Feiq.Parse.{found, until}
use i_free_chat.Feiq.Parse.Steps.{get_avatar_id-version_text, get_mac-version_text}
use i_free_chat.Older.{
  MsgBlock, Ifreechat, Effect, datagram, row_title, user_row, emit, free_block, msg_text,
  udp_send_msg,
}
use i_free_chat.Older.Texts.{until-nul}
use i_free_chat.Older.Broadcast.{post_text, presence_text}
use i_free_chat.Older.Users.{UserTexts, new_user, search_user}
use i_free_chat.Older.Users.Layout.{Holds, AreTexts, with_user, new_user-ret, new_user-held}
use i_free_chat.Older.Treeview.{count_up, add_user_to_treeview}
use i_free_chat.Older.Treeview.Rows.{CategoryIs, next_title, with_row, add_user_to_treeview-ret}
use i_free_chat.Older.Buddy.{
  Blocks, avatar_file, entry_texts, on_buddy_entry, enter_user, answer_entry, in_buffer,
}
use i_free_chat.Older.Process.{process_message}
use i_free_chat.Older.Process.Answer.{
  IsPrintable, posted, received, posted-cmd, drop-append, process_message-post, dispatch-entry,
}

-- The data of the post.
abbrev pub presence_data : Ifreechat → Bytes
presence_data c = c.nickname ++ 0 ∷ (c.category ++ 0 ∷ [])

pub presence_text-post :
    (now command : ℕ) (c : Ifreechat)
    → presence_text now command c
      ≡ post_text 0 now c.username c.hostname command (presence_data c) c
unfolding presence_text post_text packet_text
presence_text-post now command c = simp append_assoc

-- What the post announces, at the address that it comes from.
abbrev pub announced : (c : Ifreechat) (ip : Bytes) → UserTexts
announced c ip = record {
  nickname = c.nickname;
  username = c.username;
  hostname = c.hostname;
  avatar = avatar_file c.avatar_id;
  ipaddr = ip;
  macaddr = c.macaddr;
  signature = codes "hello";
  category = c.category;
  encoding = codes "GBK";
}

-- The texts that are not empty, are UTF-8, and fit the buffers of the program that takes them.
pub record IsWelcome (utf8_validate : Bytes → Bool) (c : Ifreechat) : Type 0 where
  pub nickname : (str_eq c.nickname [] ≡ false) × (utf8_validate c.nickname ≡ true)
  pub category : (str_eq c.category [] ≡ false) × (utf8_validate c.category ≡ true)
  pub macaddr : length c.macaddr < 20
  pub avatar : c.avatar_id < 2 ^ 31

module _ (utf8_validate : Bytes → Bool) (convert : Bytes → Option Bytes) (c : Ifreechat)
    (ok : IsPrintable c) (w : IsWelcome utf8_validate c) (now : ℕ) (ip : Bytes) (port : ℕ) where
  valid : {s : Bytes} → utf8_validate s ≡ true → string_validate utf8_validate convert s ≡ none
  unfolding string_validate
  valid e = rw e

  abbrev message : MsgBlock
  message = posted c ok now 0x101 (omega arith) (presence_data c) ip port

  pub entry_texts-presence : entry_texts utf8_validate convert message ≡ ret (announced c ip)
  unfolding entry_texts msg_text found
  entry_texts-presence =
      let regrouped : presence_data c ++ 0 ∷ [] ≡ c.nickname ++ 0 ∷ (c.category ++ 0 ∷ 0 ∷ []) =
        simp append_assoc in
      let short : leb 20 (length c.macaddr) ≡ false = ground (arith, w.macaddr) in
      rw (
        regrouped,
        until-nul c.nickname (c.category ++ 0 ∷ 0 ∷ []) ok.nickname,
        drop-append c.nickname (c.category ++ 0 ∷ 0 ∷ []),
        until-nul c.category (0 ∷ []) ok.category,
        get_avatar_id-version_text (codes "128") c.macaddr c.avatar_id 0 (refl, refl, refl, refl)
            ok.macaddr w.avatar,
        get_mac-version_text (codes "128") c.macaddr c.avatar_id 0 (refl, refl, refl, refl)
            ok.macaddr _,
        short,
        (w.nickname).0,
        valid (w.nickname).1,
        (w.category).0,
        valid (w.category).1,
      )
