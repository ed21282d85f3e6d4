-- ===== src/Older/Process/Presence/Enters.antt =====
-- How the program that takes the post of src/broadcast.c enters its sender.
use i_free_chat.Base.{
  ℕ, ◌+◌, ◌^◌, ◌<◌, ◌≡◌, ◌≢◌, refl, ap, ◌∙◌, Bool, true, false, Option, none, List, [], ◌∷◌, ◌++◌,
  append_assoc, arith, has, length, leb, ◌==◌, str_eq,
}
use i_free_chat.Text.{Bytes, atoi, starts_with}
use i_free_chat.Dlist.{init_dlist_node, dlist_add_tail}
use i_free_chat.Dlist.Ring.{IsRing, init_apart-IsRing, add_tail-IsRing}
use i_free_chat.Blowfish.{Schedule}
use i_free_chat.MemPool.{ret, ◌>>=◌}
use i_free_chat.Feiq.Build.{version_text}
use i_free_chat.Older.{
  MsgBlock, Ifreechat, Effect, datagram, row_title, user_row, free_block, udp_send_msg,
}
use i_free_chat.Older.Broadcast.{post_text, presence_text}
use i_free_chat.Older.Users.{UserTexts, search_user}
use i_free_chat.Older.Users.Layout.{Holds, AreTexts, with_user, new_user-ret, new_user-held}
use i_free_chat.Older.Treeview.{count_up}
use i_free_chat.Older.Treeview.Rows.{CategoryIs, next_title, with_row, add_user_to_treeview-ret}
use i_free_chat.Older.Buddy.{Blocks, on_buddy_entry, enter_user, answer_entry, in_buffer}
use i_free_chat.Older.Process.{process_message}
use i_free_chat.Older.Process.Answer.{
  IsPrintable, posted, received, posted-cmd, process_message-post, dispatch-entry,
}
use i_free_chat.Older.Process.Presence.{
  presence_data, presence_text-post, announced, IsWelcome, entry_texts-presence,
}

-- The answer of a program to a user that has come online.
abbrev pub answer_text : (now : ℕ) → Ifreechat → Bytes
answer_text now r = post_text 0 now r.username r.hostname 0x103 r.nickname r

answer_entry-ret :
    (now : ℕ) (m : MsgBlock) (r : Ifreechat)
    → atoi m.cmd ≡ 0x101
    → str_eq m.username r.username ≡ false
    → length (answer_text now r) < 1024
    → answer_entry now m r ≡ ret (udp_send_msg m.ip m.port (answer_text now r) r)
unfolding answer_entry in_buffer
answer_entry-ret now m r e other short =
    let fits : leb 1024 (length (answer_text now r)) ≡ false = ground arith in rw (e, other, fits)

-- The user's block is linked behind the others.
abbrev pub linked : (user : ℕ) → UserTexts → Ifreechat → Ifreechat
linked user t r =
    let e = with_user user t r in record e { unodes = dlist_add_tail user r.ulist e.unodes }

-- The state that a new user leaves.
abbrev pub entered :
    (now cat user : ℕ) → UserTexts → (ip : Bytes) (port : ℕ) → Ifreechat → Ifreechat
entered now cat user t ip port r =
    let e = with_row cat user t (linked user t r) in udp_send_msg ip port (answer_text now e) e

module _ (fuel now cat : ℕ) (b : Blocks) (t : UserTexts) (m : MsgBlock) (r : Ifreechat)
    (ne : b.user ≢ 0) (ok : AreTexts t) (shown : r.treeview ≡ true)
    (found : CategoryIs fuel cat t.category r) (title : length (next_title cat r) < 128)
    (cmd : atoi m.cmd ≡ 0x101) (other : str_eq m.username r.username ≡ false)
    (short : length (answer_text now r) < 1024) where
  same_title : length (next_title cat (linked b.user t r)) < 128
  unfolding count_up
  same_title = title

  same_answer : length (answer_text now (with_row cat b.user t (linked b.user t r))) < 1024
  unfolding count_up post_text
  same_answer = short

  same_name : str_eq m.username (with_row cat b.user t (linked b.user t r)).username ≡ false
  unfolding count_up
  same_name = other

  enter_user-ret : enter_user fuel now b t m r ≡ ret (entered now cat b.user t m.ip m.port r)
  unfolding enter_user
  enter_user-ret =
      let e = linked b.user t r in
      let not_null : (b.user == 0) ≡ false = ground arith in
      rw (
        new_user-ret b.user t r ne ok,
        not_null,
        add_user_to_treeview-ret fuel b.category cat b.user t e shown ne
            (new_user-held b.user t r ne ok) found same_title,
        answer_entry-ret now m (with_row cat b.user t e) cmd same_name same_answer,
      )

-- What leaves a program when a user has come online: the category's title, the user's row, and the
-- answer.
abbrev pub welcome :
    (now cat user : ℕ) → UserTexts → (ip : Bytes) (port : ℕ) → Ifreechat → List Effect
welcome now cat user t ip port r =
    row_title cat (next_title cat r)
    ∷ user_row cat user t.nickname t.ipaddr t.macaddr
    ∷ datagram ip port (answer_text now r)
    ∷ []

-- What the program that takes the post knows and has: nobody has the address, the category is in its
-- list of contacts, its own name is another, its texts fit the answer, and `malloc` gives it a block
-- for the user that is not in the list.
pub record IsReady (fuel now cat : ℕ) (b : Blocks) (c : Ifreechat) (ip : Bytes) (xs : List ℕ)
    (r : Ifreechat) : Type 0 where
  pub nobody : search_user fuel r.ulist ip r ≡ ret none
  pub shown : r.treeview ≡ true
  pub found : CategoryIs fuel cat c.category r
  pub title : length (next_title cat r) < 128
  pub other : str_eq c.username r.username ≡ false
  pub short : length (answer_text now r) < 1024
  pub block : b.user ≢ 0
  pub users : IsRing r.unodes r.ulist xs
  pub fresh : has b.user (r.ulist ∷ xs) ≡ false

-- The message that has been read changes nothing of that.
received-IsReady :
    (c : Ifreechat) (ok : IsPrintable c) (now base : ℕ) (ip : Bytes) (port : ℕ) (r : Ifreechat)
    (fuel now' cat : ℕ) (b : Blocks) (xs : List ℕ)
    → IsReady fuel now' cat b c ip xs r
    → IsReady fuel now' cat b c ip xs
        (received c ok now 0x101 (omega arith) base (presence_data c) ip port r)
unfolding search_user count_up post_text
received-IsReady c ok now base ip port r fuel now' cat b xs ready = record {
  nobody = ready.nobody;
  shown = ready.shown;
  found = ready.found;
  title = ready.title;
  other = ready.other;
  short = ready.short;
  block = ready.block;
  users = ready.users;
  fresh = ready.fresh;
}

-- The state that the post leaves, but for the message, from any that is like the receiver's.
module _ (fuel now cat : ℕ) (b : Blocks) (c : Ifreechat) (ip : Bytes) (port : ℕ) (xs : List ℕ)
    (r : Ifreechat) (ready : IsReady fuel now cat b c ip xs r)
    (texts : AreTexts (announced c ip)) where
  abbrev last : Ifreechat
  last = entered now cat b.user (announced c ip) ip port r

  last-IsRing : IsRing last.unodes r.ulist (xs ++ b.user ∷ [])
  unfolding count_up
  last-IsRing =
      let l = init_dlist_node b.user r.unodes in
      add_tail-IsRing l b.user r.ulist xs
        (init_apart-IsRing r.unodes b.user r.ulist xs ready.users ready.fresh) ready.fresh

  last-Holds : Holds last.memory (last.users b.user) (announced c ip)
  unfolding count_up
  last-Holds = new_user-held b.user (announced c ip) r ready.block texts

  last-effects : last.effects ≡ r.effects ++ welcome now cat b.user (announced c ip) ip port r
  unfolding count_up post_text
  last-effects = append_assoc r.effects _ _

module _ (utf8_validate : Bytes → Bool) (convert : Bytes → Option Bytes) (tables : Schedule) where
  on_buddy_entry-ret :
      (c r : Ifreechat) (now fuel now' cat : ℕ) (b : Blocks) (ip : Bytes) (port : ℕ) (xs : List ℕ)
      (ok : IsPrintable c)
      → IsWelcome utf8_validate c
      → AreTexts (announced c ip)
      → IsReady fuel now' cat b c ip xs r
      → on_buddy_entry utf8_validate convert fuel now' b
          (posted c ok now 0x101 (omega arith) (presence_data c) ip port)
          r
        ≡ ret (entered now' cat b.user (announced c ip) ip port r)
  unfolding on_buddy_entry starts_with version_text
  on_buddy_entry-ret c r now fuel now' cat b ip port xs ok w texts ready =
      let m = posted c ok now 0x101 (omega arith) (presence_data c) ip port in
      rw (
        entry_texts-presence utf8_validate convert c ok w now ip port,
        ready.nobody,
        enter_user-ret fuel now' cat b (announced c ip) m r ready.block texts ready.shown
            ready.found ready.title
            (posted-cmd c ok now 0x101 (omega arith) (presence_data c) ip port) ready.other
            ready.short,
      )

  run :
      (c r : Ifreechat) (now fuel now' base cat : ℕ) (b : Blocks) (ip : Bytes) (port : ℕ)
      (xs : List ℕ) (ok : IsPrintable c)
      → IsWelcome utf8_validate c
      → AreTexts (announced c ip)
      → length (presence_text now 0x101 c) + 77 < 2 ^ 32
      → length ip < 20
      → base ≢ 0
      → IsReady fuel now' cat b c ip xs
          (received c ok now 0x101 (omega arith) base (presence_data c) ip port r)
      → process_message utf8_validate convert tables fuel now' base b ip port
          (presence_text now 0x101 c)
          r
        ≡ ret (
            free_block base (
              entered now' cat b.user
                (announced c ip)
                ip
                port
                (received c ok now 0x101 (omega arith) base (presence_data c) ip port r)))
  run c r now fuel now' base cat b ip port xs ok w texts fits short ne ready =
      let s = presence_data c in
      let e = received c ok now 0x101 (omega arith) base s ip port r in
      let same = presence_text-post now 0x101 c in
      ap (λ u. process_message utf8_validate convert tables fuel now' base b ip port u r) same
      ∙ process_message-post c ok now 0x101 (omega arith) utf8_validate convert tables fuel now'
          base b s ip port r ne (rw (← same) fits) short
      ∙ dispatch-entry c ok now 0x101 (omega arith) utf8_validate convert tables fuel now' base b s
          ip port r refl
      ∙ ap (λ o. o >>= (λ c. ret (free_block base c)))
          (on_buddy_entry-ret c e now fuel now' cat b ip port xs ok w texts ready)

  -- One program takes the post that another sends when it starts, from an address where it knows
  -- nobody, and both are in order: the other becomes its last user, whose block holds the
  -- announced texts and the address; it gets a row under its category, and an answer.
  pub presence-enters :
      (c r : Ifreechat) (now fuel now' base cat : ℕ) (b : Blocks) (ip : Bytes) (port : ℕ)
      (xs : List ℕ)
      → IsPrintable c
      → IsWelcome utf8_validate c
      → AreTexts (announced c ip)
      → length (presence_text now 0x101 c) + 77 < 2 ^ 32
      → length ip < 20
      → base ≢ 0
      → IsReady fuel now' cat b c ip xs r
      → (r' : Ifreechat) × (process_message utf8_validate convert tables fuel now' base b ip port
            (presence_text now 0x101 c)
            r
          ≡ ret r')
        × IsRing r'.unodes r.ulist (xs ++ b.user ∷ [])
        × Holds r'.memory (r'.users b.user) (announced c ip)
        × (r'.effects ≡ r.effects ++ welcome now' cat b.user (announced c ip) ip port r)
  unfolding count_up post_text
  presence-enters c r now fuel now' base cat b ip port xs ok w texts fits short ne ready =
      let e = received c ok now 0x101 (omega arith) base (presence_data c) ip port r in
      let again = received-IsReady c ok now base ip port r fuel now' cat b xs ready in
      (
        free_block base (entered now' cat b.user (announced c ip) ip port e),
        run c r now fuel now' base cat b ip port xs ok w texts fits short ne again,
        last-IsRing fuel now' cat b c ip port xs e again texts,
        last-Holds fuel now' cat b c ip port xs e again texts,
        last-effects fuel now' cat b c ip port xs e again texts,
      )
