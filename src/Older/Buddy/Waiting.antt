-- ===== src/Older/Buddy/Waiting.antt =====
-- What becomes of a message for the user, by who sent it.
use i_free_chat.Base.{
  ℕ, ◌<◌, ◌≡◌, ◌≢◌, refl, Bool, true, false, Option, none, some, List, [], ◌∷◌, ◌++◌, append-nil,
  append_assoc, Bool-cases, inl, inr, arith, has, length, leb, ◌==◌, bit_and, if◌then◌else◌,
  ==_refl,
}
use i_free_chat.Text.{Bytes, atoi}
use i_free_chat.Dlist.{dlist_foreach}
use i_free_chat.Dlist.Ring.{IsRing, add_tail-IsRing}
use i_free_chat.MemPool.{ret}
use i_free_chat.Feiq.Handle.{string_validate}
use i_free_chat.Older.{MsgBlock, Ifreechat, Effect, blink, datagram, emit, free_block, msg_text}
use i_free_chat.Older.Users.{has_ip, search_user}
use i_free_chat.Older.Broadcast.{post_text}
use i_free_chat.Older.Buddy.{
  queue_msg, put_msg, store_converted, convert_data, show_private, in_buffer, send_reply_msg,
  deliver, on_buddy_sendmsg,
}

-- No chat is open with a user at the address.
abbrev pub NoChat : (fuel : ℕ) (ip : Bytes) → Ifreechat → Type 0
NoChat fuel ip c =
    dlist_foreach c.pchatbox_nodes c.pchatbox (λ p. has_ip c ip (c.chat_data p)) fuel
      (c.pchatbox_nodes.next c.pchatbox)
    ≡ some none

-- The reply that says that a message has arrived.
abbrev pub reply_text : (now : ℕ) → MsgBlock → Ifreechat → Bytes
reply_text now m c = post_text 0 now m.username m.hostname 0x21 m.packet_no c

-- What is sent to a sender who asked for a reply.
abbrev pub replies : (now : ℕ) → MsgBlock → Ifreechat → List Effect
replies now m c =
    if bit_and (atoi m.cmd) 0x100 == 0 then [] else datagram m.ip m.port (reply_text now m c) ∷ []

module _ (utf8_validate : Bytes → Bool) (convert : Bytes → Option Bytes) (fuel now msg : ℕ)
    (c : Ifreechat) (xs : List ℕ) (text : Bytes) (read : msg_text (c.msgs msg) ≡ ret text)
    (valid : utf8_validate text ≡ true) (unread : IsRing c.mnodes c.mlist xs)
    (fresh : has msg (c.mlist ∷ xs) ≡ false) where
  abbrev m : MsgBlock
  m = record (c.msgs msg) { gpid = 0 }

  -- The message behind the others, and the icon that blinks.
  abbrev queued : Ifreechat
  queued = emit (blink ∷ []) (put_msg msg m (queue_msg msg m c))

  convert_data-m : convert_data utf8_validate convert m ≡ ret m
  unfolding convert_data string_validate msg_text store_converted
  convert_data-m =
      let none_needed : string_validate utf8_validate convert text ≡ none = rw valid in
      rw (read, none_needed)

  queued-IsRing : IsRing queued.mnodes c.mlist (xs ++ msg ∷ [])
  queued-IsRing = add_tail-IsRing c.mnodes msg c.mlist xs unread fresh

  search-queued :
      (o : Option ℕ)
      → search_user fuel c.ulist m.ip c ≡ ret o
      → search_user fuel queued.ulist m.ip queued ≡ ret o
  unfolding search_user
  search-queued o e = e

  -- With an empty list of users, the message is given to `free` while it stays in the list of
  -- unread messages.
  pub sendmsg-dangles :
      search_user fuel c.ulist m.ip c ≡ ret none
      → c.unodes.next c.ulist ≡ c.ulist
      → (c' : Ifreechat) × (on_buddy_sendmsg utf8_validate convert fuel now msg c ≡ ret c')
        × IsRing c'.mnodes c'.mlist (xs ++ msg ∷ [])
        × (has msg c'.freed ≡ true)
  unfolding on_buddy_sendmsg
  sendmsg-dangles nobody alone = (
    free_block msg queued,
    rw (convert_data-m, search-queued none nobody, alone, ==_refl c.ulist),
    queued-IsRing,
    rw (==_refl msg),
  )

  -- The message as it waits, with the address of its user.
  abbrev pub waiting : (user : ℕ) → MsgBlock
  waiting user = record (c.msgs msg) { gpid = 0; user = user }

  show_private-ret :
      (u : ℕ)
      → NoChat fuel m.ip c
      → show_private fuel (waiting u) (put_msg msg (waiting u) queued)
        ≡ ret (put_msg msg (waiting u) queued)
  unfolding show_private
  show_private-ret u none_open = rw none_open

  same_reply :
      (u : ℕ) → reply_text now (waiting u) (put_msg msg (waiting u) queued) ≡ reply_text now m c
  unfolding post_text
  same_reply u = refl

  deliver-ret :
      (u : ℕ)
      → NoChat fuel m.ip c
      → length (reply_text now m c) < 1024
      → deliver fuel now msg (waiting u) queued
        ≡ ret (emit (replies now m c) (put_msg msg (waiting u) queued))
  unfolding deliver send_reply_msg in_buffer
  deliver-ret u none_open short =
      let fits : leb 1024 (length (reply_text now m c)) ≡ false = ground arith in
      elim (Bool-cases (bit_and (atoi m.cmd) 0x100 == 0)) [
        | inl plain ↦ rw (show_private-ret u none_open, plain, append-nil)
        | inr asked ↦ rw (show_private-ret u none_open, asked, same_reply u, fits)
      ]

  -- A message from a known user, in UTF-8 and with no chat open, joins the end of the list of unread
  -- messages with its user, and is not released; the icon starts to blink, and a reply is sent if
  -- the message asks for one, where that fits its buffer.
  pub sendmsg-waits :
      (user : ℕ)
      → search_user fuel c.ulist m.ip c ≡ ret (some user)
      → NoChat fuel m.ip c
      → length (reply_text now m c) < 1024
      → (c' : Ifreechat) × (on_buddy_sendmsg utf8_validate convert fuel now msg c ≡ ret c')
        × IsRing c'.mnodes c'.mlist (xs ++ msg ∷ [])
        × (c'.msgs msg ≡ waiting user)
        × (c'.freed ≡ c.freed)
        × (c'.effects ≡ c.effects ++ blink ∷ replies now m c)
  unfolding on_buddy_sendmsg
  sendmsg-waits user known none_open short = (
    emit (replies now m c) (put_msg msg (waiting user) queued),
    rw (convert_data-m, search-queued (some user) known, deliver-ret user none_open short),
    queued-IsRing,
    rw (==_refl msg),
    refl,
    append_assoc c.effects (blink ∷ []) (replies now m c),
  )

  -- A message from nobody that is known, where others are, waits all the same, with the user that
  -- `parse_message` left in it.
  pub sendmsg-stranger :
      search_user fuel c.ulist m.ip c ≡ ret none
      → c.unodes.next c.ulist ≢ c.ulist
      → NoChat fuel m.ip c
      → length (reply_text now m c) < 1024
      → (c' : Ifreechat) × (on_buddy_sendmsg utf8_validate convert fuel now msg c ≡ ret c')
        × IsRing c'.mnodes c'.mlist (xs ++ msg ∷ [])
        × (c'.msgs msg ≡ m)
        × (c'.freed ≡ c.freed)
        × (c'.effects ≡ c.effects ++ blink ∷ replies now m c)
  unfolding on_buddy_sendmsg
  sendmsg-stranger nobody others none_open short =
      let some_user : (c.unodes.next c.ulist == c.ulist) ≡ false = ground arith in
      (
        emit (replies now m c) (put_msg msg m queued),
        rw (
          convert_data-m,
          search-queued none nobody,
          some_user,
          deliver-ret m.user none_open short,
        ),
        queued-IsRing,
        rw (==_refl msg),
        refl,
        append_assoc c.effects (blink ∷ []) (replies now m c),
      )
