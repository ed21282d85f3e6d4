-- ===== src/Older/Buddy/Tests.antt =====
-- A user that announces itself again, and messages, at small states.
use i_free_chat.Base.{
  ◌<◌, ◌≡◌, refl, ap, Bool, true, false, Option, none, some, [], ◌∷◌, arith, has, length,
}
use i_free_chat.Base.Memory.{str_at, store_bytes}
use i_free_chat.Text.{Bytes, codes, digits, decimal}
use i_free_chat.Dlist.Ring.{IsRing, add_tail-IsRing}
use i_free_chat.Dlist.Loop.{foreach-find}
use i_free_chat.MemPool.{ret}
use i_free_chat.Client.{ended}
use i_free_chat.Feiq.Build.{version_text, packet_text}
use i_free_chat.Feiq.Parse.{found, until}
use i_free_chat.Older.{Ifreechat, blink, msg_text, string_at}
use i_free_chat.Older.Users.{UserTexts, user_size, place_texts, search_user, has_ip}
use i_free_chat.Older.Users.Layout.{Holds, AreTexts, IsRoomy, with_user, new_user-held}
use i_free_chat.Older.Samples.{no_links, no_links-IsRing, one_link, greeting, ann, texts_of}
use i_free_chat.Older.Broadcast.{post_text}
use i_free_chat.Older.Buddy.{update_user, on_buddy_sendmsg}
use i_free_chat.Older.Buddy.Update.{renewed, Overruns, update_user-Holds, update_user-Overruns}
use i_free_chat.Older.Buddy.Waiting.{reply_text, replies, sendmsg-waits, sendmsg-dangles}

abbrev old_texts : UserTexts
old_texts = texts_of (codes "ann")

abbrev short_texts : UserTexts
short_texts = texts_of (codes "al")

abbrev long_texts : UserTexts
long_texts = texts_of (codes "annabel")

-- The texts with any nickname that has no NUL and is short.
texts-AreTexts :
    (nickname : Bytes)
    → has 0 nickname ≡ false
    → length nickname < 100
    → AreTexts (texts_of nickname)
texts-AreTexts nickname p h = record {
  nickname = p;
  username = refl;
  hostname = refl;
  avatar = refl;
  ipaddr = refl;
  macaddr = refl;
  signature = refl;
  category = refl;
  encoding = refl;
  fits = omega arith;
}

-- The program that knows the user.
abbrev knowing : Ifreechat
knowing = with_user 1000 old_texts ann

knowing-Holds : Holds knowing.memory (knowing.users 1000) old_texts
knowing-Holds =
    new_user-held 1000 old_texts ann (λ e. absurd (omega arith))
      (texts-AreTexts (codes "ann") refl (omega arith))

short-IsRoomy : IsRoomy (knowing.users 1000) (renewed old_texts short_texts)
unfolding place_texts user_size
short-IsRoomy = omega arith

update_user-Holds_example :
    (c' : Ifreechat) × (update_user 1000 short_texts knowing ≡ ret c')
    × Holds c'.memory (c'.users 1000) (renewed old_texts short_texts)
update_user-Holds_example =
    update_user-Holds 1000 old_texts short_texts knowing knowing-Holds
      (texts-AreTexts (codes "al") refl (omega arith)) short-IsRoomy

long-Overruns : Overruns old_texts long_texts
unfolding user_size
long-Overruns = record {
  nickname = omega arith;
  within = omega arith;
  username = omega arith;
  hostname = omega arith;
  macaddr = omega arith;
  category = omega arith;
  avatar = omega arith;
  no_nul = (refl, refl);
}

-- "ann" that becomes "annabel" is read as "annaanna".
update_user-Overruns_example :
    (c' : Ifreechat) × (update_user 1000 long_texts knowing ≡ ret c')
    × (string_at c'.memory (c'.users 1000).nickname (c'.users 1000).bound ≡ ret (codes "annaanna"))
update_user-Overruns_example =
    update_user-Overruns 1000 old_texts long_texts knowing refl
      (texts-AreTexts (codes "ann") refl (omega arith)) long-Overruns

abbrev all_valid : Bytes → Bool
all_valid s = true

abbrev no_convert : Bytes → Option Bytes
no_convert s = none

greeting_text : msg_text greeting ≡ ret (codes "hello")
unfolding msg_text found until
greeting_text = refl

nobody : search_user 2 1 greeting.ip ann ≡ ret none
unfolding search_user
nobody =
    ap ended
      (foreach-find no_links 1 (has_ip ann greeting.ip) 2 [] (no_links-IsRing 1) (omega arith))

sendmsg-dangles_example :
    (c' : Ifreechat) × (on_buddy_sendmsg all_valid no_convert 2 5 500 ann ≡ ret c')
    × IsRing c'.mnodes c'.mlist (500 ∷ [])
    × (has 500 c'.freed ≡ true)
sendmsg-dangles_example =
    sendmsg-dangles all_valid no_convert 2 5 500 ann [] (codes "hello") greeting_text refl
      (no_links-IsRing 4) refl nobody refl

-- The program that has the user in its list.
abbrev listing : Ifreechat
listing = record knowing { unodes = one_link 1 1000 }

listing-IsRing : IsRing listing.unodes 1 (1000 ∷ [])
listing-IsRing = add_tail-IsRing no_links 1000 1 [] (no_links-IsRing 1) refl

known : search_user 2 1 greeting.ip listing ≡ ret (some 1000)
unfolding search_user place_texts user_size str_at store_bytes
known = ap ended (
    foreach-find listing.unodes 1 (has_ip listing greeting.ip) 2 (1000 ∷ []) listing-IsRing
      (omega arith))

reply_fits : length (reply_text 5 greeting listing) < 1024
unfolding post_text version_text packet_text decimal digits
reply_fits = omega arith

sendmsg-waits_example :
    (c' : Ifreechat) × (on_buddy_sendmsg all_valid no_convert 2 5 500 listing ≡ ret c')
    × IsRing c'.mnodes c'.mlist (500 ∷ [])
    × (c'.msgs 500 ≡ record greeting { gpid = 0; user = 1000 })
    × (c'.freed ≡ [])
    × (c'.effects ≡ blink ∷ replies 5 greeting listing)
sendmsg-waits_example =
    sendmsg-waits all_valid no_convert 2 5 500 listing [] (codes "hello") greeting_text refl
      (no_links-IsRing 4) refl 1000 known
      (foreach-find no_links 5 (λ p. has_ip listing greeting.ip (listing.chat_data p)) 2 []
        (no_links-IsRing 5) (omega arith))
      reply_fits
