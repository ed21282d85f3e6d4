-- ===== src/Older/Tests.antt =====
-- The theorems on the older program at small states.
use i_free_chat.Base.{
  ◌+◌, ◌^◌, Option, ◌<◌, ◌≡◌, refl, ap, Bool, true, none, [], ◌∷◌, arith, length,
}
use i_free_chat.Text.{Bytes, codes, decimal, digits}
use i_free_chat.Dlist.Ring.{IsRing}
use i_free_chat.Dlist.Loop.{foreach-find}
use i_free_chat.Blowfish.{Schedule}
use i_free_chat.MemPool.{ret, fault}
use i_free_chat.Client.{ended, int_text}
use i_free_chat.Feiq.Build.{version_text, packet_text}
use i_free_chat.Older.{Ifreechat}
use i_free_chat.Older.Samples.{no_links, no_links-IsRing, one_link, one_link-IsRing, ann, bob}
use i_free_chat.Older.Users.{has_ip, search_user}
use i_free_chat.Older.Users.Layout.{Holds, AreTexts}
use i_free_chat.Older.Treeview.{count_up, category_title}
use i_free_chat.Older.Broadcast.{post_text, presence_text}
use i_free_chat.Older.Buddy.{Blocks, avatar_file}
use i_free_chat.Older.Process.{process_message}
use i_free_chat.Older.Process.Answer.{IsPrintable, answer-overreads}
use i_free_chat.Older.Process.Presence.{IsWelcome, announced}
use i_free_chat.Older.Process.Presence.Enters.{IsReady, welcome, presence-enters}

abbrev all_valid : Bytes → Bool
all_valid s = true

abbrev no_convert : Bytes → Option Bytes
no_convert s = none

abbrev no_tables : Schedule
no_tables = record { p_array = λ i. 0; s_boxes = λ i j. 0 }

abbrev ip_a : Bytes
ip_a = codes "10.0.0.2"

abbrev blocks : Blocks
blocks = record { user = 1000; category = 2000 }

ann-IsPrintable : IsPrintable ann
ann-IsPrintable = record {
  macaddr = (refl, refl, refl, refl);
  username = (refl, refl);
  hostname = (refl, refl);
  nickname = refl;
  category = refl;
}

ann-IsWelcome : IsWelcome all_valid ann
ann-IsWelcome = record {
  nickname = (refl, refl);
  category = (refl, refl);
  macaddr = omega arith;
  avatar = omega arith;
}

ann-AreTexts : AreTexts (announced ann ip_a)
unfolding avatar_file int_text decimal digits
ann-AreTexts = record {
  nickname = refl;
  username = refl;
  hostname = refl;
  avatar = refl;
  ipaddr = refl;
  macaddr = refl;
  signature = refl;
  category = refl;
  encoding = refl;
  fits = omega arith;
}

bob-IsReady : IsReady 2 5 7 blocks ann ip_a [] bob
unfolding search_user count_up category_title post_text version_text packet_text int_text decimal
    digits
bob-IsReady = record {
  nobody =
      ap ended (foreach-find no_links 1 (has_ip bob ip_a) 2 [] (no_links-IsRing 1) (omega arith));
  shown = refl;
  found = foreach-find (one_link 3 7) 3 _ 2 (7 ∷ []) one_link-IsRing (omega arith);
  title = omega arith;
  other = refl;
  short = omega arith;
  block = λ e. absurd (omega arith);
  users = no_links-IsRing 1;
  fresh = refl;
}

presence_fits : length (presence_text 5 0x101 ann) + 77 < 2 ^ 32
unfolding presence_text post_text version_text packet_text decimal digits
presence_fits = omega arith

presence-enters_example :
    (r' : Ifreechat) × (process_message all_valid no_convert no_tables 2 5 500 blocks ip_a 2425
        (presence_text 5 0x101 ann)
        bob
      ≡ ret r')
    × IsRing r'.unodes 1 (1000 ∷ [])
    × Holds r'.memory (r'.users 1000) (announced ann ip_a)
    × (r'.effects ≡ welcome 5 7 1000 (announced ann ip_a) ip_a 2425 bob)
presence-enters_example =
    presence-enters all_valid no_convert no_tables ann bob 5 2 5 500 7 blocks ip_a 2425 []
      ann-IsPrintable ann-IsWelcome ann-AreTexts presence_fits (omega arith)
      (λ e. absurd (omega arith)) bob-IsReady

answer_fits : length (post_text 0 5 ann.username ann.hostname 0x103 ann.nickname ann) + 77 < 2 ^ 32
unfolding post_text version_text packet_text decimal digits
answer_fits = omega arith

answer-overreads_example :
    process_message all_valid no_convert no_tables 2 5 500 blocks ip_a 2425
      (post_text 0 5 ann.username ann.hostname 0x103 ann.nickname ann)
      bob
    ≡ fault
answer-overreads_example =
    answer-overreads all_valid no_convert no_tables ann bob 5 2 5 500 blocks ip_a 2425
      ann-IsPrintable (λ e. absurd (omega arith)) answer_fits (omega arith)
