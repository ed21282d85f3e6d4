-- ===== src/Older/Users/Tests.antt =====
-- A user, its list, a group, and a message, at small states.
use i_free_chat.Base.{ℕ, ◌+◌, ◌<◌, ◌≤◌, ◌≡◌, ◌⊎◌, refl, true, some, [], ◌∷◌, arith, update}
use i_free_chat.Base.Memory.{str_at}
use i_free_chat.Text.{codes}
use i_free_chat.Dlist.{init_dlist_node, dlist_add_tail, dlist_insert}
use i_free_chat.Dlist.Ring.{IsRing, add_tail-IsRing}
use i_free_chat.MemPool.{ret, fault}
use i_free_chat.Older.{UserBlock, Ifreechat}
use i_free_chat.Older.Samples.{no_user, no_links, no_links-IsRing, ann, texts_of}
use i_free_chat.Older.Users.{UserTexts, user_bytes, user_size, new_user}
use i_free_chat.Older.Users.Layout.{Holds, AreTexts, new_user-Holds}
use i_free_chat.Older.Groups.{group_add_user, group_find_user}
use i_free_chat.Older.Groups.Shared.{add_member-overruns}
use i_free_chat.Older.Message.{parse_message}
use i_free_chat.Older.Message.RoundTrip.{joined, parsed_block, parse-joined}

abbrev new_texts : UserTexts
new_texts = texts_of (codes "ann")

new_texts-AreTexts : AreTexts new_texts
new_texts-AreTexts = record {
  nickname = refl;
  username = refl;
  hostname = refl;
  avatar = refl;
  ipaddr = refl;
  macaddr = refl;
  signature = refl;
  category = refl;
  encoding = refl;
  fits = omega arith;
}

new_user-Holds_example :
    (c' : Ifreechat) × (new_user 1000 new_texts ann ≡ ret (1000, c'))
    × Holds c'.memory (c'.users 1000) new_texts
    × ((a : ℕ)
        → (a < 1000 + user_bytes) ⊎ (1000 + user_size new_texts ≤ a)
        → c'.memory a ≡ ann.memory a)
new_user-Holds_example =
    new_user-Holds 1000 new_texts ann (λ e. absurd (omega arith)) new_texts-AreTexts

abbrev member : UserBlock
member = record no_user { bound = 100 }

-- A group at 20 with the members 30 and 40, and a group at 21 with none.
abbrev grouped : Ifreechat
grouped = record ann {
  users = update (update ann.users 30 member) 40 member;
  members = dlist_add_tail 40 20 (dlist_add_tail 30 20 no_links);
}

grouped-IsRing : IsRing grouped.members 20 (30 ∷ 40 ∷ [])
grouped-IsRing =
    add_tail-IsRing (dlist_add_tail 30 20 no_links) 40 20 (30 ∷ [])
      (add_tail-IsRing no_links 30 20 [] (no_links-IsRing 20) refl) refl

other-IsRing : IsRing grouped.members 21 []
unfolding dlist_add_tail dlist_insert
other-IsRing = record { chain = (refl, refl); distinct = (refl, tt) }

add_member-overruns_example :
    (c' : Ifreechat) × (group_add_user 21 40 grouped ≡ (true, c'))
    × (group_find_user 3 1 20 (codes "10.0.0.2") c' ≡ fault)
unfolding str_at
add_member-overruns_example =
    add_member-overruns 20 21 40 1 3 (30 ∷ []) [] (codes "10.0.0.2") grouped grouped-IsRing
      other-IsRing refl refl (refl, tt) refl refl (omega arith)

parse-joined_example :
    parse_message 500
      (joined
        (codes "1_lbt4")
        (codes "9")
        (codes "anna")
        (codes "pc")
        (codes "288")
        (codes "hello"))
      ann
    ≡ ret (
      some 500,
      record ann {
        msgs = update ann.msgs 500 (
            parsed_block
              (codes "1_lbt4")
              (codes "9")
              (codes "anna")
              (codes "pc")
              (codes "288")
              (codes "hello"));
        mnodes = init_dlist_node 500 ann.mnodes;
      },
    )
parse-joined_example =
    parse-joined (codes "1_lbt4") (codes "9") (codes "anna") (codes "pc") (codes "288")
      (codes "hello") (refl, refl) (refl, refl) (refl, refl) (refl, refl) (refl, refl) 500 ann
      (λ e. absurd (omega arith)) (omega arith)
