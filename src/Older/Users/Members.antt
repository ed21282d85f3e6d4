-- ===== src/Older/Users/Members.antt =====
-- The list of users as a list.
use i_free_chat.Base.{
  ℕ, ◌<◌, ◌≡◌, ◌≢◌, refl, ap, true, false, List, [], ◌∷◌, ◌++◌, arith, append-nil, has, length,
  ◌==◌,
}
use i_free_chat.Text.{Bytes}
use i_free_chat.Dlist.{dlist_add_tail, dlist_del}
use i_free_chat.Dlist.Ring.{IsRing, add_tail-IsRing, del-IsRing}
use i_free_chat.Dlist.Loop.{find, foreach-find}
use i_free_chat.MemPool.{ret}
use i_free_chat.Client.{ended}
use i_free_chat.Older.{Ifreechat}
use i_free_chat.Older.Users.{has_ip, search_user, find_user, add_user, del_user}

-- A search ends, with more rounds than there are users, at the first that has the address.
pub find_user-find :
    (fuel ulist : ℕ) (ip : Bytes) (xs : List ℕ) (c : Ifreechat)
    → ulist ≢ 0
    → IsRing c.unodes ulist xs
    → length xs < fuel
    → find_user fuel ulist ip c ≡ ret (find (has_ip c ip) xs)
unfolding find_user search_user
find_user-find fuel ulist ip xs c ne r enough =
    let real : (ulist == 0) ≡ false = ground arith in
    rw real (ap ended (foreach-find c.unodes ulist (has_ip c ip) fuel xs r enough))

-- A user that is added and then deleted: the list is as it was, and the user's block is released.
pub del_user-add :
    (ulist user : ℕ) (xs : List ℕ) (c : Ifreechat)
    → has 0 (ulist ∷ user ∷ []) ≡ false
    → IsRing c.unodes ulist xs
    → has user (ulist ∷ xs) ≡ false
    → (c' c'' : Ifreechat) × (add_user ulist user c ≡ (true, c'))
      × IsRing c'.unodes ulist (xs ++ user ∷ [])
      × (del_user ulist user c' ≡ (true, c''))
      × IsRing c''.unodes ulist xs
      × (c''.freed ≡ user ∷ c.freed)
unfolding add_user del_user
del_user-add ulist user xs c real r fresh =
    let l = dlist_add_tail user ulist c.unodes in
    let added = add_tail-IsRing c.unodes user ulist xs r fresh in
    (
      record c { unodes = l },
      record c { unodes = dlist_del user l; freed = user ∷ c.freed },
      ground arith,
      added,
      ground arith,
      rw append-nil at ((del-IsRing l ulist xs user [] added).0),
      refl,
    )
