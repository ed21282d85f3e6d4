-- ===== src/Older/Groups/Shared.antt =====
-- A user has one node for the members of a group, so that it can be in one group only.
use i_free_chat.Base.{
  ℕ, ◌+◌, ◌<◌, length, refl, ◌≡◌, true, false, List, [], ◌∷◌, ◌++◌, arith, has, ◌==◌, All,
}
use i_free_chat.Text.{Bytes}
use i_free_chat.Dlist.{dlist_add_tail}
use i_free_chat.Dlist.Ring.{IsRing}
use i_free_chat.Dlist.Round.{add_tail-stops}
use i_free_chat.MemPool.{fault}
use i_free_chat.Older.{Ifreechat}
use i_free_chat.Older.Groups.{stops, found_member, group_add_user, group_find_user}

-- A member of one group is added to a group that has none: `group_add_user` succeeds. Where the
-- variable that is compared with NULL before it is set holds anything else, a search of the first
-- group then, for an address that neither the members up to that one nor the member itself have,
-- goes on to the head of the other group and reads a user's address in front of its block.
pub add_member-overruns :
    (gp other user unset fuel : ℕ) (xs ys : List ℕ) (ip : Bytes) (c : Ifreechat)
    → IsRing c.members gp (xs ++ user ∷ ys)
    → IsRing c.members other []
    → has other (gp ∷ user ∷ xs) ≡ false
    → has 0 (gp ∷ other ∷ user ∷ unset ∷ []) ≡ false
    → All (λ x. stops c ip x ≡ false) xs
    → stops c ip user ≡ false
    → (c.users other).bound ≡ 0
    → length xs + 1 < fuel
    → (c' : Ifreechat) × (group_add_user other user c ≡ (true, c'))
      × (group_find_user fuel unset gp ip c' ≡ fault)
unfolding group_add_user group_find_user found_member
add_member-overruns gp other user unset fuel xs ys ip c r e out real miss no_user none enough =
    let a : (gp == 0) ≡ false = ground arith in
    let b : (unset == 0) ≡ false = ground arith in
    let hit : stops c ip other ≡ true = rw none refl in
    let stop =
      add_tail-stops c.members gp other user xs ys (stops c ip) fuel r e (ground arith)
        (ground arith) (ground arith) miss no_user hit enough in
    (
      record c { members = dlist_add_tail user other c.members },
      ground arith,
      rw (a, b, stop, none) refl,
    )
