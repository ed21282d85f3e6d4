-- ===== src/Older/Groups.antt =====
-- src/group.c: groups, and the users that are their members.
pub mod Shared
use i_free_chat.Base.{
  ℕ, ◌+◌, ◌%◌, ◌^◌, Bool, true, false, ◌||◌, Option, none, some, [], ◌∷◌, ◌++◌, ◌==◌, if◌then◌else◌,
  length, update,
}
use i_free_chat.Text.{Bytes}
use i_free_chat.Dlist.{init_dlist_node, dlist_add_tail, dlist_del, dlist_foreach}
use i_free_chat.MemPool.{Outcome, ret, fault, ◌>>=◌}
use i_free_chat.Client.{ended}
use i_free_chat.Older.{GroupBlock, Ifreechat, free_block, strcpy_at}
use i_free_chat.Older.Users.{has_ip}

-- `sizeof(group_t)`
abbrev group_bytes : ℕ
group_bytes = 28

abbrev group_size : (gpname gpinfo : Bytes) → ℕ
group_size gpname gpinfo = (1 + length gpname + (1 + length gpinfo) + group_bytes) % 2 ^ 32

-- Where the two texts lie in a block at `base`.
place_group : (base gpid : ℕ) (gpname gpinfo : Bytes) → GroupBlock
place_group base gpid gpname gpinfo = record {
  group_name = base + group_bytes;
  group_info = base + group_bytes + (1 + length gpname);
  group_id = gpid;
  bound = base + group_size gpname gpinfo;
}

-- `base` is what `malloc` returns; the result is the group's address, 0 for NULL.
pub new_group : (base gpid : ℕ) (gpname gpinfo : Bytes) → Ifreechat → Outcome (ℕ × Ifreechat)
unfolding place_group
new_group base gpid gpname gpinfo c =
    let g = place_group base gpid gpname gpinfo in
    if base == 0 then ret (0, c) else do
      c ← strcpy_at g.group_name g.bound gpname c
      c ← strcpy_at g.group_info g.bound gpinfo c
      ret (
        base,
        record c {
          groups = update c.groups base g;
          gnodes = init_dlist_node base c.gnodes;
          members = init_dlist_node base c.members;
        },
      )

-- The flags are whether 0 is returned. An address 0 is NULL.
pub group_add_user : (gp user : ℕ) → Ifreechat → Bool × Ifreechat
group_add_user gp user c =
    if gp == 0
    then (false, c)
    else if user == 0
    then (false, c)
    else (true, record c { members = dlist_add_tail user gp c.members })

pub group_del_user : (gp user : ℕ) → Ifreechat → Bool × Ifreechat
group_del_user gp user c =
    if gp == 0
    then (false, c)
    else if user == 0
    then (false, c)
    else (true, record c { members = dlist_del user c.members })

-- The node belongs to no user, or to one with the address. No block of a user ends at 0.
abbrev pub stops : Ifreechat → Bytes → ℕ → Bool
stops c ip x = (c.users x).bound == 0 || has_ip c ip x

-- What the loop has stopped at. A node of no user is the head of another group, and the address is
-- read in front of that group's block.
pub found_member : Option ℕ → Ifreechat → Outcome (Option ℕ)
found_member none c = ret none
found_member (some x) c = if (c.users x).bound == 0 then fault else ret (some x)

-- `unset` is what the variable `user` holds, which the code compares with NULL before it sets it.
pub group_find_user : (fuel unset gp : ℕ) (ip : Bytes) → Ifreechat → Outcome (Option ℕ)
unfolding found_member
group_find_user fuel unset gp ip c =
    if gp == 0 then ret none else if unset == 0 then ret none else do
      found ← ended (dlist_foreach c.members gp (stops c ip) fuel (c.members.next gp))
      found_member found c

pub add_group : (glist gp : ℕ) → Ifreechat → Bool × Ifreechat
add_group glist gp c =
    if glist == 0
    then (false, c)
    else if gp == 0
    then (false, c)
    else (true, record c { gnodes = dlist_add_tail gp glist c.gnodes })

pub del_group : (glist gp : ℕ) → Ifreechat → Bool × Ifreechat
del_group glist gp c =
    if glist == 0
    then (false, c)
    else if gp == 0
    then (false, c)
    else (true, free_block gp (record c { gnodes = dlist_del gp c.gnodes }))

unfoldable pub find_group : (fuel glist gpid : ℕ) → Ifreechat → Outcome (Option ℕ)
find_group fuel glist gpid c =
    ended
      (dlist_foreach c.gnodes glist (λ p. (c.groups p).group_id == gpid) fuel (c.gnodes.next glist))
