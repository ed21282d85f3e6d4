-- ===== src/Registry/Group/Members.antt =====
-- The users of a group.
use i_free_chat.Base.{
  ℕ, ◌+◌, ◌<◌, ◌≡◌, refl, ap, ◌∙◌, ◌≢◌, true, false, Option, none, some, List, [], ◌∷◌, ◌++◌, arith,
  Bool-cases, inl, inr, has, length, length-append, str_eq, ◌==◌, if◌then◌else◌, update,
}
use i_free_chat.Text.{Bytes}
use i_free_chat.Dlist.{dlist_add_tail, dlist_del, init_dlist_node}
use i_free_chat.Dlist.Ring.{IsRing, add_tail-IsRing, del-IsRing, init_apart-IsRing}
use i_free_chat.Dlist.Loop.{find, foreach-find}
use i_free_chat.MemPool.{ret, pool_alloc, pool_free, poke, Pool}
use i_free_chat.Registry.{Heap, Mallocs}
use i_free_chat.Registry.Group.{
  group_entry_add_user, group_entry_del_user, group_entry_find_user, member_has,
}

-- The users of the members `ms`, in order, and the first of them with an address.
abbrev pub users_of : (ℕ → ℕ) → List ℕ → List ℕ
users_of members [] = []
users_of members (m ∷ ms) = members m ∷ users_of members ms

abbrev pub user_at : Heap → Bytes → List ℕ → Option ℕ
user_at h ip [] = none
user_at h ip (u ∷ us) = if str_eq (h.users u).ipaddr ip then some u else user_at h ip us

find-user_at :
    (h : Heap) (ip : Bytes) (ms : List ℕ)
    → elim (find (member_has h ip) ms) [ none ↦ none | some e ↦ some (h.members e) ]
      ≡ user_at h ip (users_of h.members ms)
find-user_at h ip [] = refl
find-user_at h ip (m ∷ ms) = ground (arith, find-user_at h ip ms)

-- `group_entry_find_user` ends, and gives the first user of the group's list that has the address.
pub find_user-user_at :
    (fuel group : ℕ) (ip : Bytes) (h : Heap) (ms : List ℕ)
    → IsRing h.mnodes group ms
    → length ms < fuel
    → group_entry_find_user fuel group ip h ≡ some (user_at h ip (users_of h.members ms))
unfolding group_entry_find_user
find_user-user_at fuel group ip h ms r f =
    ground (arith, foreach-find h.mnodes group (member_has h ip) fuel ms r f, find-user_at h ip ms)

user_at-append :
    (h : Heap) (ip : Bytes) (us vs : List ℕ)
    → user_at h ip us ≡ none
    → user_at h ip (us ++ vs) ≡ user_at h ip vs
user_at-append h ip [] vs e = refl
user_at-append h ip (u ∷ us) vs e = ground (arith, user_at-append h ip us vs)

find-none :
    (h : Heap) (ip : Bytes) (ms : List ℕ)
    → user_at h ip (users_of h.members ms) ≡ none
    → find (member_has h ip) ms ≡ none
find-none h ip [] e = refl
find-none h ip (m ∷ ms) e = ground (arith, find-none h ip ms)

find-some :
    (h : Heap) (ip : Bytes) (ms : List ℕ) (u : ℕ)
    → user_at h ip (users_of h.members ms) ≡ some u
    → (m : ℕ) × (find (member_has h ip) ms ≡ some m)
find-some h ip [] u e = absurd (ground arith)
find-some h ip (m ∷ ms) u e = elim (Bool-cases (member_has h ip m)) [
  | inl q ↦ (m, rw q refl)
  | inr q ↦ let (n, f) = find-some h ip ms u (ground arith) in (n, rw q f)
]

-- The heap when the member `m` has been added.
abbrev pub with_member : (m group user : ℕ) → Pool → Heap → Heap
with_member m group user p h = record h {
  pool = poke m user p;
  members = update h.members m user;
  mnodes = dlist_add_tail m group (init_dlist_node m h.mnodes);
}

users_of-update :
    (f : ℕ → ℕ) (m u : ℕ) (ms : List ℕ)
    → has m ms ≡ false
    → users_of (update f m u) (ms ++ m ∷ []) ≡ users_of f ms ++ u ∷ []
users_of-update f m u [] out = ground arith
users_of-update f m u (x ∷ ms) out = ground (arith, users_of-update f m u ms)

-- A user whose address is in the group already is refused, and nothing changes.
pub add_user_twice :
    (fuel : ℕ) (a : Mallocs) (group user u : ℕ) (h : Heap) (ms : List ℕ)
    → IsRing h.mnodes group ms
    → length ms < fuel
    → user_at h (h.users user).ipaddr (users_of h.members ms) ≡ some u
    → group_entry_add_user fuel a group user h ≡ some (ret (false, h))
unfolding group_entry_add_user
add_user_twice fuel a group user u h ms r f e =
    let (m, q) = find-some h (h.users user).ipaddr ms u e in
    ground (arith, foreach-find h.mnodes group (member_has h (h.users user).ipaddr) fuel ms r f, q)

-- A user whose address is not yet in the group is put at the end of its list, in a member that
-- the pool gives, if that is not one of the list's. Then a search of the group goes through the
-- users from before and then this one.
pub add_user-find_user :
    (fuel : ℕ) (a : Mallocs) (group user m : ℕ) (p : Pool) (ip : Bytes) (h : Heap) (ms : List ℕ)
    → IsRing h.mnodes group ms
    → length ms + 1 < fuel
    → user_at h (h.users user).ipaddr (users_of h.members ms) ≡ none
    → pool_alloc a.chunk a.block 12 h.pool ≡ ret (m, p)
    → m ≢ 0
    → has m (group ∷ ms) ≡ false
    → (group_entry_add_user fuel a group user h ≡ some (ret (true, with_member m group user p h)))
      × IsRing (with_member m group user p h).mnodes group (ms ++ m ∷ [])
      × (group_entry_find_user fuel group ip (with_member m group user p h)
          ≡ some (user_at h ip (users_of h.members ms ++ user ∷ [])))
unfolding group_entry_add_user
add_user-find_user fuel a group user m p ip h ms r f e q ne out =
    let h' = with_member m group user p h in
    let ring : IsRing h'.mnodes group (ms ++ m ∷ []) =
      add_tail-IsRing (init_dlist_node m h.mnodes) m group ms
        (init_apart-IsRing h.mnodes m group ms r out) out in
    let n : length (ms ++ m ∷ []) < fuel = omega (arith, length-append ms (m ∷ [])) in
    let z : (m == 0) ≡ false = ground arith in
    (
      ground (
        arith,
        foreach-find h.mnodes group (member_has h (h.users user).ipaddr) fuel ms r (omega arith),
        find-none h (h.users user).ipaddr ms e,
        q,
        z,
      ),
      ring,
      find_user-user_at fuel group ip h' (ms ++ m ∷ []) ring n
          ∙ ap (λ us. some (user_at h ip us)) (users_of-update h.members m user ms (ground arith)),
    )

find_at :
    (h : Heap) (ip : Bytes) (xs : List ℕ) (m : ℕ) (ys : List ℕ)
    → user_at h ip (users_of h.members xs) ≡ none
    → member_has h ip m ≡ true
    → find (member_has h ip) (xs ++ m ∷ ys) ≡ some m
find_at h ip [] m ys e t = rw t refl
find_at h ip (x ∷ xs) m ys e t = ground (arith, find_at h ip xs m ys)

-- `group_entry_del_user` takes out the first member that has the address, and only that one; the
-- member's block goes back to the pool.
del_user-IsRing :
    (fuel group user : ℕ) (p : Pool) (h : Heap) (xs : List ℕ) (m : ℕ) (ys : List ℕ)
    → IsRing h.mnodes group (xs ++ m ∷ ys)
    → length (xs ++ m ∷ ys) < fuel
    → user_at h (h.users user).ipaddr (users_of h.members xs) ≡ none
    → str_eq (h.users (h.members m)).ipaddr (h.users user).ipaddr ≡ true
    → pool_free m h.pool ≡ ret p
    → (group_entry_del_user fuel group user h
        ≡ some (ret (true, record h { pool = p; mnodes = dlist_del m h.mnodes })))
      × IsRing (dlist_del m h.mnodes) group (xs ++ ys)
      × IsRing (dlist_del m h.mnodes) m []
unfolding group_entry_del_user
del_user-IsRing fuel group user p h xs m ys r f e t q =
    let (rest, self) = del-IsRing h.mnodes group xs m ys r in
    (
      ground (
        arith,
        foreach-find h.mnodes group (member_has h (h.users user).ipaddr) fuel (xs ++ m ∷ ys) r f,
        find_at h (h.users user).ipaddr xs m ys e t,
        q,
      ),
      rest,
      self,
    )
