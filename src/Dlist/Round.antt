-- ===== src/Dlist/Round.antt =====
-- A loop over a list whose nodes lead into another list comes to the head of that one.
use i_free_chat.Base.{
  ℕ, zero, suc, ◌≡◌, refl, Bool, true, false, some, ◌+◌, ◌<◌, length, List, [], ◌∷◌, ◌++◌, arith,
  has, has-append, ◌==◌, All,
}
use i_free_chat.Dlist.{Links, dlist_insert, dlist_add_tail, dlist_foreach}
use i_free_chat.Dlist.Ring.{Chain, IsRing, Distinct-middle}

-- The `next` fields lead from `p` through `xs` to `q`.
abbrev pub Leads : Links → ℕ → List ℕ → ℕ → Type 0
Leads l p [] q = l.next p ≡ q
Leads l p (x ∷ xs) q = (l.next p ≡ x) × Leads l x xs q

-- A loop over such nodes, none of which passes the test, and the next node, which does.
Leads-stops :
    (l : Links) (head other : ℕ) (test : ℕ → Bool) (fuel p : ℕ) (xs : List ℕ)
    → Leads l p xs other
    → has head xs ≡ false
    → (other == head) ≡ false
    → All (λ x. test x ≡ false) xs
    → test other ≡ true
    → length xs < fuel
    → dlist_foreach l head test fuel (l.next p) ≡ some (some other)
unfolding dlist_foreach
Leads-stops l head other test zero p xs c out ne miss hit short = absurd (omega arith)
Leads-stops l head other test (suc fuel) p [] c out ne miss hit short = rw (c, ne, hit) refl
Leads-stops l head other test (suc fuel) p (x ∷ xs) c out ne miss hit short = rw c.0 (
    ground (
      arith,
      miss.0,
      Leads-stops l head other test fuel x xs c.1 (ground arith) ne miss.1 hit (omega arith),
    ))

-- Two runs of nodes, one behind the other.
Leads-append :
    (l : Links) (p : ℕ) (xs : List ℕ) (user other : ℕ)
    → Leads l p xs user
    → l.next user ≡ other
    → Leads l p (xs ++ user ∷ []) other
Leads-append l p [] user other c e = (c, e)
Leads-append l p (x ∷ xs) user other c e = (c.0, Leads-append l x xs user other c.1 e)

-- The nodes of a list up to `user`, when that is linked into an empty list at `other`.
Leads-add :
    (l : Links) (p : ℕ) (xs : List ℕ) (user other : ℕ) (ys : List ℕ) (q : ℕ)
    → Chain l p (xs ++ user ∷ ys) q
    → has user (p ∷ xs) ≡ false
    → has other (p ∷ xs) ≡ false
    → l.prev other ≡ other
    → Leads (dlist_add_tail user other l) p xs user
unfolding dlist_add_tail dlist_insert
Leads-add l p [] user other ys q c out out' self = ground arith
Leads-add l p (x ∷ xs) user other ys q c out out' self =
    (ground arith, Leads-add l x xs user other ys q c.2 (ground arith) (ground arith) self)

next-user :
    (l : Links) (user other : ℕ)
    → l.prev other ≡ other
    → (dlist_add_tail user other l).next user ≡ other
unfolding dlist_add_tail dlist_insert
next-user l user other self = ground arith

All-append :
    (test : ℕ → Bool) (xs : List ℕ) (x : ℕ)
    → All (λ y. test y ≡ false) xs
    → test x ≡ false
    → All (λ y. test y ≡ false) (xs ++ x ∷ [])
All-append test [] x a e = (e, tt)
All-append test (y ∷ xs) x a e = (a.0, All-append test xs x a.1 e)

length-append : (xs : List ℕ) (x : ℕ) → length (xs ++ x ∷ []) ≡ length xs + 1
length-append [] x = refl
length-append (y ∷ xs) x = omega (arith, length-append xs x)

-- A node of a list is linked into another that is empty: a search of the first list that stops
-- neither at the nodes up to it nor at the node itself comes to the other's head.
pub add_tail-stops :
    (l : Links) (head other user : ℕ) (xs ys : List ℕ) (test : ℕ → Bool) (fuel : ℕ)
    → IsRing l head (xs ++ user ∷ ys)
    → IsRing l other []
    → (other == head) ≡ false
    → has other xs ≡ false
    → (other == user) ≡ false
    → All (λ x. test x ≡ false) xs
    → test user ≡ false
    → test other ≡ true
    → length xs + 1 < fuel
    → (let l' : Links = dlist_add_tail user other l in
        dlist_foreach l' head test fuel (l'.next head))
      ≡ some (some other)
add_tail-stops l head other user xs ys test fuel r e ne out ne_user miss no_user hit enough =
    let d = Distinct-middle (head ∷ xs) user ys r.distinct in
    let self : l.prev other ≡ other = e.chain.1 in
    let l' = dlist_add_tail user other l in
    let run =
      Leads-add l head xs user other ys head r.chain (ground (arith, has-append user xs ys))
        (ground arith) self in
    Leads-stops l' head other test fuel head (xs ++ user ∷ [])
      (Leads-append l' head xs user other run (next-user l user other self))
      (ground (arith, d.1.0, has-append head xs ys, has-append head xs (user ∷ []))) ne
      (All-append test xs user miss no_user) hit (omega (arith, length-append xs user, enough))
