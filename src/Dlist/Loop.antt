-- ===== src/Dlist/Loop.antt =====
-- The loops over a circular list end, and see each node once, in order.
use i_free_chat.Base.{
  ℕ, zero, suc, ◌<◌, ◌≡◌, refl, sym, ◌∙◌, ap, Bool, false, Option, none, some, List, [], ◌∷◌, arith,
  ==_refl, if◌then◌else◌, has, length,
}
use i_free_chat.Dlist.{Links, dlist_foreach, dlist_foreach_safe, dlist_del}
use i_free_chat.Dlist.Ring.{Chain, IsRing, del-IsRing, next-first}

-- The first element that passes the test.
abbrev pub find : (ℕ → Bool) → List ℕ → Option ℕ
find test [] = none
find test (x ∷ xs) = if test x then some x else find test xs

foreach-find_from :
    (l : Links) (head : ℕ) (test : ℕ → Bool) (fuel p : ℕ) (xs : List ℕ)
    → Chain l p xs head
    → has head xs ≡ false
    → length xs < fuel
    → dlist_foreach l head test fuel (l.next p) ≡ some (find test xs)
unfolding dlist_foreach
foreach-find_from l head test zero p xs c out f = absurd (omega arith)
foreach-find_from l head test (suc fuel) p [] c out f = rw (c.0, ==_refl)
foreach-find_from l head test (suc fuel) p (x ∷ xs) c out f =
    rw c.0 (ground (arith, foreach-find_from l head test fuel x xs c.2))

-- With more rounds than the list has nodes, a `dlist_foreach` loop stops, at the first node of
-- the list that passes the test or, if none does, at the head.
pub foreach-find :
    (l : Links) (head : ℕ) (test : ℕ → Bool) (fuel : ℕ) (xs : List ℕ)
    → IsRing l head xs
    → length xs < fuel
    → dlist_foreach l head test fuel (l.next head) ≡ some (find test xs)
foreach-find l head test fuel xs r f =
    foreach-find_from l head test fuel head xs r.chain r.distinct.0 f

-- A loop over the other nodes of a node that is linked to itself ends at once.
pub foreach_self :
    (l : Links) (e : ℕ) (test : ℕ → Bool) (fuel : ℕ)
    → l.next e ≡ e
    → dlist_foreach l e test (suc fuel) (l.next e) ≡ some none
unfolding dlist_foreach
foreach_self l e test fuel h = rw (h, ==_refl)

abbrev pub run_all {ℓ} : {S : Type ℓ} → (ℕ → S → S) → List ℕ → S → S
run_all body [] s = s
run_all body (x ∷ xs) s = run_all body xs (body x s)

module _ {ℓ} {S : Type ℓ} (links : S → Links) (body : ℕ → S → S)
    (unlinks : (x : ℕ) (s : S) → links (body x s) ≡ dlist_del x (links s)) (head : ℕ) where
  foreach_safe_from :
      (fuel pos n : ℕ) (xs : List ℕ) (s : S)
      → IsRing (links s) head xs
      → pos ≡ (links s).next head
      → n ≡ (links s).next pos
      → length xs < fuel
      → dlist_foreach_safe links head body fuel pos n s ≡ some (run_all body xs s)
  unfolding dlist_foreach_safe
  foreach_safe_from zero pos n xs s r p q f = absurd (omega arith)
  foreach_safe_from (suc fuel) pos n [] s r p q f = rw (p, r.chain.0, ==_refl)
  foreach_safe_from (suc fuel) pos n (x ∷ xs) s r p q f =
      let after : IsRing (links (body x s)) head xs =
        rw (unlinks x s) (del-IsRing (links s) head [] x xs r).0 in
      let e : pos ≡ x = p ∙ r.chain.0 in
      let step : n ≡ (links (body x s)).next head =
        q
        ∙ ap (links s).next e
        ∙ next-first (links s) x xs head r.chain.2
        ∙ sym (next-first (links (body x s)) head xs head after.chain) in
      let ih =
        foreach_safe_from fuel n ((links (body x s)).next n) xs (body x s) after step refl
          (omega arith) in
      rw e (ground (arith, ih))

  empties :
      (xs : List ℕ) (s : S) → IsRing (links s) head xs → IsRing (links (run_all body xs s)) head []
  empties [] s r = r
  empties (x ∷ xs) s r =
      empties xs (body x s) (rw (unlinks x s) (del-IsRing (links s) head [] x xs r).0)

  -- A `dlist_foreach_safe` loop whose body deletes the node that it is given runs its body once
  -- on each node, in order, and empties the list.
  pub foreach_safe-run_all :
      (fuel : ℕ) (xs : List ℕ) (s : S)
      → IsRing (links s) head xs
      → length xs < fuel
      → (dlist_foreach_safe links head body fuel
            ((links s).next head)
            ((links s).next ((links s).next head))
            s
          ≡ some (run_all body xs s))
        × IsRing (links (run_all body xs s)) head []
  foreach_safe-run_all fuel xs s r f =
      (foreach_safe_from fuel _ _ xs s r refl refl f, empties xs s r)
