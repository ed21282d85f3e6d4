-- ===== src/Dlist/Ring.antt =====
-- What a circular list is, and that insertion at the tail and deletion act on it as on a list.
use i_free_chat.Base.{
  ℕ, ◌≡◌, refl, ◌∙◌, true, false, List, [], ◌∷◌, ◌++◌, arith, ◌==◌, if◌then◌else◌, has, Distinct,
  has-append,
}
use i_free_chat.Dlist.{
  Links, dlist_insert, dlist_add_tail, dlist_unlink, dlist_del, init_dlist_node,
}

-- From `p` the `next` fields lead through `xs` to `q`, and the `prev` fields lead back.
abbrev pub Chain : Links → ℕ → List ℕ → ℕ → Type 0
Chain l p [] q = (l.next p ≡ q) × (l.prev q ≡ p)
Chain l p (x ∷ xs) q = (l.next p ≡ x) × (l.prev x ≡ p) × Chain l x xs q

-- The list whose head is the node `head` holds the nodes `xs`, in order.
pub record IsRing (l : Links) (head : ℕ) (xs : List ℕ) : Type 0 where
  pub chain : Chain l head xs head
  pub distinct : Distinct (head ∷ xs)

Chain-frame :
    (l g : Links) (p : ℕ) (xs : List ℕ) (q : ℕ)
    → Chain l p xs q
    → ((a : ℕ) → has a (p ∷ xs) ≡ true → g.next a ≡ l.next a)
    → ((a : ℕ) → has a (q ∷ xs) ≡ true → g.prev a ≡ l.prev a)
    → Chain g p xs q
Chain-frame l g p [] q c hn hp = (hn p (ground arith) ∙ c.0, hp q (ground arith) ∙ c.1)
Chain-frame l g p (x ∷ xs) q c hn hp = (
  hn p (ground arith) ∙ c.0,
  hp x (ground arith) ∙ c.1,
  Chain-frame l g x xs q c.2 (λ a h. hn a (ground arith)) (λ a h. hp a (ground arith)),
)

-- The node before `q`.
abbrev pub last : ℕ → List ℕ → ℕ
last p [] = p
last p (x ∷ xs) = last x xs

last_mem : (p : ℕ) (xs : List ℕ) → has (last p xs) (p ∷ xs) ≡ true
last_mem p [] = ground arith
last_mem p (x ∷ xs) = ground (arith, last_mem x xs)

pub prev-last : (l : Links) (p : ℕ) (xs : List ℕ) (q : ℕ) → Chain l p xs q → l.prev q ≡ last p xs
prev-last l p [] q c = c.1
prev-last l p (x ∷ xs) q c = prev-last l x xs q c.2

insert-Chain :
    (l : Links) (node p : ℕ) (xs : List ℕ) (q : ℕ)
    → Chain l p xs q
    → has node (q ∷ p ∷ xs) ≡ false
    → has q xs ≡ false
    → Distinct (p ∷ xs)
    → Chain (dlist_insert node (last p xs) q l) p (xs ++ node ∷ []) q
unfolding dlist_insert
insert-Chain l node p [] q c out hq d = ground arith
insert-Chain l node p (x ∷ xs) q c out hq d = (
  ground (arith, last_mem x xs),
  ground arith,
  insert-Chain l node x xs q c.2 (ground arith) (ground arith) d.1,
)

Distinct-snoc : (xs : List ℕ) (a : ℕ) → Distinct xs → has a xs ≡ false → Distinct (xs ++ a ∷ [])
Distinct-snoc [] a d h = (refl, tt)
Distinct-snoc (x ∷ xs) a d h =
    (ground (arith, has-append x xs (a ∷ [])), Distinct-snoc xs a d.1 (ground arith))

-- `dlist_add_tail` puts a node that is not in the list at its end, and keeps the rest in order.
pub add_tail-IsRing :
    (l : Links) (node head : ℕ) (xs : List ℕ)
    → IsRing l head xs
    → has node (head ∷ xs) ≡ false
    → IsRing (dlist_add_tail node head l) head (xs ++ node ∷ [])
unfolding dlist_add_tail
add_tail-IsRing l node head xs r out = record {
  chain =
      rw (prev-last l head xs head r.chain)
        (insert-Chain l node head xs head r.chain (ground arith) r.distinct.0 r.distinct);
  distinct = Distinct-snoc (head ∷ xs) node r.distinct out;
}

-- The first node behind the one that heads `ys`.
abbrev pub first : List ℕ → ℕ → ℕ
first [] q = q
first (y ∷ ys) q = y

Chain-split :
    (l : Links) (p : ℕ) (xs : List ℕ) (node : ℕ) (ys : List ℕ) (q : ℕ)
    → Chain l p (xs ++ node ∷ ys) q
    → Chain l p xs node × Chain l node ys q
Chain-split l p [] node ys q c = ((c.0, c.1), c.2)
Chain-split l p (x ∷ xs) node ys q c =
    let (a, b) = Chain-split l x xs node ys q c.2 in ((c.0, c.1, a), b)

pub next-first : (l : Links) (p : ℕ) (xs : List ℕ) (q : ℕ) → Chain l p xs q → l.next p ≡ first xs q
next-first l p [] q c = c.0
next-first l p (x ∷ xs) q c = c.0

has_middle :
    (a : ℕ) (xs : List ℕ) (node : ℕ) (ys : List ℕ)
    → has a (xs ++ node ∷ ys) ≡ has a (node ∷ xs ++ ys)
has_middle a xs node ys = ground (arith, has-append a xs (node ∷ ys), has-append a xs ys)

pub Distinct-middle :
    (xs : List ℕ) (node : ℕ) (ys : List ℕ) → Distinct (xs ++ node ∷ ys) → Distinct (node ∷ xs ++ ys)
Distinct-middle [] node ys d = d
Distinct-middle (x ∷ xs) node ys d =
    let ih = Distinct-middle xs node ys d.1 in ground (arith, has_middle x xs node ys, ih)

first_apart :
    (p x : ℕ) (xs ys : List ℕ) (q : ℕ)
    → Distinct (p ∷ x ∷ xs ++ ys)
    → has q (x ∷ xs ++ ys) ≡ false
    → (first ys q == x) ≡ false
first_apart p x xs [] q d hq = ground arith
first_apart p x xs (y ∷ ys) q d hq = ground (arith, has-append x xs (y ∷ ys))

ne_of_has : (a n : ℕ) (xs : List ℕ) → has a xs ≡ true → has n xs ≡ false → (n == a) ≡ false
ne_of_has a n [] h k = cc
ne_of_has a n (x ∷ xs) h k = ground (arith, ne_of_has a n xs)

-- `dlist_unlink` joins what stands before a node to what stands behind it.
unlink-Chain :
    (l : Links) (p : ℕ) (xs : List ℕ) (node : ℕ) (ys : List ℕ) (q : ℕ)
    → Chain l p xs node
    → Chain l node ys q
    → Distinct (p ∷ xs ++ ys)
    → has q (xs ++ ys) ≡ false
    → Chain (dlist_unlink (last p xs) (first ys q) l) p (xs ++ ys) q
unfolding dlist_unlink
unlink-Chain l p [] node [] q c e d hq = ground arith
unlink-Chain l p [] node (y ∷ ys) q c e d hq = (
  ground arith,
  ground arith,
  Chain-frame l _ y ys q e.2 (λ a h. ground arith) (λ a h. ground arith),
)
unlink-Chain l p (x ∷ xs) node ys q c e d hq = (
  ground (arith, last_mem x xs, has-append p xs ys),
  (ground (arith, first_apart p x xs ys q d hq)) ∙ c.1,
  unlink-Chain l x xs node ys q c.2 e d.1 (ground arith),
)

-- `dlist_del` takes a node out of the list it is in, keeps the others in order, and leaves the
-- node linked to itself.
pub del-IsRing :
    (l : Links) (head : ℕ) (xs : List ℕ) (node : ℕ) (ys : List ℕ)
    → IsRing l head (xs ++ node ∷ ys)
    → IsRing (dlist_del node l) head (xs ++ ys) × IsRing (dlist_del node l) node []
unfolding dlist_del dlist_unlink
del-IsRing l head xs node ys r =
    let (before, behind) = Chain-split l head xs node ys head r.chain in
    let d = Distinct-middle (head ∷ xs) node ys r.distinct in
    let joined : Chain (dlist_unlink (l.prev node) (l.next node) l) head (xs ++ ys) head =
      rw (prev-last l head xs node before, next-first l node ys head behind)
        (unlink-Chain l head xs node ys head before behind d.1 d.1.0) in
    (
      record {
        chain =
            Chain-frame _ _ head (xs ++ ys) head joined
              (λ a h. rw (ne_of_has a node (head ∷ xs ++ ys) h d.0))
              (λ a h. rw (ne_of_has a node (head ∷ xs ++ ys) h d.0));
        distinct = d.1;
      },
      record { chain = ground arith; distinct = (refl, tt) },
    )

-- A fresh node that is added behind itself stays linked to itself, and no other node changes.
pub add_tail_self :
    (l : Links) (e a : ℕ)
    → (dlist_add_tail e e (init_dlist_node e l)).next a ≡ (if e == a then e else l.next a)
unfolding dlist_add_tail init_dlist_node
add_tail_self l e a = ground arith

-- A node that is initialised heads an empty list.
pub init-IsRing : (node : ℕ) (l : Links) → IsRing (init_dlist_node node l) node []
unfolding init_dlist_node
init-IsRing node l = record { chain = ground arith; distinct = (refl, tt) }

-- Initialising a node that is not in a list leaves the list alone.
pub init_apart-IsRing :
    (l : Links) (node head : ℕ) (xs : List ℕ)
    → IsRing l head xs
    → has node (head ∷ xs) ≡ false
    → IsRing (init_dlist_node node l) head xs
unfolding init_dlist_node
init_apart-IsRing l node head xs r out = record {
  chain =
      Chain-frame l _ head xs head r.chain (λ a h. rw (ne_of_has a node (head ∷ xs) h out))
        (λ a h. rw (ne_of_has a node (head ∷ xs) h out));
  distinct = r.distinct;
}
