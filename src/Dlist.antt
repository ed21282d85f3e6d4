-- ===== src/Dlist.antt =====
-- ifc/include/dlist.h: circular doubly linked lists, as the two link fields of every node.
pub mod Ring
pub mod Loop
pub mod Round
mod Tests
use i_free_chat.Base.{
  ℕ, zero, suc, Bool, Option, none, some, List, [], ◌∷◌, ◌==◌, if◌then◌else◌, update,
}

-- `dlist_t` at every address.
pub record Links : Type 0 where
  pub prev : ℕ → ℕ
  pub next : ℕ → ℕ

-- `p->next = v` and `p->prev = v`
abbrev pub set_next : ℕ → ℕ → Links → Links
set_next p v l = record l { next = update l.next p v }

abbrev pub set_prev : ℕ → ℕ → Links → Links
set_prev p v l = record l { prev = update l.prev p v }

pub init_dlist_node : ℕ → Links → Links
init_dlist_node node l = set_prev node node (set_next node node l)

-- `__dlist_add`
unfoldable pub dlist_insert : (node prev next : ℕ) → Links → Links
dlist_insert node prev next l =
    set_next prev node (set_prev node prev (set_next node next (set_prev next node l)))

pub dlist_add : (node head : ℕ) → Links → Links
unfolding dlist_insert
dlist_add node head l = dlist_insert node head (l.next head) l

unfoldable pub dlist_add_tail : (node head : ℕ) → Links → Links
unfolding dlist_insert
dlist_add_tail node head l = dlist_insert node (l.prev head) head l

-- `__dlist_del`
pub dlist_unlink : (prev next : ℕ) → Links → Links
dlist_unlink prev next l = set_next prev next (set_prev next prev l)

pub dlist_del : ℕ → Links → Links
unfolding dlist_unlink
dlist_del node l =
    set_prev node node (set_next node node (dlist_unlink (l.prev node) (l.next node) l))

-- A `dlist_foreach` loop that returns at the first node that passes the test; `some none` is the
-- loop run to its end, `none` a loop that has not come back to the head when the fuel is used up.
pub dlist_foreach : Links → (head : ℕ) → (test : ℕ → Bool) → (fuel pos : ℕ) → Option (Option ℕ)
dlist_foreach l head test zero pos = none
dlist_foreach l head test (suc fuel) pos =
    let rest = dlist_foreach l head test fuel (l.next pos) in
    if pos == head then some none else if test pos then some (some pos) else rest

-- A `dlist_foreach_safe` loop over a state that the body changes: `n` is read before the body
-- runs, and `n->next` after it.
pub dlist_foreach_safe {ℓ} :
    {S : Type ℓ} → (S → Links) → (head : ℕ) → (body : ℕ → S → S) → (fuel pos n : ℕ) → S → Option S
dlist_foreach_safe links head body zero pos n s = none
dlist_foreach_safe links head body (suc fuel) pos n s =
    let s' = body pos s in
    let rest = dlist_foreach_safe links head body fuel n ((links s').next n) s' in
    if pos == head then some s else rest
