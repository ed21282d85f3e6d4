-- ===== src/Dlist/Tests.antt =====
-- Lists of two and three nodes.
use i_free_chat.Base.{ℕ, ◌≡◌, refl, ◌==◌, Bool, some, [], ◌∷◌, arith}
use i_free_chat.Dlist.{Links, init_dlist_node, dlist_add_tail, dlist_del, dlist_foreach_safe}
use i_free_chat.Dlist.Ring.{IsRing, init-IsRing, add_tail-IsRing, del-IsRing}
use i_free_chat.Dlist.Loop.{foreach_safe-run_all}

abbrev links_0 : Links
links_0 = init_dlist_node 10 (record { prev = λ a. 0; next = λ a. 0 })

abbrev links_2 : Links
links_2 = dlist_add_tail 30 10 (dlist_add_tail 20 10 links_0)

links_2-IsRing : IsRing links_2 10 (20 ∷ 30 ∷ [])
links_2-IsRing =
    add_tail-IsRing (dlist_add_tail 20 10 links_0) 30 10 (20 ∷ [])
      (add_tail-IsRing links_0 20 10 [] (init-IsRing 10 _) refl) refl

del-IsRing_example :
    IsRing (dlist_del 20 links_2) 10 (30 ∷ []) × IsRing (dlist_del 20 links_2) 20 []
del-IsRing_example = del-IsRing links_2 10 [] 20 (30 ∷ []) links_2-IsRing

abbrev is_30 : ℕ → Bool
is_30 a = a == 30

foreach_safe-run_all_example :
    (dlist_foreach_safe
        (λ l. l)
        10
        dlist_del
        3
        (links_2.next 10)
        (links_2.next (links_2.next 10))
        links_2
      ≡ some (dlist_del 30 (dlist_del 20 links_2)))
    × IsRing (dlist_del 30 (dlist_del 20 links_2)) 10 []
foreach_safe-run_all_example =
    foreach_safe-run_all (λ l. l) dlist_del (λ x l. refl) 10 3 (20 ∷ 30 ∷ []) links_2 links_2-IsRing
      (omega arith)
