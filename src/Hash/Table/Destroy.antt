-- ===== src/Hash/Table/Destroy.antt =====
-- `destroy_hash` of hash.c.
use i_free_chat.Base.{ℕ, ◌≢◌, Option, none, some, List, [], ◌∷◌, ◌==◌, if◌then◌else◌, take}
use i_free_chat.Dlist.{dlist_del, dlist_foreach_safe}
use i_free_chat.MemPool.{Outcome, ret, deadlock, fault, ◌>>=◌, Pool}
use i_free_chat.Hash.Table.{Hash, hash_entry_free}

-- The loop over a bucket deletes and releases the entries behind the first, and not the first.
destroy_entry : ℕ → Hash × Outcome Pool → Hash × Outcome Pool
unfolding hash_entry_free
destroy_entry e (h, o) =
    (record h { links = dlist_del e h.links }, o >>= (λ p. hash_entry_free e (h.entries e).key p))

destroy_slots : (fuel : ℕ) → List ℕ → Hash × Outcome Pool → Option (Hash × Outcome Pool)
unfolding destroy_entry
destroy_slots fuel [] s = some s
destroy_slots fuel (first ∷ slots) s =
    let links = (s.0).links in
    let pos = links.next first in
    let swept =
      dlist_foreach_safe (λ t. (t.0).links) first destroy_entry fuel pos (links.next pos) s in
    if first == 0
    then destroy_slots fuel slots s
    else elim swept [ none ↦ none | some s' ↦ destroy_slots fuel slots s' ]

-- At the end `free` is given the table's block, which comes from the pool: a fault, if the loop
-- returns.
free_table : Outcome Pool → Outcome Pool
free_table (ret p) = fault
free_table deadlock = deadlock
free_table fault = fault

end_of : Option (Hash × Outcome Pool) → Option (Outcome Pool)
unfolding free_table
end_of none = none
end_of (some (h, o)) = some (free_table o)

-- The loop leaves out the last slot.
pub destroy_hash : (fuel : ℕ) → Option Hash → Pool → Option (Outcome Pool)
unfolding destroy_slots end_of
destroy_hash fuel none p = some (ret p)
destroy_hash fuel (some h) p =
    end_of (destroy_slots fuel (take h.hash_size h.hash_entry) (h, ret p))

free_table-ret : (o : Outcome Pool) (r : Pool) → free_table o ≢ ret r
unfolding free_table
free_table-ret (ret q) r e = cc
free_table-ret deadlock r e = cc
free_table-ret fault r e = cc

end_of-ret : (s : Option (Hash × Outcome Pool)) (r : Pool) → end_of s ≢ some (ret r)
unfolding end_of
end_of-ret none r e = cc
end_of-ret (some (h, o)) r e = free_table-ret o r cc

-- `destroy_hash` of a table that is not NULL never returns, whatever the table and the pool hold.
pub destroy_hash_never_returns :
    (fuel : ℕ) (h : Hash) (p r : Pool) → destroy_hash fuel (some h) p ≢ some (ret r)
unfolding destroy_hash
destroy_hash_never_returns fuel h p r =
    end_of-ret (destroy_slots fuel (take h.hash_size h.hash_entry) (h, ret p)) r
