-- ===== src/Registry/Group/Tests.antt =====
-- A group with no member, and with one.
use i_free_chat.Base.{◌≡◌, refl, true, false, some, [], ◌∷◌, ◌++◌, arith}
use i_free_chat.Base.Memory.{store32}
use i_free_chat.Text.{codes}
use i_free_chat.Dlist.{Links, init_dlist_node}
use i_free_chat.Dlist.Ring.{IsRing, init-IsRing}
use i_free_chat.MemPool.{ret, Pool, pool_alloc}
use i_free_chat.Registry.{UserEntry, Heap, Mallocs}
use i_free_chat.Registry.Group.{group_entry_add_user, group_entry_find_user}
use i_free_chat.Registry.Group.Members.{user_at, with_member, add_user-find_user}

abbrev pool_a : Pool
pool_a = record {
  size = 200;
  quantum = 4;
  chunks = record { start = 1000; free = 200; bound = 0 } ∷ [];
  locked = false;
  mem = λ a. 0;
}

abbrev links_a : Links
links_a = record { prev = λ a. a; next = λ a. a }

abbrev user_a : UserEntry
user_a = record {
  nickname = codes "ann";
  username = codes "ann";
  hostname = codes "box";
  avatar = codes "a.bmp";
  ipaddr = [];
  macaddr = codes "00";
  signature = codes " ";
  category = codes "work";
  encoding = codes "GBK";
  pos = 0;
  category_entry = 801;
  chatbox = 0;
}

abbrev heap_a : Heap
heap_a = record {
  pool = pool_a;
  users = λ u. user_a;
  unodes = links_a;
  categories = λ c. record { name = []; count = 0; pos = 0 };
  cnodes = links_a;
  groups = λ g. record { group_name = 0; group_info = 0; group_id = 0 };
  gnodes = links_a;
  members = λ m. 0;
  mnodes = init_dlist_node 500 links_a;
}

abbrev one : Mallocs
one = record { chunk = 1; block = 6000 }

abbrev pool_1 : Pool
pool_1 = record pool_a {
  chunks = record { start = 1000; free = 184; bound = 0 } ∷ [];
  mem = store32 1184 16 (λ a. 0);
}

member_made : pool_alloc 1 6000 12 pool_a ≡ ret (1188, pool_1)
unfolding pool_alloc
member_made = refl

add_user-find_user_example :
    (group_entry_add_user 3 one 500 700 heap_a
      ≡ some (ret (true, with_member 1188 500 700 pool_1 heap_a)))
    × IsRing (with_member 1188 500 700 pool_1 heap_a).mnodes 500 ([] ++ 1188 ∷ [])
    × (group_entry_find_user 3 500 (codes "10.0.0.2") (with_member 1188 500 700 pool_1 heap_a)
        ≡ some (user_at heap_a (codes "10.0.0.2") ([] ++ 700 ∷ [])))
add_user-find_user_example =
    add_user-find_user 3 one 500 700 1188 pool_1 (codes "10.0.0.2") heap_a []
      (init-IsRing 500 links_a) (omega arith) refl member_made (omega arith) refl
