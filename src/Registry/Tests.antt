-- ===== src/Registry/Tests.antt =====
-- A registry with an empty table of four buckets, and a group with one user.
use i_free_chat.Base.{
  ℕ, zero, suc, ◌≤◌, ◌≡◌, refl, false, none, some, List, [], ◌∷◌, ◌++◌, arith, update, get_or,
}
use i_free_chat.Text.{Bytes, codes}
use i_free_chat.Dlist.{Links, init_dlist_node}
use i_free_chat.Dlist.Ring.{init-IsRing}
use i_free_chat.MemPool.{ret, Pool}
use i_free_chat.MemPool.Alloc.{IsValid}
use i_free_chat.Hash.Key.{key_str}
use i_free_chat.Hash.Table.{Hash, hash_index}
use i_free_chat.Hash.Table.View.{View}
use i_free_chat.Hash.Table.Lookup.{IsReady, found_after}
use i_free_chat.Registry.{UserEntry, Heap, Registry}
use i_free_chat.Registry.User.{user_add_entry, user_find_entry}
use i_free_chat.Registry.User.Add.{IsUsers, user_add-find}

abbrev pool_a : Pool
pool_a = record { size = 64; quantum = 4; chunks = []; locked = false; mem = λ a. 0 }

pool_a-IsValid : IsValid pool_a
pool_a-IsValid = record { small = omega arith; each = tt; single = omega arith }

abbrev links_a : Links
links_a = record { prev = λ a. a; next = λ a. a }

abbrev hash_a : Hash
hash_a = record {
  addr = 320;
  hash_entry = 0 ∷ 0 ∷ 0 ∷ 0 ∷ [];
  hash_size = 3;
  entries = λ e. record { key = 0; val = 0 };
  links = links_a;
}

abbrev registry_a : Registry
registry_a = record { addr = 300; hash = hash_a }

abbrev user_at_10 : Bytes → UserEntry
user_at_10 ip = record {
  nickname = codes "ann";
  username = codes "ann";
  hostname = codes "box";
  avatar = codes "a.bmp";
  ipaddr = ip;
  macaddr = codes "00";
  signature = codes " ";
  category = codes "work";
  encoding = codes "GBK";
  pos = 0;
  category_entry = 0;
  chatbox = 0;
}

abbrev heap_a : Heap
heap_a = record {
  pool = pool_a;
  users = λ u. user_at_10 (codes "10.0.0.2");
  unodes = init_dlist_node 300 links_a;
  categories = λ c. record { name = []; count = 0; pos = 0 };
  cnodes = links_a;
  groups = λ g. record { group_name = 0; group_info = 0; group_id = 0 };
  gnodes = links_a;
  members = λ m. 0;
  mnodes = links_a;
}

abbrev empty_view : View key_str
empty_view i = none

abbrev slots_a : List ℕ
slots_a = 0 ∷ 0 ∷ 0 ∷ 0 ∷ []

bucket : (i : ℕ) → i ≤ 3 → get_or slots_a i 0 ≡ 0
bucket zero h = refl
bucket (suc zero) h = refl
bucket (suc (suc zero)) h = refl
bucket (suc (suc (suc zero))) h = refl
bucket (suc (suc (suc (suc i)))) h = absurd (omega arith)

hash_a-IsReady : IsReady key_str pool_a hash_a empty_view (codes "10.0.0.2") 9000 1 5000
hash_a-IsReady = record {
  table = record { slots = refl; each = λ i h. bucket i h };
  is_key = ground arith;
  entry_made = omega arith;
  valid = pool_a-IsValid;
  unlocked = refl;
  fits = omega arith;
  chunk_made = omega arith;
  fresh = record { not_null = omega arith; in_memory = omega arith; free_fits = omega arith };
  unused = λ i h. ground (arith, bucket i h);
  apart = λ i x w h e. absurd (ground arith);
}

user_add-find_example :
    (r' : Registry) × (h' : Heap) × (user_add_entry 9000
        (record { chunk = 1; block = 5000 })
        registry_a
        700
        heap_a
      ≡ ret (r', h'))
    × IsUsers r' h'
        (update empty_view
          (hash_index key_str hash_a (codes "10.0.0.2"))
          (some (codes "10.0.0.2", 700)))
        ([] ++ 700 ∷ [])
    × (user_find_entry 1 r' (codes "10.0.0.2") h'
        ≡ found_after key_str hash_a
            (codes "10.0.0.2")
            (codes "10.0.0.2")
            700
            (user_find_entry 1 registry_a (codes "10.0.0.2") heap_a))
user_add-find_example =
    user_add-find 9000 (record { chunk = 1; block = 5000 }) registry_a 700 heap_a empty_view []
      (codes "10.0.0.2") 0 hash_a-IsReady (init-IsRing 300 links_a) refl (ground arith)
