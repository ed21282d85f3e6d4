-- ===== src/Client/Callbacks/Tests.antt =====
-- A client whose tables hold one category and one user, both under the empty text.
use i_free_chat.Base.{
  ℕ, zero, suc, ◌≤◌, ◌≡◌, refl, sym, ap, ◌∙◌, true, false, none, some, List, [], ◌∷◌, ◌==◌,
  if◌then◌else◌, has, arith, get_or,
}
use i_free_chat.Text.{codes}
use i_free_chat.Base.Memory.{str_at}
use i_free_chat.Dlist.{Links}
use i_free_chat.MemPool.{Outcome, ret, deadlock, Pool, pool_alloc}
use i_free_chat.MemPool.Alloc.{pool_alloc_locked}
use i_free_chat.Queue.MsgQueue.{MsgQueue}
use i_free_chat.Hash.Key.{key_str}
use i_free_chat.Hash.Table.{Hash, hash_find}
use i_free_chat.Hash.Table.View.{View, Slot, Represents, hash_find-view_find}
use i_free_chat.Registry.{UserEntry, Heap, Registry, Mallocs}
use i_free_chat.Registry.User.{new_user_entry, user_find_entry}
use i_free_chat.Registry.Category.{new_category_entry, category_find_entry}
use i_free_chat.Feiq.{Msg, field, category_at, ip_at, c_str}
use i_free_chat.Client.{Client}
use i_free_chat.Client.Views.{add_user_to_treeview}
use i_free_chat.Client.Callbacks.{
  EntryMallocs, on_entry_callback, entry_category, enter_known, change_category, no_category,
  user_of,
}
use i_free_chat.Client.Callbacks.Counts.{IsCounted, users_in}
use i_free_chat.Client.Callbacks.Entry.{Counted, on_entry-Counted}

abbrev pool_a : Pool
pool_a = record { size = 64; quantum = 4; chunks = []; locked = true; mem = λ a. 0 }

abbrev links_a : Links
links_a = record { prev = λ a. a; next = λ a. a }

abbrev slots_a : List ℕ
slots_a = 9000 ∷ 9000 ∷ 9000 ∷ 9000 ∷ []

-- Every bucket holds `v` under the empty text.
abbrev hash_of : ℕ → Hash
hash_of v = record {
  addr = 320;
  hash_entry = slots_a;
  hash_size = 3;
  entries = λ e. record { key = 2000; val = v };
  links = links_a;
}

abbrev registry_of : ℕ → Registry
registry_of v = record { addr = 300; hash = hash_of v }

abbrev user_a : UserEntry
user_a = record {
  nickname = codes "ann";
  username = codes "ann";
  hostname = codes "box";
  avatar = codes "a.bmp";
  ipaddr = [];
  macaddr = codes "00";
  signature = codes " ";
  category = codes "work";
  encoding = codes "GBK";
  pos = 0;
  category_entry = 801;
  chatbox = 0;
}

abbrev heap_a : Heap
heap_a = record {
  pool = pool_a;
  users = λ u. user_a;
  unodes = links_a;
  categories = λ c. record { name = []; count = if 801 == c then 1 else 0; pos = 0 };
  cnodes = links_a;
  groups = λ g. record { group_name = 0; group_info = 0; group_id = 0 };
  gnodes = links_a;
  members = λ m. 0;
  mnodes = links_a;
}

abbrev queue_a : MsgQueue
queue_a = record { addr = 0; que = none }

abbrev msg_a : Msg
msg_a = record {
  addr = 5000;
  data_size = 0;
  mtime = 0;
  command = 1;
  packet_id = 0;
  port = 0;
  avatar_id = 0;
  gpmsg_size = 0;
  gpid = 0;
  text = λ a. 0;
  user_data = 0;
  prev = 0;
  next = 0;
}

abbrev client_a : Client
client_a = record {
  nickname = [];
  username = [];
  hostname = [];
  category = [];
  avatar_id = 0;
  macaddr = [];
  port = 0;
  heap = heap_a;
  usock = record { addr = 0; fd = 3; shutdown = false; recv_que = queue_a; send_que = queue_a };
  clist = registry_of 800;
  glist = registry_of 0;
  ulist = registry_of 700;
  treeview = false;
  events = [];
  mlist = 60;
  mnodes = links_a;
  msgs = λ a. msg_a;
  shutdown = false;
}

abbrev one : Mallocs
one = record { chunk = 1; block = 6000 }

abbrev mallocs_a : EntryMallocs
mallocs_a = record {
  cat = one;
  cat_key = one;
  cat_entry = 9500;
  cat_row = one;
  user = one;
  user_key = one;
  user_entry = 9600;
  parent_row = one;
  user_row = one;
}

abbrev view_of : ℕ → View key_str
view_of v i = some ([], v)

bucket : (i : ℕ) → i ≤ 3 → get_or slots_a i 0 ≡ 9000
bucket zero h = refl
bucket (suc zero) h = refl
bucket (suc (suc zero)) h = refl
bucket (suc (suc (suc zero))) h = refl
bucket (suc (suc (suc (suc i)))) h = absurd (omega arith)

bucket-Slot :
    (v i : ℕ) → i ≤ 3 → Slot key_str pool_a (hash_of v) (get_or slots_a i 0) (some ([], v))
unfolding str_at
bucket-Slot v i h = rw (bucket i h) (omega arith, refl, refl, tt, refl, tt)

holds : (v : ℕ) → Represents key_str pool_a (hash_of v) (view_of v)
holds v = record { slots = refl; each = bucket-Slot v }

found : (v : ℕ) → hash_find key_str 1 (hash_of v) pool_a.mem [] ≡ some (some v)
found v = hash_find-view_find key_str pool_a (hash_of v) (view_of v) [] 0 (holds v) tt

empty_field : (a : ℕ) → field a msg_a ≡ []
unfolding field c_str
empty_field a = refl

category_found :
    category_find_entry 1 (registry_of 800) (field category_at msg_a) heap_a ≡ some (some 800)
unfolding category_find_entry
category_found = rw (empty_field category_at) (found 800)

user_found : user_find_entry 1 (registry_of 700) (field ip_at msg_a) heap_a ≡ some (some 700)
unfolding user_find_entry
user_found = rw (empty_field ip_at) (found 700)

entry_a : entry_category 16 1 mallocs_a msg_a client_a ≡ ret (800, client_a)
unfolding entry_category
entry_a = rw category_found refl

abbrev moved_a : Client
moved_a = record client_a { heap = change_category msg_a 800 700 heap_a }

known_a : enter_known 16 1 mallocs_a msg_a 800 700 client_a ≡ ret moved_a
unfolding enter_known no_category add_user_to_treeview
known_a = rw (empty_field category_at) refl

shown_a : on_entry_callback 16 1 mallocs_a msg_a client_a ≡ ret moved_a
unfolding on_entry_callback
shown_a = rw (entry_a, user_found) known_a

heap_a-IsCounted : IsCounted heap_a (700 ∷ [])
heap_a-IsCounted = record { each = λ e. ground arith }

ret_inj :
    (x y : ℕ) (c d : Client) → ◌≡◌ {A = Outcome (ℕ × Client)} (ret (x, c)) (ret (y, d)) → c ≡ d
ret_inj x y c d e = cc

unused_a :
    (cat : ℕ) (h : Heap)
    → new_category_entry one (field category_at msg_a) heap_a ≡ ret (cat, h)
    → users_in heap_a.users cat (700 ∷ []) ≡ 0
unfolding new_category_entry
unused_a cat h e = absurd (ground (arith, pool_alloc_locked 1 6000 152 pool_a refl))

locked_a : (size : ℕ) → pool_alloc 1 6000 size pool_a ≡ deadlock
locked_a size = pool_alloc_locked 1 6000 size pool_a refl

user_waits : new_user_entry one (user_of msg_a) heap_a ≡ deadlock
unfolding new_user_entry
user_waits = rw (locked_a _) refl

no_user :
    (c : Client) (user : ℕ) (h : Heap)
    → client_a ≡ c
    → new_user_entry one (user_of msg_a) c.heap ≡ ret (user, h)
    → has user (700 ∷ []) ≡ false
no_user c user h e n =
    let w : new_user_entry one (user_of msg_a) c.heap ≡ deadlock =
      ap (λ (d : Client). new_user_entry one (user_of msg_a) d.heap) (sym e) ∙ user_waits in
    absurd (cc)

one_user :
    (c : Client) (user : ℕ)
    → client_a ≡ c
    → user_find_entry 1 c.ulist (field ip_at msg_a) c.heap ≡ some (some user)
    → has user (700 ∷ []) ≡ true
one_user c user e f =
    let g : user_find_entry 1 c.ulist (field ip_at msg_a) c.heap ≡ some (some 700) =
      ap (λ (d : Client). user_find_entry 1 d.ulist (field ip_at msg_a) d.heap) (sym e)
      ∙ user_found in
    let same : user ≡ 700 = cc in ground arith

on_entry-Counted_example : Counted 16 1 mallocs_a msg_a (700 ∷ []) client_a moved_a
on_entry-Counted_example =
    on_entry-Counted 16 1 mallocs_a msg_a (700 ∷ []) client_a heap_a-IsCounted (refl, tt) unused_a
      (λ c cat user h e n. no_user c user h (ret_inj 800 cat client_a c (sym entry_a ∙ e)) n)
      (λ c cat user e f. one_user c user (ret_inj 800 cat client_a c (sym entry_a ∙ e)) f) moved_a
      shown_a
