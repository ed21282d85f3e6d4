-- ===== src/Client/Samples.antt =====
-- A client with two waiting messages of one user, whose chat is not open, for the tests.
use i_free_chat.Base.{ℕ, refl, false, none, [], ◌∷◌}
use i_free_chat.Base.Memory.{store32}
use i_free_chat.Text.{codes}
use i_free_chat.Dlist.{Links, init_dlist_node, dlist_add_tail}
use i_free_chat.Dlist.Ring.{IsRing, init-IsRing, add_tail-IsRing}
use i_free_chat.MemPool.{poke, Pool}
use i_free_chat.Queue.MsgQueue.{MsgQueue}
use i_free_chat.Registry.{UserEntry, Heap, Registry, Mallocs}
use i_free_chat.Feiq.{Msg}
use i_free_chat.Client.{Client}

abbrev pub pool_a : Pool
pool_a = record {
  size = 200;
  quantum = 4;
  chunks = record { start = 1000; free = 200; bound = 0 } ∷ [];
  locked = false;
  mem = λ a. 0;
}

abbrev pub links_a : Links
links_a = record { prev = λ a. a; next = λ a. a }

abbrev pub registry_a : Registry
registry_a = record {
  addr = 300;
  hash = record {
    addr = 320;
    hash_entry = [];
    hash_size = 0;
    entries = λ e. record { key = 0; val = 0 };
    links = links_a;
  };
}

abbrev pub user_a : UserEntry
user_a = record {
  nickname = codes "ann";
  username = codes "ann";
  hostname = codes "box";
  avatar = codes "a.bmp";
  ipaddr = [];
  macaddr = codes "00";
  signature = codes " ";
  category = codes "work";
  encoding = codes "GBK";
  pos = 0;
  category_entry = 801;
  chatbox = 0;
}

abbrev pub heap_a : Heap
heap_a = record {
  pool = pool_a;
  users = λ u. user_a;
  unodes = links_a;
  categories = λ c. record { name = []; count = 0; pos = 0 };
  cnodes = links_a;
  groups = λ g. record { group_name = 0; group_info = 0; group_id = 0 };
  gnodes = links_a;
  members = λ m. 0;
  mnodes = links_a;
}

abbrev pub queue_a : MsgQueue
queue_a = record { addr = 0; que = none }

abbrev pub msg_a : Msg
msg_a = record {
  addr = 1104;
  data_size = 0;
  mtime = 0;
  command = 1;
  packet_id = 0;
  port = 0;
  avatar_id = 0;
  gpmsg_size = 0;
  gpid = 0;
  text = λ a. 0;
  user_data = 700;
  prev = 0;
  next = 0;
}

-- The messages at 1104 and 1120 wait.
abbrev pub nodes_a : Links
nodes_a = dlist_add_tail 1120 60 (dlist_add_tail 1104 60 (init_dlist_node 60 links_a))

pub nodes_a-IsRing : IsRing nodes_a 60 (1104 ∷ 1120 ∷ [])
nodes_a-IsRing =
    add_tail-IsRing (dlist_add_tail 1104 60 (init_dlist_node 60 links_a)) 1120 60 (1104 ∷ [])
      (add_tail-IsRing (init_dlist_node 60 links_a) 1104 60 [] (init-IsRing 60 links_a) refl) refl

abbrev pub client_a : Client
client_a = record {
  nickname = [];
  username = [];
  hostname = [];
  category = [];
  avatar_id = 0;
  macaddr = [];
  port = 0;
  heap = heap_a;
  usock = record { addr = 0; fd = 3; shutdown = false; recv_que = queue_a; send_que = queue_a };
  clist = registry_a;
  glist = registry_a;
  ulist = registry_a;
  treeview = false;
  events = [];
  mlist = 60;
  mnodes = nodes_a;
  msgs = λ a. msg_a;
  shutdown = false;
}

abbrev pub one : Mallocs
one = record { chunk = 1; block = 6000 }

abbrev pub pool_1 : Pool
pool_1 = record pool_a {
  chunks = record { start = 1000; free = 136; bound = 0 } ∷ [];
  mem = store32 1136 64 (λ a. 0);
}

-- With a chat whose window is at 7, and with the words of messages that are released.
abbrev pub opened_1 : Pool
opened_1 = poke 1140 7 pool_1

abbrev pub freed_2 : (addr : ℕ) → Pool
freed_2 a = record (poke a 0 opened_1) {
  chunks = record { start = 1000; free = 136; bound = 4 } ∷ [];
}

abbrev pub freed_3 : (addr next : ℕ) → Pool
freed_3 a b = record (poke b 0 (freed_2 a)) {
  chunks = record { start = 1000; free = 136; bound = 8 } ∷ [];
}
