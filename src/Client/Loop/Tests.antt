-- ===== src/Client/Loop/Tests.antt =====
-- A greeting from a known user arrives.
use i_free_chat.Base.{
  ℕ, zero, suc, ◌≤◌, ◌≡◌, refl, ap, ◌∙◌, if◌then◌else◌, ◌≢◌, inl, inr, Bool, true, false, Option,
  none, some, List, [], ◌∷◌, ◌++◌, has, length, arith, get_or, All,
}
use i_free_chat.Base.Memory.{
  Memory, store32, store_bytes, str_at, str_at-store_bytes, store32_apart,
}
use i_free_chat.Text.{Bytes, codes}
use i_free_chat.Address.{ip2str, has-ip2str}
use i_free_chat.Dlist.{Links, init_dlist_node}
use i_free_chat.Dlist.Ring.{IsRing, init-IsRing}
use i_free_chat.MemPool.{ret, Pool, pool_alloc}
use i_free_chat.Queue.{Queue}
use i_free_chat.Queue.Refine.{Holds}
use i_free_chat.Queue.MsgQueue.{MsgQueue}
use i_free_chat.Hash.Key.{key_str, key_eq_refl, Stored-frame}
use i_free_chat.Hash.Table.{Hash}
use i_free_chat.Hash.Table.View.{View, Represents, hash_find-view_find}
use i_free_chat.Registry.{UserEntry, Heap, Registry, Mallocs}
use i_free_chat.Registry.User.{user_find_entry}
use i_free_chat.Feiq.{Packet, Msg, field, data_at}
use i_free_chat.Feiq.Exchange.{sent_text}
use i_free_chat.Feiq.Parse.{feiq_parse_packet}
use i_free_chat.Protocol.{Protocol}
use i_free_chat.Client.{Client, alert}
use i_free_chat.Client.Callbacks.{on_pchat_callback}
use i_free_chat.Client.Loop.{feiq_handle, Round, null, next, process_message}
use i_free_chat.Client.Loop.Delivery.{sent-kept}

abbrev all_valid : Bytes → Bool
all_valid s = true

abbrev no_convert : Bytes → Option Bytes
no_convert s = none

abbrev protocol_a : Protocol Client
protocol_a = record {
  names = λ a. 0;
  build_func = none;
  parse_func = some feiq_parse_packet;
  handle_func = some (feiq_handle all_valid no_convert);
  callbacks = record {
    on_entry = none;
    on_exit = none;
    on_pchat = some (on_pchat_callback 1);
    on_gchat = none;
    on_sendcheck = none;
  };
}

abbrev mac_a : Bytes
mac_a = codes "0a1b"

abbrev ip_a : ℕ
ip_a = 3232235786

abbrev payload_a : Bytes
payload_a = sent_text 4 mac_a 9 (codes "ann") (codes "pc") (codes "hello")

abbrev packet_a : Packet
packet_a = record {
  addr = 100;
  mtime = 1;
  ip = ip_a;
  port = 2425;
  size = length payload_a;
  payload = payload_a;
}

abbrev address_a : Memory
address_a = store_bytes 9100 (ip2str ip_a ++ 0 ∷ []) (λ a. 0)

abbrev pool_a : Pool
pool_a = record {
  size = 2000;
  quantum = 4;
  chunks = record { start = 3000; free = 2000; bound = 0 } ∷ [];
  locked = false;
  mem = address_a;
}

abbrev pool_1 : Pool
pool_1 = record pool_a {
  chunks = record { start = 3000; free = 660; bound = 0 } ∷ [];
  mem = store32 3660 1340 address_a;
}

message_made : pool_alloc 1 6000 1336 pool_a ≡ ret (3664, pool_1)
unfolding pool_alloc
message_made = refl

abbrev links_a : Links
links_a = record { prev = λ a. a; next = λ a. a }

abbrev slots_a : List ℕ
slots_a = 9000 ∷ 9000 ∷ 9000 ∷ 9000 ∷ []

-- Every bucket holds `v` under the address.
abbrev hash_of : ℕ → Hash
hash_of v = record {
  addr = 320;
  hash_entry = slots_a;
  hash_size = 3;
  entries = λ e. record { key = 9100; val = v };
  links = links_a;
}

abbrev registry_of : ℕ → Registry
registry_of v = record { addr = 300; hash = hash_of v }

abbrev user_a : UserEntry
user_a = record {
  nickname = codes "ann";
  username = codes "ann";
  hostname = codes "box";
  avatar = codes "a.bmp";
  ipaddr = [];
  macaddr = codes "00";
  signature = codes " ";
  category = codes "work";
  encoding = codes "GBK";
  pos = 0;
  category_entry = 0;
  chatbox = 0;
}

abbrev heap_a : Heap
heap_a = record {
  pool = pool_a;
  users = λ u. user_a;
  unodes = links_a;
  categories = λ c. record { name = []; count = 0; pos = 0 };
  cnodes = links_a;
  groups = λ g. record { group_name = 0; group_info = 0; group_id = 0 };
  gnodes = links_a;
  members = λ m. 0;
  mnodes = links_a;
}

abbrev queue_1 : Queue
queue_1 = record { addr = 100; entry = none ∷ some 7000 ∷ none ∷ []; size = 3; head = 1; tail = 2 }

queue_1-Holds : Holds queue_1 (7000 ∷ [])
queue_1-Holds = record {
  slots = refl;
  small = omega arith;
  head_in = omega arith;
  tail_in = omega arith;
  room = omega arith;
  segment = (refl, refl);
}

abbrev queue_a : MsgQueue
queue_a = record { addr = 90; que = some queue_1 }

abbrev msg_a : Msg
msg_a = record {
  addr = 5000;
  data_size = 0;
  mtime = 0;
  command = 1;
  packet_id = 0;
  port = 0;
  avatar_id = 0;
  gpmsg_size = 0;
  gpid = 0;
  text = λ a. 0;
  user_data = 0;
  prev = 0;
  next = 0;
}

abbrev client_a : Client
client_a = record {
  nickname = [];
  username = [];
  hostname = [];
  category = [];
  avatar_id = 0;
  macaddr = [];
  port = 0;
  heap = heap_a;
  usock = record { addr = 0; fd = 3; shutdown = false; recv_que = queue_a; send_que = queue_a };
  clist = registry_of 800;
  glist = registry_of 0;
  ulist = registry_of 700;
  treeview = false;
  events = [];
  mlist = 60;
  mnodes = init_dlist_node 60 links_a;
  msgs = λ a. msg_a;
  shutdown = false;
}

abbrev one : Mallocs
one = record { chunk = 1; block = 6000 }

abbrev round_a : Round
round_a = record { batches = []; shutdown = false; mallocs = one; blank = msg_a; pool = null }

abbrev view_a : View key_str
view_a i = some (ip2str ip_a, 700)

bucket : (i : ℕ) → i ≤ 3 → get_or slots_a i 0 ≡ 9000
bucket zero h = refl
bucket (suc zero) h = refl
bucket (suc (suc zero)) h = refl
bucket (suc (suc (suc zero))) h = refl
bucket (suc (suc (suc (suc i)))) h = absurd (omega arith)

not_zeros : (s : List ℕ) → has 0 s ≡ false → All (λ c. c ≢ 0) s
not_zeros [] h = tt
not_zeros (c ∷ s) h = (ground arith, not_zeros s (ground arith))

stored_a : str_at pool_1.mem 9100 (ip2str ip_a) ≡ true
stored_a =
    Stored-frame key_str (ip2str ip_a) 9100 address_a pool_1.mem
      (λ b lo hi. store32_apart 3660 1340 b address_a (inr (omega arith)))
      (str_at-store_bytes 9100 (ip2str ip_a) (λ a. 0))

holds : Represents key_str pool_1 (hash_of 700) view_a
holds = record {
  slots = refl;
  each = λ i h. rw (bucket i h) (
    omega arith,
    refl,
    refl,
    not_zeros (ip2str ip_a) (has-ip2str ip_a),
    stored_a,
    inl (omega arith),
  );
}

user_found :
    user_find_entry 1 (registry_of 700) (ip2str ip_a) (record heap_a { pool = pool_1 })
    ≡ some (some 700)
unfolding user_find_entry
user_found =
    hash_find-view_find key_str pool_1 (hash_of 700) view_a (ip2str ip_a) 0 holds
      (not_zeros (ip2str ip_a) (has-ip2str ip_a))
    ∙ ap (λ (b : Bool). some (if b then some 700 else none)) (key_eq_refl key_str (ip2str ip_a))

abbrev packets_a : ℕ → Packet
packets_a a = packet_a

sent-kept_example :
    (d : Client) × (q' : Queue) × (process_message protocol_a packets_a round_a client_a
      ≡ ret (next d))
    × IsRing d.mnodes d.mlist ([] ++ 3664 ∷ [])
    × ((d.msgs 3664).user_data ≡ 700)
    × (field data_at (d.msgs 3664) ≡ codes "hello")
    × (d.events ≡ [] ++ alert ∷ [])
    × (d.usock.recv_que.que ≡ some q')
    × Holds q' []
sent-kept_example =
    sent-kept all_valid no_convert protocol_a packets_a 1 refl refl refl round_a client_a 3664 7000
      pool_1 700 mac_a 4 9 (codes "ann") (codes "pc") (codes "hello") queue_1 [] [] refl refl
      message_made (omega arith) (omega arith) refl refl (refl, refl, refl, refl) (omega arith)
      (omega arith) (refl, refl) (refl, refl) (omega arith) (omega arith) (omega arith)
      (omega arith) refl refl user_found refl refl queue_1-Holds (init-IsRing 60 links_a) refl
