-- ===== src/Client/Callbacks.antt =====
-- ifc/src/handle_message.c: what is done with the messages that the protocol hands over.
pub mod Counts
pub mod Entry
mod Tests
use i_free_chat.Base.{
  ℕ, ◌+◌, ◌-◌, ◌%◌, ◌^◌, Bool, true, false, ◌&&◌, Option, none, some, List, [], ◌∷◌, ◌++◌, ltb, leb,
  ◌==◌, if◌then◌else◌, not, length, update, str_eq,
}
use i_free_chat.Text.{Bytes, codes}
use i_free_chat.MemPool.{Outcome, ret, deadlock, fault, ◌>>=◌, Pool}
use i_free_chat.Registry.{UserEntry, CategoryEntry, Heap, Registry, Mallocs}
use i_free_chat.Registry.User.{new_user_entry, user_add_entry, user_find_entry}
use i_free_chat.Registry.Category.{new_category_entry, category_insert_entry, category_find_entry}
use i_free_chat.Feiq.{
  Msg, Packet, field, strcpy_to, ip_at, macaddr_at, username_at, hostname_at, nickname_at,
  avatar_at, category_at, data_at,
}
use i_free_chat.Feiq.Build.{feiq_entry_broadcast_pkt}
use i_free_chat.Client.{Client, ended}
use i_free_chat.Socket.{UdpSocket, udp_send}
use i_free_chat.Client.Views.{add_category_to_treeview, add_user_to_treeview, insert_chat_msg}

-- What `malloc` returns for the allocations of an entry: `cat_entry` and `user_entry` for the
-- entries of the two tables, the others in the pool.
pub record EntryMallocs : Type 0 where
  pub cat : Mallocs
  pub cat_key : Mallocs
  pub cat_entry : ℕ
  pub cat_row : Mallocs
  pub user : Mallocs
  pub user_key : Mallocs
  pub user_entry : ℕ
  pub parent_row : Mallocs
  pub user_row : Mallocs

-- `entry->count += by`, by 1 or by 2 ^ 32 - 1
abbrev pub add_count : (by entry : ℕ) → Heap → Heap
add_count by e h = record h {
  categories =
      update h.categories e
        (record (h.categories e) { count = ((h.categories e).count + by) % 2 ^ 32 });
}

-- `user_entry->category_entry = cat`
abbrev pub set_category : (user cat : ℕ) → Heap → Heap
set_category u cat h = record h {
  users = update h.users u (record (h.users u) { category_entry = cat });
}

-- The strings that `new_user_entry` is given.
abbrev pub user_of : Msg → UserEntry
user_of m = record {
  nickname = field nickname_at m;
  username = field username_at m;
  hostname = field hostname_at m;
  avatar = field avatar_at m;
  ipaddr = field ip_at m;
  macaddr = field macaddr_at m;
  signature = codes " ";
  category = field category_at m;
  encoding = codes "GBK";
  pos = 0;
  category_entry = 0;
  chatbox = 0;
}

-- The change of category. The user's own `category` stays as it is.
pub change_category : Msg → (cat user : ℕ) → Heap → Heap
change_category m cat user h =
    if str_eq (field category_at m) (h.users user).category
    then h
    else set_category user cat
        (add_count 1 cat (add_count (2 ^ 32 - 1) (h.users user).category_entry h))

-- A category at NULL has no count to change.
no_category : Msg → (user : ℕ) → Heap → Bool
no_category m user h =
    not (str_eq (field category_at m) (h.users user).category) && (h.users user).category_entry == 0

module _ (iter_bytes fuel : ℕ) (a : EntryMallocs) where
  -- The category of the message, which is made where it is missing.
  pub entry_category : Msg → Client → Outcome (ℕ × Client)
  entry_category m c = do
    found ← ended (category_find_entry fuel c.clist (field category_at m) c.heap)
    elim found [
      | some cat ↦ ret (cat, c)
      | none ↦ do
        (cat, h) ← new_category_entry a.cat (field category_at m) c.heap
        (r, h) ← category_insert_entry a.cat_entry a.cat_key c.clist (field category_at m) cat h
        c ← add_category_to_treeview iter_bytes a.cat_row cat (record c { clist = r; heap = h })
        ret (cat, c)
    ]

  -- The branch for an address that finds nobody.
  pub enter_new : Msg → (cat : ℕ) → Client → Outcome Client
  enter_new m cat c = do
    (user, h) ← new_user_entry a.user (user_of m) c.heap
    (r, h) ←
        if user == 0
        then fault
        else user_add_entry a.user_entry a.user_key c.ulist user
            (add_count 1 cat (set_category user cat h))
    (shown, c) ←
        add_user_to_treeview iter_bytes a.parent_row a.user_row user
          (record c { ulist = r; heap = h })
    ret c

  pub enter_known : Msg → (cat user : ℕ) → Client → Outcome Client
  unfolding change_category no_category
  enter_known m cat user c = if no_category m user c.heap then fault else do
    (shown, c) ←
        add_user_to_treeview iter_bytes a.parent_row a.user_row user
          (record c { heap = change_category m cat user c.heap })
    ret c

  pub on_entry_callback : Msg → Client → Outcome Client
  unfolding entry_category enter_new enter_known
  on_entry_callback m c = do
    (cat, c) ← entry_category m c
    found ← ended (user_find_entry fuel c.ulist (field ip_at m) c.heap)
    elim found [ none ↦ enter_new m cat c | some user ↦ enter_known m cat user c ]

pub on_exit_callback : Msg → Client → Outcome Client
on_exit_callback m c = ret c

-- Without such a user the -1 is returned, and nothing changes.
unfoldable pub on_pchat_callback : (fuel : ℕ) → Msg → Client → Outcome Client
on_pchat_callback fuel m c = do
  found ← ended (user_find_entry fuel c.ulist (field ip_at m) c.heap)
  elim found [ none ↦ ret c | some user ↦ insert_chat_msg user m c ]

pub on_gchat_callback : Msg → Client → Outcome Client
on_gchat_callback m c = ret c

pub on_sendcheck_callback : Msg → Client → Outcome Client
on_sendcheck_callback m c = ret c

-- The pointer that goes into the queue.
abbrev packet_addr : Option Packet → ℕ
packet_addr none = 0
packet_addr (some k) = k.addr

-- `on_pcaht_send_callback` at the time `now`. `m` is the local message before it is filled, and
-- `build` is `protocol_build_packet`.
pub send_pchat :
    (build : Msg → Pool → Outcome (Option Packet × Pool)) (now : ℕ) (text : Bytes) (user : ℕ)
    → Msg
    → Client
    → Outcome (Option Packet × Client)
send_pchat build now text user m c = do
  m ← strcpy_to ip_at (c.heap.users user).ipaddr m
  m ← strcpy_to macaddr_at c.macaddr (record m { port = c.port })
  m ← strcpy_to username_at c.username m
  m ← strcpy_to hostname_at c.hostname m
  m ← strcpy_to data_at text m
  (k, p) ←
      build
        (record m {
          avatar_id = c.avatar_id;
          command = 0x120;
          packet_id = now % 2 ^ 32;
          data_size = length text + 1;
        })
        c.heap.pool
  s ← udp_send c.usock (packet_addr k)
  ret (k, record c { heap = record c.heap { pool = p }; usock = s })

-- `online_broadcast` of ifc/src/broadcast.c, at the time `now`.
pub online_broadcast : (chunk_ptr data_ptr now : ℕ) → Client → Outcome (Option Packet × Client)
online_broadcast chunk_ptr data_ptr now c = do
  (k, p) ←
      feiq_entry_broadcast_pkt chunk_ptr data_ptr now c.avatar_id c.macaddr (now % 2 ^ 32)
        c.username c.hostname c.nickname c.category c.heap.pool
  s ← udp_send c.usock (packet_addr k)
  ret (k, record c { heap = record c.heap { pool = p }; usock = s })
