-- ===== src/Older/Samples.antt =====
-- Small states of the older program.
use i_free_chat.Base.{ℕ, refl, true, [], ◌∷◌, ◌++◌}
use i_free_chat.Text.{Bytes, codes}
use i_free_chat.Dlist.{Links, dlist_add_tail}
use i_free_chat.Dlist.Ring.{IsRing, add_tail-IsRing}
use i_free_chat.Older.{MsgBlock, UserBlock, GroupBlock, CategoryBlock, Ifreechat}
use i_free_chat.Older.Users.{UserTexts}

-- Every node is linked to itself.
abbrev pub no_links : Links
no_links = record { prev = λ a. a; next = λ a. a }

pub no_links-IsRing : (head : ℕ) → IsRing no_links head []
no_links-IsRing head = record { chain = (refl, refl); distinct = (refl, tt) }

-- A list with one node.
abbrev pub one_link : (head node : ℕ) → Links
one_link head node = dlist_add_tail node head no_links

pub one_link-IsRing : IsRing (one_link 3 7) 3 (7 ∷ [])
one_link-IsRing = add_tail-IsRing no_links 7 3 [] (no_links-IsRing 3) refl

abbrev pub no_user : UserBlock
no_user = record {
  nickname = 0;
  username = 0;
  hostname = 0;
  avatar = 0;
  ipaddr = 0;
  macaddr = 0;
  signature = 0;
  category = 0;
  encoding = 0;
  bound = 0;
}

abbrev pub no_group : GroupBlock
no_group = record { group_name = 0; group_info = 0; group_id = 0; bound = 0 }

abbrev pub team : CategoryBlock
team = record { name = codes "team"; count = 2 }

-- A greeting that asks for a reply.
abbrev pub greeting : MsgBlock
greeting = record {
  gpid = 0;
  port = 2425;
  ip = codes "10.0.0.2";
  version = codes "1_lbt4_4#128#0a1b#0#0#0";
  packet_no = codes "9";
  username = codes "anna";
  hostname = codes "pc";
  cmd = codes "288";
  contents = codes "hello" ++ 0 ∷ [];
  user = 0;
}

-- The state of a program whose user has the names, with the category `team` in its list.
abbrev pub program : (nickname username : Bytes) → Ifreechat
program nickname username = record {
  nickname = nickname;
  username = username;
  hostname = codes "pc";
  category = codes "team";
  macaddr = codes "0a1b";
  avatar_id = 4;
  port = 2425;
  memory = λ a. 0;
  users = λ a. no_user;
  unodes = no_links;
  members = no_links;
  groups = λ a. no_group;
  gnodes = no_links;
  categories = λ a. team;
  cnodes = one_link 3 7;
  msgs = λ a. greeting;
  mnodes = no_links;
  chat_data = λ a. 0;
  pchatbox_nodes = no_links;
  gchatbox_nodes = no_links;
  ulist = 1;
  glist = 2;
  clist = 3;
  mlist = 4;
  pchatbox = 5;
  gchatbox = 6;
  treeview = true;
  freed = [];
  effects = [];
}

abbrev pub ann : Ifreechat
ann = program (codes "ann") (codes "anna")

abbrev pub bob : Ifreechat
bob = program (codes "bob") (codes "bobby")

-- The texts of a user.
abbrev pub texts_of : (nickname : Bytes) → UserTexts
texts_of nickname = record {
  nickname = nickname;
  username = codes "anna";
  hostname = codes "pc";
  avatar = codes "a.bmp";
  ipaddr = codes "10.0.0.2";
  macaddr = codes "0a1b";
  signature = codes "hello";
  category = codes "team";
  encoding = codes "GBK";
}
