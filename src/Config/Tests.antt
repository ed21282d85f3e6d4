-- ===== src/Config/Tests.antt =====
-- A change of the nickname in a small file.
use i_free_chat.Base.{
  ℕ, ◌%◌, refl, arith, ◌≡◌, true, false, some, List, [], ◌∷◌, ◌==◌, if◌then◌else◌, has,
}
use i_free_chat.Text.{Bytes, codes, atoi}
use i_free_chat.Dlist.{Links}
use i_free_chat.MemPool.{ret, ◌>>=◌}
use i_free_chat.Registry.{UserEntry}
use i_free_chat.Config.{Node, Section, XmlLibrary, Reading, GroupMallocs, read_cfg, update_cfg}
use i_free_chat.Config.Rename.{flag_renamed, with_node, update_cfg-read}
use i_free_chat.Config.Rename.Elements.{elements, element_nodes}
use i_free_chat.Config.Keys.{first_key, first_node}

abbrev node : (name content : Bytes) → Node
node name content = record { element = true; name = name; content = content }

abbrev file : List Section
file =
    record {
      name = codes "user";
      children =
          node (codes "nickname") (codes "ann") ∷ node (codes "category") (codes "team") ∷ [];
    }
    ∷ record { name = codes "network"; children = node (codes "port") (codes "2425") ∷ [] }
    ∷ []

abbrev links_a : Links
links_a = record { prev = λ a. a; next = λ a. a }

abbrev user_a : UserEntry
user_a = record {
  nickname = [];
  username = [];
  hostname = [];
  avatar = [];
  ipaddr = [];
  macaddr = [];
  signature = [];
  category = [];
  encoding = [];
  pos = 0;
  category_entry = 0;
  chatbox = 0;
}

abbrev reading_a : Reading
reading_a = record {
  settings = record {
    nickname = [];
    username = [];
    hostname = [];
    category = [];
    avatar_type = 0;
    avatar_id = 0;
    custom_avatar = [];
    signature = [];
    ipaddr = [];
    macaddr = [];
    multicast_ip = [];
    port = 0;
  };
  keys = record { gpname = []; gpinfo = []; gpid = 0 };
  glist = record {
    addr = 300;
    hash = record {
      addr = 320;
      hash_entry = [];
      hash_size = 0;
      entries = λ e. record { key = 0; val = 0 };
      links = links_a;
    };
  };
  heap = record {
    pool = record { size = 200; quantum = 4; chunks = []; locked = false; mem = λ a. 0 };
    users = λ u. user_a;
    unodes = links_a;
    categories = λ c. record { name = []; count = 0; pos = 0 };
    cnodes = links_a;
    groups = λ g. record { group_name = 0; group_info = 0; group_id = 0 };
    gnodes = links_a;
    members = λ m. 0;
    mnodes = links_a;
  };
}

abbrev mallocs_a : ℕ → GroupMallocs
mallocs_a i = record {
  entry = record { chunk = 1; block = 6000 };
  slot = 1;
  place = record { chunk = 1; block = 7000 };
}

abbrev read_a : Reading
read_a = record reading_a {
  settings = record reading_a.settings {
    nickname = codes "ann";
    category = codes "team";
    port = atoi (codes "2425") % 65536;
  };
}

abbrev network_a : Section
network_a = record { name = codes "network"; children = node (codes "port") (codes "2425") ∷ [] }

file_read : read_cfg mallocs_a (some (some file)) reading_a ≡ ret (true, read_a)
unfolding read_cfg
file_read = refl

-- A library that drops a content from the first `&` on, and writes a line break before the first
-- section.
before_amp : Bytes → Bytes
before_amp [] = []
before_amp (c ∷ s) = let rest = before_amp s in if c == b'&' then [] else c ∷ rest

before_amp-plain : (s : Bytes) → has b'&' s ≡ false → has b'<' s ≡ false → before_amp s ≡ s
unfolding before_amp
before_amp-plain [] h k = refl
before_amp-plain (c ∷ s) h k = ground (arith, before_amp-plain s)

abbrev line_break : Section
line_break = record { name = codes "text"; children = [] }

abbrev library_a : XmlLibrary
library_a = record { set_content = before_amp; save = λ xs. some (some (line_break ∷ xs)) }

abbrev ann : Node
ann = node (codes "nickname") (codes "ann")

abbrev bob : Node
bob = node (codes "nickname") (codes "bob")

abbrev team : List Node
team = node (codes "category") (codes "team") ∷ []

update_cfg-read_example :
    read_cfg mallocs_a
      (update_cfg library_a (codes "user") (codes "nickname") (codes "bob") (some (some file))).1
      reading_a
    ≡ (read_cfg mallocs_a (some (some file)) reading_a >>= flag_renamed (codes "bob"))
unfolding first_node first_key elements element_nodes
update_cfg-read_example =
    update_cfg-read library_a (codes "bob") ann [] team (codes "user") [] (network_a ∷ [])
      (line_break ∷ with_node (codes "user") [] team bob ∷ network_a ∷ []) mallocs_a reading_a
      before_amp-plain refl refl (omega arith) (omega arith) refl refl refl refl refl refl refl refl
      refl
