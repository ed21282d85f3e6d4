-- ===== src/Config.antt =====
-- ifc/src/config.c: the settings of the program, which it reads from an XML file and changes there.
-- The document is an argument: what `xmlReadFile` makes of the file. What the XML library does with
-- a document that is changed and saved is a parameter.
pub mod Keys
pub mod Rename
mod Tests
use i_free_chat.Base.{
  ℕ, ◌+◌, ◌%◌, ◌^◌, Bool, true, false, not, ◌&&◌, Option, none, some, List, [], ◌∷◌, leb, ◌==◌,
  if◌then◌else◌, length, str_eq,
}
use i_free_chat.Text.{Bytes, codes, atoi}
use i_free_chat.Text.Hex.{strtoul}
use i_free_chat.MemPool.{Outcome, ret, fault, ◌>>=◌}
use i_free_chat.Registry.{Heap, Registry, Mallocs}
use i_free_chat.Registry.Group.{new_group_entry, group_add_entry}

-- A node below a section: whether it is an element, its name, and the text in it.
pub record Node : Type 0 where
  pub element : Bool
  pub name : Bytes
  pub content : Bytes

-- A node below the root, with those below it.
pub record Section : Type 0 where
  pub name : Bytes
  pub children : List Node

-- The fields of `ifreechat_t` that the file sets.
pub record Settings : Type 0 where
  pub nickname : Bytes
  pub username : Bytes
  pub hostname : Bytes
  pub category : Bytes
  pub avatar_type : ℕ
  pub avatar_id : ℕ
  pub custom_avatar : Bytes
  pub signature : Bytes
  pub ipaddr : Bytes
  pub macaddr : Bytes
  pub multicast_ip : Bytes
  pub port : ℕ

-- `gpname`, `gpinfo` and `gpid`, which keep their values from one group to the next.
pub record GroupKeys : Type 0 where
  pub gpname : Bytes
  pub gpinfo : Bytes
  pub gpid : ℕ

-- What reading works on: the settings, the variables, and the registry of groups.
pub record Reading : Type 0 where
  pub settings : Settings
  pub keys : GroupKeys
  pub glist : Registry
  pub heap : Heap

-- What `malloc` returns for a group's entry, and for its place in the table.
pub record GroupMallocs : Type 0 where
  pub entry : Mallocs
  pub slot : ℕ
  pub place : Mallocs

-- `strcpy` to a field of `n` bytes; what does not fit runs into the next.
pub fit : (n : ℕ) → Bytes → Outcome Bytes
fit n s = if leb n (length s) then fault else ret s

pub read_user : (name text : Bytes) → Settings → Outcome Settings
unfolding fit
read_user name text s =
    if str_eq name (codes "nickname")
    then (fit 64 text >>= (λ t. ret (record s { nickname = t })))
    else if str_eq name (codes "username")
    then (fit 64 text >>= (λ t. ret (record s { username = t })))
    else if str_eq name (codes "hostname")
    then (fit 64 text >>= (λ t. ret (record s { hostname = t })))
    else if str_eq name (codes "avatar_type")
    then ret (record s { avatar_type = atoi text })
    else if str_eq name (codes "avatar_id")
    then ret (record s { avatar_id = atoi text })
    else if str_eq name (codes "custom_avatar")
    then (fit 128 text >>= (λ t. ret (record s { custom_avatar = t })))
    else if str_eq name (codes "signature")
    then (fit 128 text >>= (λ t. ret (record s { signature = t })))
    else if str_eq name (codes "category")
    then (fit 64 text >>= (λ t. ret (record s { category = t })))
    else ret s

pub read_network : (name text : Bytes) → Settings → Outcome Settings
unfolding fit
read_network name text s =
    if str_eq name (codes "listen_ip")
    then (fit 20 text >>= (λ t. ret (record s { ipaddr = t })))
    else if str_eq name (codes "mac")
    then (fit 20 text >>= (λ t. ret (record s { macaddr = t })))
    else if str_eq name (codes "multicast_ip")
    then (fit 20 text >>= (λ t. ret (record s { multicast_ip = t })))
    else if str_eq name (codes "port")
    then ret (record s { port = atoi text % 2 ^ 16 })
    else ret s

pub read_group : (name text : Bytes) → GroupKeys → Outcome GroupKeys
unfolding fit
read_group name text k =
    if str_eq name (codes "name")
    then (fit 128 text >>= (λ t. ret (record k { gpname = t })))
    else if str_eq name (codes "id")
    then ret (record k { gpid = strtoul text })
    else if str_eq name (codes "info")
    then (fit 128 text >>= (λ t. ret (record k { gpinfo = t })))
    else ret k

-- The loop over the nodes of a section, which passes over what is no element.
pub read_nodes : {S : Type 0} → (Bytes → Bytes → S → Outcome S) → List Node → S → Outcome S
read_nodes step [] s = ret s
read_nodes step (n ∷ ns) s =
    (if n.element then step n.name n.content s else ret s) >>= (λ s'. read_nodes step ns s')

-- The group of the variables joins the registry, where its entry could be made.
pub add_read_group : GroupMallocs → GroupKeys → Reading → Outcome Reading
add_read_group a k r = do
  (e, h) ← new_group_entry a.entry k.gpname k.gpinfo k.gpid r.heap
  if e == 0 then ret (record r { keys = k; heap = h }) else do
    (g, h) ← group_add_entry a.slot a.place r.glist e h
    ret (record r { keys = k; glist = g; heap = h })

pub read_section : GroupMallocs → Section → Reading → Outcome Reading
unfolding read_user read_network read_group read_nodes add_read_group
read_section a x r =
    if str_eq x.name (codes "user")
    then (read_nodes read_user x.children r.settings >>= (λ s. ret (record r { settings = s })))
    else if str_eq x.name (codes "network")
    then (read_nodes read_network x.children r.settings >>= (λ s. ret (record r { settings = s })))
    else if str_eq x.name (codes "group")
    then (read_nodes read_group x.children r.keys >>= (λ k. add_read_group a k r))
    else ret r

-- How many groups have been read behind the section.
abbrev pub counted : ℕ → Section → ℕ
counted i x = if str_eq x.name (codes "group") then i + 1 else i

-- The sections, behind `i` groups.
pub read_sections : (ℕ → GroupMallocs) → (i : ℕ) → List Section → Reading → Outcome Reading
unfolding read_section
read_sections a i [] r = ret r
read_sections a i (x ∷ xs) r = do r ← read_section (a i) x r; read_sections a (counted i x) xs r

-- `none` is a file that cannot be read, and one without a root. The flag is whether 0 is returned.
pub read_cfg :
    (ℕ → GroupMallocs) → Option (Option (List Section)) → Reading → Outcome (Bool × Reading)
unfolding read_sections
read_cfg a none r = ret (false, r)
read_cfg a (some none) r = ret (false, r)
read_cfg a (some (some xs)) r = do r ← read_sections a 0 xs r; ret (true, r)

-- The XML library: what `xmlNodeGetContent` reads of a node whose content `xmlNodeSetContent` has
-- set to the bytes, in which it takes references to entities, and what `xmlReadFile` makes of the
-- file into which `xmlSaveFormatFile` writes a document.
pub record XmlLibrary : Type 0 where
  pub set_content : Bytes → Bytes
  pub save : List Section → Option (Option (List Section))

-- The nodes with the content of the first element of the name, and whether there is one.
pub update_nodes : XmlLibrary → (name value : Bytes) → List Node → Bool × List Node
update_nodes lib name value [] = (false, [])
update_nodes lib name value (n ∷ ns) =
    let (flag, rest) = update_nodes lib name value ns in
    if n.element && str_eq n.name name
    then (true, record n { content = lib.set_content value } ∷ ns)
    else (flag, n ∷ rest)

pub update_sections : XmlLibrary → (category name value : Bytes) → List Section → List Section
unfolding update_nodes
update_sections lib category name value [] = []
update_sections lib category name value (x ∷ xs) =
    let (flag, nodes) = update_nodes lib name value x.children in
    let rest = update_sections lib category name value xs in
    if str_eq x.name category
    then (if flag then record x { children = nodes } ∷ xs else x ∷ rest)
    else x ∷ rest

-- The flag is whether 0 is returned; the document is what the saved file is then read as.
pub update_cfg :
    XmlLibrary
    → (category name value : Bytes) → Option (Option (List Section))
    → Bool × Option (Option (List Section))
unfolding update_sections
update_cfg lib category name value none = (false, none)
update_cfg lib category name value (some none) = (false, some none)
update_cfg lib category name value (some (some xs)) =
    (true, lib.save (update_sections lib category name value xs))
