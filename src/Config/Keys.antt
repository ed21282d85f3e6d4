-- ===== src/Config/Keys.antt =====
-- A key of the file: what is found there, and what an update makes of it.
use i_free_chat.Base.{
  ◌≡◌, refl, Bool, true, false, ◌&&◌, Option, none, some, List, [], ◌∷◌, arith, if◌then◌else◌,
  str_eq, str_eq_refl, str_eq_sound,
}
use i_free_chat.Text.{Bytes}
use i_free_chat.Config.{Node, Section, XmlLibrary, update_nodes, update_sections, update_cfg}

-- The content of the first element of the name.
unfoldable pub first_node : (name : Bytes) → List Node → Option Bytes
first_node name [] = none
first_node name (n ∷ ns) =
    let rest = first_node name ns in
    if n.element && str_eq n.name name then some n.content else rest

abbrev pub or_missing : Option Bytes → Option Bytes → Option Bytes
or_missing none b = b
or_missing (some a) b = some a

-- The first of them in the sections of the category.
unfoldable pub first_key : (category name : Bytes) → List Section → Option Bytes
first_key category name [] = none
first_key category name (x ∷ xs) =
    let rest = first_key category name xs in
    if str_eq x.name category then or_missing (first_node name x.children) rest else rest

-- `some value` where there was something.
abbrev pub replaced : Bytes → Option Bytes → Option Bytes
replaced value none = none
replaced value (some a) = some value

abbrev pub is_some : Option Bytes → Bool
is_some none = false
is_some (some a) = true

pub flag_first :
    (lib : XmlLibrary) (name value : Bytes) (ns : List Node)
    → (update_nodes lib name value ns).0 ≡ is_some (first_node name ns)
unfolding update_nodes first_node
flag_first lib name value [] = refl
flag_first lib name value (n ∷ ns) = ground (arith, flag_first lib name value ns)

nodes_first :
    (lib : XmlLibrary) (name value other : Bytes) (ns : List Node)
    → first_node other (update_nodes lib name value ns).1 ≡ (
        if str_eq other name
        then replaced (lib.set_content value) (first_node name ns)
        else first_node other ns)
unfolding update_nodes first_node
nodes_first lib name value other [] = ground arith
nodes_first lib name value other (n ∷ ns) = ground (
  arith,
  nodes_first lib name value other ns,
  str_eq_sound n.name name,
  str_eq_sound n.name other,
  str_eq_sound other name,
  str_eq_refl n.name,
)

sections_first :
    (lib : XmlLibrary) (category name value category' name' : Bytes) (xs : List Section)
    → first_key category' name' (update_sections lib category name value xs) ≡ (
        if str_eq category' category && str_eq name' name
        then replaced (lib.set_content value) (first_key category name xs)
        else first_key category' name' xs)
unfolding update_sections first_key
sections_first lib category name value category' name' [] = ground arith
sections_first lib category name value category' name' (x ∷ xs) = ground (
  arith,
  sections_first lib category name value category' name' xs,
  flag_first lib name value x.children,
  nodes_first lib name value name' x.children,
  str_eq_sound x.name category,
  str_eq_sound x.name category',
  str_eq_sound category' category,
  str_eq_sound name' name,
  str_eq_refl x.name,
)

-- `update_cfg` on a file with a root saves a document in which the key that is given, where it was
-- there, is first found with what the library makes of the new value, and every other key with the
-- value that it had.
update_cfg-first :
    (lib : XmlLibrary) (category name value category' name' : Bytes) (xs : List Section)
    → (ys : List Section) × (update_cfg lib category name value (some (some xs))
        ≡ (true, lib.save ys))
      × (first_key category' name' ys ≡ (
          if str_eq category' category && str_eq name' name
          then replaced (lib.set_content value) (first_key category name xs)
          else first_key category' name' xs))
unfolding update_cfg
update_cfg-first lib category name value category' name' xs = (
  update_sections lib category name value xs,
  refl,
  sections_first lib category name value category' name' xs,
)
