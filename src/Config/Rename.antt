-- ===== src/Config/Rename.antt =====
-- A nickname that is changed in the file, and the file that is read again.
pub mod Others
pub mod Elements
use i_free_chat.Base.{
  ◌≡◌, refl, ap, sym, has, ◌∙◌, ℕ, ◌+◌, ◌<◌, Bool, true, false, not, ◌&&◌, Option, none, some, List,
  [], ◌∷◌, ◌++◌, leb, ◌==◌, arith, if◌then◌else◌, length, str_eq, Bool-cases, inl, inr,
}
use i_free_chat.Text.{Bytes, codes}
use i_free_chat.MemPool.{Outcome, ret, deadlock, fault, ◌>>=◌}
use i_free_chat.Registry.Group.{group_add_entry, new_group_entry}
use i_free_chat.Config.Keys.{first_node, first_key, or_missing, is_some, flag_first}
use i_free_chat.Config.{
  Node, Section, Settings, Reading, GroupKeys, GroupMallocs, fit, read_user, read_network,
  read_group, read_nodes, add_read_group, read_section, read_sections, counted, XmlLibrary,
  read_cfg, update_nodes, update_sections, update_cfg,
}
use i_free_chat.Config.Rename.Elements.{elements, read_sections-elements}
use i_free_chat.Config.Rename.Others.{
  named, renamed, then_, bind-then, bind-pass, nick, read_user_nodes-named, no_node-head,
  with_settings, with_settings-renamed, no_key-head, read_sections-renamed,
}

abbrev all_read : Reading → Outcome (Bool × Reading)
all_read r = ret (true, r)

abbrev pub flag_renamed : Bytes → Bool × Reading → Outcome (Bool × Reading)
flag_renamed v (ok, r) = ret (ok, renamed v r)

read_all-renamed :
    (v : Bytes) (o : Outcome Reading)
    → (then_ (renamed v) o >>= all_read) ≡ (o >>= all_read >>= flag_renamed v)
read_all-renamed v (ret r) = refl
read_all-renamed v deadlock = refl
read_all-renamed v fault = refl

-- A section with the node between others.
abbrev pub with_node : (name : Bytes) (ns ms : List Node) → Node → Section
with_node name ns ms n = record { name = name; children = ns ++ n ∷ ms }

-- The file has one nickname, `old.content`, which is given in a section `x` for the user, and the
-- library sets a content as it is.
module _ (lib : XmlLibrary) (v : Bytes) (plain : lib.set_content v ≡ v) (old : Node)
    (ns ms : List Node) (fits : length v < 64) (fitted : length old.content < 64)
    (element : old.element ≡ true) (here : old.name ≡ nick) (first : first_node nick ns ≡ none)
    (last : first_node nick ms ≡ none) where
  abbrev nodes_new : List Node
  nodes_new = ns ++ record old { content = v } ∷ ms

  read_user_nodes-new :
      (ls : List Node) (s : Settings)
      → read_nodes read_user (ls ++ record old { content = v } ∷ ms) s
        ≡ then_ (named v) (read_nodes read_user (ls ++ old ∷ ms) s)
  unfolding read_nodes read_user fit
  read_user_nodes-new [] s =
      let short : leb 64 (length v) ≡ false = ground arith in
      let short' : leb 64 (length old.content) ≡ false = ground arith in
      rw (element, here, short, short')
        (read_user_nodes-named v ms (record s { nickname = old.content }) last)
  read_user_nodes-new (n ∷ ls) s =
      bind-pass (named v) (if n.element then read_user n.name n.content s else ret s) _ _
        (λ t. read_user_nodes-new ls t)

  update_nodes-there :
      (ls : List Node)
      → first_node nick ls ≡ none
      → update_nodes lib nick v (ls ++ old ∷ ms) ≡ (true, ls ++ record old { content = v } ∷ ms)
  unfolding update_nodes
  update_nodes-there [] h = rw (element, here, plain) refl
  update_nodes-there (n ∷ ls) h =
      let (other, rest) = no_node-head nick n ls h in rw (other, update_nodes-there ls rest) refl

  module _ (name : Bytes) (user : name ≡ codes "user") (before after : List Section)
      (first_s : first_key (codes "user") nick before ≡ none)
      (last_s : first_key (codes "user") nick after ≡ none) where
    abbrev section_of : Node → Section
    section_of n = with_node name ns ms n

    read_section-new :
        (a : GroupMallocs) (r : Reading)
        → read_section a (section_of (record old { content = v })) r
          ≡ then_ (renamed v) (read_section a (section_of old) r)
    unfolding read_section
    read_section-new a r = rw user (
        ap (λ o. o >>= with_settings r) (read_user_nodes-new ns r.settings)
        ∙ with_settings-renamed v r (read_nodes read_user (ns ++ old ∷ ms) r.settings))

    read_sections-new :
        (a : ℕ → GroupMallocs) (i : ℕ) (xs : List Section) (r : Reading)
        → read_sections a i (xs ++ section_of (record old { content = v }) ∷ after) r
          ≡ then_ (renamed v) (read_sections a i (xs ++ section_of old ∷ after) r)
    unfolding read_sections
    read_sections-new a i [] r =
        let next = counted i (section_of old) in
        ap (λ o. o >>= read_sections a next after) (read_section-new (a i) r)
        ∙ bind-then (renamed v) (read_section (a i) (section_of old) r) (read_sections a next after)
            (λ d. read_sections-renamed v a next after d last_s)
    read_sections-new a i (x ∷ xs) r =
        bind-pass (renamed v) (read_section (a i) x r) _ _
          (λ d. read_sections-new a (counted i x) xs d)

    update_sections-there :
        (xs : List Section)
        → first_key (codes "user") nick xs ≡ none
        → update_sections lib (codes "user") nick v (xs ++ section_of old ∷ after)
          ≡ xs ++ section_of (record old { content = v }) ∷ after
    unfolding update_sections
    update_sections-there [] h = rw (user, update_nodes-there ns first) refl
    update_sections-there (x ∷ xs) h =
        let (other, rest) = no_key-head x xs h in
        let tail = ap (◌∷◌ x) (update_sections-there xs rest) in
        elim (Bool-cases (str_eq x.name (codes "user"))) [
          | inl e ↦ rw (e, flag_first lib nick v x.children, other e) tail
          | inr e ↦ rw e tail
        ]

    file-read :
        (a : ℕ → GroupMallocs) (r : Reading) (ys : List Section)
        → lib.save (before ++ section_of (record old { content = v }) ∷ after) ≡ some (some ys)
        → elements ys ≡ elements (before ++ section_of (record old { content = v }) ∷ after)
        → read_cfg a
            (update_cfg lib
              (codes "user")
              (codes "nickname")
              v
              (some (some (before ++ section_of old ∷ after)))).1
            r
          ≡ (read_cfg a (some (some (before ++ section_of old ∷ after))) r >>= flag_renamed v)
    unfolding read_cfg update_cfg
    file-read a r ys saved same =
        let doc = before ++ section_of (record old { content = v }) ∷ after in
        let reread : read_sections a 0 ys r ≡ read_sections a 0 doc r =
          sym (read_sections-elements a 0 ys r)
          ∙ ap (λ xs. read_sections a 0 xs r) same
          ∙ read_sections-elements a 0 doc r in
        rw (update_sections-there before first_s, saved, reread, read_sections-new a 0 before r)
          (read_all-renamed v (read_sections a 0 (before ++ section_of old ∷ after) r))

-- The library keeps a content without `&` and `<`, which begin what XML does not take literally.
abbrev pub KeepsPlain : XmlLibrary → Type 0
KeepsPlain lib = (w : Bytes) → has b'&' w ≡ false → has b'<' w ≡ false → lib.set_content w ≡ w

-- The library keeps a content that has neither `&` nor `<`. A file gives one nickname, in a section
-- for the user, and neither it nor the new one, which has neither `&` nor `<`, is longer than 63
-- bytes; the changed document is saved, and the file read, with the same elements and whatever text
-- between them. Then reading the file that update_cfg saves has the outcome that reading the file
-- before has, with every setting and every group that is read the same but for the nickname, which
-- is the new one.
pub update_cfg-read :
    (lib : XmlLibrary) (v : Bytes) (old : Node) (ns ms : List Node) (name : Bytes)
    (before after ys : List Section) (a : ℕ → GroupMallocs) (r : Reading)
    → KeepsPlain lib
    → has b'&' v ≡ false
    → has b'<' v ≡ false
    → length v < 64
    → length old.content < 64
    → old.element ≡ true
    → old.name ≡ codes "nickname"
    → name ≡ codes "user"
    → first_node (codes "nickname") ns ≡ none
    → first_node (codes "nickname") ms ≡ none
    → first_key (codes "user") (codes "nickname") before ≡ none
    → first_key (codes "user") (codes "nickname") after ≡ none
    → lib.save (before ++ with_node name ns ms (record old { content = v }) ∷ after)
      ≡ some (some ys)
    → elements ys ≡ elements (before ++ with_node name ns ms (record old { content = v }) ∷ after)
    → read_cfg a
        (update_cfg lib
          (codes "user")
          (codes "nickname")
          v
          (some (some (before ++ with_node name ns ms old ∷ after)))).1
        r
      ≡ (read_cfg a (some (some (before ++ with_node name ns ms old ∷ after))) r >>= flag_renamed v)
update_cfg-read lib v old ns ms name before after ys a r keeps amp less fits fitted element here
      user first last first_s last_s saved same =
    file-read lib v (keeps v amp less) old ns ms fits fitted element here first last name user
      before after first_s last_s a r ys saved same
