-- ===== src/Config/Rename/Elements.antt =====
-- Reading a document depends on its elements only.
use i_free_chat.Base.{
  ◌≡◌, refl, ℕ, true, List, [], ◌∷◌, if◌then◌else◌, str_eq, str_eq_sound, Bool-cases, inl, inr,
}
use i_free_chat.Text.{Bytes, codes}
use i_free_chat.MemPool.{Outcome, ret, deadlock, fault, ◌>>=◌}
use i_free_chat.Config.{
  Node, Section, Reading, GroupMallocs, counted, read_user, read_network, read_group, read_nodes,
  read_section, read_sections,
}

-- The nodes that are elements.
unfoldable pub element_nodes : List Node → List Node
element_nodes [] = []
element_nodes (n ∷ ns) = let rest = element_nodes ns in if n.element then n ∷ rest else rest

-- The sections that are no text between the elements, and the elements in them.
unfoldable pub elements : List Section → List Section
unfolding element_nodes
elements [] = []
elements (x ∷ xs) =
    let rest = elements xs in
    if str_eq x.name (codes "text")
    then rest
    else record x { children = element_nodes x.children } ∷ rest

bind-same {ℓ κ} :
    {A : Type ℓ} {B : Type κ} (o : Outcome A) (k k' : A → Outcome B)
    → ((a : A) → k a ≡ k' a)
    → (o >>= k) ≡ (o >>= k')
bind-same (ret a) k k' h = h a
bind-same deadlock k k' h = refl
bind-same fault k k' h = refl

read_nodes-elements :
    {S : Type 0} (step : Bytes → Bytes → S → Outcome S) (ns : List Node) (s : S)
    → read_nodes step (element_nodes ns) s ≡ read_nodes step ns s
unfolding read_nodes element_nodes
read_nodes-elements step [] s = refl
read_nodes-elements step (n ∷ ns) s = elim (Bool-cases n.element) [
  | inl e ↦ rw e (bind-same (step n.name n.content s) _ _ (read_nodes-elements step ns))
  | inr e ↦ rw e (read_nodes-elements step ns s)
]

read_section-elements :
    (a : GroupMallocs) (x : Section) (r : Reading)
    → read_section a (record x { children = element_nodes x.children }) r ≡ read_section a x r
unfolding read_section
read_section-elements a x r =
    rw
      (
        read_nodes-elements read_user x.children r.settings,
        read_nodes-elements read_network x.children r.settings,
        read_nodes-elements read_group x.children r.keys,
      )
      refl

text_skipped :
    (a : GroupMallocs) (i : ℕ) (x : Section) (r : Reading)
    → str_eq x.name (codes "text") ≡ true
    → (read_section a x r ≡ ret r) × (counted i x ≡ i)
unfolding read_section
text_skipped a i x r e =
    let t : x.name ≡ codes "text" = str_eq_sound x.name (codes "text") e in (rw t refl, rw t refl)

pub read_sections-elements :
    (a : ℕ → GroupMallocs) (i : ℕ) (xs : List Section) (r : Reading)
    → read_sections a i (elements xs) r ≡ read_sections a i xs r
unfolding read_sections elements
read_sections-elements a i [] r = refl
read_sections-elements a i (x ∷ xs) r = elim (Bool-cases (str_eq x.name (codes "text"))) [
  | inl e ↦
      let (same, index) = text_skipped (a i) i x r e in
      rw (e, same, index) (read_sections-elements a i xs r)
  | inr e ↦
      rw (e, read_section-elements (a i) x r)
        (bind-same (read_section (a i) x r) _ _ (read_sections-elements a (counted i x) xs))
]
