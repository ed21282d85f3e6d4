-- ===== src/Config/Rename/Others.antt =====
-- What of ifc/src/config.c reads a file without a nickname: it does the same whatever the nickname
-- is.
use i_free_chat.Base.{
  ◌≡◌, refl, ap, ◌∙◌, ℕ, Bool, true, false, ◌&&◌, Option, none, some, List, [], ◌∷◌, ◌==◌, arith,
  if◌then◌else◌, str_eq, Bool-cases, inl, inr,
}
use i_free_chat.Text.{Bytes, codes}
use i_free_chat.MemPool.{Outcome, ret, deadlock, fault, ◌>>=◌}
use i_free_chat.Registry.Group.{group_add_entry, new_group_entry}
use i_free_chat.Config.Keys.{first_node, first_key, or_missing}
use i_free_chat.Config.{
  Node, Section, Settings, Reading, GroupKeys, GroupMallocs, fit, read_user, read_network,
  read_group, read_nodes, add_read_group, read_section, read_sections, counted,
}

abbrev pub named : Bytes → Settings → Settings
named v s = record s { nickname = v }

abbrev pub renamed : Bytes → Reading → Reading
renamed v r = record r { settings = named v r.settings }

-- What the outcome is, its value changed.
abbrev pub then_ {ℓ} : {A : Type ℓ} → (A → A) → Outcome A → Outcome A
then_ f o = o >>= (λ a. ret (f a))

pub bind-then {ℓ} :
    {A : Type ℓ} (f : A → A) (o : Outcome A) (k : A → Outcome A)
    → ((a : A) → k (f a) ≡ then_ f (k a))
    → (then_ f o >>= k) ≡ then_ f (o >>= k)
bind-then f (ret a) k h = h a
bind-then f deadlock k h = refl
bind-then f fault k h = refl

pub bind-pass {ℓ κ} :
    {A : Type ℓ} {B : Type κ} (f : B → B) (o : Outcome A) (k k' : A → Outcome B)
    → ((a : A) → k' a ≡ then_ f (k a))
    → (o >>= k') ≡ then_ f (o >>= k)
bind-pass f (ret a) k k' h = h a
bind-pass f deadlock k k' h = refl
bind-pass f fault k k' h = refl

if-pass {ℓ} :
    {A : Type ℓ} (f : A → A) (t : Bool) (x x' y y' : Outcome A)
    → (t ≡ true → x' ≡ then_ f x)
    → y' ≡ then_ f y
    → (if t then x' else y') ≡ then_ f (if t then x else y)
if-pass f true x x' y y' h k = h refl
if-pass f false x x' y y' h k = k

abbrev pub nick : Bytes
nick = codes "nickname"

read_user-named :
    (v name text : Bytes) (s : Settings)
    → str_eq name nick ≡ false
    → read_user name text (named v s) ≡ then_ (named v) (read_user name text s)
unfolding read_user fit
read_user-named v name text s other = ground arith

read_network-named :
    (v name text : Bytes) (s : Settings)
    → read_network name text (named v s) ≡ then_ (named v) (read_network name text s)
unfolding read_network fit
read_network-named v name text s = ground arith

-- A node that changes nothing of the rest of the reading.
read_step-named :
    (step : Bytes → Bytes → Settings → Outcome Settings) (v : Bytes) (n : Node) (s : Settings)
    → ((t : Settings)
        → n.element ≡ true
        → step n.name n.content (named v t) ≡ then_ (named v) (step n.name n.content t))
    → (if n.element then step n.name n.content (named v s) else ret (named v s))
      ≡ then_ (named v) (if n.element then step n.name n.content s else ret s)
read_step-named step v n s h = ground (arith, h s)

pub no_node-head :
    (name : Bytes) (n : Node) (ns : List Node)
    → first_node name (n ∷ ns) ≡ none
    → ((n.element && str_eq n.name name) ≡ false) × (first_node name ns ≡ none)
unfolding first_node
no_node-head name n ns h = ground arith

pub read_user_nodes-named :
    (v : Bytes) (ns : List Node) (s : Settings)
    → first_node nick ns ≡ none
    → read_nodes read_user ns (named v s) ≡ then_ (named v) (read_nodes read_user ns s)
unfolding read_nodes
read_user_nodes-named v [] s h = refl
read_user_nodes-named v (n ∷ ns) s h =
    let (other, rest) = no_node-head nick n ns h in
    ap (λ o. o >>= read_nodes read_user ns)
      (read_step-named read_user v n s
        (λ t e. read_user-named v n.name n.content t (ground (arith, e, other))))
    ∙ bind-then (named v) (if n.element then read_user n.name n.content s else ret s)
        (read_nodes read_user ns) (λ t. read_user_nodes-named v ns t rest)

read_network_nodes-named :
    (v : Bytes) (ns : List Node) (s : Settings)
    → read_nodes read_network ns (named v s) ≡ then_ (named v) (read_nodes read_network ns s)
unfolding read_nodes
read_network_nodes-named v [] s = refl
read_network_nodes-named v (n ∷ ns) s =
    ap (λ o. o >>= read_nodes read_network ns)
      (read_step-named read_network v n s (λ t e. read_network-named v n.name n.content t))
    ∙ bind-then (named v) (if n.element then read_network n.name n.content s else ret s)
        (read_nodes read_network ns) (λ t. read_network_nodes-named v ns t)

add_read_group-renamed :
    (v : Bytes) (a : GroupMallocs) (k : GroupKeys) (r : Reading)
    → add_read_group a k (renamed v r) ≡ then_ (renamed v) (add_read_group a k r)
unfolding add_read_group
add_read_group-renamed v a k r =
    bind-pass (renamed v) (new_group_entry a.entry k.gpname k.gpinfo k.gpid r.heap) _ _ (λ x.
      if-pass (renamed v) (x.0 == 0) _ _ _ _ (λ e. refl)
        (bind-pass (renamed v) (group_add_entry a.slot a.place r.glist (x.0) (x.1)) _ _
          (λ y. refl)))

abbrev pub with_settings : Reading → Settings → Outcome Reading
with_settings r s = ret (record r { settings = s })

pub with_settings-renamed :
    (v : Bytes) (r : Reading) (o : Outcome Settings)
    → (then_ (named v) o >>= with_settings r) ≡ then_ (renamed v) (o >>= with_settings r)
with_settings-renamed v r (ret s) = refl
with_settings-renamed v r deadlock = refl
with_settings-renamed v r fault = refl

-- The reading of a section that does not give the nickname.
read_section-renamed :
    (v : Bytes) (a : GroupMallocs) (x : Section) (r : Reading)
    → (str_eq x.name (codes "user") ≡ true → first_node nick x.children ≡ none)
    → read_section a x (renamed v r) ≡ then_ (renamed v) (read_section a x r)
unfolding read_section
read_section-renamed v a x r h =
    if-pass (renamed v) (str_eq x.name (codes "user")) _ _ _ _
      (λ e.
        ap (λ o. o >>= with_settings r) (read_user_nodes-named v x.children r.settings (h e))
        ∙ with_settings-renamed v r (read_nodes read_user x.children r.settings))
      (if-pass (renamed v) (str_eq x.name (codes "network")) _ _ _ _
        (λ e.
          ap (λ o. o >>= with_settings r) (read_network_nodes-named v x.children r.settings)
          ∙ with_settings-renamed v r (read_nodes read_network x.children r.settings))
        (if-pass (renamed v) (str_eq x.name (codes "group")) _ _ _ _
          (λ e.
            bind-pass (renamed v) (read_nodes read_group x.children r.keys) _ _
              (λ k. add_read_group-renamed v a k r))
          refl))

or_missing-none : (a b : Option Bytes) → or_missing a b ≡ none → (a ≡ none) × (b ≡ none)
or_missing-none none b h = (refl, h)
or_missing-none (some a) b h = absurd (ground (arith, h))

pub no_key-head :
    (x : Section) (xs : List Section)
    → first_key (codes "user") nick (x ∷ xs) ≡ none
    → (str_eq x.name (codes "user") ≡ true → first_node nick x.children ≡ none)
      × (first_key (codes "user") nick xs ≡ none)
unfolding first_key
no_key-head x xs h = elim (Bool-cases (str_eq x.name (codes "user"))) [
  | inl e ↦
      let both =
        or_missing-none (first_node nick x.children) (first_key (codes "user") nick xs)
          (ground (arith, h, e)) in
      (λ d. both.0, both.1)
  | inr e ↦ (λ d. ground (arith, d, e), ground (arith, h, e))
]

pub read_sections-renamed :
    (v : Bytes) (a : ℕ → GroupMallocs) (i : ℕ) (xs : List Section) (r : Reading)
    → first_key (codes "user") nick xs ≡ none
    → read_sections a i xs (renamed v r) ≡ then_ (renamed v) (read_sections a i xs r)
unfolding read_sections
read_sections-renamed v a i [] r h = refl
read_sections-renamed v a i (x ∷ xs) r h =
    let (other, rest) = no_key-head x xs h in
    ap (λ o. o >>= read_sections a (counted i x) xs) (read_section-renamed v (a i) x r other)
    ∙ bind-then (renamed v) (read_section (a i) x r) (read_sections a (counted i x) xs)
        (λ d. read_sections-renamed v a (counted i x) xs d rest)
