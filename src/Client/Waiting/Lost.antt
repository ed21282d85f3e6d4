-- ===== src/Client/Waiting/Lost.antt =====
-- What two clicks on the icon do with two messages of one user.
use mathlib.Core.Path.{subst}
use i_free_chat.Base.{
  length, leb, ◌<◌, ℕ, ◌%◌, ◌^◌, ◌≡◌, refl, ap, ◌∙◌, ◌≢◌, false, Option, some, List, [], ◌∷◌, ◌++◌,
  arith, ◌==◌, if◌then◌else◌, update, ==_refl,
}
use i_free_chat.Dlist.{Links, dlist_del}
use i_free_chat.Dlist.Ring.{IsRing, del-IsRing}
use i_free_chat.MemPool.{ret, ◌>>=◌, pool_alloc, poke, Pool}
use i_free_chat.Registry.{Mallocs}
use i_free_chat.Feiq.{Msg, field, data_at}
use i_free_chat.Client.{Client, Event, calm, open_chat, present, chat_line}
use i_free_chat.Client.Views.{log, release_msg}
use i_free_chat.Client.Waiting.{new_pchatbox, show_message, take_message, tray_icon_activated}

-- The icon stops blinking when the list is empty.
abbrev pub quiet : List ℕ → List Event
quiet [] = calm ∷ []
quiet (x ∷ xs) = []

-- The client when the message at `node` has been taken out and released.
abbrev pub released : (node : ℕ) (ms : List ℕ) → Pool → Client → Client
released node ms p c = log (quiet ms) (record c { heap = record c.heap { pool = p } })

head_empty :
    (l : Links) (head : ℕ) (ms : List ℕ)
    → IsRing l head ms
    → (if l.next head == head then calm ∷ [] else []) ≡ quiet ms
head_empty l head [] r = rw (r.chain.0, ==_refl) refl
head_empty l head (m ∷ ms) r = ground (arith, r.chain.0, r.distinct.0)

-- The handler with the node that the list begins with.
from_first :
    (window : Option ℕ) (a : Mallocs) (c : Client) (node : ℕ)
    → c.mnodes.next c.mlist ≡ node
    → (node == c.mlist) ≡ false
    → tray_icon_activated window a c ≡ take_message window a node c
unfolding tray_icon_activated
from_first window a c node e other =
    subst (λ n. (n == c.mlist) ≡ false → tray_icon_activated window a c ≡ take_message window a n c)
      e (λ o. rw o refl) other

taken :
    (window : Option ℕ) (a : Mallocs) (c d : Client) (node : ℕ) (ms : List ℕ) (p : Pool)
    → show_message window a (c.msgs node) (record c { mnodes = dlist_del node c.mnodes }) ≡ ret d
    → release_msg node (d.msgs node) d.heap.pool ≡ ret p
    → IsRing (dlist_del node c.mnodes) c.mlist ms
    → take_message window a node c ≡ ret (released node ms p d)
unfolding take_message
taken window a c d node ms p shown freed rest =
    rw (shown, freed, head_empty (dlist_del node c.mnodes) c.mlist ms rest) refl

-- One click, on a list whose first message is at `node`.
pub click :
    (window : Option ℕ) (a : Mallocs) (c d : Client) (node : ℕ) (ms : List ℕ) (p : Pool)
    → IsRing c.mnodes c.mlist (node ∷ ms)
    → show_message window a (c.msgs node) (record c { mnodes = dlist_del node c.mnodes }) ≡ ret d
    → release_msg node (d.msgs node) d.heap.pool ≡ ret p
    → (tray_icon_activated window a c ≡ ret (released node ms p d))
      × IsRing (dlist_del node c.mnodes) c.mlist ms
click window a c d node ms p r shown freed =
    let rest = (del-IsRing c.mnodes c.mlist [] node ms r).0 in
    let other : (node == c.mlist) ≡ false = ground (arith, r.distinct.0) in
    (
      from_first window a c node r.chain.0 other ∙ taken window a c d node ms p shown freed rest,
      rest,
    )

-- The client when a chat with the user has been opened at `chatbox`.
abbrev pub opened : (chatbox user : ℕ) → Pool → Client → Client
opened b u p c = log (open_chat b u ∷ []) (record c {
  heap = record c.heap {
    pool = p;
    users = update c.heap.users u (record (c.heap.users u) { chatbox = b });
  };
})

show-open :
    (w : ℕ) (a : Mallocs) (m : Msg) (c : Client) (b : ℕ) (p : Pool)
    → m.gpid ≡ 0
    → (c.heap.users m.user_data).chatbox ≡ 0
    → length (c.heap.users m.user_data).nickname < 118
    → pool_alloc a.chunk a.block 60 c.heap.pool ≡ ret (b, p)
    → b ≢ 0
    → show_message (some w) a m c
      ≡ ret (
          log
            (chat_line b (c.heap.users m.user_data).nickname (field data_at m) ∷ [])
            (opened b m.user_data (poke b w p) c))
unfolding show_message new_pchatbox
show-open w a m c b p g none short e ne =
    let z : (b == 0) ≡ false = ground arith in
    let k : pool_alloc a.chunk a.block (60 % 2 ^ 32) c.heap.pool ≡ ret (b, p) =
      ap (λ (n : ℕ). pool_alloc a.chunk a.block n c.heap.pool) (omega arith) ∙ e in
    let n : leb 118 (length (c.heap.users m.user_data).nickname) ≡ false = ground arith in
    rw (g, none, k, z, n) refl

pub show-present :
    (window : Option ℕ) (a : Mallocs) (m : Msg) (c : Client) (b : ℕ)
    → m.gpid ≡ 0
    → (c.heap.users m.user_data).chatbox ≡ b
    → b ≢ 0
    → show_message window a m c ≡ ret (log (present b ∷ []) c)
unfolding show_message
show-present window a m c b g there ne =
    let z : (b == 0) ≡ false = ground arith in rw (g, there, z) refl

in_order :
    (es : List Event) (x y z : Event) (ws : List Event)
    → ((((es ++ x ∷ []) ++ y ∷ []) ++ []) ++ z ∷ []) ++ ws ≡ es ++ x ∷ y ∷ z ∷ ws
in_order [] x y z ws = refl
in_order (e ∷ es) x y z ws = ap (◌∷◌ e) (in_order es x y z ws)

-- Two messages of a user wait, whose nickname fits the title, and no chat with the user is open.
-- The first click on the icon opens the chat and shows the first message; the second click only
-- brings the chat to the front. The second message is taken out of the list and released, and
-- nothing shows it.
pub tray-second_lost :
    (w : ℕ) (window : Option ℕ) (a₁ a₂ : Mallocs) (c : Client) (m₁ m₂ b : ℕ) (ms : List ℕ)
    (p₁ p₂ p₃ : Pool)
    → IsRing c.mnodes c.mlist (m₁ ∷ m₂ ∷ ms)
    → (c.msgs m₁).gpid ≡ 0
    → (c.msgs m₂).gpid ≡ 0
    → (c.msgs m₂).user_data ≡ (c.msgs m₁).user_data
    → (c.heap.users (c.msgs m₁).user_data).chatbox ≡ 0
    → length (c.heap.users (c.msgs m₁).user_data).nickname < 118
    → pool_alloc a₁.chunk a₁.block 60 c.heap.pool ≡ ret (b, p₁)
    → b ≢ 0
    → release_msg m₁ (c.msgs m₁) (poke b w p₁) ≡ ret p₂
    → release_msg m₂ (c.msgs m₂) p₂ ≡ ret p₃
    → (d : Client) × ((tray_icon_activated (some w) a₁ c >>= tray_icon_activated window a₂) ≡ ret d)
      × (d.events
          ≡ c.events
            ++ open_chat b (c.msgs m₁).user_data
              ∷ chat_line b
                  (c.heap.users (c.msgs m₁).user_data).nickname
                  (field data_at (c.msgs m₁))
              ∷ present b
              ∷ quiet ms)
      × IsRing d.mnodes d.mlist ms
      × (d.heap.pool ≡ p₃)
tray-second_lost w window a₁ a₂ c m₁ m₂ b ms p₁ p₂ p₃ r g₁ g₂ same none short made ne free₁ free₂ =
    let u = (c.msgs m₁).user_data in
    let c₁ : Client = record c { mnodes = dlist_del m₁ c.mnodes } in
    let d₁ : Client =
      log (chat_line b (c.heap.users u).nickname (field data_at (c.msgs m₁)) ∷ [])
        (opened b u (poke b w p₁) c₁) in
    let (e₁, r₁) =
      click (some w) a₁ c d₁ m₁ (m₂ ∷ ms) p₂ r
        (show-open w a₁ (c.msgs m₁) c₁ b p₁ g₁ none short made ne) free₁ in
    let c₂ : Client = released m₁ (m₂ ∷ ms) p₂ d₁ in
    let there : (c₂.heap.users (c₂.msgs m₂).user_data).chatbox ≡ b = rw (same, ==_refl u) refl in
    let d₂ : Client = log (present b ∷ []) (record c₂ { mnodes = dlist_del m₂ c₂.mnodes }) in
    let (e₂, r₂) =
      click window a₂ c₂ d₂ m₂ ms p₃ r₁
        (show-present window a₂ (c₂.msgs m₂) (record c₂ { mnodes = dlist_del m₂ c₂.mnodes }) b g₂
          there ne)
        free₂ in
    (released m₂ ms p₃ d₂, rw e₁ e₂, in_order c.events _ _ _ (quiet ms), r₂, refl)
