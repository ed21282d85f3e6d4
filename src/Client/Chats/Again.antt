-- ===== src/Client/Chats/Again.antt =====
-- Chats that are opened by a double click: what waits before and after, and the entry for the
-- nickname that is used twice.
use i_free_chat.Base.{
  length, leb, ◌<◌, ℕ, ◌%◌, ◌^◌, ◌≡◌, refl, ap, ◌∙◌, ◌≢◌, false, Option, some, List, [], ◌∷◌, ◌++◌,
  arith, ◌==◌, update, ==_refl, has,
}
use i_free_chat.Dlist.{dlist_add_tail, dlist_del, init_dlist_node}
use i_free_chat.Dlist.Ring.{IsRing, add_tail-IsRing, init_apart-IsRing}
use i_free_chat.MemPool.{ret, ◌>>=◌, Pool, pool_alloc, pool_free, poke}
use i_free_chat.Registry.{Mallocs}
use i_free_chat.Feiq.{Msg, field, data_at}
use i_free_chat.Client.{Client, Event, alert, open_chat, present, close_window, chat_line}
use i_free_chat.Client.Views.{log, release_msg, insert_chat_msg}
use i_free_chat.Client.Waiting.{new_pchatbox, tray_icon_activated}
use i_free_chat.Client.Waiting.Lost.{quiet, opened, released, click, show-present}
use i_free_chat.Client.Chats.{
  pchatbox, forget_chatbox, close_chatbox, contact_treeview_ondoubleclicked,
}

in_turn :
    (es : List Event) (x y z : Event) → ((es ++ x ∷ []) ++ y ∷ []) ++ z ∷ [] ≡ es ++ x ∷ y ∷ z ∷ []
in_turn [] x y z = refl
in_turn (e ∷ es) x y z = ap (◌∷◌ e) (in_turn es x y z)

in_row :
    (es : List Event) (x y z : Event) (ws : List Event)
    → (((es ++ x ∷ []) ++ y ∷ []) ++ z ∷ []) ++ ws ≡ es ++ x ∷ y ∷ z ∷ ws
in_row [] x y z ws = refl
in_row (e ∷ es) x y z ws = ap (◌∷◌ e) (in_row es x y z ws)

module _ (w : ℕ) (a : Mallocs) (depth user b : ℕ) (c : Client) (deep : depth ≢ 1)
    (none : (c.heap.users user).chatbox ≡ 0) (short : length (c.heap.users user).nickname < 118)
    (p₁ : Pool) (made : pool_alloc a.chunk a.block 60 c.heap.pool ≡ ret (b, p₁)) (ne : b ≢ 0) where
  contact-opens :
      contact_treeview_ondoubleclicked (some w) a depth user c ≡ ret (opened b user (poke b w p₁) c)
  unfolding contact_treeview_ondoubleclicked new_pchatbox
  contact-opens =
      let shallow : (depth == 1) ≡ false = ground arith in
      let z : (b == 0) ≡ false = ground arith in
      let k : pool_alloc a.chunk a.block (60 % 2 ^ 32) c.heap.pool ≡ ret (b, p₁) =
        ap (λ (n : ℕ). pool_alloc a.chunk a.block n c.heap.pool) (omega arith) ∙ made in
      let n : leb 118 (length (c.heap.users user).nickname) ≡ false = ground arith in
      rw (shallow, none, k, z, n) refl

  -- No chat with a user is open, and the list of waiting messages is in order. After a double click
  -- on the user has opened one and it has been closed, the next message of the user waits again,
  -- behind those that waited, with its user, and the icon blinks.
  pub close-waits :
      (m : Msg) (ms : List ℕ) (p₂ : Pool)
      → IsRing c.mnodes c.mlist ms
      → has m.addr (c.mlist ∷ ms) ≡ false
      → pool_free b (poke b w p₁) ≡ ret p₂
      → (d : Client) × ((contact_treeview_ondoubleclicked (some w) a depth user c
            >>= close_chatbox (pchatbox user) b
            >>= insert_chat_msg user m)
          ≡ ret d)
        × IsRing d.mnodes d.mlist (ms ++ m.addr ∷ [])
        × ((d.msgs m.addr).user_data ≡ user)
        × ((d.heap.users user).chatbox ≡ 0)
        × (d.events ≡ c.events ++ open_chat b user ∷ close_window b ∷ alert ∷ [])
  unfolding close_chatbox forget_chatbox insert_chat_msg
  close-waits m ms p₂ r new freed =
      let d₁ : Client = opened b user (poke b w p₁) c in
      let h = forget_chatbox (pchatbox user) d₁.heap in
      let d₂ : Client = log (close_window b ∷ []) (record d₁ { heap = record h { pool = p₂ } }) in
      let d₃ : Client = log (alert ∷ []) (record d₂ {
        msgs = update c.msgs m.addr (record m { user_data = user });
        mnodes = dlist_add_tail m.addr c.mlist (init_dlist_node m.addr c.mnodes);
      }) in
      (
        d₃,
        rw (contact-opens, freed, ==_refl user) refl,
        add_tail-IsRing (init_dlist_node m.addr c.mnodes) m.addr c.mlist ms
            (init_apart-IsRing c.mnodes m.addr c.mlist ms r new) new,
        rw (==_refl m.addr) refl,
        rw (==_refl user) refl,
        in_turn c.events _ _ _,
      )

  -- A message of a user waits and no chat with the user is open. A double click on the user opens
  -- one, in which the message is not shown; the next message of the user is shown there at once,
  -- and the click on the icon that takes the first out of the list and releases it only brings the
  -- chat to the front.
  pub overtaken_lost :
      (window : Option ℕ) (a₂ : Mallocs) (m : Msg) (m₁ : ℕ) (ms : List ℕ) (p₂ p₃ : Pool)
      → IsRing c.mnodes c.mlist (m₁ ∷ ms)
      → (c.msgs m₁).gpid ≡ 0
      → (c.msgs m₁).user_data ≡ user
      → release_msg m.addr m (poke b w p₁) ≡ ret p₂
      → release_msg m₁ (c.msgs m₁) p₂ ≡ ret p₃
      → (d : Client) × ((contact_treeview_ondoubleclicked (some w) a depth user c
            >>= insert_chat_msg user m
            >>= tray_icon_activated window a₂)
          ≡ ret d)
        × IsRing d.mnodes d.mlist ms
        × (d.events
            ≡ c.events
              ++ open_chat b user
                ∷ chat_line b (c.heap.users user).nickname (field data_at m)
                ∷ present b
                ∷ quiet ms)
        × (d.heap.pool ≡ p₃)
  unfolding insert_chat_msg
  overtaken_lost window a₂ m m₁ ms p₂ p₃ r g of shown freed =
      let d₁ : Client = opened b user (poke b w p₁) c in
      let nickname = (c.heap.users user).nickname in
      let d₂ : Client =
        log (chat_line b nickname (field data_at m) ∷ [])
          (record d₁ { heap = record d₁.heap { pool = p₂ } }) in
      let other : (b == 0) ≡ false = ground arith in
      let d₃ : Client = log (present b ∷ []) (record d₂ { mnodes = dlist_del m₁ d₂.mnodes }) in
      let there : (d₂.heap.users (c.msgs m₁).user_data).chatbox ≡ b = rw (of, ==_refl user) refl in
      let (e, rest) =
        click window a₂ d₂ d₃ m₁ ms p₃ r
          (show-present window a₂ (c.msgs m₁) (record d₂ { mnodes = dlist_del m₁ d₂.mnodes }) b g
            there ne)
          freed in
      (
        released m₁ ms p₃ d₃,
        rw (contact-opens, ==_refl user, other, shown) e,
        rest,
        in_row c.events _ _ _ (quiet ms),
        refl,
      )
