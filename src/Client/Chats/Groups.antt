-- ===== src/Client/Chats/Groups.antt =====
-- The chats of groups: the entry whose name lies over its chat, and the block that goes back to the
-- wrong allocator.
use i_free_chat.Base.{
  ℕ, suc, ◌+◌, ◌-◌, ◌%◌, ◌^◌, ◌<◌, ◌≡◌, refl, ◌∙◌, ◌≢◌, inl, inr, Bool, true, false, Option, some,
  [], ◌∷◌, ◌++◌, arith, ◌==◌, update, length,
}
use i_free_chat.Base.Memory.{Memory, load32, store32, store_bytes, store32_apart, store_bytes_apart}
use i_free_chat.Text.{Bytes}
use i_free_chat.Dlist.{init_dlist_node}
use i_free_chat.MemPool.{ret, fault, deadlock, Pool, pool_alloc, poke}
use i_free_chat.MemPool.Free.{IsForeign, pool_free_foreign}
use i_free_chat.MemPool.Alloc.{pool_alloc_locked}
use i_free_chat.Registry.{Heap, Mallocs}
use i_free_chat.Registry.Group.{new_group, new_group_entry, write_group}
use i_free_chat.Feiq.{Packet}
use i_free_chat.Protocol.{Protocol}
use i_free_chat.Client.{Client, close_window}
use i_free_chat.Client.Views.{log}
use i_free_chat.Client.Waiting.{new_pchatbox}
use i_free_chat.Client.Loop.{Round, process_packet}
use i_free_chat.Client.Chats.{
  chatbox_at, gchatbox, forget_chatbox, close_chatbox, contact_treeview_ondoubleclicked,
  group_treeview_ondoubleclicked,
}

write_group-first :
    (e x : ℕ) (name info : Bytes) (gpid : ℕ) (p : Pool)
    → (write_group e (x ∷ name) info gpid p).mem (e + 16) ≡ x
unfolding write_group store_bytes
write_group-first e x name info gpid p =
    let head : Memory =
      store32 (e + 4) (e + 16 + 1 + suc (length name)) (store32 e (e + 16) p.mem) in
    let first : Memory = update head (e + 16) x in
    store32_apart (e + 32) _ (e + 16) _ (inl (omega arith))
    ∙ store32_apart (e + 28) _ (e + 16) _ (inl (omega arith))
    ∙ store32_apart (e + 24) _ (e + 16) _ (inl (omega arith))
    ∙ store32_apart (e + 20) _ (e + 16) _ (inl (omega arith))
    ∙ store32_apart (e + 8) _ (e + 16) _ (inr (omega arith))
    ∙ store_bytes_apart (e + 16 + 1 + suc (length name)) (info ++ 0 ∷ []) (e + 16)
        (store_bytes (e + 16 + 1) (name ++ 0 ∷ []) first) (inl (omega arith))
    ∙ store_bytes_apart (e + 16 + 1) (name ++ 0 ∷ []) (e + 16) first (inl (omega arith))
    ∙ ground arith

word-first : (m : Memory) (a : ℕ) → 0 < m a → load32 m a ≢ 0
unfolding load32
word-first m a pos z = omega (arith, z, pos)

-- The client whose heap is `h`.
abbrev on_heap : Heap → Client → Client
on_heap h c = record c { heap = h }

-- The pool gives a block in which a group is made whose name is not empty. Then the pointer to the
-- chat of the group starts with the first character of the name, so that it is not NULL though no
-- chat is open, and a double click on the group takes what it points to for a chat and opens none.
pub click-name :
    (loads : Bool) (malloced : ℕ) (a : Mallocs) (x : ℕ) (name info : Bytes) (gpid e : ℕ) (p : Pool)
    (h : Heap) (c : Client)
    → 0 < x
    → pool_alloc a.chunk a.block ((1 + length (x ∷ name) + (1 + length info) + 36) % 2 ^ 32) h.pool
      ≡ ret (e, p)
    → e ≢ 0
    → (h' : Heap) × (new_group_entry a (x ∷ name) info gpid h ≡ ret (e, h'))
      × (h'.pool.mem (e + chatbox_at) ≡ x)
      × (load32 h'.pool.mem (e + chatbox_at) ≢ 0)
      × (group_treeview_ondoubleclicked loads malloced e (on_heap h' c) ≡ fault)
unfolding new_group_entry group_treeview_ondoubleclicked
click-name loads malloced a x name info gpid e p h c pos made ne =
    let h' : Heap = record h {
      pool = write_group e (x ∷ name) info gpid p;
      groups = update h.groups e (new_group e (x ∷ name) gpid);
      gnodes = init_dlist_node e h.gnodes;
      mnodes = init_dlist_node e h.mnodes;
    } in
    let first : h'.pool.mem (e + 16) ≡ x = write_group-first e x name info gpid p in
    let word = word-first h'.pool.mem (e + 16) (omega (arith, pos, first)) in
    let other : (e == 0) ≡ false = ground arith in
    let set : (load32 h'.pool.mem (e + 16) == 0) ≡ false = ground (arith, word) in
    (h', rw (made, other) refl, first, word, rw set refl)

-- Closing the chat of a group, whose block no chunk of the pool holds, since it came from `malloc`,
-- leaves the pool locked: a double click on a user without a chat never ends, and neither does the
-- handling of the next packet.
pub close-locks :
    (window : Option ℕ) (a : Mallocs) (depth user chatbox g pkt : ℕ) (proto : Protocol Client)
    (packets : ℕ → Packet) (r : Round) (c : Client)
    → chatbox ≢ 0
    → c.heap.pool.locked ≡ false
    → IsForeign c.heap.pool (chatbox - 4)
    → (c.heap.users user).chatbox ≡ 0
    → depth ≢ 1
    → (d : Client) × (close_chatbox (gchatbox g) chatbox c ≡ ret d)
      × (d.events ≡ c.events ++ close_window chatbox ∷ [])
      × (contact_treeview_ondoubleclicked window a depth user d ≡ deadlock)
      × (process_packet proto packets r (some pkt) d ≡ deadlock)
unfolding close_chatbox forget_chatbox contact_treeview_ondoubleclicked new_pchatbox process_packet
close-locks window a depth user chatbox g pkt proto packets r c ne free foreign closed deep =
    let q : Pool = record (poke (g + 16) 0 c.heap.pool) { locked = true } in
    let freed = (pool_free_foreign chatbox (poke (g + 16) 0 c.heap.pool) 0 0 0 ne free foreign).0 in
    let d : Client =
      log (close_window chatbox ∷ []) (record c { heap = record c.heap { pool = q } }) in
    let shallow : (depth == 1) ≡ false = ground arith in
    let stuck : (n : ℕ) (m : Mallocs) → pool_alloc m.chunk m.block n q ≡ deadlock =
      (λ n m. pool_alloc_locked m.chunk m.block n q refl) in
    (d, rw freed refl, refl, rw (shallow, closed, stuck) refl, rw stuck refl)
