-- ===== src/Client/Loop/Delivery.antt =====
-- A private message that arrives waits in the list.
use i_free_chat.Base.{
  ℕ, ◌<◌, length, ◌%◌, ◌^◌, ◌≡◌, refl, ap, ◌∙◌, ◌≢◌, Bool, true, false, Option, some, List, [], ◌∷◌,
  ◌++◌, arith, ◌==◌, ==_refl, has, update,
}
use i_free_chat.Base.Memory.{str_at-read_bytes}
use i_free_chat.Text.{Bytes}
use i_free_chat.Address.{ip2str, length-ip2str, has-ip2str}
use i_free_chat.Feiq.Parse.Steps.{IsField, IsPart}
use i_free_chat.Feiq.Exchange.{sent_text, sent_text-read}
use i_free_chat.Feiq.Handle.Entry.{field-str_at}
use i_free_chat.Dlist.{dlist_add_tail, init_dlist_node}
use i_free_chat.Dlist.Ring.{IsRing, add_tail-IsRing, init_apart-IsRing}
use i_free_chat.MemPool.{ret, Pool, pool_alloc}
use i_free_chat.Queue.{Queue}
use i_free_chat.Queue.Refine.{Holds}
use i_free_chat.Queue.MsgQueue.{with_queue, msg_queue_get-Holds}
use i_free_chat.Registry.User.{user_find_entry}
use i_free_chat.Feiq.{Packet, Msg, field, data_at, ip_at}
use i_free_chat.Feiq.Parse.{feiq_parse_packet}
use i_free_chat.Feiq.Handle.Chat.{handle-pchat}
use i_free_chat.Protocol.{Protocol, protocol_parse_packet, protocol_handle_msg}
use i_free_chat.Client.{Client, alert}
use i_free_chat.Socket.{UdpSocket, udp_recv}
use i_free_chat.Client.Views.{insert_chat_msg, log}
use i_free_chat.Client.Callbacks.{on_pchat_callback}
use i_free_chat.Client.Loop.{
  feiq_handle, Round, null, next, handle_packet, process_packet, process_message, through,
}

-- A message that waits.
abbrev pub kept : (m : Msg) (user : ℕ) → Client → Client
kept m user c = log (alert ∷ []) (record c {
  msgs = update c.msgs m.addr (record m { user_data = user });
  mnodes = dlist_add_tail m.addr c.mlist (init_dlist_node m.addr c.mnodes);
})

callback-kept :
    (fuel : ℕ) (m : Msg) (c : Client) (user : ℕ)
    → user_find_entry fuel c.ulist (field ip_at m) c.heap ≡ some (some user)
    → (c.heap.users user).chatbox ≡ 0
    → on_pchat_callback fuel m c ≡ ret (kept m user c)
unfolding on_pchat_callback insert_chat_msg
callback-kept fuel m c user e z = rw (e, z) refl

module _ (utf8_validate : Bytes → Bool) (convert : Bytes → Option Bytes) (proto : Protocol Client)
    (packets : ℕ → Packet) (fuel : ℕ) (parses : proto.parse_func ≡ some feiq_parse_packet)
    (handles : proto.handle_func ≡ some (feiq_handle utf8_validate convert))
    (calls : proto.callbacks.on_pchat ≡ some (on_pchat_callback fuel)) where
  handle-kept :
      (m : Msg) (c : Client) (user : ℕ)
      → m.command ≡ 0x120
      → utf8_validate (field data_at m) ≡ true
      → user_find_entry fuel c.ulist (field ip_at m) c.heap ≡ some (some user)
      → (c.heap.users user).chatbox ≡ 0
      → protocol_handle_msg proto m c ≡ ret (m, kept m user c)
  unfolding protocol_handle_msg feiq_handle
  handle-kept m c user cmd valid e z =
      rw
        (
          handles,
          handle-pchat utf8_validate convert (through proto.callbacks.on_entry)
              (through proto.callbacks.on_exit) (through proto.callbacks.on_pchat) m c cmd valid,
          calls,
          callback-kept fuel m c user e z,
        )
        refl

  module _ (r : Round) (c : Client) (going : r.shutdown ≡ false) (unset : r.pool ≡ null)
      (base pkt : ℕ) (p : Pool) (m : Msg) (user : ℕ)
      (made : pool_alloc r.mallocs.chunk r.mallocs.block 1336 c.heap.pool ≡ ret (base, p))
      (ne : base ≢ 0) (there : pkt ≢ 0)
      (parsed : feiq_parse_packet (packets pkt) (record r.blank { addr = base }) ≡ ret (true, m))
      (at : m.addr ≡ base) (cmd : m.command ≡ 0x120)
      (valid : utf8_validate (field data_at m) ≡ true)
      (known : user_find_entry fuel c.ulist (field ip_at m) (record c.heap { pool = p })
        ≡ some (some user))
      (closed : (c.heap.users user).chatbox ≡ 0) where
    -- The client behind the allocation, when `s` is left of the socket.
    abbrev got : UdpSocket → Client
    got s = record c { usock = s; heap = record c.heap { pool = p } }

    packet-kept :
        (s : UdpSocket)
        → process_packet proto packets r (some pkt) (record c { usock = s })
          ≡ ret (kept m user (got s))
    unfolding process_packet handle_packet protocol_parse_packet
    packet-kept s =
        let k : pool_alloc r.mallocs.chunk r.mallocs.block (1336 % 2 ^ 32) c.heap.pool
            ≡ ret (base, p) =
          ap (λ (n : ℕ). pool_alloc r.mallocs.chunk r.mallocs.block n c.heap.pool) (omega arith)
          ∙ made in
        let a : (base == 0) ≡ false = ground arith in
        let b : (pkt == 0) ≡ false = ground arith in
        rw (k, a, b, parses, parsed, handle-kept m (got s) user cmd valid known closed, unset) refl

    process-kept :
        (q : Queue) (ds : List ℕ) (ms : List ℕ)
        → c.usock.recv_que.que ≡ some q
        → Holds q (pkt ∷ ds)
        → IsRing c.mnodes c.mlist ms
        → has base (c.mlist ∷ ms) ≡ false
        → (d : Client) × (q' : Queue) × (process_message proto packets r c ≡ ret (next d))
          × IsRing d.mnodes d.mlist (ms ++ base ∷ [])
          × (d.msgs base ≡ record m { user_data = user })
          × (d.events ≡ c.events ++ alert ∷ [])
          × (d.usock.recv_que.que ≡ some q')
          × Holds q' ds
    unfolding process_message udp_recv
    process-kept q ds ms there_q holds ring out =
        let (q', e, rest) = msg_queue_get-Holds r.batches c.usock.recv_que q pkt ds there_q holds in
        let s : UdpSocket = record c.usock { recv_que = with_queue c.usock.recv_que q' } in
        (
          kept m user (got s),
          q',
          rw (e, going, packet-kept s) refl,
          rw at (
              add_tail-IsRing (init_dlist_node base c.mnodes) base c.mlist ms
                (init_apart-IsRing c.mnodes base c.mlist ms ring out) out),
          rw (at, ==_refl base) refl,
          refl,
          refl,
          rest,
        )

  -- One round of the loop, where the next packet of the queue is one that `feiq_sendmsg_pkt` prints,
  -- its text is UTF-8 and its address that of a known user with no chat open, and the pool gives a
  -- block for the message: the message joins the end of the list of waiting messages, with its
  -- user and the text, the icon starts to blink, and the packet has left the queue. Here the
  -- protocol has its functions and callbacks, the numbers and texts fit their fields as for
  -- `feiq_sendmsg_pkt`, and the unset variable holds NULL.
  pub sent-kept :
      (r : Round) (c : Client) (base pkt : ℕ) (p : Pool) (user : ℕ) (mac : Bytes) (a i : ℕ)
      (u h s : Bytes) (q : Queue) (ds ms : List ℕ)
      → r.shutdown ≡ false
      → r.pool ≡ null
      → pool_alloc r.mallocs.chunk r.mallocs.block 1336 c.heap.pool ≡ ret (base, p)
      → base ≢ 0
      → pkt ≢ 0
      → (packets pkt).size ≡ length (packets pkt).payload
      → (packets pkt).payload ≡ sent_text a mac i u h s
      → IsPart mac
      → a < 2 ^ 16
      → i < 2 ^ 31
      → IsField u
      → IsField h
      → length mac < 32
      → length u < 32
      → length h < 32
      → length s < 1024
      → has 0 s ≡ false
      → utf8_validate s ≡ true
      → user_find_entry fuel c.ulist (ip2str (packets pkt).ip) (record c.heap { pool = p })
        ≡ some (some user)
      → (c.heap.users user).chatbox ≡ 0
      → c.usock.recv_que.que ≡ some q
      → Holds q (pkt ∷ ds)
      → IsRing c.mnodes c.mlist ms
      → has base (c.mlist ∷ ms) ≡ false
      → (d : Client) × (q' : Queue) × (process_message proto packets r c ≡ ret (next d))
        × IsRing d.mnodes d.mlist (ms ++ base ∷ [])
        × ((d.msgs base).user_data ≡ user)
        × (field data_at (d.msgs base) ≡ s)
        × (d.events ≡ c.events ++ alert ∷ [])
        × (d.usock.recv_que.que ≡ some q')
        × Holds q' ds
  unfolding field
  sent-kept r c base pkt p user mac a i u h s q ds ms going unset made ne there es ep pm ba bi fu fh
        lm lu lh ls z valid known closed on_q holds ring out =
      let (m, e, carries, at) =
        sent_text-read mac a i u h s pm ba bi fu fh lm lu lh ls (packets pkt)
          (record r.blank { addr = base }) es ep in
      let text : field data_at m ≡ s =
        field-str_at data_at m s (str_at-read_bytes s m.text data_at (carries.9)) z ls in
      let from : field ip_at m ≡ ip2str (packets pkt).ip =
        field-str_at ip_at m (ip2str (packets pkt).ip) (carries.5) (has-ip2str (packets pkt).ip)
          (omega (arith, length-ip2str (packets pkt).ip)) in
      let (d, q', run, ring', stored, events, on, rest) =
        process-kept r c going unset base pkt p m user made ne there e at (carries.3)
          (ap utf8_validate text ∙ valid)
          (ap (λ (t : Bytes). user_find_entry fuel c.ulist t (record c.heap { pool = p })) from
            ∙ known)
          closed q ds ms on_q holds ring out in
      (
        d,
        q',
        run,
        ring',
        ap (λ (n : Msg). n.user_data) stored,
        ap (λ (n : Msg). field data_at n) stored ∙ text,
        events,
        on,
        rest,
      )
