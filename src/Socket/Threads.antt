-- ===== src/Socket/Threads.antt =====
-- What the sending thread does with the packets of its queue.
use i_free_chat.Base.{
  ℕ, ◌≡◌, refl, sym, ◌∙◌, ◌≢◌, true, false, some, List, [], ◌∷◌, ◌++◌, append_assoc, append-nil,
  arith, ◌==◌, length, All,
}
use i_free_chat.MemPool.{ret, Pool}
use i_free_chat.Queue.{Queue}
use i_free_chat.Queue.Refine.{Holds}
use i_free_chat.Queue.MsgQueue.{with_queue, msg_queue_get-Holds}
use i_free_chat.Feiq.{Packet, free_packet}
use i_free_chat.Socket.{World, Datagram, send_packet, send_round, send_rounds}

-- The addresses of packets, and what is sent of them.
abbrev pub addresses : List Packet → List ℕ
addresses [] = []
addresses (k ∷ ks) = k.addr ∷ addresses ks

abbrev pub datagram : Packet → Datagram
datagram k = record { ip = k.ip; port = k.port; bytes = k.payload }

abbrev pub datagrams : List Packet → List Datagram
datagrams [] = []
datagrams (k ∷ ks) = datagram k ∷ datagrams ks

-- The packets can be released one after another, which takes one pool to the other.
abbrev pub Frees : List Packet → Pool → Pool → Type 0
Frees [] p q = p ≡ q
Frees (k ∷ ks) p q = (r : Pool) × (free_packet k p ≡ ret r) × Frees ks r q

-- The world when the packet has been sent.
abbrev after : Packet → Queue → Pool → World → World
after k q p w = record w {
  pool = p;
  sock = record w.sock { send_que = with_queue w.sock.send_que q };
  sent = w.sent ++ datagram k ∷ [];
}

send_round-after :
    (w : World) (q : Queue) (k : Packet) (xs : List ℕ) (p : Pool)
    → w.sock.shutdown ≡ false
    → w.sock.send_que.que ≡ some q
    → Holds q (k.addr ∷ xs)
    → w.packets k.addr ≡ k
    → k.addr ≢ 0
    → free_packet k w.pool ≡ ret p
    → (q' : Queue) × (send_round [] w ≡ ret (some (true, after k q' p w))) × Holds q' xs
unfolding send_round send_packet
send_round-after w q k xs p going on holds there ne freed =
    let (q', e, rest) = msg_queue_get-Holds [] w.sock.send_que q k.addr xs on holds in
    let z : (k.addr == 0) ≡ false = ground arith in (q', rw (e, going, z, there, freed) refl, rest)

-- The sending thread, while it is not asked to end, sends the packets that its queue holds in their
-- order, each to its address, and empties the queue, where the packets can be released.
pub send_rounds-sent :
    (ks : List Packet) (w : World) (q : Queue) (p : Pool)
    → w.sock.shutdown ≡ false
    → w.sock.send_que.que ≡ some q
    → Holds q (addresses ks)
    → All (λ (k : Packet). (w.packets k.addr ≡ k) × (k.addr ≢ 0)) ks
    → Frees ks w.pool p
    → (w' : World) × (q' : Queue) × (send_rounds (length ks) w ≡ ret (some w'))
      × (w'.sent ≡ w.sent ++ datagrams ks)
      × (w'.pool ≡ p)
      × (w'.sock.send_que.que ≡ some q')
      × Holds q' []
unfolding send_rounds
send_rounds-sent [] w q p going on holds each frees =
    (w, q, refl, sym (append-nil w.sent), frees, on, holds)
send_rounds-sent (k ∷ ks) w q p going on holds each (r, freed, frees) =
    let (q', e, rest) =
      send_round-after w q k (addresses ks) r going on holds each.0.0 each.0.1 freed in
    let (w', q'', run, sent, pool, on', empty) =
      send_rounds-sent ks (after k q' r w) q' p going refl rest each.1 frees in
    (
      w',
      q'',
      rw e run,
      sent ∙ append_assoc w.sent (datagram k ∷ []) (datagrams ks),
      pool,
      on',
      empty,
    )
