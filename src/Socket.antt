-- ===== src/Socket.antt =====
-- ifc/lib/net/udp_socket.c: the socket with its two queues, and the two threads that serve it.
pub mod Threads
mod Tests
use i_free_chat.Base.{
  ℕ, zero, suc, ◌+◌, Bool, true, false, ◌||◌, ◌&&◌, Option, none, some, List, [], ◌∷◌, ◌++◌, ◌==◌,
  if◌then◌else◌, not, length, update,
}
use i_free_chat.Text.{Bytes}
use i_free_chat.MemPool.{Outcome, ret, deadlock, fault, ◌>>=◌, Pool, pool_alloc, pool_free}
use i_free_chat.Queue.MsgQueue.{
  MsgQueue, create_msg_queue, msg_queue_put, msg_queue_get, destroy_msg_queue,
}
use i_free_chat.Feiq.{Packet, new_packet, free_packet}

-- `udp_socket_t`, with `shutdown` as a flag.
pub record UdpSocket : Type 0 where
  pub addr : ℕ
  pub fd : ℕ
  pub shutdown : Bool
  pub recv_que : MsgQueue
  pub send_que : MsgQueue

-- `sizeof(udp_socket_t)`
abbrev socket_bytes : ℕ
socket_bytes = 64

-- What the calls of the system return while a socket is made: the descriptor, and whether the
-- address, its reuse, the broadcasts and the multicasts are granted.
pub record Syscalls : Type 0 where
  pub socket : Option ℕ
  pub bind : Bool
  pub reuse : Bool
  pub broadcast : Bool
  pub multicast : Bool

-- What `malloc` returns for the socket and, twice for each, for the two queues.
pub record SocketMallocs : Type 0 where
  pub chunk : ℕ
  pub block : ℕ
  pub recv_chunk : ℕ
  pub recv_block : ℕ
  pub recv_chunk' : ℕ
  pub recv_block' : ℕ
  pub send_chunk : ℕ
  pub send_block : ℕ
  pub send_chunk' : ℕ
  pub send_block' : ℕ

-- A queue that is NULL.
abbrev or_null : Option MsgQueue → MsgQueue
or_null none = record { addr = 0; que = none }
or_null (some q) = q

-- The end of `create_udp_socket`.
pub with_queues : SocketMallocs → (base fd que_size : ℕ) → Pool → Outcome (UdpSocket × Pool)
with_queues a base fd que_size p = do
  (r, p) ← create_msg_queue a.recv_chunk a.recv_block a.recv_chunk' a.recv_block' que_size p
  (s, p) ← create_msg_queue a.send_chunk a.send_block a.send_chunk' a.send_block' que_size p
  ret (
    record { addr = base; fd = fd; shutdown = false; recv_que = or_null r; send_que = or_null s },
    p,
  )

-- The socket, the descriptors that have been closed, and the pool. A refused address leaves the
-- block allocated; a refused option releases it, and then reads the descriptor from it.
pub create_udp_socket :
    Syscalls → SocketMallocs → (que_size : ℕ) → Pool → Outcome (Option UdpSocket × List ℕ × Pool)
unfolding with_queues
create_udp_socket sys a que_size p = do
  (base, p) ← pool_alloc a.chunk a.block socket_bytes p
  elim (base == 0) [
    | true ↦ ret (none, [], p)
    | false ↦ elim sys.socket [
      | none ↦ ret (none, [], p)
      | some fd ↦
          if not sys.bind
          then ret (none, fd ∷ [], p)
          else if not (sys.reuse && (sys.broadcast && sys.multicast))
          then (pool_free base p >>= (λ p. ret (none, fd ∷ [], p)))
          else (with_queues a base fd que_size p >>= (λ (s, p). ret (some s, [], p)))
    ]
  ]

-- `udp_start`, by whether the two threads could be made; the flag is whether 0 is returned.
pub udp_start : (listen send : Bool) → UdpSocket → Bool × UdpSocket
udp_start false send s = (false, record s { shutdown = false })
udp_start true false s = (false, record s { shutdown = true })
udp_start true true s = (true, record s { shutdown = false })

-- `udp_stop`, where the two threads end; `none` is the -1. The queues are released before the
-- threads are waited for.
pub udp_stop : UdpSocket → Pool → Outcome (Option Pool)
udp_stop s p = if s.shutdown then ret none else do
  p ← destroy_msg_queue s.recv_que p
  p ← destroy_msg_queue s.send_que p
  p ← pool_free s.addr p
  ret (some p)

pub udp_send : UdpSocket → (pkt : ℕ) → Outcome UdpSocket
udp_send s pkt = do q ← msg_queue_put s.send_que pkt; ret (record s { send_que = q })

-- The batches are what the listening thread puts between one poll and the next.
unfoldable pub udp_recv : List (List ℕ) → UdpSocket → Outcome (Option (Option ℕ × UdpSocket))
udp_recv batches s = do
  r ← msg_queue_get batches s.recv_que
  elim r [ none ↦ ret none | some (d, q) ↦ ret (some (d, record s { recv_que = q })) ]

-- A datagram, and the address that it comes from or goes to.
pub record Datagram : Type 0 where
  pub ip : ℕ
  pub port : ℕ
  pub bytes : Bytes

-- What the threads share: the pool, the socket, the packets at their addresses, and what was sent.
pub record World : Type 0 where
  pub pool : Pool
  pub sock : UdpSocket
  pub packets : ℕ → Packet
  pub sent : List Datagram

-- One datagram in the loop of `udp_listen_routine`. One that has no bytes is dropped; where the pool
-- gives no packet, NULL goes into the queue.
pub listen_datagram : (chunk_ptr data_ptr now : ℕ) → Datagram → World → Outcome World
listen_datagram chunk_ptr data_ptr now d w = if length d.bytes == 0 then ret w else do
  (k, p) ← new_packet chunk_ptr data_ptr now d.ip d.port d.bytes (length d.bytes) w.pool
  elim k [
    | none ↦ do
      q ← msg_queue_put w.sock.recv_que 0
      ret (record w { pool = p; sock = record w.sock { recv_que = q } })
    | some k ↦ do
      q ← msg_queue_put w.sock.recv_que k.addr
      ret (record w {
        pool = p;
        sock = record w.sock { recv_que = q };
        packets = update w.packets k.addr k;
      })
  ]

-- The packet is sent, whether `sendto` reports an error or not, and released.
pub send_packet : Option ℕ → World → Outcome World
send_packet none w = fault
send_packet (some pkt) w =
    let k = w.packets pkt in
    if pkt == 0 then fault else do
      p ← free_packet k w.pool
      ret (record w {
        pool = p;
        sent = w.sent ++ record { ip = k.ip; port = k.port; bytes = k.payload } ∷ [];
      })

-- One round of `udp_send_routine`: `none` waits, and the flag is whether it goes on.
pub send_round : List (List ℕ) → World → Outcome (Option (Bool × World))
unfolding send_packet
send_round batches w = do
  r ← msg_queue_get batches w.sock.send_que
  elim r [
    | none ↦ ret none
    | some (d, q) ↦
        let w' = record w { sock = record w.sock { send_que = q } } in
        if w.sock.shutdown
        then ret (some (false, w'))
        else do w'' ← send_packet d w'; ret (some (true, w''))
  ]

-- Rounds that find a packet each, up to the number given or the one that ends the thread.
pub send_rounds : ℕ → World → Outcome (Option World)
unfolding send_round
send_rounds zero w = ret (some w)
send_rounds (suc n) w = do
  r ← send_round [] w
  elim r [ none ↦ ret none | some (false, w') ↦ ret (some w') | some (true, w') ↦ send_rounds n w' ]
