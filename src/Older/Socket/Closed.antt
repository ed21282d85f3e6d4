-- ===== src/Older/Socket/Closed.antt =====
-- What is left of a socket when it is stopped.
use i_free_chat.Base.{ℕ, ◌≡◌, ◌≢◌, refl, true, false, some, ◌∷◌, arith, ◌==◌, ==_refl}
use i_free_chat.MemPool.{ret}
use i_free_chat.Socket.{Syscalls}
use i_free_chat.Older.Socket.{Listener, Network, init_udp_socket, udp_start_listen, udp_stop_listen}

-- A socket that is made, listens, and is stopped, where every call succeeds, leaves the open
-- descriptors and the taken blocks as they were; a second stop returns -1 and changes nothing.
pub stop-start-init :
    (block fd : ℕ) (n : Network)
    → block ≢ 0
    → (let sys : Syscalls = record {
      socket = some fd;
      bind = true;
      reuse = true;
      broadcast = true;
      multicast = true;
    } in
        (a b d : Network) × (init_udp_socket block sys n ≡ (true, a))
        × (udp_start_listen true a ≡ ret (true, b))
        × (udp_stop_listen true b ≡ ret (true, d))
        × (d.descriptors ≡ n.descriptors)
        × (d.blocks ≡ n.blocks)
        × (udp_stop_listen true d ≡ ret (false, d)))
unfolding init_udp_socket udp_start_listen udp_stop_listen
stop-start-init block fd n ne =
    let real : (block == 0) ≡ false = ground arith in
    let s : Listener = record { addr = block; sock = fd; shutdown = false } in
    let made = record n {
      usock = some s;
      descriptors = fd ∷ n.descriptors;
      blocks = block ∷ n.blocks;
    } in
    let stopped = record n { usock = some (record s { shutdown = true }); listening = false } in
    (
      made,
      record made { listening = true },
      stopped,
      rw real,
      refl,
      rw (==_refl fd, ==_refl block),
      refl,
      refl,
      refl,
    )

-- Whatever the system refuses, a socket that is not made leaves the descriptors as they were, and
-- its block, if `malloc` gave one, is never released.
pub init_udp_socket-leaks :
    (block : ℕ) (sys : Syscalls) (n m : Network)
    → block ≢ 0
    → init_udp_socket block sys n ≡ (false, m)
    → (m.descriptors ≡ n.descriptors) × (m.blocks ≡ block ∷ n.blocks) × (m.usock ≡ n.usock)
unfolding init_udp_socket
init_udp_socket-leaks block sys n m ne e = ground arith
