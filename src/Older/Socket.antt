-- ===== src/Older/Socket.antt =====
-- src/udp_socket.c: the socket, and the thread that takes the packets from it; with it, the start of
-- the program in src/ifreechat.c.
pub mod Closed
use i_free_chat.Base.{
  ℕ, ◌+◌, Bool, true, false, not, ◌&&◌, ◌||◌, Option, none, some, List, [], ◌∷◌, ◌==◌,
  if◌then◌else◌,
}
use i_free_chat.Text.{Bytes}
use i_free_chat.Dlist.{init_dlist_node}
use i_free_chat.Blowfish.{Schedule}
use i_free_chat.MemPool.{Outcome, ret, fault, ◌>>=◌}
use i_free_chat.Socket.{Syscalls}
use i_free_chat.Older.{Ifreechat}
use i_free_chat.Older.Buddy.{Blocks}
use i_free_chat.Older.Process.{process_message}

-- `udp_socket_t`, and `ifc->usock` with the descriptors that are open and the blocks that are taken.
-- `listening` is whether the thread runs.
pub record Listener : Type 0 where
  pub addr : ℕ
  pub sock : ℕ
  pub shutdown : Bool

pub record Network : Type 0 where
  pub usock : Option Listener
  pub listening : Bool
  pub descriptors : List ℕ
  pub blocks : List ℕ

-- `close` and `free`
abbrev pub remove : ℕ → List ℕ → List ℕ
remove a [] = []
remove a (x ∷ xs) = if a == x then xs else x ∷ remove a xs

-- The block is what `malloc` returns, 0 for NULL. What `enable_socket_reuse` returns is not defined
-- in the source; `sys.reuse` is whether it happens not to be negative. The flag is whether 0 is
-- returned.
pub init_udp_socket : (block : ℕ) → Syscalls → Network → Bool × Network
init_udp_socket block sys n = if block == 0 then (false, n) else elim sys.socket [
  | none ↦ (false, record n { blocks = block ∷ n.blocks })
  | some fd ↦
      if not sys.bind || not (sys.reuse && (sys.broadcast && sys.multicast))
      then (false, record n { blocks = block ∷ n.blocks })
      else (
        true,
        record n {
          usock = some (record { addr = block; sock = fd; shutdown = false });
          descriptors = fd ∷ n.descriptors;
          blocks = block ∷ n.blocks;
        },
      )
]

-- `created` is whether the thread could be made. Without a socket NULL is used.
pub udp_start_listen : (created : Bool) → Network → Outcome (Bool × Network)
udp_start_listen created n = elim n.usock [
  | none ↦ fault
  | some s ↦
      ret (created, record n { usock = some (record s { shutdown = false }); listening = created })
]

-- `joined` is whether the thread could be waited for. The pointer to the released block stays.
pub udp_stop_listen : (joined : Bool) → Network → Outcome (Bool × Network)
udp_stop_listen joined n = elim n.usock [
  | none ↦ fault
  | some s ↦
      let n' = record n { usock = some (record s { shutdown = true }) } in
      if s.shutdown
      then ret (false, n)
      else if not joined
      then ret (false, n')
      else ret (
        true,
        record n' {
          listening = false;
          descriptors = remove s.sock n.descriptors;
          blocks = remove s.addr n.blocks;
        },
      )
]

-- A packet that `recvfrom` gives, with what `malloc` and `time` return while it is processed.
pub record Received : Type 0 where
  pub ip : Bytes
  pub port : ℕ
  pub payload : Bytes
  pub base : ℕ
  pub blocks : Blocks
  pub now : ℕ

module _ (utf8_validate : Bytes → Bool) (convert : Bytes → Option Bytes) (tables : Schedule)
    (fuel : ℕ) where
  -- One event of `epoll_wait`; an empty packet is passed over.
  pub listen_event : Received → Ifreechat → Outcome Ifreechat
  listen_event k c = elim k.payload [
    | [] ↦ ret c
    | _ ↦
        process_message utf8_validate convert tables fuel k.now k.base k.blocks k.ip k.port
          k.payload c
  ]

  pub listen_events : List Received → Ifreechat → Outcome Ifreechat
  listen_events [] c = ret c
  listen_events (k ∷ ks) c = do c ← listen_event k c; listen_events ks c

  -- The rounds of the loop until `shutdown` is set.
  pub udp_listen_routine : List (List Received) → Ifreechat → Outcome Ifreechat
  udp_listen_routine [] c = ret c
  udp_listen_routine (r ∷ rs) c = do c ← listen_events r c; udp_listen_routine rs c

-- `init_ifreechat` with a block from `malloc`: the six lists are empty.
pub init_ifreechat : Ifreechat → Ifreechat
init_ifreechat c = record c {
  pchatbox_nodes = init_dlist_node c.pchatbox c.pchatbox_nodes;
  gchatbox_nodes = init_dlist_node c.gchatbox c.gchatbox_nodes;
  unodes = init_dlist_node c.ulist c.unodes;
  gnodes = init_dlist_node c.glist c.gnodes;
  cnodes = init_dlist_node c.clist c.cnodes;
  mnodes = init_dlist_node c.mlist c.mnodes;
}
