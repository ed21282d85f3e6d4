-- ===== src/Client/Loop.antt =====
-- `process_message_loop` of ifc/src/handle_message.c, and the protocol that `init_freechat` of
-- ifc/src/ifreechat.c registers.
pub mod Delivery
mod Tests
use i_free_chat.Base.{
  ℕ, ◌%◌, ◌^◌, Bool, true, false, ◌||◌, Option, none, some, List, [], ◌∷◌, ◌++◌, ◌==◌,
  if◌then◌else◌, update,
}
use i_free_chat.Text.{Bytes, codes}
use i_free_chat.MemPool.{Outcome, ret, deadlock, fault, ◌>>=◌, Pool, pool_free}
use i_free_chat.Registry.{Heap, Mallocs, alloc}
use i_free_chat.Feiq.{Packet, Msg, msg_bytes}
use i_free_chat.Feiq.Build.{feiq_build_packet}
use i_free_chat.Feiq.Parse.{feiq_parse_packet}
use i_free_chat.Feiq.Handle.{feiq_handle_msg}
use i_free_chat.Protocol.{
  Protocol, Callback, Callbacks, HandleMsg, call, protocol_register, protocol_parse_packet,
  protocol_handle_msg, protocol_reg_entry_callback, protocol_reg_exit_callback,
  protocol_reg_pchat_callback, protocol_reg_gchat_callback, protocol_reg_sendcheck_callback,
}
use i_free_chat.Client.{Client}
use i_free_chat.Socket.{udp_recv}
use i_free_chat.Client.Callbacks.{
  EntryMallocs, on_entry_callback, on_exit_callback, on_pchat_callback, on_gchat_callback,
  on_sendcheck_callback,
}

-- `proto->on_entry(user_data, msg)` and the like.
abbrev pub through : {S : Type 0} → Option (Callback S) → Callback S
through f m s = do g ← call f; g m s

module _ (utf8_validate : Bytes → Bool) (convert : Bytes → Option Bytes) where
  -- `feiq_handle_msg` on the callbacks that the message leads it to.
  pub feiq_handle : {S : Type 0} → HandleMsg S
  feiq_handle cbs =
      feiq_handle_msg utf8_validate convert (through cbs.on_entry) (through cbs.on_exit)
        (through cbs.on_pchat)

  -- The registrations of `init_freechat`; `blank` is what `malloc` returns for the protocol, whose
  -- name is printed after a registration that failed, too.
  unfoldable pub init_protocol :
      (iter_bytes fuel chunk_ptr data_ptr now : ℕ)
      → EntryMallocs
      → (blank : Option (Protocol Client)) → Outcome (Protocol Client)
  unfolding feiq_handle
  init_protocol iter_bytes fuel chunk_ptr data_ptr now a blank = do
    r ←
        protocol_register blank (some (codes "feiq")) (some (codes "1_lbt"))
          (some (feiq_build_packet chunk_ptr data_ptr now)) (some feiq_parse_packet)
          (some feiq_handle)
    p ← call r
    let p = protocol_reg_entry_callback p (some (on_entry_callback iter_bytes fuel a))
    let p = protocol_reg_exit_callback p (some on_exit_callback)
    let p = protocol_reg_pchat_callback p (some (on_pchat_callback fuel))
    let p = protocol_reg_gchat_callback p (some on_gchat_callback)
    ret (protocol_reg_sendcheck_callback p (some on_sendcheck_callback))

-- What the variable `pool` of the loop holds, which nothing sets: NULL, the address of the pool, or
-- another.
pub data Unset : Type 0 where
  null same wild : Unset

-- What surrounds one round: the batches that the listening thread puts while the loop waits, whether
-- the main thread has asked for the end by then, what `malloc` returns for the message, and what
-- its block and the unset variable hold.
pub record Round : Type 0 where
  pub batches : List (List ℕ)
  pub shutdown : Bool
  pub mallocs : Mallocs
  pub blank : Msg
  pub pool : Unset

-- `mem_pool_free(pool, pkt)`
abbrev pub release : Unset → (pkt : ℕ) → Client → Outcome Client
release null pkt c = ret c
release same pkt c = do
  p ← pool_free pkt c.heap.pool
  ret (record c { heap = record c.heap { pool = p } })
release wild pkt c = fault

-- How a round ends: the loop still waits, has left, or goes on.
pub data Turn : Type 0 where
  waiting : Turn
  finished : Client → Turn
  next : Client → Turn

-- The packets that the addresses stand for are `packets`.
module _ (proto : Protocol Client) (packets : ℕ → Packet) where
  -- A message that is parsed is handled; one that is not is only reported.
  pub handle_packet : (pkt : ℕ) → Msg → Client → Outcome Client
  handle_packet pkt blank c = do
    (ok, m) ← protocol_parse_packet proto (packets pkt) blank
    elim ok [ false ↦ ret c | true ↦ do (m, c) ← protocol_handle_msg proto m c; ret c ]

  -- A slot of the queue that was never written is no packet.
  unfoldable pub process_packet : Round → Option ℕ → Client → Outcome Client
  unfolding handle_packet
  process_packet r none c = fault
  process_packet r (some pkt) c = do
    (base, h) ← alloc r.mallocs msg_bytes c.heap
    c ←
        if pkt == 0 || base == 0
        then fault
        else handle_packet pkt (record r.blank { addr = base }) (record c { heap = h })
    release r.pool pkt c

  pub process_message : Round → Client → Outcome Turn
  unfolding process_packet
  process_message r c = do
    got ← udp_recv r.batches c.usock
    elim got [
      | none ↦ ret waiting
      | some (d, s) ↦ elim r.shutdown [
        | true ↦ ret (finished (record c { usock = s; shutdown = true }))
        | false ↦ do d ← process_packet r d (record c { usock = s }); ret (next d)
      ]
    ]

  -- The loop, for as many rounds as are given.
  pub process_message_loop : List Round → Client → Outcome Turn
  unfolding process_message
  process_message_loop [] c = ret (next c)
  process_message_loop (r ∷ rs) c = do
    t ← process_message r c
    elim t [
      | waiting ↦ ret waiting
      | finished d ↦ ret (finished d)
      | next d ↦ process_message_loop rs d
    ]
