-- ===== src/Protocol.antt =====
-- ifc/lib/protocol/protocol.c and ifc/include/protocol/protocol.h: the functions that a protocol is
-- registered with, over a state `S` that the callbacks change.
pub mod Dispatch
mod Tests
use i_free_chat.Base.{
  ℕ, ◌+◌, Bool, true, false, ◌||◌, Option, none, some, List, [], ◌∷◌, ◌++◌, ltb, if◌then◌else◌,
  length,
}
use i_free_chat.Base.Memory.{Memory, store_bytes}
use i_free_chat.Text.{Bytes}
use i_free_chat.MemPool.{Outcome, ret, deadlock, fault, ◌>>=◌, Pool}
use i_free_chat.Feiq.{Packet, Msg}

abbrev pub BuildPacket : Type 0
BuildPacket = Msg → Pool → Outcome (Option Packet × Pool)

abbrev pub ParsePacket : Type 0
ParsePacket = Packet → Msg → Outcome (Bool × Msg)

-- `callback_func`
abbrev pub Callback : Type 0 → Type 0
Callback S = Msg → S → Outcome S

-- The callbacks of `protocol_t`, `none` for NULL.
pub record Callbacks (S : Type 0) : Type 0 where
  pub on_entry : Option (Callback S)
  pub on_exit : Option (Callback S)
  pub on_pchat : Option (Callback S)
  pub on_gchat : Option (Callback S)
  pub on_sendcheck : Option (Callback S)

-- A message's `user_data` leads the function to the callbacks.
abbrev pub HandleMsg : Type 0 → Type 0
HandleMsg S = Callbacks S → Msg → S → Outcome (Msg × S)

-- `protocol_t` but its node. The two names are bytes of one region, at 0 and 32.
pub record Protocol (S : Type 0) : Type 0 where
  pub names : Memory
  pub build_func : Option BuildPacket
  pub parse_func : Option ParsePacket
  pub handle_func : Option (HandleMsg S)
  pub callbacks : Callbacks S

abbrev pub version_offset : ℕ
version_offset = 32

-- A call through a pointer.
abbrev pub call {ℓ} : {F : Type ℓ} → Option F → Outcome F
call none = fault
call (some f) = ret f

module _ {S : Type 0} where
  -- The copies of the names. One that runs into the callbacks, behind the three functions that
  -- are set afterwards, is a fault.
  unfoldable pub copy_names : (name version : Bytes) → Protocol S → Outcome (Protocol S)
  copy_names name version p =
      if ltb 75 (length name) || ltb 43 (length version)
      then fault
      else ret (record p {
        names =
            store_bytes version_offset (version ++ 0 ∷ []) (store_bytes 0 (name ++ 0 ∷ []) p.names);
      })

  -- `protocol_register`; `none` is the -1.
  unfoldable pub protocol_register :
      Option (Protocol S)
      → (name version : Option Bytes) → Option BuildPacket
      → Option ParsePacket
      → Option (HandleMsg S)
      → Outcome (Option (Protocol S))
  unfolding copy_names
  protocol_register (some p) (some name) (some version) (some build) (some parse) handle = do
    p ← copy_names name version p
    ret (some (record p { build_func = some build; parse_func = some parse; handle_func = handle }))
  protocol_register _ _ _ _ _ _ = ret none

  pub protocol_build_packet : Protocol S → Msg → Pool → Outcome (Option Packet × Pool)
  protocol_build_packet p m pool = do f ← call p.build_func; f m pool

  unfoldable pub protocol_parse_packet : Protocol S → Packet → Msg → Outcome (Bool × Msg)
  protocol_parse_packet p k m = do f ← call p.parse_func; f k m

  unfoldable pub protocol_handle_msg : Protocol S → Msg → S → Outcome (Msg × S)
  protocol_handle_msg p m s = do f ← call p.handle_func; f p.callbacks m s

  unfoldable pub protocol_reg_entry_callback : Protocol S → Option (Callback S) → Protocol S
  protocol_reg_entry_callback p f = record p { callbacks = record p.callbacks { on_entry = f } }

  unfoldable pub protocol_reg_exit_callback : Protocol S → Option (Callback S) → Protocol S
  protocol_reg_exit_callback p f = record p { callbacks = record p.callbacks { on_exit = f } }

  unfoldable pub protocol_reg_pchat_callback : Protocol S → Option (Callback S) → Protocol S
  protocol_reg_pchat_callback p f = record p { callbacks = record p.callbacks { on_pchat = f } }

  unfoldable pub protocol_reg_gchat_callback : Protocol S → Option (Callback S) → Protocol S
  protocol_reg_gchat_callback p f = record p { callbacks = record p.callbacks { on_gchat = f } }

  unfoldable pub protocol_reg_sendcheck_callback : Protocol S → Option (Callback S) → Protocol S
  protocol_reg_sendcheck_callback p f = record p {
    callbacks = record p.callbacks { on_sendcheck = f };
  }
