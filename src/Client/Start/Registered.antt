-- ===== src/Client/Start/Registered.antt =====
-- The protocol that the start of the program registers, and its callbacks.
use i_free_chat.Base.{ℕ, ◌≡◌, refl, inl, Bool, true, Option, some, [], ◌∷◌, ◌++◌, arith}
use i_free_chat.Base.Memory.{store_bytes, str_at, str_at-store_bytes, str_at-store_apart}
use i_free_chat.Text.{Bytes, codes}
use i_free_chat.MemPool.{ret}
use i_free_chat.Feiq.Build.{feiq_build_packet}
use i_free_chat.Feiq.Parse.{feiq_parse_packet}
use i_free_chat.Protocol.{
  Protocol, copy_names, protocol_register, protocol_reg_entry_callback, protocol_reg_exit_callback,
  protocol_reg_pchat_callback, protocol_reg_gchat_callback, protocol_reg_sendcheck_callback,
}
use i_free_chat.Client.{Client}
use i_free_chat.Client.Callbacks.{
  EntryMallocs, on_entry_callback, on_exit_callback, on_pchat_callback, on_gchat_callback,
  on_sendcheck_callback,
}
use i_free_chat.Client.Loop.{feiq_handle, init_protocol}

module _ (utf8_validate : Bytes → Bool) (convert : Bytes → Option Bytes)
    (iter_bytes fuel chunk_ptr data_ptr now : ℕ) (b : EntryMallocs) where
  -- A protocol with the names, the functions and the callbacks of FeiQ.
  pub record IsFeiq (p : Protocol Client) : Type 0 where
    pub name : str_at p.names 0 (codes "feiq") ≡ true
    pub version : str_at p.names 32 (codes "1_lbt") ≡ true
    pub build : p.build_func ≡ some (feiq_build_packet chunk_ptr data_ptr now)
    pub parse : p.parse_func ≡ some feiq_parse_packet
    pub handle : p.handle_func ≡ some (feiq_handle utf8_validate convert)
    pub on_entry : p.callbacks.on_entry ≡ some (on_entry_callback iter_bytes fuel b)
    pub on_exit : p.callbacks.on_exit ≡ some on_exit_callback
    pub on_pchat : p.callbacks.on_pchat ≡ some (on_pchat_callback fuel)
    pub on_gchat : p.callbacks.on_gchat ≡ some on_gchat_callback
    pub on_sendcheck : p.callbacks.on_sendcheck ≡ some on_sendcheck_callback

  abbrev pub registered : Protocol Client → Protocol Client
  registered p = record {
    names =
        store_bytes 32 (codes "1_lbt" ++ 0 ∷ []) (store_bytes 0 (codes "feiq" ++ 0 ∷ []) p.names);
    build_func = some (feiq_build_packet chunk_ptr data_ptr now);
    parse_func = some feiq_parse_packet;
    handle_func = some (feiq_handle utf8_validate convert);
    callbacks = record {
      on_entry = some (on_entry_callback iter_bytes fuel b);
      on_exit = some on_exit_callback;
      on_pchat = some (on_pchat_callback fuel);
      on_gchat = some on_gchat_callback;
      on_sendcheck = some on_sendcheck_callback;
    };
  }

  pub init_protocol-ret :
      (p : Protocol Client)
      → init_protocol utf8_validate convert iter_bytes fuel chunk_ptr data_ptr now b (some p)
        ≡ ret (registered p)
  unfolding init_protocol protocol_register copy_names protocol_reg_entry_callback
      protocol_reg_exit_callback protocol_reg_pchat_callback protocol_reg_gchat_callback
      protocol_reg_sendcheck_callback
  init_protocol-ret p = refl

  pub registered-IsFeiq : (p : Protocol Client) → IsFeiq (registered p)
  registered-IsFeiq p = record {
    name =
        str_at-store_apart 0 (codes "feiq") 32 (codes "1_lbt" ++ 0 ∷ []) _ (inl (omega arith))
          (str_at-store_bytes 0 (codes "feiq") p.names);
    version = str_at-store_bytes 32 (codes "1_lbt") _;
    build = refl;
    parse = refl;
    handle = refl;
    on_entry = refl;
    on_exit = refl;
    on_pchat = refl;
    on_gchat = refl;
    on_sendcheck = refl;
  }
