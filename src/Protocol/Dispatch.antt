-- ===== src/Protocol/Dispatch.antt =====
-- What a protocol that was registered does.
use i_free_chat.Base.{◌<◌, ◌≡◌, refl, inl, true, false, some, [], ◌∷◌, ◌++◌, ltb, arith, length}
use i_free_chat.Base.Memory.{store_bytes, str_at, str_at-store_bytes, str_at-store_apart}
use i_free_chat.Text.{Bytes}
use i_free_chat.MemPool.{ret, Pool}
use i_free_chat.Feiq.{Packet, Msg}
use i_free_chat.Protocol.{
  Protocol, BuildPacket, ParsePacket, HandleMsg, copy_names, protocol_register,
  protocol_build_packet, protocol_parse_packet, protocol_handle_msg,
}

-- A protocol that was registered under names that fit their 32 bytes has these names, builds,
-- parses and handles by the functions that it was given, and keeps its callbacks.
pub register-dispatch :
    {S : Type 0} (p : Protocol S) (name version : Bytes) (build : BuildPacket) (parse : ParsePacket)
    (handle : HandleMsg S) (m : Msg) (k : Packet) (pool : Pool) (s : S)
    → length name < 32
    → length version < 32
    → (q : Protocol S) × (protocol_register
          (some p)
          (some name)
          (some version)
          (some build)
          (some parse)
          (some handle)
        ≡ ret (some q))
      × (str_at q.names 0 name ≡ true)
      × (str_at q.names 32 version ≡ true)
      × (protocol_build_packet q m pool ≡ build m pool)
      × (protocol_parse_packet q k m ≡ parse k m)
      × (protocol_handle_msg q m s ≡ handle p.callbacks m s)
unfolding protocol_register protocol_build_packet protocol_parse_packet protocol_handle_msg
    copy_names
register-dispatch p name version build parse handle m k pool s ln lv =
    let a : ltb 75 (length name) ≡ false = ground arith in
    let b : ltb 43 (length version) ≡ false = ground arith in
    (
      record p {
        names = store_bytes 32 (version ++ 0 ∷ []) (store_bytes 0 (name ++ 0 ∷ []) p.names);
        build_func = some build;
        parse_func = some parse;
        handle_func = some handle;
      },
      rw (a, b) refl,
      str_at-store_apart 0 name 32 (version ++ 0 ∷ []) _ (inl (omega arith))
          (str_at-store_bytes 0 name p.names),
      str_at-store_bytes 32 version _,
      refl,
      refl,
      refl,
    )
