-- ===== src/Feiq/Handle.antt =====
-- ifc/src/feiq/feiq.c: what is done with a message before the callbacks get it, and which callback
-- that is. With it, `string_validate` of ifc/lib/encoding/encoding.c.
pub mod Entry
pub mod Chat
use i_free_chat.Base.{
  ℕ, zero, suc, ◌+◌, ◌*◌, ◌%◌, ◌^◌, Bool, true, false, Option, none, some, List, [], ◌∷◌, ◌++◌,
  ◌==◌, ◌||◌, if◌then◌else◌, length, bit_and,
}
use i_free_chat.Text.{Bytes, codes, decimal}
use i_free_chat.MemPool.{Outcome, ret, fault, ◌>>=◌}
use i_free_chat.Feiq.{
  Msg, field, copy_to, strcpy_to, version_at, username_at, nickname_at, avatar_at, category_at,
  data_at,
}
use i_free_chat.Feiq.Parse.{get_avatar_id_from_version}

-- The file of an avatar.
pub avatar_text : ℕ → Bytes
avatar_text a =
    if a == 0
    then codes "../pixmaps/avatar/default.png"
    else codes "../pixmaps/avatar/" ++ (decimal a ++ codes ".bmp")

-- The second text where the first is empty.
abbrev pub or_else : Bytes → Bytes → Bytes
or_else [] d = d
or_else (c ∷ s) d = c ∷ s

-- `if (p != NULL) strcpy(field, p);`
pub store_valid : ℕ → Option Bytes → Msg → Outcome Msg
store_valid offset none m = ret m
store_valid offset (some t) m = strcpy_to offset t m

-- The functions of glib: `g_utf8_validate`, and `g_convert` from GBK to UTF-8, `none` for NULL.
module _ (utf8_validate : Bytes → Bool) (convert : Bytes → Option Bytes) where
  -- `string_validate` for the one codeset that the callers name, "GBK": a single round of its
  -- loop, whose failure ends it.
  unfoldable pub string_validate : Bytes → Option Bytes
  string_validate s = if utf8_validate s then none else convert s

  -- `p = string_validate(field, ...); if (p != NULL) strcpy(field, p);`
  pub validate_field : ℕ → Msg → Outcome Msg
  unfolding string_validate
  validate_field offset m = store_valid offset (string_validate (field offset m)) m

  pub feiq_on_entry : Msg → Outcome Msg
  unfolding validate_field
  feiq_on_entry m = do
    avatar_id ← get_avatar_id_from_version (field version_at m)
    let a = avatar_id % 2 ^ 16
    m ← strcpy_to avatar_at (avatar_text a) (record m { avatar_id = a })
    let nick = field data_at m
    let p = data_at + length nick + 1
    m ← strcpy_to nickname_at (or_else nick (field username_at m)) m
    m ← strcpy_to category_at (or_else (field p m) (codes "no group")) m
    m ← validate_field nickname_at m
    validate_field category_at m

  -- The conversion is copied without its NUL.
  pub feiq_on_pchat : Msg → Outcome Msg
  unfolding string_validate
  feiq_on_pchat m = elim (string_validate (field data_at m)) [
    | none ↦ ret m
    | some t ↦ copy_to data_at t (record m { data_size = length t })
  ]

  -- The callbacks that the protocol was given, over what they change.
  module _ {ℓ} {S : Type ℓ} (on_entry on_exit on_pchat : Msg → S → Outcome S) where
    pub feiq_handle_msg : Msg → S → Outcome (Msg × S)
    unfolding feiq_on_entry feiq_on_pchat
    feiq_handle_msg m s =
        let c = bit_and m.command 0xff in
        if c == 1 || c == 3
        then (feiq_on_entry m >>= (λ m'. on_entry m' s >>= (λ s'. ret (m', s'))))
        else if c == 2
        then (on_exit m s >>= (λ s'. ret (m, s')))
        else if c == 0x20
        then (feiq_on_pchat m >>= (λ m'. on_pchat m' s >>= (λ s'. ret (m', s'))))
        else ret (m, s)
