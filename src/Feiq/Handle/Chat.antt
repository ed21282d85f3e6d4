-- ===== src/Feiq/Handle/Chat.antt =====
-- What is done with the text of a private message.
use i_free_chat.Base.{ℕ, ◌≡◌, refl, ap, arith, bit_and, Bool, true, Option}
use i_free_chat.Text.{Bytes}
use i_free_chat.MemPool.{Outcome, ret, ◌>>=◌}
use i_free_chat.Feiq.{Msg, field, data_at}
use i_free_chat.Feiq.Handle.{string_validate, feiq_on_pchat, feiq_handle_msg}

module _ (utf8_validate : Bytes → Bool) (convert : Bytes → Option Bytes) where
  on_pchat-valid :
      (m : Msg)
      → utf8_validate (field data_at m) ≡ true
      → feiq_on_pchat utf8_validate convert m ≡ ret m
  unfolding feiq_on_pchat string_validate
  on_pchat-valid m v = ground (arith, v)

  -- A private message in UTF-8 goes to its callback as it is.
  pub handle-pchat :
      {S : Type 0} (on_entry on_exit on_pchat : Msg → S → Outcome S) (m : Msg) (s : S)
      → m.command ≡ 0x120
      → utf8_validate (field data_at m) ≡ true
      → feiq_handle_msg utf8_validate convert on_entry on_exit on_pchat m s
        ≡ (on_pchat m s >>= (λ s'. ret (m, s')))
  unfolding feiq_handle_msg
  handle-pchat on_entry on_exit on_pchat m s c v =
      let b : bit_and m.command 0xff ≡ 0x20 = ap (λ (n : ℕ). bit_and n 0xff) c in
      rw (b, on_pchat-valid m v) refl
