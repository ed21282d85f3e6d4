-- ===== src/Feiq/Handle/Entry.antt =====
-- What `feiq_on_entry` makes of a broadcast.
use i_free_chat.Base.{
  ℕ, zero, suc, ◌+◌, ◌%◌, ◌^◌, ◌≤◌, ◌<◌, ◌≡◌, refl, ap, ◌∙◌, inl, inr, Bool, true, false, Option,
  none, [], ◌∷◌, ◌++◌, length, length-append, has, arith,
}
use i_free_chat.Base.Memory.{Memory, str_at, str_at-store_bytes, str_at-store_apart}
use i_free_chat.Text.{Bytes, codes, decimal}
use i_free_chat.MemPool.{ret}
use i_free_chat.Feiq.{
  Msg, c_str, field, version_at, username_at, nickname_at, avatar_at, category_at, data_at,
  msg_bytes,
}
use i_free_chat.Text.Decimal.{length-decimal}
use i_free_chat.Feiq.Parse.Steps.{written, strcpy_to-fits}
use i_free_chat.Feiq.Parse.{get_avatar_id_from_version}
use i_free_chat.Feiq.Handle.{
  avatar_text, or_else, string_validate, store_valid, validate_field, feiq_on_entry,
}

-- A string that lies somewhere is what is read there, with fuel for its bytes.
c_str-str_at :
    (fuel : ℕ) (m : Memory) (a : ℕ) (s : Bytes)
    → str_at m a s ≡ true
    → has 0 s ≡ false
    → length s < fuel
    → c_str fuel m a ≡ s
unfolding c_str str_at
c_str-str_at zero m a s e h f = absurd (omega arith)
c_str-str_at (suc fuel) m a [] e h f = ground arith
c_str-str_at (suc fuel) m a (c ∷ s) e h f = ground (arith, c_str-str_at fuel m (a + 1) s)

pub field-str_at :
    (offset : ℕ) (m : Msg) (s : Bytes)
    → str_at m.text offset s ≡ true
    → has 0 s ≡ false
    → length s < 1024
    → field offset m ≡ s
unfolding field
field-str_at offset m s e h l = c_str-str_at msg_bytes m.text offset s e h (omega arith)

length-avatar_text : (a : ℕ) → length (avatar_text a) ≤ 40
unfolding avatar_text
length-avatar_text a = ground (arith, length-append (decimal a) (codes ".bmp"), length-decimal a)

low : (n : ℕ) → n < 2 ^ 16 → n % 2 ^ 16 ≡ n
low n h = omega arith

module _ (utf8_validate : Bytes → Bool) (convert : Bytes → Option Bytes) where
  string_validate-valid :
      (s : Bytes) → utf8_validate s ≡ true → string_validate utf8_validate convert s ≡ none
  unfolding string_validate
  string_validate-valid s v = rw v

  validate_field-valid :
      (offset : ℕ) (m : Msg) (s : Bytes)
      → field offset m ≡ s
      → utf8_validate s ≡ true
      → validate_field utf8_validate convert offset m ≡ ret m
  unfolding validate_field store_valid
  validate_field-valid offset m s e v =
      ap (λ o. store_valid offset o m) (ap (string_validate utf8_validate convert) e ∙ valid)
    where
      valid : string_validate utf8_validate convert s ≡ none
      valid = string_validate-valid s v

  module _ (m : Msg) (a : ℕ) (nick cat : Bytes) (sa : a < 2 ^ 16)
      (av : get_avatar_id_from_version (field version_at m) ≡ ret a)
      (dn : str_at m.text data_at nick ≡ true)
      (dc : str_at m.text (data_at + length nick + 1) cat ≡ true) (zn : has 0 nick ≡ false)
      (zc : has 0 cat ≡ false) (ln : length nick < 32) (lc : length cat < 32) (pn : 0 < length nick)
      (pc : 0 < length cat) (vn : utf8_validate nick ≡ true) (vc : utf8_validate cat ≡ true) where
    abbrev m1 : Msg
    m1 = written avatar_at (avatar_text a) (record m { avatar_id = a })

    abbrev m2 : Msg
    m2 = written nickname_at nick m1

    abbrev m3 : Msg
    m3 = written category_at cat m2

    -- The avatar's file name ends before the data.
    past :
        (offset : ℕ) (s : Bytes)
        → data_at ≤ offset
        → str_at m.text offset s ≡ true
        → str_at m1.text offset s ≡ true
    past offset s l e =
        str_at-store_apart offset s avatar_at (avatar_text a ++ 0 ∷ []) m.text
          (inr (omega (arith, length-avatar_text a, length-append (avatar_text a) (0 ∷ [])))) e

    nick1 : field data_at m1 ≡ nick
    nick1 = field-str_at data_at m1 nick (past data_at nick (omega arith) dn) zn (omega (arith, ln))

    cat2 : field (data_at + length nick + 1) m2 ≡ cat
    cat2 =
        field-str_at (data_at + length nick + 1) m2 cat
          (str_at-store_apart (data_at + length nick + 1) cat nickname_at (nick ++ 0 ∷ []) m1.text
            (inr (omega (arith, ln, length-append nick (0 ∷ []))))
            (past (data_at + length nick + 1) cat (omega arith) dc))
          zc (omega (arith, lc))

    nick3 : str_at m3.text nickname_at nick ≡ true
    nick3 =
        str_at-store_apart nickname_at nick category_at (cat ++ 0 ∷ []) m2.text
          (inl (omega (arith, ln))) (str_at-store_bytes nickname_at nick m1.text)

    cat3 : str_at m3.text category_at cat ≡ true
    cat3 = str_at-store_bytes category_at cat m2.text

    file3 : str_at m3.text avatar_at (avatar_text a) ≡ true
    file3 =
        str_at-store_apart avatar_at (avatar_text a) category_at (cat ++ 0 ∷ []) m2.text
          (inl (omega (arith, length-avatar_text a)))
          (str_at-store_apart avatar_at (avatar_text a) nickname_at (nick ++ 0 ∷ []) m1.text
            (inr (omega (arith, ln, length-append nick (0 ∷ []))))
            (str_at-store_bytes avatar_at (avatar_text a) m.text))

    or_else_long : (s d : Bytes) → 0 < length s → or_else s d ≡ s
    or_else_long [] d h = absurd (omega arith)
    or_else_long (c ∷ s) d h = refl

    entry-ret : feiq_on_entry utf8_validate convert m ≡ ret m3
    unfolding feiq_on_entry
    entry-ret = rw (
      av,
      (low a sa),
      strcpy_to-fits avatar_at (avatar_text a) (record m { avatar_id = a })
          (omega (arith, length-avatar_text a)),
      nick1,
      or_else_long nick (field username_at m1) pn,
      strcpy_to-fits nickname_at nick m1 (omega (arith, ln)),
      cat2,
      or_else_long cat (codes "no group") pc,
      strcpy_to-fits category_at cat m2 (omega (arith, lc)),
      validate_field-valid nickname_at m3 nick
          (field-str_at nickname_at m3 nick nick3 zn (omega (arith, ln))) vn,
      validate_field-valid category_at m3 cat
          (field-str_at category_at m3 cat cat3 zc (omega (arith, lc))) vc,
    )

    -- Of a broadcast whose data are a name and a group, both UTF-8 and shorter than their fields
    -- and not empty, `feiq_on_entry` makes the nickname and the category, and it names the file of
    -- the avatar that it reads in the version field.
    pub on_entry-fields :
        (m' : Msg) × (feiq_on_entry utf8_validate convert m ≡ ret m')
        × (m'.avatar_id ≡ a)
        × (str_at m'.text avatar_at (avatar_text a) ≡ true)
        × (str_at m'.text nickname_at nick ≡ true)
        × (str_at m'.text category_at cat ≡ true)
    on_entry-fields = (m3, entry-ret, refl, file3, nick3, cat3)
