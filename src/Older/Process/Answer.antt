-- ===== src/Older/Process/Answer.antt =====
-- The packets of src/broadcast.c and the answer to them, as `process_message` takes them.
use i_free_chat.Base.{
  ℕ, suc, ◌+◌, ◌%◌, ◌^◌, ◌<◌, ◌≡◌, ◌≢◌, refl, sym, ap, ◌∙◌, Bool, true, false, Option, [], ◌∷◌,
  ◌++◌, arith, has, length, append-nil, drop, leb, bit_and, ◌==◌, ◌||◌, update, ==_refl,
}
use i_free_chat.Text.{Bytes, codes, decimal, atoi, starts_with}
use i_free_chat.Text.Decimal.{atoi-decimal}
use i_free_chat.Dlist.{init_dlist_node}
use i_free_chat.Blowfish.{Schedule}
use i_free_chat.MemPool.{ret, fault, ◌>>=◌}
use i_free_chat.Feiq.Build.{version_text, packet_text}
use i_free_chat.Feiq.Parse.Steps.{IsPart, IsField, decimal-IsPart, version_text-IsField}
use i_free_chat.Older.{MsgBlock, Ifreechat, free_block, msg_text}
use i_free_chat.Older.Texts.{until-nul}
use i_free_chat.Older.Message.RoundTrip.{parsed_block, parse-joined}
use i_free_chat.Older.Broadcast.{post_text}
use i_free_chat.Older.Buddy.{Blocks, entry_texts, on_buddy_entry}
use i_free_chat.Older.Process.{dispatch, process_message}

-- The texts of a program that can be printed into a packet.
pub record IsPrintable (c : Ifreechat) : Type 0 where
  pub macaddr : IsPart c.macaddr
  pub username : IsField c.username
  pub hostname : IsField c.hostname
  pub nickname : has 0 c.nickname ≡ false
  pub category : has 0 c.category ≡ false

pub drop-append : (s t : Bytes) → drop (length s + 1) (s ++ 0 ∷ t) ≡ t
drop-append [] t = refl
drop-append (d ∷ s) t =
    let e : length (d ∷ s) + 1 ≡ suc (length s + 1) = omega arith in
    ap (λ n. drop n (d ∷ (s ++ 0 ∷ t))) e ∙ drop-append s t

module _ (c : Ifreechat) (ok : IsPrintable c) (now command : ℕ) (small : command < 2 ^ 31) where
  -- A post as `parse_message` gives it, with the sender's address.
  abbrev pub posted : (s ip : Bytes) (port : ℕ) → MsgBlock
  posted s ip port =
      record (parsed_block (version_text (codes "128") c.avatar_id c.macaddr 0)
        (decimal (now % 2 ^ 32)) c.username c.hostname (decimal command) s) { ip = ip; port = port }

  pub posted-cmd : (s ip : Bytes) (port : ℕ) → atoi (posted s ip port).cmd ≡ command
  posted-cmd s ip port =
      ap atoi (sym (append-nil (decimal command))) ∙ atoi-decimal command [] small tt

  -- The state with the message in it.
  abbrev pub received : (base : ℕ) (s ip : Bytes) (port : ℕ) → Ifreechat → Ifreechat
  received base s ip port r = record r {
    msgs = update (update r.msgs base (posted s [] 0)) base (posted s ip port);
    mnodes = init_dlist_node base r.mnodes;
  }

  module _ (utf8_validate : Bytes → Bool) (convert : Bytes → Option Bytes) (tables : Schedule) where
    pub process_message-post :
        (fuel now' base : ℕ) (b : Blocks) (s ip : Bytes) (port : ℕ) (r : Ifreechat)
        → base ≢ 0
        → length (post_text 0 now c.username c.hostname command s c) + 77 < 2 ^ 32
        → length ip < 20
        → process_message utf8_validate convert tables fuel now' base b ip port
            (post_text 0 now c.username c.hostname command s c)
            r
          ≡ dispatch utf8_validate convert tables fuel now' base b (received base s ip port r)
    unfolding process_message post_text packet_text
    process_message-post fuel now' base b s ip port r ne fits short =
        let small_ip : leb 20 (length ip) ≡ false = ground arith in
        rw (
          parse-joined (version_text (codes "128") c.avatar_id c.macaddr 0) (decimal (now % 2 ^ 32))
              c.username c.hostname (decimal command) s
              (version_text-IsField (codes "128") c.macaddr c.avatar_id 0 (refl, refl, refl, refl)
                ok.macaddr)
              ((decimal-IsPart (now % 2 ^ 32)).0, (decimal-IsPart (now % 2 ^ 32)).1) ok.username
              ok.hostname ((decimal-IsPart command).0, (decimal-IsPart command).1) base r ne fits,
          small_ip,
          ==_refl base,
        )

    -- An announcement, whichever of the two kinds.
    pub dispatch-entry :
        (fuel now' base : ℕ) (b : Blocks) (s ip : Bytes) (port : ℕ) (r : Ifreechat)
        → (bit_and command 0xff == 1 || bit_and command 0xff == 3) ≡ true
        → dispatch utf8_validate convert tables fuel now' base b (received base s ip port r) ≡ (
            on_buddy_entry utf8_validate convert fuel now' b
              (posted s ip port)
              (received base s ip port r)
            >>= (λ c. ret (free_block base c)))
    unfolding dispatch
    dispatch-entry fuel now' base b s ip port r e = rw (==_refl base, posted-cmd s ip port, e)

    -- A text without a NUL behind it, and nothing else.
    pub entry-overreads :
        (fuel now' : ℕ) (b : Blocks) (s ip : Bytes) (port : ℕ) (r : Ifreechat)
        → has 0 s ≡ false
        → on_buddy_entry utf8_validate convert fuel now' b (posted s ip port) r ≡ fault
    unfolding on_buddy_entry entry_texts msg_text starts_with version_text
    entry-overreads fuel now' b s ip port r h = rw (until-nul s [] h, drop-append s [])

module _ (utf8_validate : Bytes → Bool) (convert : Bytes → Option Bytes) (tables : Schedule) where
  -- The packet with which `on_buddy_entry` answers holds the nickname and no NUL; whoever takes
  -- it, in whatever state, reads behind the block of its message, if its block comes from `malloc`.
  pub answer-overreads :
      (c r : Ifreechat) (now fuel now' base : ℕ) (b : Blocks) (ip : Bytes) (port : ℕ)
      → IsPrintable c
      → base ≢ 0
      → length (post_text 0 now c.username c.hostname 0x103 c.nickname c) + 77 < 2 ^ 32
      → length ip < 20
      → process_message utf8_validate convert tables fuel now' base b ip port
          (post_text 0 now c.username c.hostname 0x103 c.nickname c)
          r
        ≡ fault
  answer-overreads c r now fuel now' base b ip port ok ne fits short =
      process_message-post c ok now 0x103 (omega arith) utf8_validate convert tables fuel now' base
        b c.nickname ip port r ne fits short
      ∙ dispatch-entry c ok now 0x103 (omega arith) utf8_validate convert tables fuel now' base b
          c.nickname ip port r refl
      ∙ ap (λ o. o >>= (λ c. ret (free_block base c)))
          (entry-overreads c ok now 0x103 (omega arith) utf8_validate convert tables fuel now' b
            c.nickname ip port (received c ok now 0x103 (omega arith) base c.nickname ip port r)
            ok.nickname)
