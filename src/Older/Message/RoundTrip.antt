-- ===== src/Older/Message/RoundTrip.antt =====
-- A packet that is printed from fields is read back, in a block that has room for it.
use i_free_chat.Base.{
  ℕ, ◌+◌, ◌-◌, ◌^◌, ◌≤◌, ◌<◌, ◌≡◌, ◌≢◌, false, ◌==◌, some, [], ◌∷◌, ◌++◌, arith, length,
  length-append, update,
}
use i_free_chat.Text.{Bytes}
use i_free_chat.Dlist.{init_dlist_node}
use i_free_chat.MemPool.{ret}
use i_free_chat.Feiq.Parse.Steps.{IsField, cut-append}
use i_free_chat.Older.{MsgBlock, Ifreechat}
use i_free_chat.Older.Message.{
  msg_struct_bytes, ip_bytes, msg_capacity, take_room, copy_field, parse_block, parse_message,
}

-- `version:packet_no:username:hostname:cmd:data`
abbrev pub joined : (v n u h k s : Bytes) → Bytes
joined v n u h k s = v ++ b':' ∷ (n ++ b':' ∷ (u ++ b':' ∷ (h ++ b':' ∷ (k ++ b':' ∷ s))))

-- The message: behind the data lies one NUL, the last byte of the block.
abbrev pub parsed_block : (v n u h k s : Bytes) → MsgBlock
parsed_block v n u h k s = record {
  gpid = 0;
  port = 0;
  ip = [];
  version = v;
  packet_no = n;
  username = u;
  hostname = h;
  cmd = k;
  contents = s ++ 0 ∷ [];
  user = 0;
}

take_room-ret : (n room : ℕ) → n ≤ room → take_room n room ≡ ret (room - n)
unfolding take_room
take_room-ret n room h = ground arith

copy_field-append :
    (p q : Bytes) (room : ℕ)
    → IsField p
    → 1 + length p ≤ room
    → copy_field (p ++ b':' ∷ q) room ≡ ret (p, q, room - (1 + length p))
unfolding copy_field
copy_field-append p q room f h = rw (cut-append p q f, take_room-ret (1 + length p) room h)

module _ (v n u h k s : Bytes) (fv : IsField v) (fn : IsField n) (fu : IsField u) (fh : IsField h)
    (fk : IsField k) where
  length-joined :
      length (joined v n u h k s)
      ≡ length v
        + (1 + (length n + (1 + (length u + (1 + (length h + (1 + (length k + (1 + length s)))))))))
  length-joined = omega (
    arith,
    length-append v (b':' ∷ (n ++ b':' ∷ (u ++ b':' ∷ (h ++ b':' ∷ (k ++ b':' ∷ s))))),
    length-append n (b':' ∷ (u ++ b':' ∷ (h ++ b':' ∷ (k ++ b':' ∷ s)))),
    length-append u (b':' ∷ (h ++ b':' ∷ (k ++ b':' ∷ s))),
    length-append h (b':' ∷ (k ++ b':' ∷ s)),
    length-append k (b':' ∷ s),
  )

  -- In a block that holds one byte more than the texts with their NULs.
  parse_block-joined :
      (cap : ℕ)
      → cap ≡ 1 + length (joined v n u h k s) + ip_bytes + msg_struct_bytes
      → parse_block cap (joined v n u h k s) ≡ ret (parsed_block v n u h k s)
  unfolding parse_block
  parse_block-joined cap e =
      let total = length-joined in
      let s4 = k ++ b':' ∷ s in
      let s3 = h ++ b':' ∷ s4 in
      let s2 = u ++ b':' ∷ s3 in
      let s1 = n ++ b':' ∷ s2 in
      let r0 = cap - msg_struct_bytes - ip_bytes in
      let r1 = r0 - (1 + length v) in
      let r2 = r1 - (1 + length n) in
      let r3 = r2 - (1 + length u) in
      let r4 = r3 - (1 + length h) in
      let r5 = r4 - (1 + length k) in
      let left : r5 - length s ≡ 1 = omega arith in
      rw (
        take_room-ret msg_struct_bytes cap (omega arith),
        take_room-ret ip_bytes (cap - msg_struct_bytes) (omega arith),
        copy_field-append v s1 r0 fv (omega arith),
        copy_field-append n s2 r1 fn (omega arith),
        copy_field-append u s3 r2 fu (omega arith),
        copy_field-append h s4 r3 fh (omega arith),
        copy_field-append k s r4 fk (omega arith),
        take_room-ret (length s) r5 (omega arith),
        left,
      )

  -- `parse_message` of a packet that is printed from fields without `:` and NUL succeeds if `malloc`
  -- does, stays inside its block, and gives the message with these fields, linked to itself; behind
  -- the data lies one NUL.
  pub parse-joined :
      (base : ℕ) (c : Ifreechat)
      → base ≢ 0
      → length (joined v n u h k s) + 77 < 2 ^ 32
      → parse_message base (joined v n u h k s) c
        ≡ ret (
          some base,
          record c {
            msgs = update c.msgs base (parsed_block v n u h k s);
            mnodes = init_dlist_node base c.mnodes;
          },
        )
  unfolding parse_message
  parse-joined base c ne b =
      let not_null : (base == 0) ≡ false = ground arith in
      rw (not_null, parse_block-joined (msg_capacity (length (joined v n u h k s))) (omega arith))
