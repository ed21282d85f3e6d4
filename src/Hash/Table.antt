-- ===== src/Hash/Table.antt =====
-- The operations of hash.c on a table of one kind of key (`h->ktype`).
pub mod View
pub mod Insert
pub mod Lookup
pub mod Delete
pub mod Destroy
use i_free_chat.Base.{
  ℕ, zero, suc, ◌+◌, ◌*◌, ◌%◌, ◌^◌, Bool, true, false, ◌&&◌, Option, none, some, List, bit_and, leb,
  ltb, ◌==◌, if◌then◌else◌, get_or, set, replicate, update,
}
use i_free_chat.Base.Memory.{Memory}
use i_free_chat.Dlist.{Links, init_dlist_node, dlist_add_tail, dlist_del, dlist_foreach}
use i_free_chat.MemPool.{
  Outcome, ret, deadlock, fault, ◌>>=◌, Pool, add_size, pool_alloc, pool_free, poke,
}
use i_free_chat.Hash.Code.{hash_integer, hash_string}
use i_free_chat.Hash.Key.{Ktype, key_int, key_str, Key, key_bytes, copy_key, hash_key_equal}

-- `hash_entry_t` but its `node`: the address of the key in the pool, and the value's pointer.
pub record Entry : Type 0 where
  pub key : ℕ
  pub val : ℕ

-- `hash_t`: its block, the array of entry pointers (0 for NULL), and the mask. The entries that
-- the pointers lead to, and their `node` fields, are kept beside it; an entry's address stands
-- for its node's.
pub record Hash : Type 0 where
  pub addr : ℕ
  pub hash_entry : List ℕ
  pub hash_size : ℕ
  pub entries : ℕ → Entry
  pub links : Links

-- `sizeof(hash_t)`, `sizeof(hash_entry_t *)`
abbrev hash_bytes : ℕ
hash_bytes = 12

abbrev pointer_bytes : ℕ
pointer_bytes = 4

-- `memset(base, 0, size)`
abbrev pub zero_fill : (base size : ℕ) → Memory → Memory
zero_fill base size m = λ a. if leb base a && ltb a (base + size) then 0 else m a

pub new_hash : (addr hsize : ℕ) → (ℕ → Entry) → Links → Hash
new_hash addr hsize entries links = record {
  addr = addr;
  hash_entry = replicate (1 + hsize) 0;
  hash_size = hsize;
  entries = entries;
  links = links;
}

-- Before its entries are made, nothing is known of the memory that they will take: `entries` and
-- `links` are any.
unfoldable pub create_hash :
    (chunk_ptr data_ptr hsize : ℕ) (entries : ℕ → Entry) (links : Links)
    → Pool
    → Outcome (Hash × Pool)
unfolding new_hash
create_hash chunk_ptr data_ptr hsize entries links p = do
  let size = add_size hash_bytes (pointer_bytes * (1 + hsize) % 2 ^ 32)
  (base, p') ← pool_alloc chunk_ptr data_ptr size p
  let h = new_hash base hsize entries links
  let p'' = poke base (base + hash_bytes) (record p' { mem = zero_fill base size p'.mem })
  if base == 0 then fault else ret (h, p'')

-- The result of `malloc` is used before it is compared with NULL.
hash_entry_alloc : (entry_ptr : ℕ) → Hash → Outcome Hash
hash_entry_alloc entry_ptr h =
    if entry_ptr == 0 then fault else ret (record h { links = init_dlist_node entry_ptr h.links })

-- The entry comes from `malloc` and is given to the pool.
pub hash_entry_free : (entry_ptr key_ptr : ℕ) → Pool → Outcome Pool
hash_entry_free entry_ptr key_ptr p =
    if entry_ptr == 0
    then ret p
    else if key_ptr == 0
    then pool_free entry_ptr p
    else do p' ← pool_free key_ptr p; pool_free entry_ptr p'

abbrev with_key : ℕ → ℕ → Hash → Hash
with_key e a h = record h { entries = update h.entries e (record (h.entries e) { key = a }) }

abbrev with_val : ℕ → ℕ → Hash → Hash
with_val e v h = record h { entries = update h.entries e (record (h.entries e) { val = v }) }

module _ (k : Ktype) where
  pub hash_entry_set_key :
      (chunk_ptr data_ptr entry_ptr : ℕ) → Key k → Hash → Pool → Outcome (Hash × Pool)
  hash_entry_set_key chunk_ptr data_ptr entry_ptr key h p = do
    (a, p') ← pool_alloc chunk_ptr data_ptr (key_bytes k key) p
    let h' = with_key entry_ptr a h
    if a == 0 then fault else ret (h', record p' { mem = copy_key k key a p'.mem })

-- The hash before it is masked.
pub hash_code : (k : Ktype) → Key k → ℕ
hash_code key_int key = hash_integer key
hash_code key_str key = hash_integer (hash_string key)

-- The end of `hash_insert`: the slot is overwritten before it is looked at.
link_entry : (idx entry_ptr : ℕ) → Hash → Hash
link_entry idx entry_ptr h =
    let slots = set h.hash_entry idx entry_ptr in
    let first = get_or slots idx 0 in
    if first == 0
    then record h { hash_entry = set slots idx entry_ptr }
    else record h { hash_entry = slots; links = dlist_add_tail entry_ptr first h.links }

module _ (k : Ktype) where
  pub hash_index : Hash → Key k → ℕ
  unfolding hash_code
  hash_index h key = bit_and (hash_code k key) h.hash_size

  -- `entry_ptr` is what `malloc` returns. Where the call returns it returns 0.
  pub hash_insert :
      (entry_ptr chunk_ptr data_ptr : ℕ) → Key k → (val : ℕ) → Hash → Pool → Outcome (Hash × Pool)
  unfolding hash_entry_alloc hash_entry_set_key hash_index link_entry
  hash_insert entry_ptr chunk_ptr data_ptr key val h p = do
    h₁ ← hash_entry_alloc entry_ptr h
    (h₂, p') ← hash_entry_set_key k chunk_ptr data_ptr entry_ptr key h₁ p
    let h₃ = with_val entry_ptr val h₂
    ret (link_entry (hash_index h₃ key) entry_ptr h₃, p')

  -- `hash_key_equal(h->ktype, entry->key, key)`
  abbrev pub key_matches : Hash → Memory → Key k → ℕ → Bool
  key_matches h m key e = hash_key_equal k m (h.entries e).key key

  -- The entry that `hash_find` and `hash_del` stop at. `none` is a loop over the bucket that has
  -- not ended within the fuel, `some none` is -1.
  pub find_entry : (fuel : ℕ) → Hash → Memory → Key k → Option (Option ℕ)
  unfolding hash_index
  find_entry fuel h m key =
      let first = get_or h.hash_entry (hash_index h key) 0 in
      if first == 0
      then some none
      else if key_matches h m key first
      then some (some first)
      else dlist_foreach h.links first (key_matches h m key) fuel (h.links.next first)

  -- The value is `none` where the code returns -1.
  pub hash_find : (fuel : ℕ) → Hash → Memory → Key k → Option (Option ℕ)
  unfolding find_entry
  hash_find fuel h m key = elim (find_entry fuel h m key) [
    | none ↦ none
    | some none ↦ some none
    | some (some e) ↦ some (some (h.entries e).val)
  ]

  -- The first entry of a bucket is taken out by clearing the slot, another by `dlist_del`.
  pub hash_del : (fuel : ℕ) → Key k → Hash → Pool → Option (Outcome (Option ℕ × Hash × Pool))
  unfolding find_entry
  hash_del fuel key h p =
      let idx = hash_index h key in
      elim (find_entry fuel h p.mem key) [
        | none ↦ none
        | some none ↦ some (ret (none, h, p))
        | some (some e) ↦
            let val = (h.entries e).val in
            let h' =
              if e == get_or h.hash_entry idx 0
              then record h { hash_entry = set h.hash_entry idx 0 }
              else record h { links = dlist_del e h.links } in
            some (do p' ← hash_entry_free e (h.entries e).key p; ret (some val, h', p'))
      ]
