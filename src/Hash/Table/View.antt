-- ===== src/Hash/Table/View.antt =====
-- What a table stands for: at most one key with its value in each bucket.
use i_free_chat.Base.{
  ℕ, zero, suc, ◌+◌, ◌≤◌, ◌≡◌, refl, ◌∙◌, ◌≢◌, Option, none, some, arith, if◌then◌else◌, length,
  get_or, length-replicate, replicate,
}
use i_free_chat.Base.Bits.{and-le}
use i_free_chat.Dlist.{Links}
use i_free_chat.Dlist.Loop.{foreach_self}
use i_free_chat.MemPool.{Pool}
use i_free_chat.MemPool.Alloc.{IsTaken}
use i_free_chat.Hash.Key.{Ktype, Key, key_bytes, IsKey, key_eq, Stored, hash_key_equal-key_eq}
use i_free_chat.Hash.Table.{Entry, Hash, hash_code, hash_index, hash_find, new_hash, key_matches}

-- The abstract table: what each bucket holds.
abbrev pub View : Ktype → Type 0
View k = ℕ → Option (Key k × ℕ)

-- The slot holds no entry, or one whose node is linked to itself alone and whose key lies in
-- memory that the pool does not hand out.
abbrev pub Slot : (k : Ktype) → Pool → Hash → ℕ → Option (Key k × ℕ) → Type 0
Slot k p h e none = e ≡ 0
Slot k p h e (some (x, v)) =
    (e ≢ 0)
    × (h.links.next e ≡ e)
    × ((h.entries e).val ≡ v)
    × IsKey k x
    × Stored k p.mem (h.entries e).key x
    × IsTaken p.chunks (h.entries e).key (key_bytes k x)

pub record Represents (k : Ktype) (p : Pool) (h : Hash) (view : View k) : Type 0 where
  pub slots : length h.hash_entry ≡ h.hash_size + 1
  pub each : (i : ℕ) → i ≤ h.hash_size → Slot k p h (get_or h.hash_entry i 0) (view i)

-- What a lookup in the abstract table gives.
abbrev pub view_find : (k : Ktype) → View k → ℕ → Key k → Option ℕ
view_find k view i key = elim (view i) [
  | none ↦ none
  | some (x, v) ↦ if key_eq k x key then some v else none
]

-- Every index that the table computes lies inside its array of `hash_size + 1` slots.
pub hash_index-le : (k : Ktype) (h : Hash) (key : Key k) → hash_index k h key ≤ h.hash_size
unfolding hash_index
hash_index-le k h key = and-le (hash_code k key) h.hash_size

Slot-find :
    (k : Ktype) (p : Pool) (h : Hash) (key : Key k) (fuel e : ℕ) (s : Option (Key k × ℕ))
    → get_or h.hash_entry (hash_index k h key) 0 ≡ e
    → IsKey k key
    → Slot k p h e s
    → hash_find k (suc fuel) h p.mem key
      ≡ some (elim s [ none ↦ none | some (x, v) ↦ if key_eq k x key then some v else none ])
unfolding hash_find
Slot-find k p h key fuel e none at ok s = ground arith
Slot-find k p h key fuel e (some (x, v)) at ok (ne, self, val, is, stored, taken) = ground (
  arith,
  hash_key_equal-key_eq k p.mem (h.entries e).key x key is ok stored,
  foreach_self h.links e (key_matches k h p.mem key) fuel self,
)

-- A lookup ends within one round of its loop, and gives what the bucket of the key holds: its
-- value if it is there under the same key, and -1 if not.
pub hash_find-view_find :
    (k : Ktype) (p : Pool) (h : Hash) (view : View k) (key : Key k) (fuel : ℕ)
    → Represents k p h view
    → IsKey k key
    → hash_find k (suc fuel) h p.mem key ≡ some (view_find k view (hash_index k h key) key)
hash_find-view_find k p h view key fuel r ok =
    Slot-find k p h key fuel _ (view (hash_index k h key)) refl ok
      (r.each (hash_index k h key) (hash_index-le k h key))

get_or-replicate : (n i : ℕ) → get_or {A = ℕ} (replicate n 0) i 0 ≡ 0
get_or-replicate zero i = refl
get_or-replicate (suc n) zero = refl
get_or-replicate (suc n) (suc i) = get_or-replicate n i

-- A new table is empty.
pub new_hash-Represents :
    (k : Ktype) (p : Pool) (addr hsize : ℕ) (entries : ℕ → Entry) (links : Links)
    → Represents k p (new_hash addr hsize entries links) (λ i. none)
unfolding new_hash
new_hash-Represents k p addr hsize entries links = record {
  slots = length-replicate (1 + hsize) 0 ∙ omega arith;
  each = λ i h. get_or-replicate (1 + hsize) i;
}
