-- ===== src/Client/Views/Keep.antt =====
-- The rows of the list of contacts leave the counts and the categories of the users alone.
use i_free_chat.Base.{ℕ, ◌%◌, ◌^◌, refl, Bool, not, arith, ◌==◌, leb, length}
use i_free_chat.MemPool.{ret, pool_alloc}
use i_free_chat.Registry.{Heap, Mallocs, alloc}
use i_free_chat.Client.{Client}
use i_free_chat.Client.Frame.{Ensures, Ensures-bind, Ensures-if, Ensures-unit}
use i_free_chat.Client.Views.{
  add_category_to_treeview, add_user_to_treeview, category_iter, show_user, with_category_pos,
  with_user_pos, title_of,
}
use i_free_chat.Client.Callbacks.Counts.{Keeps, Keeps-refl, Keeps-trans}

-- Of an allocation, only the pool is new.
pub alloc-Keeps :
    (a : Mallocs) (size : ℕ) (h : Heap) → Ensures (λ (r : ℕ × Heap). Keeps h (r.1)) (alloc a size h)
alloc-Keeps a size h =
    Ensures-bind (λ r. Unit {0}) (λ (r : ℕ × Heap). Keeps h (r.1))
      (pool_alloc a.chunk a.block (size % 2 ^ 32) h.pool) (λ r. ret (r.0, record h { pool = r.1 }))
      (Ensures-unit (pool_alloc a.chunk a.block (size % 2 ^ 32) h.pool))
      (λ r u. record { counts = λ e. refl; places = λ u. refl })

with_category_pos-Keeps : (e pos : ℕ) (h : Heap) → Keeps h (with_category_pos e pos h)
with_category_pos-Keeps e pos h = record { counts = λ x. ground arith; places = λ u. refl }

with_user_pos-Keeps : (e pos : ℕ) (h : Heap) → Keeps h (with_user_pos e pos h)
with_user_pos-Keeps e pos h = record { counts = λ x. refl; places = λ u. ground arith }

module _ (iter_bytes : ℕ) where
  pub add_category-Keeps :
      (a : Mallocs) (entry : ℕ) (c : Client)
      → Ensures
          (λ (d : Client). Keeps c.heap d.heap)
          (add_category_to_treeview iter_bytes a entry c)
  unfolding add_category_to_treeview
  add_category-Keeps a entry c =
      Ensures-bind (λ (r : ℕ × Heap). Keeps c.heap (r.1)) (λ (d : Client). Keeps c.heap d.heap)
        (alloc a iter_bytes c.heap) _ (alloc-Keeps a iter_bytes c.heap)
        (λ r k.
          Ensures-if (λ (d : Client). Keeps c.heap d.heap) (entry == 0) _ _ tt
            (Keeps-trans c.heap (r.1) _ k (with_category_pos-Keeps entry (r.0) (r.1))))

  category_iter-Keeps :
      (a : Mallocs) (cat : ℕ) (c : Client)
      → Ensures (λ (r : ℕ × Client). Keeps c.heap (r.1).heap) (category_iter iter_bytes a cat c)
  unfolding category_iter
  category_iter-Keeps a cat c =
      Ensures-if (λ (r : ℕ × Client). Keeps c.heap (r.1).heap)
        (not ((c.heap.categories cat).pos == 0)) _ _ (Keeps-refl c.heap)
        (Ensures-bind (λ (r : ℕ × Heap). Keeps c.heap (r.1))
          (λ (r : ℕ × Client). Keeps c.heap (r.1).heap) (alloc a iter_bytes c.heap) _
          (alloc-Keeps a iter_bytes c.heap)
          (λ r k. Keeps-trans c.heap (r.1) _ k (with_category_pos-Keeps cat (r.0) (r.1))))

  show_user-Keeps :
      (a : Mallocs) (user cat citer : ℕ) (c : Client)
      → Ensures (λ (d : Client). Keeps c.heap d.heap) (show_user iter_bytes a user cat citer c)
  unfolding show_user
  show_user-Keeps a user cat citer c =
      Ensures-if (λ (d : Client). Keeps c.heap d.heap)
        (leb 128 (length (title_of (c.heap.categories cat)))) _ _ tt
        (Ensures-bind (λ (r : ℕ × Heap). Keeps c.heap (r.1)) (λ (d : Client). Keeps c.heap d.heap)
          (alloc a iter_bytes c.heap) _ (alloc-Keeps a iter_bytes c.heap)
          (λ r k. Keeps-trans c.heap (r.1) _ k (with_user_pos-Keeps user (r.0) (r.1))))

  pub add_user-Keeps :
      (a b : Mallocs) (user : ℕ) (c : Client)
      → Ensures
          (λ (r : Bool × Client). Keeps c.heap (r.1).heap)
          (add_user_to_treeview iter_bytes a b user c)
  unfolding add_user_to_treeview
  add_user-Keeps a b user c =
      let cat = (c.heap.users user).category_entry in
      let P : Bool × Client → Type 0 = λ r. Keeps c.heap (r.1).heap in
      Ensures-if P (not c.treeview) _ _ (Keeps-refl c.heap) (
        Ensures-if P (user == 0) _ _ (Keeps-refl c.heap) (
          Ensures-if P (cat == 0) _ _ tt (
            Ensures-bind (λ (r : ℕ × Client). Keeps c.heap (r.1).heap) P
              (category_iter iter_bytes a cat c) _ (category_iter-Keeps a cat c)
              (λ r k.
                Ensures-bind (λ (d : Client). Keeps (r.1).heap d.heap) P
                  (show_user iter_bytes b user cat (r.0) (r.1)) _
                  (show_user-Keeps b user cat (r.0) (r.1))
                  (λ d l. Keeps-trans c.heap (r.1).heap d.heap k l)))))
