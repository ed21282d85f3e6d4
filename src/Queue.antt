-- ===== src/Queue.antt =====
-- ifc/lib/queue/queue.c: the ring of pointers that carries packets between the threads.
pub mod Refine
pub mod Fifo
pub mod MsgQueue
mod Tests
use i_free_chat.Base.{
  ℕ, ◌+◌, ◌*◌, ◌%◌, ◌^◌, Option, none, some, List, [], ◌∷◌, ◌==◌, if◌then◌else◌, get_elem?, set,
  replicate,
}
use i_free_chat.MemPool.{
  Outcome, ret, deadlock, fault, ◌>>=◌, Pool, add_size, pool_alloc, pool_free, poke,
}

-- `queue_t`. A slot that was never written holds `none`: what the pool's memory held there.
pub record Queue : Type 0 where
  pub addr : ℕ
  pub entry : List (Option ℕ)
  pub size : ℕ
  pub head : ℕ
  pub tail : ℕ

-- `sizeof(queue_t)` and `sizeof(void *)`
abbrev pub queue_bytes : ℕ
queue_bytes = 20

abbrev pub pointer_bytes : ℕ
pointer_bytes = 4

pub new_queue : (addr size : ℕ) → Queue
new_queue addr size = record {
  addr = addr;
  entry = replicate size none;
  size = size;
  head = 0;
  tail = 0;
}

-- The new queue is `none` for NULL. The first word of the block, `q->entry`, is also written to the
-- pool's memory, where `mem_pool_free` will read it.
pub create_queue : (chunk_ptr data_ptr size : ℕ) → Pool → Outcome (Option Queue × Pool)
unfolding new_queue
create_queue chunk_ptr data_ptr size p = do
  (base, p') ←
      pool_alloc chunk_ptr data_ptr (add_size queue_bytes (pointer_bytes * size % 2 ^ 32)) p
  ret (
      if base == 0
      then (none, p')
      else (some (new_queue base size), poke base (base + queue_bytes) p'))

-- `none` is the -1 of a full queue; a remainder by a size of 0 is a fault.
pub queue_push : Queue → ℕ → Outcome (Option Queue)
queue_push q data_ptr =
    if q.size == 0
    then fault
    else if add_size q.tail 1 % q.size == q.head
    then ret none
    else ret (
        some (record q {
          entry = set q.entry q.tail (some data_ptr);
          tail = add_size q.tail 1 % q.size;
        }))

-- What goes through `*data`: `none` if the slot was never written, or lies out of range.
slot : Option (Option ℕ) → Option ℕ
slot none = none
slot (some d) = d

pub queue_pop : Queue → Outcome (Option (Option ℕ × Queue))
unfolding slot
queue_pop q =
    if q.head == q.tail
    then ret none
    else if q.size == 0
    then fault
    else ret
        (some (slot (get_elem? q.entry q.head), record q { head = add_size q.head 1 % q.size }))

pub destroy_queue : Option Queue → Pool → Outcome Pool
destroy_queue none p = ret p
destroy_queue (some q) p = pool_free q.addr p
