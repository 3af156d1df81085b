-- ===== src/WorkQueue.antt =====
-- core/work_queue.cpp and work_queue.h. A lock block is one step; an item is run outside the lock, and
-- may use its queue.
use vxcore.Prelude.Assoc.{put, lookup, Assoc}
use vxcore.Prelude.{
  ◌||◌, ◌&&◌, ◌++◌, some, leb, not, none, length, if◌then◌else◌, false, ◌∷◌, ℕ, true, [], String,
  Option, Bool, List,
}
pub mod Order
pub mod Drain

pub record WorkQueue {ℓ} (Item : Type ℓ) : Type ℓ where
  pub queue : List Item
  pub shutdown : Bool

module _ {ℓ} {Item : Type ℓ} where
  unfoldable pub new_queue : WorkQueue Item
  new_queue = record { queue = []; shutdown = false }

  -- Whether the item is accepted, and the queue behind it.
  unfoldable pub enqueue : Item → WorkQueue Item → Bool × WorkQueue Item
  enqueue item q =
      if q.shutdown then (false, q) else (true, record q { queue = q.queue ++ item ∷ [] })

  unfoldable pub shut_down : WorkQueue Item → WorkQueue Item
  shut_down q = record q { shutdown = true }

  unfoldable pub size : WorkQueue Item → ℕ
  size q = length q.queue

  -- The locked block of `ProcessNext` behind its wait.
  unfoldable pub pop_front : WorkQueue Item → Option (Item × WorkQueue Item)
  pop_front q = elim q.queue [ [] ↦ none | item ∷ rest ↦ some (item, record q { queue = rest }) ]

  -- The locked block of `ProcessAll`.
  unfoldable pub swap_batch : WorkQueue Item → List Item × WorkQueue Item
  swap_batch q = (q.queue, record q { queue = [] })

  -- The condition that a waiting thread asks for.
  unfoldable pub has_work : WorkQueue Item → Bool
  has_work q = not (leb (length q.queue) 0) || q.shutdown

-- `run item` is what the item does to the rest of the program and to the queue.
module _ {ℓ κ} {Item : Type ℓ} {S : Type κ}
    (run : Item → S × WorkQueue Item → S × WorkQueue Item) where
  -- What `ProcessNext` does when its wait is over: `false` where it found no item.
  unfoldable pub take_next : S × WorkQueue Item → Bool × (S × WorkQueue Item)
  take_next (s, q) = elim (pop_front q) [
    | none ↦ (false, (s, q))
    | some (item, rest) ↦ (true, run item (s, rest))
  ]

  -- With a positive timeout the wait ends; with another, `none`, it goes on until the queue is ready.
  unfoldable pub process_next : ℕ → S × WorkQueue Item → Option (Bool × (S × WorkQueue Item))
  process_next timeout_ms st =
      if leb timeout_ms 0 && not (has_work (st.1)) then none else some (take_next st)

  unfoldable pub run_all : List Item → S × WorkQueue Item → S × WorkQueue Item
  run_all [] st = st
  run_all (item ∷ items) st = run_all items (run item st)

  -- The number of items of the batch, and the state behind them.
  unfoldable pub process_all : S × WorkQueue Item → ℕ × (S × WorkQueue Item)
  process_all (s, q) = let (batch, rest) = swap_batch q in (length batch, run_all batch (s, rest))

-- The queues of the manager, each at an address. A name keeps its queue, since no queue is removed.
pub record WorkQueueManager {ℓ} (Item : Type ℓ) : Type ℓ where
  pub queues : Assoc (WorkQueue Item)

module _ {ℓ} {Item : Type ℓ} where
  -- The pointer that is returned is the name: the manager owns one queue of each name.
  unfoldable pub get_or_create : String → WorkQueueManager Item → String × WorkQueueManager Item
  get_or_create name m = elim (lookup name m.queues) [
    | some q ↦ (name, m)
    | none ↦ (name, record { queues = put name new_queue m.queues })
  ]

  unfoldable pub get : String → WorkQueueManager Item → Option (WorkQueue Item)
  get name m = lookup name m.queues

  unfoldable pub shut_down_entries : Assoc (WorkQueue Item) → Assoc (WorkQueue Item)
  shut_down_entries [] = []
  shut_down_entries ((name, q) ∷ qs) = (name, shut_down q) ∷ shut_down_entries qs

  unfoldable pub shut_down_all : WorkQueueManager Item → WorkQueueManager Item
  shut_down_all m = record { queues = shut_down_entries m.queues }
