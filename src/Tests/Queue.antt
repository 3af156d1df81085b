-- ===== src/Tests/Queue.antt =====
-- core/work_queue.cpp, core/event_manager.cpp and utils/file_utils.cpp at concrete inputs.
use vxcore.Utils.Paths.Split.{split_path-concatenate_paths}
use vxcore.WorkQueue.Drain.{process_all-rounds, rounds, OnlyAppends}
use vxcore.Utils.Paths.{concatenate_paths, split_path}
use vxcore.Events.{snapshot, unsubscribe, subscribe, new_event_manager, EventManager}
use vxcore.WorkQueue.{size, enqueue, process_all, pop_front, new_queue, WorkQueue}
use vxcore.WorkQueue.Order.{
  InOrder, Reachable-InOrder, Log, start, Reachable as ReachableLog, enqueues, takes, here, next,
}
use vxcore.Events.Subscription.{
  unsubscribe-subscribe, Reachable-IsWellFormed, IsWellFormed, start as fresh_manager, subscribes,
  unsubscribes,
}
use vxcore.Prelude.{
  ◌-◌, refl, ltb, ◌++◌, if◌then◌else◌, false, append_assoc, ◌+◌, arith, [], String, ◌∷◌, ℕ, ◌≡◌,
}

-- Two items are accepted, one is taken, and an item after the shutdown is refused.
abbrev first_two : Log ℕ
first_two = record {
  accepted = 7 ∷ 8 ∷ [];
  taken = [];
  work_queue = record { queue = 7 ∷ 8 ∷ []; shutdown = false };
}

abbrev after_take : Log ℕ
after_take = record {
  accepted = 7 ∷ 8 ∷ [];
  taken = 7 ∷ [];
  work_queue = record { queue = 8 ∷ []; shutdown = false };
}

two-Reachable : ReachableLog first_two
unfolding new_queue enqueue
two-Reachable = next (next here (enqueues start 7)) (enqueues _ 8)

take-Reachable : ReachableLog after_take
unfolding pop_front
take-Reachable =
    next two-Reachable (takes first_two 7 (record { queue = 8 ∷ []; shutdown = false }) refl)

Reachable-InOrder_example : InOrder after_take
Reachable-InOrder_example = Reachable-InOrder take-Reachable

-- An item adds itself once more, one lower, until it is 0.
abbrev count_down : ℕ → ℕ × WorkQueue ℕ → ℕ × WorkQueue ℕ
count_down item (ran, q) =
    (ran + 1, record q { queue = if ltb 0 item then q.queue ++ (item - 1) ∷ [] else q.queue })

count_down-OnlyAppends : OnlyAppends count_down
count_down-OnlyAppends item first s q = ground (arith, append_assoc first q.queue ((item - 1) ∷ []))

abbrev two_counts : WorkQueue ℕ
two_counts = record { queue = 2 ∷ 0 ∷ []; shutdown = false }

process_all-rounds_example :
    (process_all count_down (0, two_counts)).1 ≡ rounds count_down (size two_counts) (0, two_counts)
process_all-rounds_example = process_all-rounds count_down 0 two_counts count_down-OnlyAppends

abbrev manager : EventManager String
manager = record {
  listeners = ("saved", record { id = 1; callback = "log" } ∷ []) ∷ [];
  next_id = 2;
}

-- Two listeners came and the first one left.
abbrev one_left : EventManager String
one_left = unsubscribe 1 (subscribe "moved" "mark" (subscribe "saved" "log" new_event_manager).1).1

Reachable-IsWellFormed_example : IsWellFormed one_left
unfolding new_event_manager subscribe
Reachable-IsWellFormed_example = Reachable-IsWellFormed (
    unsubscribes 1 (subscribe "moved" "mark" (subscribe "saved" "log" new_event_manager).1).1 (
      subscribes "moved" "mark" (subscribe "saved" "log" new_event_manager).1
        (subscribes "saved" "log" new_event_manager fresh_manager (omega arith)) (omega arith)))

abbrev one_listener : EventManager String
one_listener = (subscribe "saved" "log" new_event_manager).1

one_listener-IsWellFormed : IsWellFormed one_listener
unfolding new_event_manager
one_listener-IsWellFormed =
    Reachable-IsWellFormed (subscribes "saved" "log" new_event_manager fresh_manager (omega arith))

unsubscribe-subscribe_example :
    let (id, m) = subscribe "saved" "mark" one_listener in
    snapshot "saved" (unsubscribe id m) ≡ snapshot "saved" one_listener
unsubscribe-subscribe_example =
    unsubscribe-subscribe "saved" "saved" "mark" one_listener one_listener-IsWellFormed

split_path-concatenate_paths_example :
    split_path (concatenate_paths "work/2024" "plan.md") ≡ ("work/2024", "plan.md")
split_path-concatenate_paths_example =
    split_path-concatenate_paths "work/2024" "plan.md"
      (refl, (refl, (refl, (refl, (refl, (refl, (refl, tt)))))))
