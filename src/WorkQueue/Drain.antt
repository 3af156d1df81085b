-- ===== src/WorkQueue/Drain.antt =====
-- core/work_queue.cpp: the two ways to run what is queued.
use vxcore.Prelude.{append-nil, sym, refl, [], ◌∙◌, ap, ◌∷◌, zero, ◌≡◌, ◌++◌, suc, length, ℕ, List}
use vxcore.WorkQueue.{size, swap_batch, pop_front, take_next, run_all, process_all, WorkQueue}

-- The queue with `first` before what is in it.
abbrev pub prepend {ℓ} : {Item : Type ℓ} → List Item → WorkQueue Item → WorkQueue Item
prepend first q = record q { queue = first ++ q.queue }

module _ {Item S : Type 0} (run : Item → S × WorkQueue Item → S × WorkQueue Item) where
  -- An item adds items behind what is queued, and does not look at the queue.
  abbrev pub OnlyAppends : Type 0
  OnlyAppends =
      (item : Item) (first : List Item) (s : S) (q : WorkQueue Item)
      → run item (s, prepend first q) ≡ ((run item (s, q)).0, prepend first (run item (s, q)).1)

  -- `n` rounds of `ProcessNext` that do not wait.
  unfoldable pub rounds : ℕ → S × WorkQueue Item → S × WorkQueue Item
  rounds zero st = st
  rounds (suc n) st = rounds n (take_next run st).1

  take_next-prepend :
      (item : Item) (items : List Item) (s : S) (q : WorkQueue Item)
      → OnlyAppends
      → (take_next run (s, prepend (item ∷ items) q)).1
        ≡ ((run item (s, q)).0, prepend items (run item (s, q)).1)
  unfolding take_next pop_front
  take_next-prepend item items s q h = h item items s q

  rounds-run_all :
      (items : List Item) (s : S) (q : WorkQueue Item)
      → OnlyAppends
      → rounds (length items) (s, prepend items q) ≡ run_all run items (s, q)
  unfolding rounds run_all
  rounds-run_all [] s q h = refl
  rounds-run_all (item ∷ items) s q h =
      ap (rounds (length items)) (take_next-prepend item items s q h)
      ∙ rounds-run_all items (run item (s, q)).0 (run item (s, q)).1 h

  -- Where items only add items, and only behind what is queued, `ProcessAll` does what as many rounds
  -- of `ProcessNext` do as there are items in the queue when it starts: items that are added meanwhile
  -- wait for the next call.
  pub process_all-rounds :
      (s : S) (q : WorkQueue Item)
      → OnlyAppends
      → (process_all run (s, q)).1 ≡ rounds (size q) (s, q)
  unfolding process_all swap_batch size
  process_all-rounds s q h =
      let rest : WorkQueue Item = record { queue = []; shutdown = q.shutdown } in
      sym (rounds-run_all (q.queue) s rest h)
      ∙ ap (λ items. rounds (length q.queue) (s, record { queue = items; shutdown = q.shutdown }))
          (append-nil (q.queue))
