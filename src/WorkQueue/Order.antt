-- ===== src/WorkQueue/Order.antt =====
-- core/work_queue.cpp: the order of the items, over all interleavings of the threads.
use vxcore.Prelude.{
  append-nil, sym, arith, append_assoc, inr, inl, refl, ap, Bool-cases, ◌∷◌, ◌∙◌, ◌++◌, some, ◌≡◌,
  if◌then◌else◌, [], List,
}
use vxcore.WorkQueue.{shut_down, new_queue, swap_batch, pop_front, enqueue, WorkQueue}

-- What threads have done with one queue: the items that it accepted and those that a thread has taken
-- from it to run them, both in the order of the steps.
pub record Log (Item : Type 0) : Type 0 where
  pub accepted : List Item
  pub taken : List Item
  pub work_queue : WorkQueue Item

module _ {Item : Type 0} where
  abbrev pub start : Log Item
  start = record { accepted = []; taken = []; work_queue = new_queue }

  -- A lock block of a thread: `Enqueue`, the take of `ProcessNext`, the swap of `ProcessAll`, `Shutdown`.
  pub data Step : Log Item → Log Item → Type 0 where
    enqueues :
        (l : Log Item) (item : Item)
        → Step l record l {
          accepted = if (enqueue item l.work_queue).0 then l.accepted ++ item ∷ [] else l.accepted;
          work_queue = (enqueue item l.work_queue).1;
        }
    takes :
        (l : Log Item) (item : Item) (rest : WorkQueue Item)
        → pop_front (l.work_queue) ≡ some (item, rest)
        → Step l record l { taken = l.taken ++ item ∷ []; work_queue = rest }
    swaps :
        (l : Log Item)
        → Step l record l {
          taken = l.taken ++ (swap_batch (l.work_queue)).0;
          work_queue = (swap_batch (l.work_queue)).1;
        }
    shuts : (l : Log Item) → Step l record l { work_queue = shut_down (l.work_queue) }

  pub data Reachable : Log Item → Type 0 where
    here : Reachable start
    next : {l l' : Log Item} → Reachable l → Step l l' → Reachable l'

  abbrev pub InOrder : Log Item → Type 0
  InOrder l = l.accepted ≡ l.taken ++ l.work_queue.queue

  enqueue-InOrder :
      (item : Item) (accepted taken : List Item) (q : WorkQueue Item)
      → accepted ≡ taken ++ q.queue
      → (if (enqueue item q).0 then accepted ++ item ∷ [] else accepted)
        ≡ taken ++ (enqueue item q).1.queue
  unfolding enqueue
  enqueue-InOrder item accepted taken q h = elim (Bool-cases (q.shutdown)) [
    | inl e ↦ rw e h
    | inr e ↦ rw (e, h) (append_assoc taken (q.queue) (item ∷ []))
  ]

  pop_front-queue :
      (q rest : WorkQueue Item) (item : Item)
      → pop_front q ≡ some (item, rest)
      → q.queue ≡ item ∷ rest.queue
  unfolding pop_front
  pop_front-queue q rest item e = ground (arith, e)

  Step-InOrder : {l l' : Log Item} → Step l l' → InOrder l → InOrder l'
  unfolding swap_batch shut_down
  Step-InOrder (enqueues l item) h = enqueue-InOrder item (l.accepted) (l.taken) (l.work_queue) h
  Step-InOrder (takes l item rest e) h =
      h
      ∙ ap (λ q. l.taken ++ q) (pop_front-queue (l.work_queue) rest item e)
      ∙ sym (append_assoc (l.taken) (item ∷ []) (rest.queue))
  Step-InOrder (swaps l) h = h ∙ sym (append-nil (l.taken ++ l.work_queue.queue))
  Step-InOrder (shuts l) h = h

  -- Whatever threads do with a queue, and in whatever order, the items that it accepted are those that
  -- were taken from it to be run and then those that are still in it, in the order in which they were
  -- accepted: none is lost, none is run twice and none overtakes another.
  pub Reachable-InOrder : {l : Log Item} → Reachable l → InOrder l
  unfolding new_queue
  Reachable-InOrder here = refl
  Reachable-InOrder (next r s) = Step-InOrder s (Reachable-InOrder r)
