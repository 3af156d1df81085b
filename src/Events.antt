-- ===== src/Events.antt =====
-- core/event_manager.cpp and event_manager.h. A lock block is one step; callbacks run outside the lock
-- and may use the manager.
use vxcore.Prelude.Assoc.{put, lookup, Assoc}
use vxcore.Prelude.{
  ◌^◌, ◌==◌, ◌%◌, ◌+◌, if◌then◌else◌, ◌++◌, none, some, Option, ◌∷◌, ℕ, [], String, List,
}
use vxcore.WorkQueue.{WorkQueue, enqueue}
pub mod Subscription

pub record Listener {ℓ} (Callback : Type ℓ) : Type ℓ where
  pub id : ℕ
  pub callback : Callback

pub record EventManager {ℓ} (Callback : Type ℓ) : Type ℓ where
  pub listeners : Assoc (List (Listener Callback))
  pub next_id : ℕ

module _ {ℓ} {Callback : Type ℓ} where
  unfoldable pub new_event_manager : EventManager Callback
  new_event_manager = record { listeners = []; next_id = 1 }

  -- listeners_[event_name], which makes an empty vector for a new name
  unfoldable pub listeners_of : String → EventManager Callback → List (Listener Callback)
  listeners_of event_name m = elim (lookup event_name m.listeners) [ none ↦ [] | some ls ↦ ls ]

  -- The id is a 64-bit number.
  unfoldable pub subscribe : String → Callback → EventManager Callback → ℕ × EventManager Callback
  subscribe event_name callback m =
      let listener : Listener Callback = record { id = m.next_id; callback = callback } in
      (
        m.next_id,
        record {
          listeners = put event_name (listeners_of event_name m ++ listener ∷ []) m.listeners;
          next_id = (m.next_id + 1) % 2 ^ 64;
        },
      )

  -- The inner loop: the vector without the first listener of that id, if it has one.
  unfoldable pub erase_listener : ℕ → List (Listener Callback) → Option (List (Listener Callback))
  erase_listener id [] = none
  erase_listener id (l ∷ ls) =
      let rest = erase_listener id ls in
      if l.id == id then some ls else elim rest [ none ↦ none | some ls' ↦ some (l ∷ ls') ]

  unfoldable pub erase_in : ℕ → Assoc (List (Listener Callback)) → Assoc (List (Listener Callback))
  erase_in id [] = []
  erase_in id ((event_name, ls) ∷ m) =
      let rest = erase_in id m in
      elim (erase_listener id ls) [
        | some ls' ↦ (event_name, ls') ∷ m
        | none ↦ (event_name, ls) ∷ rest
      ]

  unfoldable pub unsubscribe : ℕ → EventManager Callback → EventManager Callback
  unsubscribe id m = record m { listeners = erase_in id m.listeners }

  unfoldable pub callbacks : List (Listener Callback) → List Callback
  callbacks [] = []
  callbacks (l ∷ ls) = l.callback ∷ callbacks ls

  -- The copy that an emission makes under the lock.
  unfoldable pub snapshot : String → EventManager Callback → List Callback
  snapshot event_name m = callbacks (listeners_of event_name m)

-- `call` runs a callback, which may change the rest of the program and the manager. The rest of the
-- program holds the work queues.
module _ {ℓ κ} {Callback Json : Type ℓ} {S : Type κ}
    (call : Callback → String → Json → S × EventManager Callback → S × EventManager Callback) where
  unfoldable pub call_all :
      List Callback → String → Json → S × EventManager Callback → S × EventManager Callback
  call_all [] event_name payload st = st
  call_all (cb ∷ cbs) event_name payload st =
      call_all cbs event_name payload (call cb event_name payload st)

  unfoldable pub emit : String → Json → S × EventManager Callback → S × EventManager Callback
  emit event_name payload (s, m) = call_all (snapshot event_name m) event_name payload (s, m)

-- What `EmitAsync` puts on a queue: the callbacks of that moment, and the event.
pub record Delivery {ℓ} (Callback Json : Type ℓ) : Type ℓ where
  pub to : List Callback
  pub event_name : String
  pub payload : Json

module _ {ℓ} {Callback Json S : Type ℓ}
    (call : Callback → String → Json → S × EventManager Callback → S × EventManager Callback) where
  -- With no queue the event is emitted at once. Nothing is queued for a name that nobody subscribed.
  unfoldable pub emit_async :
      String
      → Json
      → Option (WorkQueue (Delivery Callback Json))
      → S × EventManager Callback
      → Option (WorkQueue (Delivery Callback Json)) × (S × EventManager Callback)
  emit_async event_name payload none st = (none, emit call event_name payload st)
  emit_async event_name payload (some q) (s, m) = elim (lookup event_name m.listeners) [
    | none ↦ (some q, (s, m))
    | some ls ↦
        let d : Delivery Callback Json = record {
          to = callbacks ls;
          event_name = event_name;
          payload = payload;
        } in
        (some (enqueue d q).1, (s, m))
  ]

  -- The item that runs a delivery.
  unfoldable pub deliver :
      Delivery Callback Json → S × EventManager Callback → S × EventManager Callback
  deliver d st = call_all call d.to d.event_name d.payload st
