-- ===== src/Sync/Manager/Trigger/Outcome.antt =====
-- What `TriggerSync` returns and leaves behind.
use vxcore.Prelude.{
  String, Bool, true, false, ◌≡◌, refl, ◌∙◌, Option, none, some, ◌&&◌, arith, eq_refl,
  if◌then◌else◌, Bool-cases, inl, inr, map,
}
use vxcore.Prelude.Assoc.{lookup, lookup-put}
use vxcore.Errors.{VxCoreError, is_ok, is_conflict}
use vxcore.Sync.Dirty.{has_dirty, has_dirty-clear}
use vxcore.Sync.System.{
  sync_started, System, Externals, Address, Event, Outcome, ok, err, fault, is_live, is_live-remove,
  remove, staging, sync_conflict, sync_finished,
}
use vxcore.Sync.Manager.Registry.{validate_notebook, find_backend, disable_sync, forget}
use vxcore.Sync.Manager.Config.{emit}
use vxcore.Sync.Manager.Trigger.{
  state_after, set_state, settle, announce, report_conflicts, finish_sync, trigger_sync,
}
use vxcore.Sync.Quiet.{Same, IsQuiet}

Same-refl : {W : Type 0} (s : System W) → Same s s
Same-refl s = record { manager = refl; notebooks = refl; live = refl }

Same-trans : {W : Type 0} {s t u : System W} → Same s t → Same t u → Same s u
Same-trans a b = record {
  manager = b.manager ∙ a.manager;
  notebooks = b.notebooks ∙ a.notebooks;
  live = b.live ∙ a.live;
}

-- The code that the C interface returns.
abbrev pub code : VxCoreError → Outcome Unit
code e = if is_ok e then ok tt else err e

-- The system in which `backend->Sync` is called.
abbrev pub at_sync :
    {W : Type 0} → Externals W → String → Address → Option Address → System W → System W
at_sync x id b c s = x.set_cancellation b c (emit x (sync_started id) (set_state id staging s).1).1

module _ {W : Type 0} (x : Externals W) (q : IsQuiet x) where
  emit-Same : (e : Event) (s : System W) → ((emit x e s).0 ≡ ok tt) × Same s (emit x e s).1
  unfolding emit
  emit-Same e s = ground (arith, q.emit e s)

  report_conflicts-Same :
      (id : String) (b : Address) (s : System W)
      → is_live b s.live ≡ true
      → ((report_conflicts x id b s).0 ≡ ok tt) × Same s (report_conflicts x id b s).1
  unfolding report_conflicts
  report_conflicts-Same id b s alive =
      let (code_, cs, t) = x.get_conflicts b s in
      ground (arith, q.get_conflicts b s, emit-Same (sync_conflict id (map (λ c. c.path) cs)) t)

  announce-Same :
      (id : String) (b : Address) (e : VxCoreError) (listening : Bool) (s : System W)
      → is_live b s.live ≡ true
      → ((announce x id b e listening s).0 ≡ code e) × Same s (announce x id b e listening s).1
  unfolding announce
  announce-Same id b e listening s alive = elim (Bool-cases (is_conflict e && listening)) [
    | inl some_ ↦ rw some_ (
        let t = (report_conflicts x id b s).1 in
        ground (arith, report_conflicts-Same id b s, emit-Same (sync_finished id e) t))
    | inr none_ ↦ rw none_ (ground (arith, emit-Same (sync_finished id e) s))
  ]

  settle_lem :
      (id : String) (e : VxCoreError) (s : System W)
      → ((settle x id e s).0 ≡ ok tt)
        × (lookup id (settle x id e s).1.manager.states ≡ some (state_after e))
        × (has_dirty id (settle x id e s).1.manager.dirty_tracker
            ≡ (if is_ok e then false else has_dirty id s.manager.dirty_tracker))
        × ((settle x id e s).1.live ≡ s.live)
  unfolding settle
  settle_lem id e s = ground (
    arith,
    lookup-put id id (state_after e) s.manager.states,
    has_dirty-clear id id s.manager.dirty_tracker,
    eq_refl id,
  )

  -- `s` is the system in which `backend->Sync` returned `e`.
  finish_sync_lem :
      (id : String) (b : Address) (e : VxCoreError) (s : System W)
      → is_live b s.live ≡ true
      → ((finish_sync x id b e s).0 ≡ code e)
        × (lookup id (finish_sync x id b e s).1.manager.states ≡ some (state_after e))
        × (has_dirty id (finish_sync x id b e s).1.manager.dirty_tracker
            ≡ (if is_ok e then false else has_dirty id s.manager.dirty_tracker))
  finish_sync_lem id b e s alive =
      let t = x.set_cancellation b none s in
      let u = (settle x id e t).1 in
      let c = q.set_cancellation b none s in
      let l = settle_lem id e t in
      let a = announce-Same id b e u.manager.has_event_manager u (ground (arith, c, l)) in
      unfold finish_sync in ground (arith, c, l, a)

  at_sync_lem :
      (id : String) (b : Address) (c : Option Address) (s : System W)
      → (lookup id (at_sync x id b c s).manager.states ≡ some staging)
        × ((at_sync x id b c s).manager.backends ≡ s.manager.backends)
        × ((at_sync x id b c s).live ≡ s.live)
  unfolding set_state
  at_sync_lem id b c s =
      let t = (set_state id staging s).1 in
      let u = (emit x (sync_started id) t).1 in
      ground (
        arith,
        emit-Same (sync_started id) t,
        q.set_cancellation b c u,
        lookup-put id id staging s.manager.states,
        eq_refl id,
      )

  -- Past the guards a sync is the call of the backend and what follows it.
  trigger_sync_steps :
      (id : String) (b : Address) (c : Option Address) (s : System W)
      → validate_notebook id s ≡ (ok tt, s)
      → find_backend id s ≡ (ok b, s)
      → is_live b s.live ≡ true
      → trigger_sync x id c s
        ≡ (let (e, t) = x.sync b (at_sync x id b c s) in finish_sync x id b e t)
  trigger_sync_steps id b c s valid found alive =
      unfold trigger_sync in
      rw (valid, found)
        (ground (arith, alive, emit-Same (sync_started id) (set_state id staging s).1))

  destroyed :
      (id : String) (b : Address) (s : System W)
      → lookup id s.manager.backends ≡ some b
      → is_live b (disable_sync x id s).1.live ≡ false
  destroyed id b s here =
      let t = record s { manager = forget id s.manager; live = remove b s.live } in
      unfold disable_sync in ground (arith, here, q.destroy b t, is_live-remove b s.live)

  module _ (id : String) (b : Address) (c : Option Address) (s : System W)
      (valid : validate_notebook id s ≡ (ok tt, s)) (found : find_backend id s ≡ (ok b, s))
      (alive : is_live b s.live ≡ true) where
    -- For a notebook that validates and has a live backend, where listeners, tokens and the listing
    -- of conflicts leave the manager alone: the backend is called in the state staging, and if it
    -- survives the call, `TriggerSync` returns the code of `backend->Sync`; the notebook is then idle,
    -- conflicted or in error by that code, and it is clean on success and as dirty as the call left it
    -- otherwise.
    pub trigger_sync-outcome :
        is_live b (x.sync b (at_sync x id b c s)).1.live ≡ true
        → let (e, t) = x.sync b (at_sync x id b c s) in
          let r = trigger_sync x id c s in
          (lookup id (at_sync x id b c s).manager.states ≡ some staging)
          × (r.0 ≡ code e)
          × (lookup id r.1.manager.states ≡ some (state_after e))
          × (has_dirty id r.1.manager.dirty_tracker
              ≡ (if is_ok e then false else has_dirty id t.manager.dirty_tracker))
    trigger_sync-outcome survives =
        let (e, t) = x.sync b (at_sync x id b c s) in
        let f = finish_sync_lem id b e t survives in
        rw (trigger_sync_steps id b c s valid found alive) ((at_sync_lem id b c s).0, f.0, f.1, f.2)

    -- For a notebook that validates and has a registered and live backend, where listeners, tokens
    -- and the listing of conflicts leave the manager alone: if `DisableSync` runs for the notebook
    -- while `backend->Sync` does, the backend is destroyed and `TriggerSync` goes on to use it, so
    -- that the call ends in a fault.
    pub trigger_sync-disable_sync :
        lookup id s.manager.backends ≡ some b
        → ((t : System W) → (x.sync b t).1 ≡ (disable_sync x id t).1)
        → (trigger_sync x id c s).0 ≡ fault
    trigger_sync-disable_sync here races =
        let t = at_sync x id b c s in
        let u = (x.sync b t).1 in
        let dead = destroyed id b t (ground (arith, at_sync_lem id b c s)) in
        rw (trigger_sync_steps id b c s valid found alive)
          (unfold finish_sync in ground (arith, dead, races t))
