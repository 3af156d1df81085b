-- ===== src/Sync/Manager/Trigger.antt =====
-- sync/sync_manager.cpp: `TriggerSync` and `ResolveConflict`, the calls that move a notebook's state.
pub mod Outcome
use vxcore.Prelude.{
  String, Bool, true, false, ◌&&◌, List, [], ◌∷◌, map, Option, none, if◌then◌else◌,
}
use vxcore.Prelude.Assoc.{put}
use vxcore.Errors.{VxCoreError, is_ok, is_conflict}
use vxcore.Sync.System.{
  SyncState, idle, staging, error, conflicted, SyncConflictInfo, SyncConflictResolution, Externals,
  Address, Action, sync_started, sync_conflict, sync_finished, ◌>>=◌, ◌>>◌, gets, modify, call, ret,
  when, update, deref,
}
use vxcore.Sync.Manager.Registry.{validate_notebook, find_backend}
use vxcore.Sync.Manager.Config.{clear_dirty, emit, set_last_sync_time}

-- The state that a sync leaves behind.
unfoldable pub state_after : VxCoreError → SyncState
state_after e = if is_ok e then idle else if is_conflict e then conflicted else error

unfoldable pub set_state : {W : Type 0} → String → SyncState → Action W Unit
set_state id st = update λ m. record m { states = put id st m.states }

abbrev no_conflicts : List SyncConflictInfo → Bool
no_conflicts [] = true
no_conflicts (c ∷ cs) = false

module _ {W : Type 0} (x : Externals W) where
  abbrev get_conflicts_of : Address → Action W (VxCoreError × List SyncConflictInfo)
  get_conflicts_of b = call λ s. let (e, cs, s') = x.get_conflicts b s in ((e, cs), s')

  report_conflicts : String → Address → Action W Unit
  unfolding emit
  report_conflicts id b = do
    deref b
    found ← get_conflicts_of b
    emit x (sync_conflict id (map (λ c. c.path) found.1))

  on_success : String → Action W Unit
  unfolding clear_dirty set_last_sync_time
  on_success id = do clear_dirty id; modify (λ s. set_last_sync_time id (x.now s) s)

  -- The second lock block, and what a success writes.
  settle : String → VxCoreError → Action W Unit
  unfolding set_state state_after on_success
  settle id e = do set_state id (state_after e); when (is_ok e) (on_success id)

  -- sync.conflict comes before sync.finished.
  announce : String → Address → VxCoreError → Bool → Action W Unit
  unfolding report_conflicts emit
  announce id b e listening = do
    when (is_conflict e && listening) (report_conflicts id b)
    emit x (sync_finished id e)
    ret e

  -- From the return of `backend->Sync` on.
  unfoldable pub finish_sync : String → Address → VxCoreError → Action W Unit
  unfolding settle announce
  finish_sync id b e = do
    deref b
    modify (x.set_cancellation b none)
    settle id e
    listening ← gets (λ s. s.manager.has_event_manager)
    announce id b e listening

  unfoldable pub trigger_sync : String → Option Address → Action W Unit
  unfolding set_state
  trigger_sync id cancellation = do
    validate_notebook id
    b ← find_backend id
    set_state id staging
    emit x (sync_started id)
    deref b
    modify (x.set_cancellation b cancellation)
    e ← call (x.sync b)
    finish_sync id b e

  unfoldable pub resolve_conflict : String → String → SyncConflictResolution → Action W Unit
  unfolding set_state
  resolve_conflict id path resolution = do
    validate_notebook id
    b ← find_backend id
    deref b
    e ← call (x.resolve_conflict b path resolution)
    if is_ok e
        then (do
          deref b
          remaining ← get_conflicts_of b
          when (no_conflicts remaining.1) (set_state id idle))
        else ret e
