-- ===== src/Sync/Manager/Phases.antt =====
-- sync/sync_manager.cpp: the two phases of a sync on their own, and the calls that ask the backend.
-- None of them writes the manager's maps.
use vxcore.Prelude.{String, Bool, List, [], Option, none, some, not, if◌then◌else◌}
use vxcore.Prelude.Assoc.{lookup, has}
use vxcore.Errors.{VxCoreError, err_sync_not_enabled}
use vxcore.Sync.System.{
  SyncState, SyncFileInfo, SyncConflictInfo, Externals, Address, Action, ◌>>=◌, ◌>>◌, pure, raise,
  gets, modify, call, ret, deref,
}
use vxcore.Sync.Manager.Registry.{validate_notebook, find_backend}

-- The lock block of the queries: a notebook may be enabled and have no backend yet.
unfoldable pub find_optional_backend : {W : Type 0} → String → Action W (Option Address)
find_optional_backend id s =
    if not (has id s.manager.states)
    then (raise err_sync_not_enabled) s
    else (pure (lookup id s.manager.backends)) s

module _ {W : Type 0} (x : Externals W) where
  -- The result is `*out_did_commit`.
  unfoldable pub stage_only : String → Option Address → Action W Bool
  stage_only id cancellation = do
    validate_notebook id
    b ← find_backend id
    deref b
    modify (x.set_cancellation b cancellation)
    r ←
        call {A = VxCoreError × Bool}
          (λ s. let (e, did, s') = x.stage_and_commit b s in ((e, did), s'))
    deref b
    modify (x.set_cancellation b none)
    ret r.0
    pure r.1

  unfoldable pub network_phase_only : String → Option Address → Action W Unit
  network_phase_only id cancellation = do
    validate_notebook id
    b ← find_backend id
    deref b
    modify (x.set_cancellation b cancellation)
    e ← call (x.fetch_rebase_push b)
    deref b
    modify (x.set_cancellation b none)
    ret e

  ask_status : Option Address → Action W (List SyncFileInfo)
  ask_status none = pure []
  ask_status (some b) = do
    deref b
    r ←
        call {A = VxCoreError × List SyncFileInfo}
          (λ s. let (e, files, s') = x.get_status b s in ((e, files), s'))
    ret r.0
    pure r.1

  -- The result is `out_state` and `out_files`.
  unfoldable pub get_sync_status : String → Action W (Option SyncState × List SyncFileInfo)
  unfolding find_optional_backend ask_status
  get_sync_status id = do
    validate_notebook id
    st ← gets (λ s. lookup id s.manager.states)
    b ← find_optional_backend id
    files ← ask_status b
    pure (st, files)

  ask_conflicts : Option Address → Action W (List SyncConflictInfo)
  ask_conflicts none = pure []
  ask_conflicts (some b) = do
    deref b
    r ←
        call {A = VxCoreError × List SyncConflictInfo}
          (λ s. let (e, cs, s') = x.get_conflicts b s in ((e, cs), s'))
    ret r.0
    pure r.1

  unfoldable pub get_conflicts : String → Action W (List SyncConflictInfo)
  unfolding find_optional_backend ask_conflicts
  get_conflicts id = do validate_notebook id; b ← find_optional_backend id; ask_conflicts b

  unfoldable pub update_credentials : String → Option Address → Action W Unit
  update_credentials id provider = do
    validate_notebook id
    b ← find_backend id
    deref b
    modify (x.replace_creds_provider b provider)
