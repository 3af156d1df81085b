-- ===== src/Sync/Manager/Guards.antt =====
-- The guards that the calls on a running backend share.
use vxcore.Prelude.{String, ◌≡◌, refl, false, Option, arith}
use vxcore.Errors.{VxCoreError, err_sync_not_enabled}
use vxcore.Sync.System.{System, Externals, Address, SyncConflictResolution, ok, err}
use vxcore.Sync.Manager.Registry.{validate_notebook, find_backend, is_registered}
use vxcore.Sync.Manager.Trigger.{trigger_sync, resolve_conflict}
use vxcore.Sync.Manager.Phases.{
  stage_only, network_phase_only, get_sync_status, get_conflicts, update_credentials,
}

module _ {W : Type 0} (x : Externals W) (id : String) (s : System W) where
  -- On a notebook that validates and is not registered, each of the calls returns
  -- VXCORE_ERR_SYNC_NOT_ENABLED and changes nothing.
  calls_need_registration :
      (c p : Option Address) (path : String) (r : SyncConflictResolution)
      → validate_notebook id s ≡ (ok tt, s)
      → is_registered id s ≡ false
      → (trigger_sync x id c s ≡ (err err_sync_not_enabled, s))
        × (stage_only x id c s ≡ (err err_sync_not_enabled, s))
        × (network_phase_only x id c s ≡ (err err_sync_not_enabled, s))
        × (get_sync_status x id s ≡ (err err_sync_not_enabled, s))
        × (get_conflicts x id s ≡ (err err_sync_not_enabled, s))
        × (resolve_conflict x id path r s ≡ (err err_sync_not_enabled, s))
        × (update_credentials x id p s ≡ (err err_sync_not_enabled, s))
  unfolding is_registered
  calls_need_registration c p path r valid absent =
      unfold trigger_sync stage_only network_phase_only get_sync_status get_conflicts
        resolve_conflict update_credentials find_backend in
      rw (valid) (ground (arith, absent))

  -- On a notebook that does not validate, each of the calls returns the error of `ValidateNotebook`
  -- and changes nothing.
  calls_need_notebook :
      (e : VxCoreError) (c p : Option Address) (path : String) (r : SyncConflictResolution)
      → validate_notebook id s ≡ (err e, s)
      → (trigger_sync x id c s ≡ (err e, s))
        × (stage_only x id c s ≡ (err e, s))
        × (network_phase_only x id c s ≡ (err e, s))
        × (get_sync_status x id s ≡ (err e, s))
        × (get_conflicts x id s ≡ (err e, s))
        × (resolve_conflict x id path r s ≡ (err e, s))
        × (update_credentials x id p s ≡ (err e, s))
  calls_need_notebook e c p path r invalid =
      unfold trigger_sync stage_only network_phase_only get_sync_status get_conflicts
        resolve_conflict update_credentials in
      rw invalid (refl, refl, refl, refl, refl, refl, refl)
