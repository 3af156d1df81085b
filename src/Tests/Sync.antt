-- ===== src/Tests/Sync.antt =====
-- sync/ at concrete inputs.
use vxcore.Prelude.{true, false, none, some, refl, ◌≡◌, if◌then◌else◌}
use vxcore.Prelude.Assoc.{lookup, put, without}
use vxcore.Errors.{vxcore_ok, err_sync_network, err_missing_credentials, is_ok}
use vxcore.Sync.Dirty.{has_dirty}
use vxcore.Sync.System.{staging, ok, err, fault, is_live, remove}
use vxcore.Sync.Manager.Registry.{
  validate_notebook, find_backend, enable_sync, enable_sync_impl, disable_sync, is_registered, seed,
  construct,
}
use vxcore.Sync.Manager.Registry.Rollback.{enable_sync_impl-Restored, Restored, entries}
use vxcore.Sync.Manager.Trigger.{set_state, trigger_sync, state_after}
use vxcore.Sync.Manager.Trigger.Outcome.{
  trigger_sync-outcome, trigger_sync-disable_sync, at_sync, code,
}
use vxcore.Sync.Manager.Config.{get_sync_config, on_event, emit}
use vxcore.Sync.Manager.Config.Cache.{on_event-get_sync_config}
use vxcore.Tests.World.{
  config, notebook, fresh, enabled, good, offline, racing, answering-IsQuiet,
  answering-DestroysQuietly,
}

enable_then_query : is_registered "nb" (enable_sync good "nb" config (some 5) fresh).1 ≡ true
unfolding enable_sync is_registered validate_notebook put lookup without is_ok remove seed construct
enable_then_query = refl

enable_without_credentials :
    (enable_sync good "nb" config none fresh).0 ≡ err err_missing_credentials
unfolding enable_sync validate_notebook put lookup without is_ok remove seed construct
enable_without_credentials = refl

-- The backend cannot reach its remote.
enable_sync_impl-Restored_example :
    Restored "nb"
      (entries "nb" enabled)
      (enable_sync_impl offline "nb" config (some 5) none enabled)
enable_sync_impl-Restored_example =
    enable_sync_impl-Restored offline (answering-DestroysQuietly err_sync_network (λ s. s)) "nb"
      config (some 5) none enabled

valid : validate_notebook "nb" enabled ≡ (ok tt, enabled)
unfolding validate_notebook lookup
valid = refl

found : find_backend "nb" enabled ≡ (ok 7, enabled)
unfolding find_backend lookup
found = refl

alive : is_live 7 (enabled).live ≡ true
unfolding is_live
alive = refl

survives : is_live 7 (offline.sync 7 (at_sync offline "nb" 7 none enabled)).1.live ≡ true
unfolding is_live emit put set_state
survives = refl

trigger_sync-outcome_example :
    (lookup "nb" (at_sync offline "nb" 7 none enabled).manager.states ≡ some staging)
    × ((trigger_sync offline "nb" none enabled).0 ≡ code err_sync_network)
    × (lookup "nb" (trigger_sync offline "nb" none enabled).1.manager.states
        ≡ some (state_after err_sync_network))
    × (has_dirty "nb" (trigger_sync offline "nb" none enabled).1.manager.dirty_tracker ≡ (
        if is_ok err_sync_network
        then false
        else has_dirty "nb"
            (offline.sync 7 (at_sync offline "nb" 7 none enabled)).1.manager.dirty_tracker))
trigger_sync-outcome_example =
    trigger_sync-outcome offline (answering-IsQuiet err_sync_network (λ s. s)) "nb" 7 none enabled
      valid found alive survives

runs : lookup "nb" (enabled).manager.backends ≡ some 7
unfolding lookup
runs = refl

trigger_sync-disable_sync_example : (trigger_sync racing "nb" none enabled).0 ≡ fault
trigger_sync-disable_sync_example =
    trigger_sync-disable_sync racing
      (answering-IsQuiet vxcore_ok (λ s. (disable_sync good "nb" s).1)) "nb" 7 none enabled valid
      found alive runs (λ t. unfold disable_sync in refl)

opened : lookup "nb" (enabled).notebooks ≡ some notebook
unfolding lookup
opened = refl

on_event-get_sync_config_example :
    has_dirty "nb"
      (on_event good "nb" (get_sync_config "nb" config fresh).1).1.manager.dirty_tracker
    ≡ true
on_event-get_sync_config_example =
    on_event-get_sync_config good (answering-IsQuiet vxcore_ok (λ s. s)) "nb" config notebook fresh
      opened refl
