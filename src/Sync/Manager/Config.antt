-- ===== src/Sync/Manager/Config.antt =====
-- sync/sync_manager.cpp: the read-through cache of configurations, and what file events do.
pub mod Cache
use vxcore.Prelude.{ℕ, String, true, not, [], ◌∷◌, Option, none, some, if◌then◌else◌}
use vxcore.Prelude.Assoc.{lookup, has, put, without}
use vxcore.Sync.Dirty
use vxcore.Sync.System.{
  SyncConfig, Notebook, System, Externals, Action, Event, sync_should_run, Outcome, ok, err, fault,
  ◌>>=◌, ◌>>◌, pure, crash, gets, update,
}
use vxcore.Sync.Manager.Registry.{validate_notebook}

-- The three fields that the notebook's own configuration decides; `out` is the caller's record.
abbrev pub hydrate : SyncConfig → Notebook → SyncConfig
hydrate out n = record out {
  backend = n.sync_backend;
  remote_url = n.sync_remote_url;
  auto_sync_enabled = n.auto_sync_enabled;
}

rehydrate : {W : Type 0} → String → SyncConfig → Option Notebook → Action W SyncConfig
rehydrate id out none = crash
rehydrate id out (some n) = do
  update (λ m. record m { configs_cache = put id (hydrate out n) m.configs_cache })
  pure (hydrate out n)

from_cache : {W : Type 0} → String → SyncConfig → Option SyncConfig → Action W SyncConfig
unfolding rehydrate
from_cache id out (some c) = pure c
from_cache id out none = do n ← gets (λ s. lookup id s.notebooks); rehydrate id out n

unfoldable pub get_sync_config : {W : Type 0} → String → SyncConfig → Action W SyncConfig
unfolding validate_notebook from_cache
get_sync_config id out = do
  validate_notebook id
  hit ← gets (λ s. lookup id s.manager.configs_cache)
  from_cache id out hit

unfoldable pub invalidate_config_cache : {W : Type 0} → String → System W → System W
invalidate_config_cache id s = record s {
  manager = record s.manager { configs_cache = without id s.manager.configs_cache };
}

unfoldable pub clear_dirty : {W : Type 0} → String → Action W Unit
clear_dirty id = update λ m. record m { dirty_tracker = Dirty.clear id m.dirty_tracker }

-- `SyncConfig effective_cfg;`
abbrev pub default_config : SyncConfig
default_config = record {
  backend = "";
  remote_url = "";
  auto_sync_enabled = true;
  exclude_paths = "*.vswp" ∷ "vx_notebook/vx_sync/" ∷ [];
  backend_options = "null";
  auto_commit_merges = true;
}

module _ {W : Type 0} (x : Externals W) where
  -- event_manager_->Emit, where there is an event manager
  unfoldable pub emit : Event → Action W Unit
  emit e s = if s.manager.has_event_manager then (ok tt, x.emit e s) else (ok tt, s)

  notify : String → Outcome SyncConfig → Action W Unit
  unfolding emit
  notify id (ok c) = if not c.auto_sync_enabled then pure tt else do
    now ← gets x.now
    update (λ m. record m { last_enqueue_time = put id now m.last_enqueue_time })
    emit (sync_should_run id)
  notify id (err e) = pure tt
  notify id fault = crash

  -- A failure of `GetSyncConfig` ends the call and is not passed on.
  unfoldable pub maybe_enqueue_sync : String → Action W Unit
  unfolding get_sync_config notify
  maybe_enqueue_sync id s =
      if not s.manager.has_event_manager
      then (pure tt) s
      else let (r, s') = get_sync_config id default_config s in notify id r s'

  -- The listener of `SetEventManager` on an event that names a notebook.
  unfoldable pub on_event : String → Action W Unit
  unfolding maybe_enqueue_sync Dirty.mark_dirty
  on_event id s =
      if has id s.manager.configs_cache
      then (do
        update (λ m. record m { dirty_tracker = Dirty.mark_dirty id "" m.dirty_tracker })
        maybe_enqueue_sync id)
          s
      else (pure tt) s

unfoldable pub last_sync_time : {W : Type 0} → String → System W → ℕ
last_sync_time id s = elim (lookup id s.notebooks) [ none ↦ 0 | some n ↦ n.last_sync_utc ]

-- Notebook::SetLastSyncUtc, for a notebook that is open; a write that fails is only logged.
unfoldable pub set_last_sync_time : {W : Type 0} → String → ℕ → System W → System W
set_last_sync_time id utc_millis s = elim (lookup id s.notebooks) [
  | none ↦ s
  | some n ↦
      if n.takes_last_sync
      then record s { notebooks = put id (record n { last_sync_utc = utc_millis }) s.notebooks }
      else s
]
