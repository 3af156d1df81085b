-- ===== src/Sync/Manager/Config/Cache.antt =====
-- The configuration cache, and its use as the test of whether a notebook syncs.
use vxcore.Prelude.{
  String, true, false, ◌≡◌, refl, Option, none, some, ◌&&◌, arith, eq_refl, str_eq, if◌then◌else◌,
}
use vxcore.Prelude.Assoc.{lookup, put, has, lookup-put, lookup-without}
use vxcore.Sync.Dirty
use vxcore.Sync.Dirty.{has_dirty, has_dirty-mark_dirty}
use vxcore.Sync.System.{
  SyncConfig, Notebook, System, Externals, Outcome, ok, err, fault, sync_should_run,
}
use vxcore.Sync.Manager.Config.{
  hydrate, get_sync_config, invalidate_config_cache, default_config, notify, maybe_enqueue_sync,
  on_event,
}
use vxcore.Sync.Quiet.{IsQuiet}

-- What `GetSyncConfig` gives for an open notebook that can sync: the cached configuration, or the
-- notebook's own with the caller's other fields.
abbrev effective : SyncConfig → Option SyncConfig → Notebook → SyncConfig
effective out none n = hydrate out n
effective out (some c) n = c

-- On an open bundled notebook `GetSyncConfig` succeeds, its result is in the cache from then on, and a
-- second call gives it again, whatever record it is handed, and changes nothing.
get_sync_config_lem :
    {W : Type 0} (id : String) (out out' : SyncConfig) (n : Notebook) (s : System W)
    → lookup id s.notebooks ≡ some n
    → n.is_raw ≡ false
    → let c = effective out (lookup id s.manager.configs_cache) n in
      let t = (get_sync_config id out s).1 in
      ((get_sync_config id out s).0 ≡ ok c)
      × (lookup id t.manager.configs_cache ≡ some c)
      × (get_sync_config id out' t ≡ (ok c, t))
unfolding get_sync_config
get_sync_config_lem id out out' n s here bundled =
    ground (arith, lookup-put id id (hydrate out n) s.manager.configs_cache, eq_refl id)

-- No event reaches the dirty tracker of a notebook whose configuration was invalidated, however it is
-- registered: `InvalidateConfigCache` says that the next request reads the notebook again, and a file
-- event makes no request.
on_event-invalidate_config_cache :
    {W : Type 0} (x : Externals W) (id : String) (s : System W)
    → on_event x id (invalidate_config_cache id s) ≡ (ok tt, invalidate_config_cache id s)
unfolding on_event invalidate_config_cache
on_event-invalidate_config_cache x id s =
    ground (arith, lookup-without id id s.manager.configs_cache, eq_refl id)

get_sync_config-dirty :
    {W : Type 0} (id : String) (out : SyncConfig) (s : System W)
    → (get_sync_config id out s).1.manager.dirty_tracker ≡ s.manager.dirty_tracker
unfolding get_sync_config
get_sync_config-dirty id out s = ground arith

module _ {W : Type 0} (x : Externals W) (q : IsQuiet x) where
  notify-dirty :
      (id : String) (r : Outcome SyncConfig) (s : System W)
      → (notify x id r s).1.manager.dirty_tracker ≡ s.manager.dirty_tracker
  unfolding notify
  notify-dirty id (err e) s = refl
  notify-dirty id fault s = refl
  notify-dirty id (ok c) s =
      let m = s.manager in
      let t = record s {
        manager = record m { last_enqueue_time = put id (x.now s) m.last_enqueue_time };
      } in
      ground (arith, q.emit (sync_should_run id) t)

  maybe_enqueue_sync-dirty :
      (id : String) (s : System W)
      → (maybe_enqueue_sync x id s).1.manager.dirty_tracker ≡ s.manager.dirty_tracker
  maybe_enqueue_sync-dirty id s =
      let (r, t) = get_sync_config id default_config s in
      unfold maybe_enqueue_sync in
      ground (arith, notify-dirty id r t, get_sync_config-dirty id default_config s)

  -- Where the listeners of `sync.should_run` leave the manager alone, a file event makes its notebook
  -- dirty if the cache holds a configuration for it; which other notebooks are dirty does not change.
  has_dirty-on_event :
      (id j : String) (s : System W)
      → has_dirty j (on_event x id s).1.manager.dirty_tracker ≡ (
          if has id s.manager.configs_cache && str_eq id j
          then true
          else has_dirty j s.manager.dirty_tracker)
  has_dirty-on_event id j s =
      let m = s.manager in
      let t = record s {
        manager = record m { dirty_tracker = Dirty.mark_dirty id "" m.dirty_tracker };
      } in
      unfold on_event in
      ground (arith, maybe_enqueue_sync-dirty id t, has_dirty-mark_dirty id j "" m.dirty_tracker)

  -- Where the listeners leave the manager alone, asking for the configuration of an open bundled
  -- notebook is enough for its next file event to make it dirty, also when sync was never enabled for
  -- it.
  pub on_event-get_sync_config :
      (id : String) (out : SyncConfig) (n : Notebook) (s : System W)
      → lookup id s.notebooks ≡ some n
      → n.is_raw ≡ false
      → has_dirty id (on_event x id (get_sync_config id out s).1).1.manager.dirty_tracker ≡ true
  on_event-get_sync_config id out n s here bundled =
      let t = (get_sync_config id out s).1 in
      ground (arith, get_sync_config_lem id out out n s, has_dirty-on_event id id t, eq_refl id)
