-- ===== src/Sync/Manager/Registry/Lifecycle.antt =====
-- What a notebook's entries are behind `EnableSync`, `DisableSync` and `UnregisterBackend`.
use vxcore.Prelude.{String, ◌≡◌, refl, Option, none, some, arith, str_eq, if◌then◌else◌}
use vxcore.Prelude.Assoc.{lookup, has, lookup-without}
use vxcore.Sync.System.{System, Externals, Address, ok}
use vxcore.Sync.Manager.Registry.{reset, reset_old, disable_sync, unregister_backend, forget}
use vxcore.Sync.Quiet.{DestroysQuietly}

module _ {W : Type 0} (x : Externals W) (q : DestroysQuietly x) where
  reset_old-manager :
      (o : Option Address) (s : System W)
      → ((reset_old x o s).0 ≡ ok tt) × ((reset_old x o s).1.manager ≡ s.manager)
  unfolding reset_old reset
  reset_old-manager none s = (refl, refl)
  reset_old-manager (some b) s = (refl, (q.destroy b _).manager)

  -- Where destroying a backend leaves the manager alone, disabling always succeeds, drops the three
  -- entries of the notebook and no other, and keeps what the dirty tracker holds, for this notebook
  -- too.
  disable_sync-entries :
      (id j : String) (s : System W)
      → ((disable_sync x id s).0 ≡ ok tt)
        × (lookup j (disable_sync x id s).1.manager.backends
            ≡ (if str_eq id j then none else lookup j s.manager.backends))
        × (lookup j (disable_sync x id s).1.manager.states
            ≡ (if str_eq id j then none else lookup j s.manager.states))
        × (lookup j (disable_sync x id s).1.manager.configs_cache
            ≡ (if str_eq id j then none else lookup j s.manager.configs_cache))
        × ((disable_sync x id s).1.manager.dirty_tracker ≡ s.manager.dirty_tracker)
  unfolding disable_sync
  disable_sync-entries id j s =
      let o = lookup id s.manager.backends in
      let t = record s { manager = forget id s.manager } in
      ground (
        arith,
        reset_old-manager o t,
        lookup-without id j s.manager.backends,
        lookup-without id j s.manager.states,
        lookup-without id j s.manager.configs_cache,
      )

  -- `UnregisterBackend` does what `DisableSync` does where the notebook has a backend, and otherwise
  -- nothing: a notebook that is registered without a backend stays registered.
  unregister_backend-eq-disable_sync :
      (id : String) (s : System W)
      → unregister_backend x id s
        ≡ (if has id s.manager.backends then disable_sync x id s else (ok tt, s))
  unfolding unregister_backend disable_sync reset_old
  unregister_backend-eq-disable_sync id s = ground arith
