-- ===== src/Sync/Quiet.antt =====
-- Externals that do not re-enter the manager, as a named hypothesis: each field is one call.
use vxcore.Prelude.{String, Option, ◌≡◌}
use vxcore.Sync.System.{SyncConfig, System, Externals, Address, Event}

-- The call leaves the manager, the notebooks and the backend objects alone.
pub record Same {W : Type 0} (s t : System W) : Type 0 where
  pub manager : t.manager ≡ s.manager
  pub notebooks : t.notebooks ≡ s.notebooks
  pub live : t.live ≡ s.live

-- Destructors keep the manager.
pub record DestroysQuietly {W : Type 0} (x : Externals W) : Type 0 where
  pub destroy : (b : Address) (s : System W) → Same s (x.destroy b s)

-- What a sync call runs besides `backend->Sync` and its kin.
pub record IsQuiet {W : Type 0} (x : Externals W) : Type 0 where
  pub emit : (e : Event) (s : System W) → Same s (x.emit e s)
  pub destroy : (b : Address) (s : System W) → Same s (x.destroy b s)
  pub set_cancellation :
      (b : Address) (c : Option Address) (s : System W) → Same s (x.set_cancellation b c s)
  pub get_conflicts : (b : Address) (s : System W) → Same s (x.get_conflicts b s).2

-- What `EnableSync` runs.
pub record EnablesQuietly {W : Type 0} (x : Externals W) : Type 0 where
  pub destroy : (b : Address) (s : System W) → Same s (x.destroy b s)
  pub create :
      (name : String) (c : SyncConfig) (p : Option Address) (s : System W)
      → Same s (x.create name c p s).1
  pub replace_creds_provider :
      (b : Address) (p : Option Address) (s : System W) → Same s (x.replace_creds_provider b p s)
  pub initialize :
      (b : Address) (root : String) (c : SyncConfig) (s : System W)
      → Same s (x.initialize b root c s).1
