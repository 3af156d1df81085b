-- ===== src/Sync/Manager/Registry/Rollback.antt =====
-- Enabling a notebook either takes effect or leaves its entries as they were.
use vxcore.Prelude.{
  String, ◌≡◌, refl, Option, none, some, eq_refl, str_eq, if◌then◌else◌, inl, inr, Bool-cases,
}
use vxcore.Prelude.Assoc.{Assoc, lookup, lookup-put, lookup-without}
use vxcore.Errors.{is_ok}
use vxcore.Sync.System.{
  SyncConfig, Notebook, System, Externals, Address, Outcome, ok, err, fault, ◌>>=◌,
}
use vxcore.Sync.Manager.Registry.{
  Snapshot, Factory, auth_required, reset_old, git_unusable, restore, rollback, reset, install,
  start, enable_sync_impl, construct, seed, validate_notebook-cases,
}
use vxcore.Sync.Quiet.{DestroysQuietly}

pub lookup-restore {ℓ} :
    {V : Type ℓ} (k j : String) (o : Option V) (m : Assoc V)
    → lookup j (restore k o m) ≡ (if str_eq k j then o else lookup j m)
unfolding restore
lookup-restore k j none m = lookup-without k j m
lookup-restore k j (some v) m = lookup-put k j v m

-- The entries of one notebook are those of a snapshot.
abbrev pub Holds : {W : Type 0} → String → Snapshot → System W → Type 0
Holds id saved s =
    (lookup id s.manager.configs_cache ≡ saved.prev_config)
    × (lookup id s.manager.states ≡ saved.prev_state)

abbrev pub entries : {W : Type 0} → String → System W → Snapshot
entries id s = record {
  prev_config = lookup id s.manager.configs_cache;
  prev_state = lookup id s.manager.states;
}

-- A result that is no error, or one behind which the entries are restored.
abbrev pub Restored : {W : Type 0} → String → Snapshot → Outcome Unit × System W → Type 0
Restored id saved (ok a, s) = Unit
Restored id saved (fault, s) = Unit
Restored id saved (err e, s) = Holds id saved s

module _ {W : Type 0} (x : Externals W) (q : DestroysQuietly x) where
  rollback-Holds :
      (id : String) (saved : Snapshot) (s : System W) → Holds id saved (rollback id saved s).1
  unfolding rollback
  rollback-Holds id saved s = (simp (lookup-restore, eq_refl), simp (lookup-restore, eq_refl))

  reset-Holds :
      (id : String) (saved : Snapshot) (b : Address) (s : System W)
      → Holds id saved s
      → Holds id saved (reset x b s).1
  unfolding reset
  reset-Holds id saved b s h = rw (q.destroy b _).manager h

  reset_old-Restored :
      (id : String) (saved : Snapshot) (o : Option Address) (s : System W)
      → Restored id saved (reset_old x o s)
  unfolding reset_old
  reset_old-Restored id saved none s = tt
  reset_old-Restored id saved (some b) s = tt

  start-Restored :
      (id : String) (c : SyncConfig) (saved : Snapshot) (b : Address) (n : Option Notebook)
      (s : System W)
      → Restored id saved (start x id c saved b n s)
  unfolding start
  start-Restored id c saved b none s = tt
  start-Restored id c saved b (some n) s =
      elim (Bool-cases (is_ok (x.initialize b n.root_folder c s).0)) [
        | inl good ↦ rw good (reset_old-Restored id saved _ _)
        | inr bad ↦ rw bad (
            reset-Holds id saved b (rollback id saved (x.initialize b n.root_folder c s).1).1
              (rollback-Holds id saved (x.initialize b n.root_folder c s).1))
      ]

  install-Restored :
      (id : String) (c : SyncConfig) (p : Option Address) (saved : Snapshot) (b : Option Address)
      (s : System W)
      → Restored id saved (install x id c p saved b s)
  unfolding install
  install-Restored id c p saved none s = rollback-Holds id saved s
  install-Restored id c none saved (some b) s =
      elim (Bool-cases (auth_required (x.get_capabilities b s))) [
        | inl missing ↦ rw missing (rollback-Holds id saved (reset x b s).1)
        | inr fine ↦ rw fine (start-Restored id c saved b _ s)
      ]
  install-Restored id c (some p) saved (some b) s =
      elim (Bool-cases (auth_required (x.get_capabilities b s))) [
        | inl needed ↦
            rw needed (start-Restored id c saved b _ (x.replace_creds_provider b (some p) s))
        | inr fine ↦ rw fine (start-Restored id c saved b _ (x.replace_creds_provider b (some p) s))
      ]

  -- Behind the seeding: the snapshot is the one that is restored.
  construct-Restored :
      (id : String) (c : SyncConfig) (p : Option Address) (f : Option (Factory W))
      (saved : Snapshot) (s : System W)
      → Restored id saved ((construct x f c p >>= install x id c p saved) s)
  unfolding construct
  construct-Restored id c p none saved s = install-Restored id c p saved _ _
  construct-Restored id c p (some f) saved s = install-Restored id c p saved _ _

  -- Where destroying a backend leaves the manager alone: whatever the factory and the backend's
  -- `Initialize` do to the manager while `EnableSync` runs, an error leaves the notebook's
  -- configuration and state as they were.
  pub enable_sync_impl-Restored :
      (id : String) (c : SyncConfig) (p : Option Address) (f : Option (Factory W)) (s : System W)
      → Restored id (entries id s) (enable_sync_impl x id c p f s)
  unfolding enable_sync_impl seed
  enable_sync_impl-Restored id c p f s = elim (validate_notebook-cases id s) [
    | inl valid ↦ rw valid (elim (Bool-cases (git_unusable x c f)) [
      | inl broken ↦ rw broken (refl, refl)
      | inr usable ↦ rw usable (construct-Restored id c p f (entries id s) _)
    ])
    | inr (e, invalid) ↦ rw invalid (refl, refl)
  ]
