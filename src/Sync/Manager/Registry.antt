-- ===== src/Sync/Manager/Registry.antt =====
-- sync/sync_manager.cpp: enabling and disabling the sync of a notebook, and the queries on it.
pub mod Rollback
pub mod Lifecycle
use vxcore.Prelude.{
  inr, inl, Option-cases, ◌⊎◌, ◌≡◌, ℕ, ◌/◌, ◌%◌, String, Bool, false, not, ◌&&◌, ◌∷◌, Option, none,
  some, ◌==◌, str_eq, is_some, if◌then◌else◌,
}
use vxcore.Prelude.Assoc.{Assoc, lookup, has, put, without}
use vxcore.Errors.{
  VxCoreError, err_not_found, err_unsupported, err_git_init_failed, err_unknown_backend,
  err_missing_credentials, err_sync_not_enabled, err_not_implemented, is_ok,
}
use vxcore.Sync.System.{
  SyncState, idle, SyncConfig, Notebook, SyncManager, System, Externals, Address, Action, ok, err,
  ◌>>=◌, ◌>>◌, pure, raise, crash, gets, modify, call, when, update, remove,
}

abbrev pub Factory : Type 0 → Type 0
Factory W = SyncConfig → Option Address → System W → Option Address × System W

-- The entries that `EnableSyncImpl` saves before it seeds the maps.
pub record Snapshot : Type 0 where
  pub prev_config : Option SyncConfig
  pub prev_state : Option SyncState

-- m[k] = v, or m.erase(k) where there was no entry
unfoldable pub restore {ℓ} : {V : Type ℓ} → String → Option V → Assoc V → Assoc V
restore k none m = without k m
restore k (some v) m = put k v m

-- What `NotebookManager::GetNotebook` finds decides; a raw notebook does not sync.
notebook_error : Option Notebook → Option VxCoreError
notebook_error none = some err_not_found
notebook_error (some n) = if n.is_raw then some err_unsupported else none

unfoldable pub validate_notebook : {W : Type 0} → String → Action W Unit
unfolding notebook_error
validate_notebook id s = elim (notebook_error (lookup id s.notebooks)) [
  | none ↦ (pure tt) s
  | some e ↦ (raise e) s
]

-- It returns at once or goes on, and changes nothing.
pub validate_notebook-cases :
    {W : Type 0} (id : String) (s : System W)
    → (validate_notebook id s ≡ (ok tt, s))
      ⊎ ((e : VxCoreError) × (validate_notebook id s ≡ (err e, s)))
unfolding validate_notebook
validate_notebook-cases id s = elim (Option-cases (notebook_error (lookup id s.notebooks))) [
  | inl e ↦ inl (rw (e, validate_notebook))
  | inr (c, e) ↦ inr (c, rw (e, validate_notebook))
]

-- The lock block of the calls that need a running backend.
unfoldable pub find_backend : {W : Type 0} → String → Action W Address
find_backend id s =
    if not (has id s.manager.states)
    then (raise err_sync_not_enabled) s
    else elim (lookup id s.manager.backends) [
      | none ↦ (raise err_not_implemented) s
      | some b ↦ (pure b) s
    ]

unfoldable pub is_registered : {W : Type 0} → String → System W → Bool
is_registered id s = has id s.manager.states

abbrev nonempty : String → Bool
nonempty t = not (str_eq t "")

unfoldable pub is_ready : {W : Type 0} → String → System W → Bool
is_ready id s = elim (lookup id s.notebooks) [
  | none ↦ false
  | some n ↦ n.sync_enabled && nonempty n.sync_backend && nonempty n.sync_remote_url
]

unfoldable pub seed : {W : Type 0} → String → SyncConfig → Action W Snapshot
seed id config = do
  saved ← gets (λ s. record {
    prev_config = lookup id s.manager.configs_cache;
    prev_state = lookup id s.manager.states;
  })
  update (λ m. record m {
    configs_cache = put id config m.configs_cache;
    states = put id idle m.states;
  })
  pure saved

unfoldable pub rollback : {W : Type 0} → String → Snapshot → Action W Unit
unfolding restore
rollback id saved = update λ m. record m {
  configs_cache = restore id saved.prev_config m.configs_cache;
  states = restore id saved.prev_state m.states;
}

-- backend_name: the empty name stands for git
abbrev backend_name : SyncConfig → String
backend_name c = if str_eq c.backend "" then "git" else c.backend

-- capabilities & SyncCapability::AuthRequired, which is 1u << 3
abbrev auth_required : ℕ → Bool
auth_required caps = (caps / 8) % 2 == 1

abbrev pub forget : String → SyncManager → SyncManager
forget id m = record m {
  backends = without id m.backends;
  states = without id m.states;
  configs_cache = without id m.configs_cache;
}

module _ {W : Type 0} (x : Externals W) where
  -- The end of a `unique_ptr`'s life: the object is dead before its destructor's effects are seen.
  unfoldable pub reset : Address → Action W Unit
  reset b = modify λ s. x.destroy b (record s { live = remove b s.live })

  reset_old : Option Address → Action W Unit
  unfolding reset
  reset_old none = pure tt
  reset_old (some b) = reset b

  allocate : Option Address → System W → Option Address × System W
  allocate none s = (none, s)
  allocate (some b) s = (some b, record s { live = b ∷ s.live })

  unfoldable pub construct :
      Option (Factory W) → SyncConfig → Option Address → Action W (Option Address)
  unfolding allocate
  construct (some factory) config provider =
      call λ s. let (b, s') = factory config provider s in allocate b s'
  construct none config provider =
      call λ s. let (b, s') = x.create (backend_name config) config provider s in allocate b s'

  -- backends_[id] = std::move(backend), under the lock: a backend that was there is destroyed.
  publish : String → Address → Action W Unit
  unfolding reset_old
  publish id b = do
    old ← gets (λ s. lookup id s.manager.backends)
    update (λ m. record m { backends = put id b m.backends })
    reset_old old

  start : String → SyncConfig → Snapshot → Address → Option Notebook → Action W Unit
  unfolding publish rollback reset
  start id config saved b none = crash
  start id config saved b (some n) = do
    e ← call (x.initialize b n.root_folder config)
    if is_ok e then publish id b else do rollback id saved; reset b; raise e

  -- What follows the factory: `b` is the pointer that it returned.
  install : String → SyncConfig → Option Address → Snapshot → Option Address → Action W Unit
  unfolding start rollback reset
  install id config provider saved none = do rollback id saved; raise err_unknown_backend
  install id config provider saved (some b) = do
    caps ← gets (x.get_capabilities b)
    if auth_required caps && not (is_some provider)
        then (do reset b; rollback id saved; raise err_missing_credentials)
        else do
          when (is_some provider) (modify (x.replace_creds_provider b provider))
          n ← gets (λ s. lookup id s.notebooks)
          start id config saved b n

  abbrev git_unusable : SyncConfig → Option (Factory W) → Bool
  git_unusable config factory =
      not (is_some factory) && str_eq config.backend "git" && not x.libgit2_ok

  unfoldable pub enable_sync_impl :
      String → SyncConfig → Option Address → Option (Factory W) → Action W Unit
  unfolding install
  enable_sync_impl id config provider factory = do
    validate_notebook id
    if git_unusable config factory then raise err_git_init_failed else do
      saved ← seed id config
      b ← construct factory config provider
      install id config provider saved b

  -- The overloads with a provider or none; credentials come wrapped in a provider.
  unfoldable pub enable_sync : String → SyncConfig → Option Address → Action W Unit
  unfolding enable_sync_impl
  enable_sync id config provider = enable_sync_impl id config provider none

  -- The backend leaves the map under the lock and is destroyed behind it.
  unfoldable pub disable_sync : String → Action W Unit
  unfolding reset_old
  disable_sync id = do
    doomed ← gets (λ s. lookup id s.manager.backends)
    update (forget id)
    reset_old doomed

  unfoldable pub unregister_backend : String → Action W Unit
  unfolding reset
  unregister_backend id s = elim (lookup id s.manager.backends) [
    | none ↦ (pure tt) s
    | some b ↦ (do update (forget id); reset b) s
  ]
