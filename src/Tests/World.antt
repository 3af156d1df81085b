-- ===== src/Tests/World.antt =====
-- Externals for the tests: nothing re-enters the manager, and every call of a backend succeeds.
use vxcore.Prelude.{true, false, [], ◌∷◌, some, refl}
use vxcore.Errors.{VxCoreError, vxcore_ok, err_sync_network}
use vxcore.Sync.System.{idle, SyncConfig, Notebook, System, Externals}
use vxcore.Sync.Manager.Registry.{disable_sync}
use vxcore.Sync.Quiet.{Same, IsQuiet, DestroysQuietly}

abbrev pub config : SyncConfig
config = record {
  backend = "git";
  remote_url = "https://host/notes.git";
  auto_sync_enabled = true;
  exclude_paths = [];
  backend_options = "null";
  auto_commit_merges = true;
}

abbrev pub notebook : Notebook
notebook = record {
  is_raw = false;
  root_folder = "/notes";
  sync_enabled = true;
  sync_backend = "git";
  sync_remote_url = "https://host/notes.git";
  auto_sync_enabled = true;
  last_sync_utc = 0;
  takes_last_sync = true;
}

abbrev pub fresh : System Unit
fresh = record {
  manager = record {
    backends = [];
    states = [];
    configs_cache = [];
    dirty_tracker = [];
    last_enqueue_time = [];
    has_event_manager = true;
  };
  notebooks = ("nb", notebook) ∷ [];
  live = [];
  world = tt;
}

-- The notebook is enabled with backend 7 and has an unsaved change.
abbrev pub enabled : System Unit
enabled = record fresh {
  manager = record {
    backends = ("nb", 7) ∷ [];
    states = ("nb", idle) ∷ [];
    configs_cache = ("nb", config) ∷ [];
    dirty_tracker = ("nb", "" ∷ []) ∷ [];
    last_enqueue_time = [];
    has_event_manager = true;
  };
  live = 7 ∷ [];
}

abbrev pub answering : VxCoreError → (System Unit → System Unit) → Externals Unit
answering e during = record {
  libgit2_ok = true;
  now = λ s. 100;
  emit = λ ev s. s;
  create = λ name c p s. (some 7, s);
  destroy = λ b s. s;
  get_capabilities = λ b s. 8;
  replace_creds_provider = λ b p s. s;
  initialize = λ b root c s. (e, s);
  set_cancellation = λ b c s. s;
  sync = λ b s. (e, during s);
  stage_and_commit = λ b s. (e, true, s);
  fetch_rebase_push = λ b s. (e, s);
  get_status = λ b s. (e, [], s);
  get_conflicts = λ b s. (e, [], s);
  resolve_conflict = λ b path r s. (e, s);
}

abbrev pub good : Externals Unit
good = answering vxcore_ok (λ s. s)

abbrev pub offline : Externals Unit
offline = answering err_sync_network (λ s. s)

-- A `DisableSync` of the notebook comes in while the backend syncs.
abbrev pub racing : Externals Unit
racing = answering vxcore_ok (λ s. (disable_sync good "nb" s).1)

same : (s : System Unit) → Same s s
same s = record { manager = refl; notebooks = refl; live = refl }

pub answering-IsQuiet :
    (e : VxCoreError) (during : System Unit → System Unit) → IsQuiet (answering e during)
answering-IsQuiet e during = record {
  emit = λ ev s. same s;
  destroy = λ b s. same s;
  set_cancellation = λ b c s. same s;
  get_conflicts = λ b s. same s;
}

pub answering-DestroysQuietly :
    (e : VxCoreError) (during : System Unit → System Unit) → DestroysQuietly (answering e during)
answering-DestroysQuietly e during = record { destroy = λ b s. same s }
