-- ===== src/Sync/System.antt =====
-- sync/sync_types.h, sync/sync_backend.h and what a sync operation acts on: the manager's maps, the
-- notebooks that are open, the backend objects that are alive, and the rest of the world. Backends,
-- event listeners, the registry and the clock are `Externals`: functions that may do anything to the
-- system, re-entering the manager included.
use vxcore.Prelude.{
  ℕ, String, Bool, false, ◌||◌, List, [], ◌∷◌, Option, ◌==◌, if◌then◌else◌, ◌≡◌, refl, arith,
}
use vxcore.Prelude.Assoc.{Assoc}
use vxcore.Errors.{VxCoreError, is_ok}
use vxcore.Sync.Dirty.{DirtyTracker}

pub data SyncState : Type 0 where
  idle staging fetching analyzing merging pushing error conflicted : SyncState

pub data SyncConflictResolution : Type 0 where
  keep_both keep_local keep_remote : SyncConflictResolution

pub data SyncFileStatus : Type 0 where
  unchanged modified_local modified_remote conflicted added_local : SyncFileStatus
  added_remote deleted_local deleted_remote : SyncFileStatus

pub record SyncFileInfo : Type 0 where
  pub path : String
  pub status : SyncFileStatus

pub record SyncConflictInfo : Type 0 where
  pub path : String
  pub local_modified_utc : ℕ
  pub remote_modified_utc : ℕ
  pub is_binary : Bool

pub record SyncConfig : Type 0 where
  pub backend : String
  pub remote_url : String
  pub auto_sync_enabled : Bool
  pub exclude_paths : List String
  -- the JSON text
  pub backend_options : String
  pub auto_commit_merges : Bool

-- What the manager reads and writes of a `Notebook`.
pub record Notebook : Type 0 where
  pub is_raw : Bool
  pub root_folder : String
  pub sync_enabled : Bool
  pub sync_backend : String
  pub sync_remote_url : String
  pub auto_sync_enabled : Bool
  pub last_sync_utc : ℕ
  -- Whether the notebook has a metadata store that takes a new time of the last sync.
  pub takes_last_sync : Bool

-- A backend, a credential provider and a cancellation token are objects known by their address.
abbrev pub Address : Type 0
Address = ℕ

pub record SyncManager : Type 0 where
  pub backends : Assoc Address
  pub states : Assoc SyncState
  pub configs_cache : Assoc SyncConfig
  pub dirty_tracker : DirtyTracker
  pub last_enqueue_time : Assoc ℕ
  pub has_event_manager : Bool

pub data Event : Type 0 where
  sync_should_run sync_started : String → Event
  sync_conflict : String → List String → Event
  sync_finished : String → VxCoreError → Event

-- `live` holds the backend objects that have been constructed and not destroyed.
pub record System (W : Type 0) : Type 0 where
  pub manager : SyncManager
  pub notebooks : Assoc Notebook
  pub live : List Address
  pub world : W

pub record Externals (W : Type 0) : Type 0 where
  pub libgit2_ok : Bool
  pub now : System W → ℕ
  pub emit : Event → System W → System W
  -- SyncBackendRegistry::Create; `none` is a null pointer
  pub create : String → SyncConfig → Option Address → System W → Option Address × System W
  pub destroy : Address → System W → System W
  pub get_capabilities : Address → System W → ℕ
  pub replace_creds_provider : Address → Option Address → System W → System W
  pub initialize : Address → String → SyncConfig → System W → VxCoreError × System W
  pub set_cancellation : Address → Option Address → System W → System W
  pub sync : Address → System W → VxCoreError × System W
  pub stage_and_commit : Address → System W → VxCoreError × Bool × System W
  pub fetch_rebase_push : Address → System W → VxCoreError × System W
  pub get_status : Address → System W → VxCoreError × List SyncFileInfo × System W
  pub get_conflicts : Address → System W → VxCoreError × List SyncConflictInfo × System W
  pub resolve_conflict :
      Address → String → SyncConflictResolution → System W → VxCoreError × System W

-- `err` is a code other than VXCORE_OK; `fault` is undefined behaviour: a null pointer or a destroyed
-- object is used.
pub data Outcome (A : Type 0) : Type 0 where
  ok : A → Outcome A
  err : VxCoreError → Outcome A
  fault : Outcome A

abbrev pub Action : Type 0 → Type 0 → Type 0
Action W A = System W → Outcome A × System W

abbrev continue : {W A B : Type 0} → Outcome A → (A → Action W B) → Action W B
continue (ok a) f s = f a s
continue (err e) f s = (err e, s)
continue fault f s = (fault, s)

infixl 5 ◌>>=◌ ◌>>◌
abbrev pub ◌>>=◌ : {W A B : Type 0} → Action W A → (A → Action W B) → Action W B
◌>>=◌ m f s = let (r, s') = m s in continue r f s'

abbrev pub ◌>>◌ : {W B : Type 0} → Action W (Unit {0}) → Action W B → Action W B
m >> k = m >>= λ _. k

abbrev pub pure : {W A : Type 0} → A → Action W A
pure a s = (ok a, s)

abbrev pub raise : {W A : Type 0} → VxCoreError → Action W A
raise e s = (err e, s)

abbrev pub crash : {W A : Type 0} → Action W A
crash s = (fault, s)

abbrev pub gets : {W A : Type 0} → (System W → A) → Action W A
gets f s = (ok (f s), s)

abbrev pub modify : {W : Type 0} → (System W → System W) → Action W (Unit {0})
modify f s = (ok tt, f s)

-- An external call: its code is a value, and no early return.
abbrev pub call : {W A : Type 0} → (System W → A × System W) → Action W A
call f s = let (a, s') = f s in (ok a, s')

-- `if (err != VXCORE_OK) return err;`, also as the last statement.
abbrev pub ret : {W : Type 0} → VxCoreError → Action W (Unit {0})
ret e = if is_ok e then pure tt else raise e

abbrev pub when : {W : Type 0} → Bool → Action W (Unit {0}) → Action W (Unit {0})
when b m = if b then m else pure tt

abbrev pub update : {W : Type 0} → (SyncManager → SyncManager) → Action W (Unit {0})
update f s = (ok tt, record s { manager = f s.manager })

unfoldable pub is_live : Address → List Address → Bool
is_live b [] = false
is_live b (c ∷ cs) = (c == b) || is_live b cs

unfoldable pub remove : Address → List Address → List Address
remove b [] = []
remove b (c ∷ cs) = let rest = remove b cs in if c == b then rest else c ∷ rest

-- Using a backend through its pointer.
abbrev pub deref : {W : Type 0} → Address → Action W (Unit {0})
deref b s = if is_live b s.live then (ok tt, s) else (fault, s)

pub is_live-remove : (b : Address) (cs : List Address) → is_live b (remove b cs) ≡ false
unfolding is_live remove
is_live-remove b [] = refl
is_live-remove b (c ∷ cs) = ground (arith, is_live-remove b cs)
