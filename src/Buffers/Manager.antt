-- ===== src/Buffers/Manager.antt =====
-- core/buffer_manager.cpp: the buffers that are open.
use vxcore.Utils.Strings.{starts_with}
use vxcore.Errors.{vxcore_ok, err_not_found, err_io, err_buffer_not_found, VxCoreError}
use vxcore.Buffers.Backup.{discard_backup}
use vxcore.Prelude.Assoc.{without, lookup, put, Assoc}
use vxcore.Prelude.{
  [], true, is_some, ◌&&◌, false, codes, ℕ, str_eq, not, map, Bytes, ◌∷◌, some, none, if◌then◌else◌,
  Bool, String, Option, List,
}
use vxcore.History.{Store, record_file_open}
use vxcore.Buffers.Disk.{Files}
use vxcore.Buffers.Content.{
  normal, save_failed, file_missing, set_content, save_content, resolve_full_path, load_content,
  Buffer, notebook_id, new_virtual_buffer, new_buffer, OpenNotebook,
}
pub mod Distinct
pub mod Content

-- What the manager asks of the notebooks: `store` is a notebook's metadata store, if it has one,
-- `file_id` GetFileByPath on it and `sync_folder` GetFolderConfig of a folder, which may read the
-- folder into the store, and is false on an error.
pub record Notebooks (D T : Type 0) : Type 0 where
  pub get_notebook : String → D → Option OpenNotebook
  pub resolve_path : String → D → Option (String × String)
  pub is_relative_path : String → Bool
  pub parent_path : String → String
  pub store : OpenNotebook → D → Option (Store D T)
  pub file_id : OpenNotebook → String → D → Option String
  pub sync_folder : OpenNotebook → String → D → Bool × D
  pub now : D → ℕ

pub record BufferRecord : Type 0 where
  pub id : String
  pub notebook_id : String
  pub file_path : String

-- The manager, the buffers of the session's configuration, and the disk.
pub record Manager (D : Type 0) : Type 0 where
  pub buffers : Assoc Buffer
  pub session_buffers : List BufferRecord
  pub disk : D

-- The first buffer of a notebook and a path, or "".
unfoldable pub find_in : String → String → Assoc Buffer → String
unfolding notebook_id
find_in nb path [] = ""
find_in nb path ((id, b) ∷ bs) =
    let rest = find_in nb path bs in
    if str_eq (notebook_id b) nb && str_eq b.file_path path then b.id else rest

unfoldable pub records : Assoc Buffer → List BufferRecord
unfolding notebook_id
records [] = []
records ((id, b) ∷ bs) =
    let rest = records bs in
    if b.is_virtual
    then rest
    else record { id = b.id; notebook_id = notebook_id b; file_path = b.file_path } ∷ rest

unfoldable pub ids_of_notebook : String → Assoc Buffer → List String
unfolding notebook_id
ids_of_notebook nb [] = []
ids_of_notebook nb ((id, b) ∷ bs) =
    let rest = ids_of_notebook nb bs in if str_eq (notebook_id b) nb then id ∷ rest else rest

module _ {D : Type 0} where
  abbrev pub set_buffers : Assoc Buffer → Manager D → Manager D
  set_buffers bs m = record m { buffers = bs }

  unfoldable pub find_buffer_by_path : String → String → Manager D → String
  unfolding find_in
  find_buffer_by_path nb path m = find_in nb path m.buffers

  unfoldable pub get_buffer : String → Manager D → Option Buffer
  get_buffer id m = lookup id m.buffers

  unfoldable pub list_buffers : Manager D → List Buffer
  list_buffers m = map (λ e. e.1) m.buffers

  unfoldable pub is_virtual_buffer : String → Manager D → Bool
  is_virtual_buffer id m = elim (lookup id m.buffers) [ none ↦ false | some b ↦ b.is_virtual ]

  unfoldable pub open_virtual_buffer : String → String → Manager D → String × Manager D
  unfolding find_buffer_by_path new_virtual_buffer
  open_virtual_buffer uuid address m =
      let existing = find_buffer_by_path "" address m in
      if str_eq existing ""
      then (uuid, set_buffers (put uuid (new_virtual_buffer uuid address) m.buffers) m)
      else (existing, m)

  unfoldable pub update_session_buffers : Manager D → Manager D
  unfolding records
  update_session_buffers m = record m { session_buffers = records m.buffers }

module _ {D T : Type 0} (ns : Notebooks D T) where
  -- TrySyncAndGetFile
  synced_file : OpenNotebook → String → D → Option String × D
  synced_file n path d =
      let (done, d') = ns.sync_folder n (ns.parent_path path) d in
      (if done then ns.file_id n path d' else none, d')

  find_file : OpenNotebook → String → D → Option String × D
  unfolding synced_file
  find_file n path d = elim (ns.file_id n path d) [
    | none ↦ synced_file n path d
    | some id ↦ (some id, d)
  ]

  record_found : Store D T → Option String × D → D
  unfolding record_file_open
  record_found s (none, d) = d
  record_found s (some id, d) = (record_file_open s id (ns.now d) d).1

  -- The history part of `OpenBuffer`.
  unfoldable pub record_open : Option OpenNotebook → String → D → D
  unfolding find_file record_found
  record_open none path d = d
  record_open (some n) path d = elim (ns.store n d) [
    | none ↦ d
    | some s ↦ record_found s (find_file n path d)
  ]

  -- The notebook and the path that an absolute path stands for.
  unfoldable pub effective : String → String → D → String × String
  effective nb path d =
      if str_eq nb "" && not (ns.is_relative_path path)
      then (elim (ns.resolve_path path d) [ none ↦ (nb, path) | some r ↦ r ])
      else (nb, path)

  create_buffer : String → Option OpenNotebook → String → Manager D → String × Manager D
  unfolding new_buffer record_open
  create_buffer uuid n path m = (
    uuid,
    record m {
      buffers = put uuid (new_buffer uuid n path) m.buffers;
      disk = record_open n path m.disk;
    },
  )

  lookup_notebook : String → D → Option OpenNotebook
  lookup_notebook nb d = if str_eq nb "" then none else ns.get_notebook nb d

  open_resolved : String → String × String → Manager D → String × Manager D
  unfolding find_buffer_by_path record_open create_buffer lookup_notebook
  open_resolved uuid (nb, path) m =
      let existing = find_buffer_by_path nb path m in
      let n = lookup_notebook nb m.disk in
      if not (str_eq existing "")
      then (existing, record m { disk = record_open n path m.disk })
      else if not (str_eq nb "") && not (is_some n)
      then ("", m)
      else create_buffer uuid n path m

  -- path.rfind("vx://", 0) == 0
  is_virtual_uri : String → Bool
  is_virtual_uri path = starts_with (codes path) (codes "vx://")

  -- `uuid` is the id that the new buffer would get.
  unfoldable pub open_buffer : String → String → String → Manager D → String × Manager D
  unfolding open_resolved effective is_virtual_uri
  open_buffer uuid nb path m =
      if is_virtual_uri path then ("", m) else open_resolved uuid (effective nb path m.disk) m
