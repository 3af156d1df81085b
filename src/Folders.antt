-- ===== src/Folders.antt =====
-- core/bundled_folder_manager.cpp and folder.h: the folder tree of a bundled notebook. A folder is
-- listed in its own vx.json; the manager keeps the ones it has read in a cache and mirrors every change
-- in the metadata store.
pub mod Config
pub mod Cached
pub mod Files
pub mod Records
pub mod Tree
pub mod Move
pub mod Laws
pub mod Lifecycle
pub mod Listing
pub mod Iterate
pub mod Available
pub mod External
pub mod Order
use vxcore.Errors.{VxCoreError}
use vxcore.Prelude.Assoc.{Assoc, without, put}
use vxcore.Prelude.{
  ◌||◌, some, ◌∷◌, str_eq, none, ◌++◌, ◌++ˢ◌, ℕ, if◌then◌else◌, [], Option, List, Bool, String,
}

-- `J` is the type of JSON values.
pub record FileRecord (J : Type 0) : Type 0 where
  pub id : String
  pub name : String
  pub created_utc : ℕ
  pub modified_utc : ℕ
  pub metadata : J
  pub tags : List String
  pub attachments : List String

pub record FolderConfig (J : Type 0) : Type 0 where
  pub id : String
  pub name : String
  pub created_utc : ℕ
  pub modified_utc : ℕ
  pub metadata : J
  pub files : List (FileRecord J)
  pub folders : List String

pub data FolderEvent (J : Type 0) : Type 0 where
  folder_config_changed folder_created folder_deleted : String → FolderEvent J
  folder_metadata_updated file_created file_deleted file_metadata_updated : String → FolderEvent J
  file_moved : String → String → FolderEvent J
  file_tagged file_untagged file_attached file_detached : String → String → FolderEvent J
  file_tags_replaced file_attachments_replaced : String → List String → FolderEvent J
  folder_children_reordered : String → Option (List String) → Option (List String) → FolderEvent J

-- What the manager asks of its notebook.
pub record Notebook : Type 0 where
  pub root_folder : String
  pub metadata_folder : String
  pub is_read_only : Bool
  pub get_clean_relative_path : String → String
  pub find_tag : String → Bool

-- std::filesystem and the streams. An operation that throws, or a write through a stream that fails,
-- gives `false` with the disk it leaves; `create_empty_file` opens a stream and closes it without a
-- look at its state, and gives `false` only where that throws. `read_json` is `none` for a file that
-- cannot be opened, and `some none` for one that is not a folder's JSON. `to_recycle_bin` is the rename
-- into the recycle bin with the choice of a free name there.
pub record FileSystem (D J : Type 0) : Type 0 where
  pub exists : String → D → Bool
  pub is_directory : String → D → Bool
  pub read_json : String → D → Option (Option (FolderConfig J))
  pub write_json : String → FolderConfig J → D → Bool × D
  pub create_directories : String → D → Bool × D
  pub create_empty_file : String → D → Bool × D
  pub rename : String → String → D → Bool × D
  pub remove : String → D → Bool × D
  pub remove_all : String → D → Bool × D
  pub to_recycle_bin : String → D → Bool × D

-- db/metadata_store.h, an interface: the calls of the folder manager.
pub record MetadataStore (S J : Type 0) : Type 0 where
  pub get_folder_modified : String → S → Option ℕ
  pub list_file_ids : String → S → List String
  pub create_folder : FolderConfig J → String → S → Bool × S
  pub update_folder : String → String → ℕ → J → S → Bool × S
  pub delete_folder : String → S → Bool × S
  pub move_folder : String → String → S → Bool × S
  pub create_file : FileRecord J → String → S → Bool × S
  pub update_file : String → String → ℕ → J → S → Bool × S
  pub delete_file : String → S → Bool × S
  pub set_file_tags : String → List String → S → Bool × S
  pub add_tag_to_file : String → String → S → Bool × S
  pub remove_tag_from_file : String → String → S → Bool × S
  pub set_file_attachments : String → List String → S → Bool × S

-- The manager, with what it writes to.
pub record FolderState (D S J : Type 0) : Type 0 where
  pub disk : D
  pub store : Option S
  pub config_cache : Assoc (FolderConfig J)
  pub emitted : List (FolderEvent J)

-- The code that an operation returns and the state behind it; `none` where the fuel is used up or a null
-- pointer is used.
abbrev pub Outcome : Type 0 → Type 0 → Type 0 → Type 0
Outcome D S J = Option (VxCoreError × FolderState D S J)

unfoldable pub is_root : String → Bool
is_root folder_path = str_eq folder_path "" || str_eq folder_path "."

unfoldable pub get_config_path : Notebook → String → String
get_config_path n folder_path =
    let contents = n.metadata_folder ++ˢ "/contents" in
    if is_root folder_path
    then contents ++ˢ "/vx.json"
    else contents ++ˢ "/" ++ˢ folder_path ++ˢ "/vx.json"

-- The directory of that vx.json
unfoldable pub get_config_dir : Notebook → String → String
get_config_dir n folder_path =
    let contents = n.metadata_folder ++ˢ "/contents" in
    if is_root folder_path then contents else contents ++ˢ "/" ++ˢ folder_path

unfoldable pub get_content_path : Notebook → String → String
get_content_path n folder_path =
    if is_root folder_path then n.root_folder else n.root_folder ++ˢ "/" ++ˢ folder_path

module _ {J : Type 0} where
  unfoldable pub find_file_record : String → List (FileRecord J) → Option (FileRecord J)
  find_file_record file_name [] = none
  find_file_record file_name (file ∷ files) =
      let later = find_file_record file_name files in
      if str_eq file.name file_name then some file else later

  -- A change through the pointer to the record of that name.
  unfoldable pub update_record :
      String → (FileRecord J → FileRecord J) → List (FileRecord J) → List (FileRecord J)
  update_record file_name change [] = []
  update_record file_name change (file ∷ files) =
      let later = update_record file_name change files in
      if str_eq file.name file_name then change file ∷ files else file ∷ later

  unfoldable pub erase_record : String → List (FileRecord J) → List (FileRecord J)
  erase_record file_name [] = []
  erase_record file_name (file ∷ files) =
      let later = erase_record file_name files in
      if str_eq file.name file_name then files else file ∷ later

-- erase(find(...)): the list without the first `a`
unfoldable pub erase_name : String → List String → List String
erase_name a [] = []
erase_name a (x ∷ xs) = let later = erase_name a xs in if str_eq x a then xs else x ∷ later

-- *find(...) = b
unfoldable pub replace_first : String → String → List String → List String
replace_first a b [] = []
replace_first a b (x ∷ xs) =
    let later = replace_first a b xs in if str_eq x a then b ∷ xs else x ∷ later

module _ {D S J : Type 0} where
  unfoldable pub emit_event : FolderEvent J → FolderState D S J → FolderState D S J
  emit_event e st = record st { emitted = st.emitted ++ e ∷ [] }

  unfoldable pub cache_config : String → FolderConfig J → FolderState D S J → FolderState D S J
  cache_config folder_path config st = record st {
    config_cache = put folder_path config st.config_cache;
  }

  unfoldable pub invalidate_cache : String → FolderState D S J → FolderState D S J
  invalidate_cache folder_path st = record st { config_cache = without folder_path st.config_cache }

  unfoldable pub clear_cache : FolderState D S J → FolderState D S J
  clear_cache st = record st { config_cache = [] }

  -- A call of the store whose result is only logged.
  unfoldable pub write_through : (S → Bool × S) → FolderState D S J → FolderState D S J
  write_through call st = elim st.store [
    | none ↦ st
    | some s ↦ record st { store = some (call s).1 }
  ]
