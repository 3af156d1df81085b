-- ===== src/Folders/Listing.antt =====
-- core/bundled_folder_manager.cpp: the files and the subfolders of a folder, read without a change of
-- any folder's vx.json.
use vxcore.Utils.Paths.{concatenate_paths}
use vxcore.Folders.Config.{got, failed, out_of_fuel, get_folder_config}
use vxcore.Errors.{VxCoreError}
use vxcore.Prelude.{
  true, inr, map, false, [], inl, none, ◌⊎◌, ◌∷◌, some, Option, Bool, ℕ, String, List,
}
use vxcore.Folders.{FolderState, MetadataStore, FileSystem, FileRecord, FolderConfig, Notebook}

pub record FolderRecord (J : Type 0) : Type 0 where
  pub id : String
  pub name : String
  pub created_utc : ℕ
  pub modified_utc : ℕ
  pub metadata : J

pub record FolderContents (J : Type 0) : Type 0 where
  pub files : List (FileRecord J)
  pub folders : List (FolderRecord J)

module _ {J : Type 0} where
  -- A record with nothing but the name; `empty` is the empty JSON object.
  unfoldable pub named_only : J → String → FolderRecord J
  named_only empty name = record {
    id = "";
    name = name;
    created_utc = 0;
    modified_utc = 0;
    metadata = empty;
  }

  unfoldable pub record_of : FolderConfig J → FolderRecord J
  record_of config = record {
    id = config.id;
    name = config.name;
    created_utc = config.created_utc;
    modified_utc = config.modified_utc;
    metadata = config.metadata;
  }

module _ {D S J : Type 0} (n : Notebook) (fs : FileSystem D J) (db : MetadataStore S J) where
  -- The loop over the subfolders with their info: one that cannot be read is left out. `none`: out of
  -- fuel.
  unfoldable pub subfolder_records :
      ℕ
      → String
      → List String
      → FolderState D S J
      → Option (List (FolderRecord J) × FolderState D S J)
  subfolder_records fuel folder_path [] st = some ([], st)
  subfolder_records fuel folder_path (name ∷ names) st =
      let (found, st') =
        get_folder_config n fs db fuel (concatenate_paths folder_path name) none st in
      let rest = subfolder_records fuel folder_path names st' in
      elim found [
        | out_of_fuel ↦ none
        | failed err ↦ rest
        | got config ↦ elim rest [
          | none ↦ none
          | some (folders, st'') ↦ some (record_of config ∷ folders, st'')
        ]
      ]

  unfoldable pub list_folder_contents :
      J
      → ℕ
      → String
      → Bool
      → FolderState D S J
      → Option ((VxCoreError ⊎ FolderContents J) × FolderState D S J)
  list_folder_contents empty fuel folder_path include_folders_info st =
      let (found, st') = get_folder_config n fs db fuel folder_path none st in
      elim found [
        | out_of_fuel ↦ none
        | failed err ↦ some (inl err, st')
        | got config ↦ elim include_folders_info [
          | false ↦
              let folders = map (named_only empty) config.folders in
              some (inr record { files = config.files; folders = folders }, st')
          | true ↦ elim (subfolder_records fuel folder_path config.folders st') [
            | none ↦ none
            | some (folders, st'') ↦
                some (inr record { files = config.files; folders = folders }, st'')
          ]
        ]
      ]
