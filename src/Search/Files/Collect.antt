-- ===== src/Search/Files/Collect.antt =====
-- search/search_manager.cpp: the files that a query is about, collected from the folders of a bundled
-- notebook. `none` stands for a search that does not end.
use vxcore.Utils.Paths.{concatenate_paths}
use vxcore.Utils.Glob.{matches_patterns}
use vxcore.Search.Files.{from_file_record, SearchScope}
use vxcore.Utils.Strings.{to_lower_string}
use vxcore.Search.Match.{SearchFileInfo}
use vxcore.Folders.Listing.{list_folder_contents, FolderRecord}
use vxcore.Prelude.{
  zero, inr, ◌++◌, inl, if◌then◌else◌, map, ◌∷◌, true, suc, false, some, none, codes, [], ℕ, Option,
  Bytes, String, List, Bool,
}
use vxcore.Folders.{FolderState, FileRecord, MetadataStore, FileSystem, Notebook}

unfoldable pub from_folder_record : {J : Type 0} → String → FolderRecord J → SearchFileInfo
from_folder_record folder_path r = record {
  path = folder_path;
  absolute_path = "";
  name = r.name;
  id = r.id;
  tags = [];
  created_utc = r.created_utc;
  modified_utc = r.modified_utc;
  is_folder = true;
}

pub record SearchInputFiles : Type 0 where
  pub files : List String
  pub folders : List String

unfoldable pub lower : String → Bytes
lower path = to_lower_string (codes path)

-- The guards of the loop over the files.
unfoldable pub is_listed : List Bytes → List Bytes → String → Option Bool
is_listed patterns excluded path = elim (matches_patterns (lower path) excluded) [
  | none ↦ none
  | some true ↦ some false
  | some false ↦ elim patterns [ [] ↦ some true | p ∷ ps ↦ matches_patterns (lower path) (p ∷ ps) ]
]

-- The loop over the files of a folder.
unfoldable pub listed_files :
    {J : Type 0}
    → List Bytes
    → List Bytes
    → String
    → List (FileRecord J)
    → Option (List SearchFileInfo)
listed_files patterns excluded folder_path [] = some []
listed_files patterns excluded folder_path (file ∷ files) =
    let path = concatenate_paths folder_path file.name in
    let rest = listed_files patterns excluded folder_path files in
    elim (is_listed patterns excluded path) [
      | none ↦ none
      | some listed ↦ elim rest [
        | none ↦ none
        | some found ↦ some (if listed then from_file_record path file ∷ found else found)
      ]
    ]

module _ {D S J : Type 0} where
  -- The loop over the subfolders.
  unfoldable pub collect_subfolders :
      Bool
      → List Bytes
      → Bool
      → (String → FolderState D S J → Option (List SearchFileInfo × FolderState D S J))
      → String
      → List (FolderRecord J)
      → FolderState D S J
      → Option (List SearchFileInfo × FolderState D S J)
  collect_subfolders recursive excluded include_folders visit folder_path [] st = some ([], st)
  collect_subfolders recursive excluded include_folders visit folder_path (folder ∷ folders) st =
      let path = concatenate_paths folder_path folder.name in
      let here = if include_folders then from_folder_record path folder ∷ [] else [] in
      let next : FolderState D S J → Option (List SearchFileInfo × FolderState D S J) =
        λ st. collect_subfolders recursive excluded include_folders visit folder_path folders st in
      elim (matches_patterns (lower path) excluded) [
        | none ↦ none
        | some true ↦ next st
        | some false ↦ elim (if recursive then visit path st else some ([], st)) [
          | none ↦ none
          | some (below, st') ↦ elim (next st') [
            | none ↦ none
            | some (rest, st'') ↦ some (here ++ below ++ rest, st'')
          ]
        ]
      ]

module _ {D S J : Type 0} (n : Notebook) (fs : FileSystem D J) (db : MetadataStore S J)
    (empty : J) where
  unfoldable pub collect_files_in_folder :
      ℕ
      → String
      → Bool
      → List Bytes
      → List Bytes
      → Bool
      → FolderState D S J
      → Option (List SearchFileInfo × FolderState D S J)
  collect_files_in_folder zero folder_path recursive patterns excluded include_folders st = none
  collect_files_in_folder (suc fuel) folder_path recursive patterns excluded include_folders st =
      let visit : String → FolderState D S J → Option (List SearchFileInfo × FolderState D S J) =
        λ p st. collect_files_in_folder fuel p recursive patterns excluded include_folders st in
      elim (matches_patterns (lower folder_path) excluded) [
        | none ↦ none
        | some true ↦ some ([], st)
        | some false ↦
            elim (list_folder_contents n fs db empty fuel folder_path include_folders st) [
              | none ↦ none
              | some (inl err, st') ↦ some ([], st')
              | some (inr contents, st') ↦
                  elim (listed_files patterns excluded folder_path contents.files) [
                    | none ↦ none
                    | some found ↦
                        elim (collect_subfolders recursive excluded include_folders visit
                          folder_path contents.folders st') [
                            | none ↦ none
                            | some (below, st'') ↦ some (found ++ below, st'')
                          ]
                  ]
            ]
      ]

  -- The loop over the folders that are given.
  unfoldable pub collect_folders :
      ℕ
      → SearchScope
      → Bool
      → List String
      → FolderState D S J
      → Option (List SearchFileInfo × FolderState D S J)
  collect_folders fuel scope include_folders [] st = some ([], st)
  collect_folders fuel scope include_folders (folder ∷ folders) st =
      let patterns = map to_lower_string scope.path_patterns in
      let excluded = map to_lower_string scope.exclude_path_patterns in
      elim (collect_files_in_folder fuel folder scope.recursive patterns excluded include_folders
        st) [
          | none ↦ none
          | some (found, st') ↦ elim (collect_folders fuel scope include_folders folders st') [
            | none ↦ none
            | some (rest, st'') ↦ some (found ++ rest, st'')
          ]
        ]
