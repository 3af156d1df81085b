-- ===== src/Search/Files/Queries.antt =====
-- search/search_manager.cpp: from the scope of a query to its result. Queries are parsed JSON; what is
-- written as JSON is a list and the flag for a cut list.
use vxcore.Folders.Files.{get_file_info}
use vxcore.Search.Match.{SearchFileInfo}
use vxcore.Search.Files.Collect.{collect_folders, SearchInputFiles}
use vxcore.Search.Files.{
  from_file_record, is_truncated, get_matched_files_by_tags, get_matched_files_by_pattern,
  filter_files_by_tags_and_date, SearchScope,
}
use vxcore.Prelude.{
  ◌++◌, ◌||◌, length, ltb, [], inr, inl, ◌∷◌, str_eq, true, some, none, if◌then◌else◌, false,
  Option, ℕ, String, Bool, List, Bytes,
}
use vxcore.Folders.{FolderState, MetadataStore, FileSystem, Notebook}

pub record SearchFilesQuery : Type 0 where
  pub pattern : Bytes
  pub include_files : Bool
  pub include_folders : Bool
  pub scope : SearchScope
  pub max_results : ℕ

pub record SearchByTagsQuery : Type 0 where
  pub tags : List String
  pub tag_operator : String
  pub scope : SearchScope
  pub max_results : ℕ

module _ {D S J : Type 0} (n : Notebook) (fs : FileSystem D J) (db : MetadataStore S J)
    (empty : J) where
  -- The loop over the files that are given; one that is not in its folder is passed over.
  unfoldable pub given_files :
      ℕ → List String → FolderState D S J → Option (List SearchFileInfo × FolderState D S J)
  given_files fuel [] st = some ([], st)
  given_files fuel (path ∷ paths) st = elim (get_file_info n fs db fuel path st) [
    | none ↦ none
    | some (inl err, st') ↦ given_files fuel paths st'
    | some (inr file, st') ↦ elim (given_files fuel paths st') [
      | none ↦ none
      | some (rest, st'') ↦ some (from_file_record path file ∷ rest, st'')
    ]
  ]

  unfoldable pub get_all_files :
      ℕ
      → SearchScope
      → SearchInputFiles
      → Bool
      → FolderState D S J
      → Option (List SearchFileInfo × FolderState D S J)
  get_all_files fuel scope input include_folders st =
      let start_path = if str_eq scope.folder_path "" then "." else scope.folder_path in
      if ltb 0 (length input.files) || ltb 0 (length input.folders)
      then (elim (given_files fuel input.files st) [
        | none ↦ none
        | some (given, st') ↦
            elim (collect_folders n fs db empty fuel scope include_folders input.folders st') [
              | none ↦ none
              | some (collected, st'') ↦ some (given ++ collected, st'')
            ]
      ])
      else collect_folders n fs db empty fuel scope include_folders (start_path ∷ []) st

  unfoldable pub fetch_files_to_search :
      ℕ
      → SearchScope
      → SearchInputFiles
      → Bool
      → FolderState D S J
      → Option (List SearchFileInfo × FolderState D S J)
  fetch_files_to_search fuel scope input include_folders st =
      elim (get_all_files fuel scope input include_folders st) [
        | none ↦ none
        | some (files, st') ↦ some (filter_files_by_tags_and_date scope files, st')
      ]

  unfoldable pub search_files :
      ℕ
      → SearchFilesQuery
      → SearchInputFiles
      → FolderState D S J
      → Option ((List SearchFileInfo × Bool) × FolderState D S J)
  search_files fuel query input st = elim (fetch_files_to_search fuel query.scope input true st) [
    | none ↦ none
    | some (files, st') ↦
        elim (get_matched_files_by_pattern files query.pattern query.include_files
          query.include_folders query.max_results) [
            | none ↦ none
            | some found ↦ some ((found, is_truncated found query.max_results), st')
          ]
  ]

  unfoldable pub search_by_tags :
      ℕ
      → SearchByTagsQuery
      → SearchInputFiles
      → FolderState D S J
      → Option ((List SearchFileInfo × Bool) × FolderState D S J)
  search_by_tags fuel query input st =
      elim (fetch_files_to_search fuel query.scope input false st) [
        | none ↦ none
        | some (files, st') ↦
            let found =
              get_matched_files_by_tags files query.tags query.tag_operator query.max_results in
            some ((found, is_truncated found query.max_results), st')
      ]
