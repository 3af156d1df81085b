-- ===== src/Search/Files.antt =====
-- search/search_manager.cpp, search_query.h and search_file_info.cpp: the files that a query is about,
-- and the searches by name and by tags. The JSON of queries and results is not modelled.
use vxcore.Utils.Strings.{to_lower_string}
use vxcore.Utils.Glob.{matches_pattern}
use vxcore.Search.Match.{SearchFileInfo}
use vxcore.Folders.{FileRecord}
use vxcore.Prelude.{
  ◌++◌, take, none, codes, ◌||◌, ◌+◌, str_eq, some, ltb, length, contains, [], ◌∷◌, ◌&&◌, true, not,
  leb, if◌then◌else◌, Option, ℕ, false, List, Bytes, Bool, String,
}
pub mod Collect
pub mod Queries
pub mod Tags

pub record SearchScope : Type 0 where
  pub folder_path : String
  pub recursive : Bool
  pub path_patterns : List Bytes
  pub exclude_path_patterns : List Bytes
  pub tags : List String
  pub exclude_tags : List String
  pub tag_operator : String
  pub date_filter_field : String
  pub date_filter_from : ℕ
  pub date_filter_to : ℕ

unfoldable pub from_file_record : {J : Type 0} → String → FileRecord J → SearchFileInfo
from_file_record file_path r = record {
  path = file_path;
  absolute_path = "";
  name = r.name;
  id = r.id;
  tags = r.tags;
  created_utc = r.created_utc;
  modified_utc = r.modified_utc;
  is_folder = false;
}

unfoldable pub all_in : List String → List String → Bool
all_in file_tags [] = true
all_in file_tags (t ∷ ts) = contains t file_tags && all_in file_tags ts

unfoldable pub any_in : List String → List String → Bool
any_in file_tags [] = false
any_in file_tags (t ∷ ts) = contains t file_tags || any_in file_tags ts

-- No tags to search for match every file.
unfoldable pub matches_tags : List String → List String → String → Bool
matches_tags file_tags [] tag_operator = true
matches_tags file_tags (t ∷ ts) tag_operator =
    if str_eq tag_operator "AND" then all_in file_tags (t ∷ ts) else any_in file_tags (t ∷ ts)

-- A bound that is not positive is no bound.
unfoldable pub matches_date_filter : ℕ → SearchScope → Bool
matches_date_filter timestamp scope =
    not (ltb 0 scope.date_filter_from && ltb timestamp scope.date_filter_from)
    && not (ltb 0 scope.date_filter_to && ltb scope.date_filter_to timestamp)

-- The body of the loop of FilterFilesByTagsAndDate: a folder is not asked for its tags, and a field
-- with another name than the two has the time 0.
unfoldable pub in_scope : SearchScope → SearchFileInfo → Bool
in_scope scope file =
    let timestamp =
      if str_eq scope.date_filter_field "created"
      then file.created_utc
      else if str_eq scope.date_filter_field "modified"
      then file.modified_utc
      else 0 in
    (file.is_folder || matches_tags file.tags scope.tags scope.tag_operator)
    && (file.is_folder || not (any_in file.tags scope.exclude_tags))
    && (str_eq scope.date_filter_field "" || matches_date_filter timestamp scope)

unfoldable pub filter_files_by_tags_and_date :
    SearchScope → List SearchFileInfo → List SearchFileInfo
filter_files_by_tags_and_date scope [] = []
filter_files_by_tags_and_date scope (file ∷ files) =
    let rest = filter_files_by_tags_and_date scope files in
    if in_scope scope file then file ∷ rest else rest

-- The loop of GetMatchedFilesByTags, with the number of files that were found before.
unfoldable pub tagged_from :
    List String → String → ℕ → ℕ → List SearchFileInfo → List SearchFileInfo
tagged_from tags tag_operator max_results count [] = []
tagged_from tags tag_operator max_results count (file ∷ files) =
    let passed = tagged_from tags tag_operator max_results count files in
    let taken = tagged_from tags tag_operator max_results (count + 1) files in
    if file.is_folder
    then passed
    else if not (matches_tags file.tags tags tag_operator)
    then passed
    else file ∷ (if leb max_results (count + 1) then [] else taken)

unfoldable pub get_matched_files_by_tags :
    List SearchFileInfo → List String → String → ℕ → List SearchFileInfo
get_matched_files_by_tags files tags tag_operator max_results =
    tagged_from tags tag_operator max_results 0 files

-- Of the wrong kind for the query.
unfoldable pub is_skipped : Bool → Bool → SearchFileInfo → Bool
is_skipped include_files include_folders file =
    (file.is_folder && not include_folders) || (not file.is_folder && not include_files)

-- With an empty pattern: the first of the files, of the kinds asked for.
unfoldable pub first_files : Bool → Bool → ℕ → ℕ → List SearchFileInfo → List SearchFileInfo
first_files include_files include_folders max_results count [] = []
first_files include_files include_folders max_results count (file ∷ files) =
    let passed = first_files include_files include_folders max_results count files in
    let taken = first_files include_files include_folders max_results (count + 1) files in
    if is_skipped include_files include_folders file
    then passed
    else file ∷ (if leb max_results (count + 1) then [] else taken)

-- The loop over the files: those whose name matches and those whose path does; `none` where a match
-- does not end.
unfoldable pub pattern_loop :
    Bytes
    → Bool
    → Bool
    → ℕ
    → List SearchFileInfo
    → List SearchFileInfo
    → List SearchFileInfo
    → Option (List SearchFileInfo × List SearchFileInfo)
pattern_loop lower include_files include_folders max_results [] names paths = some (names, paths)
pattern_loop lower include_files include_folders max_results (file ∷ files) names paths =
    let step : List SearchFileInfo
        → List SearchFileInfo
        → Option (List SearchFileInfo × List SearchFileInfo) =
      λ names' paths'. elim (leb max_results (length names' + length paths')) [
        | true ↦ some (names', paths')
        | false ↦ pattern_loop lower include_files include_folders max_results files names' paths'
      ] in
    elim (is_skipped include_files include_folders file) [
      | true ↦ pattern_loop lower include_files include_folders max_results files names paths
      | false ↦ elim (matches_pattern (to_lower_string (codes file.name)) lower) [
        | none ↦ none
        | some true ↦ step (names ++ file ∷ []) paths
        | some false ↦ elim (matches_pattern (to_lower_string (codes file.path)) lower) [
          | none ↦ none
          | some true ↦ step names (paths ++ file ∷ [])
          | some false ↦ step names paths
        ]
      ]
    ]

-- The matches of names come before those of paths, cut at the limit.
unfoldable pub get_matched_files_by_pattern :
    List SearchFileInfo → Bytes → Bool → Bool → ℕ → Option (List SearchFileInfo)
get_matched_files_by_pattern files [] include_files include_folders max_results =
    some (first_files include_files include_folders max_results 0 files)
get_matched_files_by_pattern files (c ∷ p) include_files include_folders max_results =
    elim (pattern_loop (to_lower_string (c ∷ p)) include_files include_folders max_results files []
      []) [ none ↦ none | some (names, paths) ↦ some (take max_results (names ++ paths)) ]

-- The flag of SerializeFileResults
unfoldable pub is_truncated : List SearchFileInfo → ℕ → Bool
is_truncated files max_results = leb max_results (length files)
