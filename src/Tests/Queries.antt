-- ===== src/Tests/Queries.antt =====
-- search/search_manager.cpp: queries on a small notebook.
use vxcore.Search.Files.Queries.{fetch_files_to_search, get_all_files}
use vxcore.Search.Files.Collect.{
  collect_folders, collect_files_in_folder, lower, listed_files, collect_subfolders,
  from_folder_record, is_listed,
}
use vxcore.Utils.Glob.{matches_patterns, match_loop, matches_pattern, only_stars}
use vxcore.Utils.Strings.{to_lower_string, find, find_from, starts_with, tolower}
use vxcore.Folders.Listing.{list_folder_contents, subfolder_records, record_of}
use vxcore.Folders.Config.{
  get_folder_config, load_folder_config, parent_id_of, sync_files_to_store, sync_folder_record,
  sync_folder_to_store, visit_subfolders, add_or_update, delete_orphans,
}
use vxcore.Prelude.Assoc.{lookup, put}
use vxcore.Utils.Paths.{concatenate_paths, split_path, split_last}
use vxcore.Folders.{get_config_path, cache_config, is_root}
use vxcore.Search.Files.{
  filter_files_by_tags_and_date, first_files, from_file_record, get_matched_files_by_pattern,
  in_scope, is_skipped, is_truncated, matches_tags, any_in,
}
use vxcore.Folders.{FolderState}
use vxcore.Search.Match.{SearchFileInfo}
use vxcore.Search.Files.Queries.{search_files, SearchFilesQuery}
use vxcore.Search.Files.Collect.{SearchInputFiles}
use vxcore.Search.Files.{SearchScope}
use vxcore.Prelude.{
  contains, none, refl, map, String, ℕ, some, Bool, ◌≡◌, ◌∷◌, true, false, codes, [], List, Option,
}
use vxcore.Tests.FolderWorld.{Disk, disk, counter, notebook, world}

abbrev everywhere : SearchScope
everywhere = record {
  folder_path = "";
  recursive = true;
  path_patterns = codes "A/*" ∷ [];
  exclude_path_patterns = codes "*Y" ∷ [];
  tags = [];
  exclude_tags = [];
  tag_operator = "AND";
  date_filter_field = "";
  date_filter_from = 0;
  date_filter_to = 0;
}

abbrev no_input : SearchInputFiles
no_input = record { files = []; folders = [] }

abbrev all_kinds : SearchFilesQuery
all_kinds = record {
  pattern = codes "";
  include_files = true;
  include_folders = true;
  scope = everywhere;
  max_results = 10;
}

abbrev paths_of :
    Option ((List SearchFileInfo × Bool) × FolderState Disk ℕ ℕ) → Option (List String)
paths_of none = none
paths_of (some ((found, cut), st)) = some (map (λ f. f.path) found)

-- A folder is not asked for the patterns of paths, and "a/y" is excluded.
finds_files :
    paths_of (search_files (notebook false) disk counter 0 9 all_kinds no_input world)
    ≡ some ("a" ∷ "a/x" ∷ "a/b" ∷ [])
unfolding search_files fetch_files_to_search get_all_files collect_folders collect_files_in_folder
    matches_patterns to_lower_string lower list_folder_contents get_folder_config lookup
    subfolder_records concatenate_paths listed_files collect_subfolders record_of load_folder_config
    get_config_path parent_id_of sync_files_to_store sync_folder_record sync_folder_to_store
    visit_subfolders add_or_update delete_orphans cache_config is_root put contains
    from_folder_record is_listed filter_files_by_tags_and_date first_files from_file_record
    get_matched_files_by_pattern in_scope is_skipped is_truncated matches_tags any_in match_loop
    matches_pattern only_stars split_path split_last find find_from starts_with tolower
finds_files = refl
