-- ===== src/Tests/Walks.antt =====
-- core/bundled_folder_manager.cpp: walks over a small notebook.
use vxcore.Utils.Paths.{concatenate_paths}
use vxcore.Errors.{VxCoreError}
use vxcore.Prelude.{
  none, ◌++◌, true, refl, map, str_eq, inr, [], ◌∷◌, not, ◌⊎◌, ℕ, some, false, codes, List, ◌≡◌,
  contains, Bool, String, Option,
}
use vxcore.Folders.Iterate.{iterate_all_files, call_files, iterate_folder, iterate_subfolders}
use vxcore.Folders.Config.{get_folder_config}
use vxcore.Prelude.Assoc.{lookup}
use vxcore.Folders.External.{
  other_kind, regular_file, directory, list_external_nodes, DirectoryView, external_names,
  is_reserved, is_hidden, is_legacy, is_single_name, unindexed_file,
}
use vxcore.Folders.Listing.{FolderContents, named_only}
use vxcore.Folders.{FolderState, FileRecord, get_content_path, is_root}
use vxcore.Utils.Glob.{matches_patterns, match_loop, matches_pattern, only_stars}
use vxcore.Utils.Strings.{find, find_from, starts_with}
use vxcore.Tests.FolderWorld.{Disk, disk, counter, notebook, world}

-- The names so far; the walk ends at "y".
abbrev until_y : String → FileRecord ℕ → List String → Bool × List String
until_y folder file names = (not (str_eq file.name "y"), names ++ file.name ∷ [])

abbrev walk : Option ((Bool × List String) × FolderState Disk ℕ ℕ)
walk = iterate_all_files (notebook false) disk counter until_y 9 [] world

walk_stops : walk ≡ some ((false, "x" ∷ "y" ∷ []), world)
unfolding iterate_all_files call_files iterate_folder iterate_subfolders get_folder_config lookup
    concatenate_paths
walk_stops = refl

abbrev view : DirectoryView Disk
view = record {
  assets_folder = "assets";
  ignored = codes "*.tmp" ∷ [];
  metadata_folder_name = "m";
  is_relative = λ path. true;
  list_directory = λ path d. some (
      (".git", directory)
      ∷ ("assets", directory)
      ∷ ("m", directory)
      ∷ ("vx_images", directory)
      ∷ ("vx_images.md", regular_file)
      ∷ ("x", regular_file)
      ∷ ("z.tmp", regular_file)
      ∷ ("b", directory)
      ∷ ("pipe", other_kind)
      ∷ []);
}

abbrev names_in :
    Option ((VxCoreError ⊎ FolderContents ℕ) × FolderState Disk ℕ ℕ)
    → Option (List String × List String)
names_in (some (inr contents, st)) =
    some (map (λ f. f.name) contents.files, map (λ f. f.name) contents.folders)
names_in _ = none

-- "x" and "b" are indexed, and "m" is the metadata folder in the root only.
external_of_a :
    names_in (list_external_nodes (notebook false) disk counter view 0 9 "a" world)
    ≡ some ("vx_images.md" ∷ [], "m" ∷ [])
unfolding list_external_nodes external_names is_reserved is_hidden is_legacy is_single_name
    unindexed_file named_only get_content_path is_root get_folder_config lookup contains
    matches_patterns match_loop matches_pattern only_stars find find_from starts_with
external_of_a = refl
