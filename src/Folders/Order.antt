-- ===== src/Folders/Order.antt =====
-- core/bundled_folder_manager.cpp: SetChildrenOrder.
use vxcore.Folders.Config.{with_saved, with_config}
use vxcore.Errors.{vxcore_ok, err_invalid_param, err_read_only, err_permutation_mismatch}
use vxcore.Prelude.{
  is_some, ◌&&◌, str_eq, ◌==◌, not, false, true, none, length, if◌then◌else◌, [], ◌∷◌, ℕ, Bool,
  Option, List,
}
use Prim.Native.String.{String, compare}
use text.Mathlib.Text.{is_lt}
use vxcore.Folders.{
  folder_children_reordered, emit_event, cache_config, Outcome, FolderState, find_file_record,
  MetadataStore, some, FileSystem, FileRecord, Notebook, FolderConfig,
}
use vxcore.Utils.Paths.{split_path}
pub mod Complete
pub mod Permutation
pub mod Configs
pub mod Keeps

-- std::sort on strings: insertion into a sorted list.
unfoldable pub insert_name : String → List String → List String
insert_name a [] = a ∷ []
insert_name a (x ∷ xs) =
    let later = insert_name a xs in if is_lt (compare x a) then x ∷ later else a ∷ x ∷ xs

unfoldable pub sorted : List String → List String
sorted [] = []
sorted (x ∷ xs) = insert_name x (sorted xs)

-- `==` of two vectors of strings
unfoldable pub same_names : List String → List String → Bool
same_names [] [] = true
same_names [] (y ∷ ys) = false
same_names (x ∷ xs) [] = false
same_names (x ∷ xs) (y ∷ ys) = str_eq x y && same_names xs ys

-- The permutation check of one sub-array.
unfoldable pub is_permutation : List String → List String → Bool
is_permutation current submitted =
    (length current == length submitted) && same_names (sorted current) (sorted submitted)

module _ {J : Type 0} where
  unfoldable pub names_of : List (FileRecord J) → List String
  names_of [] = []
  names_of (file ∷ files) = file.name ∷ names_of files

  -- The loop over the new order; `none` where a name has no record.
  unfoldable pub reorder_files : List String → List (FileRecord J) → Option (List (FileRecord J))
  reorder_files [] files = some []
  reorder_files (name ∷ names) files =
      let rest = reorder_files names files in
      elim (find_file_record name files) [
        | none ↦ none
        | some file ↦ elim rest [ none ↦ none | some later ↦ some (file ∷ later) ]
      ]

-- A sub-array that is absent is accepted and unchanged.
unfoldable pub accepts : Option (List String) → List String → Bool
accepts none current = true
accepts (some submitted) current = is_permutation current submitted

unfoldable pub changes : Option (List String) → List String → Option (List String)
changes none current = none
changes (some submitted) current = if same_names submitted current then none else some submitted

abbrev pub or_else {ℓ} : {A : Type ℓ} → Option A → A → A
or_else none a = a
or_else (some b) a = b

-- What the checks and the reordering make of a config; `lost` is the branch that the code marks as
-- unreachable, in which the folders are already changed.
pub data Reordered (J : Type 0) : Type 0 where
  mismatch unchanged : Reordered J
  lost changed : FolderConfig J → Reordered J

module _ {J : Type 0} where
  unfoldable pub reordered :
      Option (List String) → List (FileRecord J) → Option (List (FileRecord J))
  reordered none files = some files
  reordered (some order) files = reorder_files order files

  unfoldable pub reorder_config :
      FolderConfig J → Option (List String) → Option (List String) → ℕ → Reordered J
  reorder_config config new_folders new_files now =
      let names = names_of config.files in
      let folders' = changes new_folders config.folders in
      let files' = changes new_files names in
      let config' = record config { folders = or_else folders' config.folders } in
      if not (accepts new_folders config.folders && accepts new_files names)
      then mismatch
      else if not (is_some folders') && not (is_some files')
      then unchanged
      else (elim (reordered files' config.files) [
        | none ↦ lost config'
        | some files ↦ changed record config' { files = files; modified_utc = now }
      ])

module _ {D S J : Type 0} (n : Notebook) (fs : FileSystem D J) (db : MetadataStore S J) where
  unfoldable pub save_order :
      String
      → FolderConfig J
      → Option (List String)
      → Option (List String)
      → ℕ
      → FolderState D S J
      → Outcome D S J
  save_order folder config new_folders new_files now st =
      elim (reorder_config config new_folders new_files now) [
        | mismatch ↦ some (err_permutation_mismatch, st)
        | unchanged ↦ some (vxcore_ok, st)
        | lost config' ↦ some (err_permutation_mismatch, cache_config folder config' st)
        | changed config' ↦
            let folders' = changes new_folders config.folders in
            let files' = changes new_files (names_of config.files) in
            with_saved n fs folder config' st (λ st1.
              some (vxcore_ok, emit_event (folder_children_reordered folder folders' files') st1))
      ]

  -- `payload` is what the JSON text parses to: the arrays "folders" and "files", each if it is present;
  -- `none` where the text is no object, or a present one is not an array of strings.
  unfoldable pub set_children_order :
      ℕ
      → String
      → Option (Option (List String) × Option (List String))
      → ℕ
      → FolderState D S J
      → Outcome D S J
  set_children_order fuel folder_path payload now st = elim payload [
    | none ↦ some (if n.is_read_only then err_read_only else err_invalid_param, st)
    | some p ↦
        let (new_folders, new_files) = p in
        let folder = n.get_clean_relative_path folder_path in
        if n.is_read_only
        then some (err_read_only, st)
        else if not (is_some new_folders) && not (is_some new_files)
        then some (vxcore_ok, st)
        else with_config n fs db fuel folder st
            (λ config st1. save_order folder config new_folders new_files now st1)
  ]
