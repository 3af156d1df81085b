-- ===== src/Folders/Iterate.antt =====
-- core/bundled_folder_manager.cpp: a walk over all files of a notebook. A callback that gives `false`
-- ends it; it gets and returns a value `A` in place of what it captures.
use vxcore.Utils.Paths.{concatenate_paths}
use vxcore.Folders.Config.{got, failed, out_of_fuel, get_folder_config}
use vxcore.Prelude.{
  zero, ◌++◌, false, contains, ◌∷◌, suc, if◌then◌else◌, true, some, none, [], ℕ, Option, List, Bool,
  String,
}
use vxcore.Folders.{MetadataStore, FolderState, FileRecord, FileSystem, Notebook}

module _ {A J : Type 0} where
  -- The loop over the files of a folder.
  unfoldable pub call_files :
      (String → FileRecord J → A → Bool × A) → String → List (FileRecord J) → A → Bool × A
  call_files callback folder_path [] a = (true, a)
  call_files callback folder_path (file ∷ files) a =
      let (go_on, a') = callback folder_path file a in
      let rest = call_files callback folder_path files a' in if go_on then rest else (false, a')

module _ {A D S J : Type 0} where
  -- The loop over the subfolders; `none`: out of fuel.
  unfoldable pub iterate_subfolders :
      (String → A → FolderState D S J → Option ((Bool × A) × FolderState D S J))
      → String
      → List String
      → A
      → FolderState D S J
      → Option ((Bool × A) × FolderState D S J)
  iterate_subfolders iterate folder_path [] a st = some ((true, a), st)
  iterate_subfolders iterate folder_path (name ∷ names) a st =
      elim (iterate (concatenate_paths folder_path name) a st) [
        | none ↦ none
        | some ((false, a'), st') ↦ some ((false, a'), st')
        | some ((true, a'), st') ↦ iterate_subfolders iterate folder_path names a' st'
      ]

module _ {A D S J : Type 0} (n : Notebook) (fs : FileSystem D J) (db : MetadataStore S J)
    (callback : String → FileRecord J → A → Bool × A) where
  unfoldable pub iterate_folder :
      ℕ → String → A → FolderState D S J → Option ((Bool × A) × FolderState D S J)
  iterate_folder zero folder_path a st = none
  iterate_folder (suc fuel) folder_path a st =
      let (found, st') = get_folder_config n fs db fuel folder_path none st in
      elim found [
        | out_of_fuel ↦ none
        | failed err ↦ some ((true, a), st')
        | got config ↦
            let (go_on, a') = call_files callback folder_path config.files a in
            elim go_on [
              | false ↦ some ((false, a'), st')
              | true ↦ iterate_subfolders (iterate_folder fuel) folder_path config.folders a' st'
            ]
      ]

  unfoldable pub iterate_all_files :
      ℕ → A → FolderState D S J → Option ((Bool × A) × FolderState D S J)
  iterate_all_files fuel a st = iterate_folder fuel "." a st

module _ {D S J : Type 0} (n : Notebook) (fs : FileSystem D J) (db : MetadataStore S J) where
  unfoldable pub push_tagged :
      String → String → FileRecord J → List (FileRecord J) → Bool × List (FileRecord J)
  push_tagged tag_name folder_path file files =
      (true, if contains tag_name file.tags then files ++ file ∷ [] else files)

  -- The files that FindFilesByTag writes as JSON.
  unfoldable pub find_files_by_tag :
      ℕ → String → FolderState D S J → Option (List (FileRecord J) × FolderState D S J)
  find_files_by_tag fuel tag_name st =
      elim (iterate_all_files n fs db (push_tagged tag_name) fuel [] st) [
        | none ↦ none
        | some ((go_on, files), st') ↦ some (files, st')
      ]
