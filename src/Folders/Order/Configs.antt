-- ===== src/Folders/Order/Configs.antt =====
-- core/bundled_folder_manager.cpp: what SetChildrenOrder makes of a folder.
use vxcore.Folders.Order.Permutation.{reorder_files-permutation, same_names-eq, is_permutation_perm}
use vxcore.Folders.Order.Complete.{same_names_refl, is_permutation-perm}
use vxcore.Folders.Order.{
  changed, unchanged, same_names, mismatch, names_of, or_else, reordered, reorder_config, changes,
  accepts,
}
use vxcore.Folders.{find_file_record, some, FileRecord, FolderConfig}
use mathlib.Core.List.{Perm}
use vxcore.Prelude.{
  ◌∙◌, ap, not, inr, ◌&&◌, sym, inl, ◌⊎◌, Bool-cases, refl, none, false, arith, ℕ, true, is_some,
  String, List, Option, ◌≡◌,
}

changes-or_else :
    (new : Option (List String)) (current : List String)
    → or_else (changes new current) current ≡ or_else new current
unfolding changes
changes-or_else none current = refl
changes-or_else (some order) current = ground (arith, same_names-eq order current)

-- The order that is asked for, if any is, has the current names, each as often.
abbrev pub IsOrder : Option (List String) → List String → Type 0
IsOrder none current = Unit
IsOrder (some submitted) current = Perm current submitted

accepts-IsOrder :
    (new : Option (List String)) (current : List String)
    → accepts new current ≡ true
    → IsOrder new current
unfolding accepts
accepts-IsOrder none current h = tt
accepts-IsOrder (some submitted) current h = is_permutation_perm current submitted h

IsOrder-accepts :
    (new : Option (List String)) (current : List String)
    → IsOrder new current
    → accepts new current ≡ true
unfolding accepts
IsOrder-accepts none current p = refl
IsOrder-accepts (some submitted) current p = is_permutation-perm current submitted p

changes-none :
    (new : Option (List String)) (current : List String)
    → is_some (changes new current) ≡ false
    → or_else new current ≡ current
unfolding changes
changes-none none current h = refl
changes-none (some order) current h = ground (arith, h, same_names-eq order current)

none-changes :
    (new : Option (List String)) (current : List String)
    → or_else new current ≡ current
    → is_some (changes new current) ≡ false
unfolding changes
none-changes none current h = refl
none-changes (some order) current h =
    let same : same_names order current ≡ true =
      ap (λ xs. same_names xs current) h ∙ same_names_refl current in
    ground (arith, same)

module _ {J : Type 0} where
  reordered-some :
      (new : Option (List String)) (files : List (FileRecord J))
      → accepts new (names_of files) ≡ true
      → (files' : List (FileRecord J)) × (reordered (changes new (names_of files)) files
          ≡ some files')
        × (names_of files' ≡ or_else new (names_of files))
        × ((a : String) → find_file_record a files' ≡ find_file_record a files)
  unfolding reordered changes accepts
  reordered-some none files h = (files, refl, refl, λ a. refl)
  reordered-some (some order) files h = elim (Bool-cases (same_names order (names_of files))) [
    | inl same ↦
        (files, ground (arith, same), sym (same_names-eq order (names_of files) same), λ a. refl)
    | inr other ↦
        let (files', p, q, r) = reorder_files-permutation order files h in
        (files', ground (arith, other, p), q, r)
  ]

  -- What a reordered config has: the order that is asked for, or the old one, and all nodes.
  abbrev pub IsReordered :
      FolderConfig J → FolderConfig J → Option (List String) → Option (List String) → Type 0
  IsReordered config config' new_folders new_files =
      (config'.folders ≡ or_else new_folders config.folders)
      × (names_of config'.files ≡ or_else new_files (names_of config.files))
      × IsOrder new_folders config.folders
      × IsOrder new_files (names_of config.files)
      × ((a : String) → find_file_record a config'.files ≡ find_file_record a config.files)

  pub reorder_config_lem :
      (config : FolderConfig J) (new_folders new_files : Option (List String)) (now : ℕ)
      → let names = names_of config.files in
        ((reorder_config config new_folders new_files now ≡ mismatch)
          × ¬ (IsOrder new_folders config.folders × IsOrder new_files names))
        ⊎ ((reorder_config config new_folders new_files now ≡ unchanged)
            × (or_else new_folders config.folders ≡ config.folders)
            × (or_else new_files names ≡ names))
        ⊎ ((config' : FolderConfig J) × (reorder_config config new_folders new_files now
              ≡ changed config')
            × IsReordered config config' new_folders new_files
            × ¬ (
                (or_else new_folders config.folders ≡ config.folders)
                × (or_else new_files names ≡ names)))
  unfolding reorder_config
  reorder_config_lem config new_folders new_files now =
      let names = names_of config.files in
      elim (Bool-cases (accepts new_folders config.folders && accepts new_files names)) [
        | inr refused ↦ inl (
          ground (arith, refused),
          λ (p, q). ground (
            arith,
            refused,
            IsOrder-accepts new_folders config.folders p,
            IsOrder-accepts new_files names q,
          ),
        )
        | inl accepted ↦
            let first : accepts new_folders config.folders ≡ true = ground (arith, accepted) in
            let second : accepts new_files names ≡ true = ground (arith, accepted) in
            let (files, p, q, r) = reordered-some new_files config.files second in
            let folders = changes-or_else new_folders config.folders in
            elim (Bool-cases (
              not (is_some (changes new_folders config.folders))
              && not (is_some (changes new_files names)))) [
                | inl same ↦ inr (
                    inl (
                      ground (arith, accepted, same),
                      changes-none new_folders config.folders (ground (arith, same)),
                      changes-none new_files names (ground (arith, same)),
                    ))
                | inr other ↦ inr (
                    inr (
                      record config {
                        folders = or_else (changes new_folders config.folders) config.folders;
                        files = files;
                        modified_utc = now;
                      },
                      ground (arith, accepted, other, p),
                      (
                        folders,
                        q,
                        accepts-IsOrder new_folders config.folders first,
                        accepts-IsOrder new_files names second,
                        r,
                      ),
                      λ (same_folders, same_files). ground (
                        arith,
                        other,
                        none-changes new_folders config.folders same_folders,
                        none-changes new_files names same_files,
                      ),
                    ))
              ]
      ]
