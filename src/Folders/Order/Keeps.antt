-- ===== src/Folders/Order/Keeps.antt =====
-- core/bundled_folder_manager.cpp: what SetChildrenOrder leaves.
use vxcore.Folders.Cached.{lookup-put_same, with_saved-cases, with_config-cached}
use vxcore.Prelude.Assoc.{lookup}
use vxcore.Errors.{err_io, vxcore_ok, err_permutation_mismatch, VxCoreError}
use vxcore.Prelude.{
  if◌then◌else◌, ◌∙◌, ap, refl, ◌&&◌, is_some, not, inr, Bool-cases, arith, suc, inl, ◌⊎◌, some,
  false, ◌≡◌, List, ℕ, Option, String,
}
use vxcore.Folders.{
  folder_children_reordered, Outcome, get_config_path, FolderState, emit_event, MetadataStore,
  FileSystem, Notebook, FolderConfig,
}
use vxcore.Folders.Order.{or_else, names_of, changes, set_children_order, save_order}
use vxcore.Folders.Order.Configs.{IsOrder, reorder_config_lem, IsReordered}

module _ {D S J : Type 0} (n : Notebook) (fs : FileSystem D J) (db : MetadataStore S J) where
  -- What a request leaves, with the code it returns: the state as it was, if the request is refused
  -- or asks for the order that is there, or the folder in a new order.
  abbrev pub KeepsNodes :
      String
      → FolderConfig J
      → Option (List String)
      → Option (List String)
      → FolderState D S J
      → VxCoreError
      → FolderState D S J
      → Type 0
  KeepsNodes folder config new_folders new_files st err st' =
      let names = names_of config.files in
      let written = fs.write_json (get_config_path n folder) in
      ((err ≡ err_permutation_mismatch)
        × (st' ≡ st)
        × ¬ (IsOrder new_folders config.folders × IsOrder new_files names))
      ⊎ ((err ≡ vxcore_ok)
          × (st' ≡ st)
          × (or_else new_folders config.folders ≡ config.folders)
          × (or_else new_files names ≡ names))
      ⊎ ((config' : FolderConfig J) × IsReordered config config' new_folders new_files
          × ¬ (
              (or_else new_folders config.folders ≡ config.folders)
              × (or_else new_files names ≡ names))
          × (lookup folder st'.config_cache ≡ some config')
          × (st'.disk ≡ (written config' st.disk).1)
          × (err ≡ (if (written config' st.disk).0 then vxcore_ok else err_io)))

  save_order_lem :
      (folder : String) (config : FolderConfig J) (new_folders new_files : Option (List String))
      (now : ℕ) (st : FolderState D S J)
      → (err : VxCoreError) × (st' : FolderState D S J) × (save_order n fs db folder config
            new_folders new_files now st
          ≡ some (err, st'))
        × KeepsNodes folder config new_folders new_files st err st'
  unfolding save_order emit_event
  save_order_lem folder config new_folders new_files now st =
      elim (reorder_config_lem config new_folders new_files now) [
        | inl (refused, none_such) ↦
            (err_permutation_mismatch, st, ground (arith, refused), inl (refl, refl, none_such))
        | inr (inl (same, p, q)) ↦
            (vxcore_ok, st, ground (arith, same), inr (inl (refl, refl, p, q)))
        | inr (inr (config', e, keeps, other)) ↦
            let event =
              folder_children_reordered folder (changes new_folders config.folders)
                (changes new_files (names_of config.files)) in
            let next : FolderState D S J → Outcome D S J =
              λ st1. some (vxcore_ok, emit_event event st1) in
            let (st', (at, stored, cached), cases) = with_saved-cases n fs folder config' st next in
            let found =
              ap (lookup folder) cached ∙ lookup-put_same folder config' st.config_cache in
            elim cases [
              | inl (written, ran) ↦ (
                vxcore_ok,
                emit_event event st',
                ground (arith, e, ran),
                inr (inr (config', keeps, other, found, at, ground (arith, written))),
              )
              | inr (bad, ran) ↦ (
                err_io,
                st',
                ground (arith, e, ran),
                inr (inr (config', keeps, other, found, at, ground (arith, bad))),
              )
            ]
      ]

  -- In a folder that was read before, of a notebook that is not read-only, a request for a new order
  -- has one of three results. It is refused and changes nothing, exactly if what is asked for is no
  -- permutation of the folder's folders, or of the names of its files. It succeeds and changes
  -- nothing, exactly if it asks for no other order than that which is there. Or the folder gets the
  -- folders and the files in the order that was asked for, with under each name the record of before,
  -- this is written to the folder's vx.json, and the request fails exactly if that write does.
  pub set_children_order-keeps :
      (fuel : ℕ) (folder_path : String) (new_folders new_files : Option (List String)) (now : ℕ)
      (st : FolderState D S J) (config : FolderConfig J)
      → n.is_read_only ≡ false
      → lookup (n.get_clean_relative_path folder_path) st.config_cache ≡ some config
      → let folder = n.get_clean_relative_path folder_path in
        (err : VxCoreError) × (st' : FolderState D S J) × (set_children_order n fs db
            (suc fuel)
            folder_path
            (some (new_folders, new_files))
            now
            st
          ≡ some (err, st'))
        × KeepsNodes folder config new_folders new_files st err st'
  unfolding set_children_order
  set_children_order-keeps fuel folder_path new_folders new_files now st config writable h =
      let folder = n.get_clean_relative_path folder_path in
      let next : FolderConfig J → FolderState D S J → Outcome D S J =
        λ c st1. save_order n fs db folder c new_folders new_files now st1 in
      let run = with_config-cached n fs db fuel folder st config next h in
      let (err, st', e, keeps) = save_order_lem folder config new_folders new_files now st in
      elim (Bool-cases (not (is_some new_folders) && not (is_some new_files))) [
        | inl nothing ↦ (
          vxcore_ok,
          st,
          ground (arith, writable, nothing),
          inr (inl (refl, refl, ground (arith, nothing), ground (arith, nothing))),
        )
        | inr asked ↦ (err, st', ground (arith, writable, asked, run, e), keeps)
      ]
