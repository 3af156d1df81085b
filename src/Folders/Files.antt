-- ===== src/Folders/Files.antt =====
-- core/bundled_folder_manager.cpp: the files of a folder.
use vxcore.Folders.Config.{with_saved, got, with_config, failed, out_of_fuel, get_folder_config}
use vxcore.Errors.{
  vxcore_ok, err_node_not_exists, err_io, err_not_found, err_already_exists, err_read_only,
  VxCoreError,
}
use vxcore.Prelude.{
  str_eq, ◌&&◌, not, [], ◌∷◌, inr, ◌++◌, inl, some, none, if◌then◌else◌, ◌⊎◌, ◌++ˢ◌, Option, String,
  ℕ,
}
use vxcore.Folders.{
  write_through, file_moved, file_deleted, file_created, emit_event, update_record, erase_record,
  find_file_record, get_content_path, Outcome, FolderState, FileRecord, MetadataStore, FileSystem,
  Notebook,
}
use vxcore.Utils.Paths.{concatenate_paths, split_path}

module _ {D S J : Type 0} (n : Notebook) (fs : FileSystem D J) (db : MetadataStore S J) where
  -- `fresh` is the record that FileRecord(file_name) makes, with a new id, and `now` the time.
  unfoldable pub create_file : ℕ → String → FileRecord J → ℕ → FolderState D S J → Outcome D S J
  create_file fuel folder_path fresh now st =
      let folder = n.get_clean_relative_path folder_path in
      let file_name = fresh.name in
      let content = get_content_path n folder ++ˢ "/" ++ˢ file_name in
      let file = record fresh { created_utc = now; modified_utc = now } in
      if n.is_read_only
      then some (err_read_only, st)
      else if fs.exists content st.disk
      then some (err_already_exists, st)
      else with_config n fs db fuel folder st (λ config st1.
        elim (find_file_record file_name config.files) [
          | some old ↦ some (err_already_exists, st1)
          | none ↦
              let (created, d) = fs.create_empty_file content st1.disk in
              let config' = record config {
                files = config.files ++ file ∷ [];
                modified_utc = now;
              } in
              if not created
              then some (err_io, record st1 { disk = d })
              else with_saved n fs folder config' record st1 { disk = d }
                  (λ st2. some (
                    vxcore_ok,
                    emit_event (file_created (concatenate_paths folder file_name))
                        (write_through (db.create_file file config.id) st2),
                  ))
        ])

  -- The end of DeleteFile: the content goes to the recycle bin or is deleted. The store is used without a
  -- test for a null pointer: with no store that is the `none` here.
  unfoldable pub finish_delete_file :
      String → String → FileRecord J → FolderState D S J → Outcome D S J
  finish_delete_file path content file st =
      let (recycled, d) = fs.to_recycle_bin content st.disk in
      let (removed, d') = fs.remove content d in
      let st1 = record st { disk = if recycled then d else d' } in
      if not recycled && not removed
      then some (err_io, st1)
      else if str_eq file.id ""
      then some (vxcore_ok, emit_event (file_deleted path) st1)
      else (elim st.store [
        | none ↦ none
        | some s ↦ some (
          vxcore_ok,
          emit_event (file_deleted path) record st1 { store = some (db.delete_file file.id s).1 },
        )
      ])

  unfoldable pub delete_file : ℕ → String → ℕ → FolderState D S J → Outcome D S J
  delete_file fuel file_path now st =
      let path = n.get_clean_relative_path file_path in
      let (folder, file_name) = split_path path in
      let content = get_content_path n folder ++ˢ "/" ++ˢ file_name in
      if n.is_read_only
      then some (err_read_only, st)
      else with_config n fs db fuel folder st (λ config st1.
        elim (find_file_record file_name config.files) [
          | none ↦ some (err_not_found, st1)
          | some file ↦
              let config' = record config {
                files = erase_record file_name config.files;
                modified_utc = now;
              } in
              with_saved n fs folder config' st1 (finish_delete_file path content file)
        ])

  unfoldable pub rename_file : ℕ → String → String → ℕ → FolderState D S J → Outcome D S J
  rename_file fuel file_path new_name now st =
      let path = n.get_clean_relative_path file_path in
      let (folder, old_name) = split_path path in
      let content = get_content_path n folder in
      let old_file = content ++ˢ "/" ++ˢ old_name in
      let new_file = content ++ˢ "/" ++ˢ new_name in
      if n.is_read_only
      then some (err_read_only, st)
      else with_config n fs db fuel folder st (λ config st1.
        elim (find_file_record old_name config.files) [
          | none ↦ some (err_not_found, st1)
          | some file ↦ elim (find_file_record new_name config.files) [
            | some taken ↦ some (err_already_exists, st1)
            | none ↦
                let (renamed, d) = fs.rename old_file new_file st1.disk in
                let config' = record config {
                  files =
                      update_record old_name (λ f. record f { name = new_name; modified_utc = now })
                        config.files;
                  modified_utc = now;
                } in
                if not (fs.exists old_file st1.disk)
                then some (err_node_not_exists, st1)
                else if fs.exists new_file st1.disk
                then some (err_already_exists, st1)
                else if not renamed
                then some (err_io, record st1 { disk = d })
                else with_saved n fs folder config' record st1 { disk = d }
                    (λ st2. some (
                      vxcore_ok,
                      emit_event (file_moved path (concatenate_paths folder new_name))
                          (write_through (db.update_file file.id new_name now file.metadata) st2),
                    ))
          ]
        ])

  -- GetFileInfo; GetFileMetadata and GetFileAttachments return a part of the record as JSON text.
  unfoldable pub get_file_info :
      ℕ → String → FolderState D S J → Option ((VxCoreError ⊎ FileRecord J) × FolderState D S J)
  get_file_info fuel file_path st =
      let (folder, file_name) = split_path (n.get_clean_relative_path file_path) in
      let (found, st1) = get_folder_config n fs db fuel folder none st in
      elim found [
        | out_of_fuel ↦ none
        | failed err ↦ some (inl err, st1)
        | got config ↦ elim (find_file_record file_name config.files) [
          | none ↦ some (inl err_not_found, st1)
          | some file ↦ some (inr file, st1)
        ]
      ]
