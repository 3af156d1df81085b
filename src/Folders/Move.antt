-- ===== src/Folders/Move.antt =====
-- core/bundled_folder_manager.cpp: moving a folder, and the records of nodes.
use vxcore.Folders.Tree.{move_on_disk, missing_node}
use vxcore.Errors.{
  err_io, err_already_exists, vxcore_ok, err_not_found, err_json_parse, err_read_only,
}
use vxcore.Folders.Config.{got, with_saved, failed, with_config, out_of_fuel, get_folder_config}
use vxcore.Prelude.{
  contains, [], ◌∷◌, ◌++◌, ◌&&◌, not, leb, none, some, ltb, Option, if◌then◌else◌, String, ℕ,
}
use vxcore.Folders.{
  invalidate_cache, erase_name, write_through, update_record, folder_metadata_updated,
  find_file_record, emit_event, get_content_path, Outcome, FolderState, MetadataStore, FileSystem,
  Notebook,
}
use vxcore.Utils.Paths.{concatenate_paths, split_path}

module _ {D S J : Type 0} (n : Notebook) (fs : FileSystem D J) (db : MetadataStore S J) where
  unfoldable pub move_folder : ℕ → String → String → ℕ → FolderState D S J → Outcome D S J
  move_folder fuel src_path dest_parent_path now st =
      let src = n.get_clean_relative_path src_path in
      let dest_parent = n.get_clean_relative_path dest_parent_path in
      let (src_parent, folder_name) = split_path src in
      let dest = concatenate_paths dest_parent folder_name in
      if n.is_read_only
      then some (err_read_only, st)
      else if not (fs.exists (get_content_path n src) st.disk)
      then missing_node n fs db fuel src st
      else if fs.exists (get_content_path n dest) st.disk
      then some (err_already_exists, st)
      else with_config n fs db fuel src_parent st (λ src_config st1.
        with_config n fs db fuel dest_parent st1 (λ dest_config st2.
          with_config n fs db fuel src st2 (λ config st3.
            let (moved, d) = move_on_disk n fs db src dest_parent dest st3.disk in
            let src' = record src_config {
              folders = erase_name folder_name src_config.folders;
              modified_utc = now;
            } in
            let dest' = record dest_config {
              folders = dest_config.folders ++ folder_name ∷ [];
              modified_utc = now;
            } in
            if not (contains folder_name src_config.folders)
            then some (err_not_found, st3)
            else if contains folder_name dest_config.folders
            then some (err_already_exists, st3)
            else if not moved
            then some (err_io, record st3 { disk = d })
            else with_saved n fs src_parent src' record st3 { disk = d }
                (λ st4. with_saved n fs dest_parent dest' st4 (λ st5. some (
                  vxcore_ok,
                  invalidate_cache dest (
                      invalidate_cache src
                        (write_through (db.move_folder config.id dest_config.id) st5)),
                ))))))

  -- `metadata` is `none` where the JSON text is not an object.
  unfoldable pub update_folder_metadata :
      ℕ → String → Option J → ℕ → FolderState D S J → Outcome D S J
  update_folder_metadata fuel folder_path metadata now st =
      let folder = n.get_clean_relative_path folder_path in
      if n.is_read_only
      then some (err_read_only, st)
      else with_config n fs db fuel folder st (λ config st1. elim metadata [
        | none ↦ some (err_json_parse, st1)
        | some new ↦
            with_saved n fs folder record config { metadata = new; modified_utc = now } st1
              (λ st2. some (
                vxcore_ok,
                emit_event (folder_metadata_updated folder)
                    (write_through (db.update_folder config.id config.name now new) st2),
              ))
      ])

  -- A time that is not positive is left as it is.
  abbrev pub new_time : ℕ → ℕ → ℕ
  new_time given old = if ltb 0 given then given else old

  unfoldable pub update_folder_timestamps : ℕ → String → ℕ → ℕ → FolderState D S J → Outcome D S J
  update_folder_timestamps fuel folder created_utc modified_utc st =
      let (found, st1) = get_folder_config n fs db fuel folder none st in
      elim found [
        | out_of_fuel ↦ none
        | failed err ↦ some (err_not_found, st1)
        | got config ↦
            let config' = record config {
              created_utc = new_time created_utc config.created_utc;
              modified_utc = new_time modified_utc config.modified_utc;
            } in
            with_saved n fs folder config' st1 (λ st2. some (
              vxcore_ok,
              write_through
                  (db.update_folder config.id config.name config'.modified_utc config.metadata) st2,
            ))
      ]

  -- A file of that path, or else a folder.
  unfoldable pub update_node_timestamps : ℕ → String → ℕ → ℕ → FolderState D S J → Outcome D S J
  update_node_timestamps fuel node_path created_utc modified_utc st =
      let path = n.get_clean_relative_path node_path in
      let (folder, file_name) = split_path path in
      if n.is_read_only
      then some (err_read_only, st)
      else if leb created_utc 0 && leb modified_utc 0
      then some (vxcore_ok, st)
      else with_config n fs db fuel folder st (λ config st1.
        elim (find_file_record file_name config.files) [
          | none ↦ update_folder_timestamps fuel path created_utc modified_utc st1
          | some file ↦
              let file' = record file {
                created_utc = new_time created_utc file.created_utc;
                modified_utc = new_time modified_utc file.modified_utc;
              } in
              let config' = record config {
                files = update_record file_name (λ f. file') config.files;
              } in
              with_saved n fs folder config' st1 (λ st2. some (
                vxcore_ok,
                write_through (db.update_file file.id file.name file'.modified_utc file.metadata)
                    st2,
              ))
        ])
