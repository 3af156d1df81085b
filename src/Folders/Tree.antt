-- ===== src/Folders/Tree.antt =====
-- core/bundled_folder_manager.cpp: the folders of the tree.
use vxcore.Errors.{
  is_ok, err_not_found, vxcore_ok, err_node_not_exists, err_already_exists, err_read_only, err_io,
}
use vxcore.Folders.Config.{
  with_saved, save_folder_config, with_config, out_of_fuel, get_folder_config, failed, got, Got,
}
use vxcore.Prelude.{
  [], ◌∷◌, str_eq, ◌++◌, contains, ◌&&◌, none, ◌++ˢ◌, some, not, if◌then◌else◌, ℕ, String, false,
  true, Bool,
}
use vxcore.Folders.{
  folder_created, replace_first, write_through, cache_config, erase_name, invalidate_cache,
  folder_deleted, emit_event, get_config_dir, get_config_path, Outcome, get_content_path,
  FolderState, MetadataStore, FileSystem, Notebook, FolderConfig,
}
use vxcore.Utils.Paths.{concatenate_paths, split_path}

-- File operations in a row; the first that throws ends them.
abbrev pub then_do : {D : Type 0} → Bool × D → (D → Bool × D) → Bool × D
then_do (true, d) next = next d
then_do (false, d) next = (false, d)

module _ {D S J : Type 0} (n : Notebook) (fs : FileSystem D J) (db : MetadataStore S J) where
  -- `fresh` is the config that FolderConfig(folder_name) makes, with a new id.
  unfoldable pub create_folder : ℕ → String → FolderConfig J → ℕ → FolderState D S J → Outcome D S J
  create_folder fuel parent_path fresh now st =
      let parent = n.get_clean_relative_path parent_path in
      let content = get_content_path n parent ++ˢ "/" ++ˢ fresh.name in
      let folder = concatenate_paths parent fresh.name in
      if n.is_read_only
      then some (err_read_only, st)
      else if fs.exists content st.disk
      then some (err_already_exists, st)
      else with_config n fs db fuel parent st (λ config st1.
        let (created, d) = fs.create_directories content st1.disk in
        let config' = record config {
          folders = config.folders ++ fresh.name ∷ [];
          modified_utc = now;
        } in
        if contains fresh.name config.folders
        then some (err_already_exists, st1)
        else if not created
        then some (err_io, record st1 { disk = d })
        else with_saved n fs parent config' record st1 { disk = d }
            (λ st2.
              let (err, st3) = save_folder_config n fs folder fresh st2 in
              if not (is_ok err)
              then some (err, st3)
              else some (
                vxcore_ok,
                emit_event (folder_created folder) (
                    cache_config folder fresh
                      (write_through (db.create_folder fresh config.id) st3)),
              )))

  -- The end of DeleteFolder: the content goes to the recycle bin or is deleted, the folder's directory of
  -- configs is deleted.
  unfoldable pub remove_folder : String → Bool → FolderState D S J → Bool × FolderState D S J
  remove_folder folder content_exists st =
      let content = get_content_path n folder in
      let (recycled, d) = fs.to_recycle_bin content st.disk in
      let moved = if recycled then (true, d) else fs.remove_all content d in
      let gone = if content_exists then moved else (true, st.disk) in
      let (done, d') = then_do gone (λ d.
        if fs.exists (get_config_path n folder) d
        then fs.remove_all (get_config_dir n folder) d
        else (true, d)) in
      (done, record st { disk = d' })

  -- The id for the store: "" where the config cannot be read.
  unfoldable pub id_for_store : Got J → String
  id_for_store (got config) = config.id
  id_for_store (failed err) = ""
  id_for_store out_of_fuel = ""

  unfoldable pub finish_delete_folder : String → Bool → String → FolderState D S J → Outcome D S J
  finish_delete_folder folder content_exists id st =
      let (done, st1) = remove_folder folder content_exists st in
      if not done
      then some (err_io, st1)
      else some (
        vxcore_ok,
        emit_event (folder_deleted folder)
            (if str_eq id "" then st1 else write_through (db.delete_folder id) st1),
      )

  unfoldable pub delete_folder : ℕ → String → ℕ → FolderState D S J → Outcome D S J
  delete_folder fuel folder_path now st =
      let folder = n.get_clean_relative_path folder_path in
      let content_exists = fs.is_directory (get_content_path n folder) st.disk in
      let (parent, folder_name) = split_path folder in
      if n.is_read_only
      then some (err_read_only, st)
      else if not content_exists && not (fs.exists (get_config_path n folder) st.disk)
      then some (err_not_found, st)
      else (let (found, st1) = get_folder_config n fs db fuel folder none st in
          let id = id_for_store found in
          elim found [
            | out_of_fuel ↦ none
            | _ ↦ with_config n fs db fuel parent (invalidate_cache folder st1) (λ config st2.
                let config' = record config {
                  folders = erase_name folder_name config.folders;
                  modified_utc = now;
                } in
                if contains folder_name config.folders
                then with_saved n fs parent config' st2
                    (finish_delete_folder folder content_exists id)
                else finish_delete_folder folder content_exists id st2)
          ])

  -- A node whose content is missing: one that the index knows, or none.
  unfoldable pub missing_node : ℕ → String → FolderState D S J → Outcome D S J
  missing_node fuel folder st =
      let (found, st1) = get_folder_config n fs db fuel folder none st in
      elim found [
        | got config ↦ some (err_node_not_exists, st1)
        | failed err ↦ some (err_not_found, st1)
        | out_of_fuel ↦ none
      ]

  -- The files of RenameFolder: the content, then the folder's own vx.json; what else stands in the old
  -- directory of configs is deleted.
  unfoldable pub rename_on_disk : String → String → D → Bool × D
  rename_on_disk old new d =
      then_do (fs.rename (get_content_path n old) (get_content_path n new) d) (λ d.
        if not (fs.exists (get_config_path n old) d)
        then (true, d)
        else then_do (fs.create_directories (get_config_dir n new) d) (λ d.
          then_do (fs.rename (get_config_path n old) (get_config_path n new) d)
            (fs.remove_all (get_config_dir n old))))

  -- The config changes in the cache under its old path and is written under the new one.
  unfoldable pub rename_folder : ℕ → String → String → ℕ → FolderState D S J → Outcome D S J
  rename_folder fuel folder_path new_name now st =
      let old = n.get_clean_relative_path folder_path in
      let (parent, old_name) = split_path old in
      let new = concatenate_paths parent new_name in
      if n.is_read_only
      then some (err_read_only, st)
      else if not (fs.exists (get_content_path n old) st.disk)
      then missing_node fuel old st
      else if fs.exists (get_content_path n new) st.disk
      then some (err_already_exists, st)
      else with_config n fs db fuel parent st (λ parent_config st1.
        if not (contains old_name parent_config.folders)
        then some (err_not_found, st1)
        else with_config n fs db fuel old st1 (λ config st2.
          let (renamed, d) = rename_on_disk old new st2.disk in
          let st3 = record st2 { disk = d } in
          let config' = record config { name = new_name; modified_utc = now } in
          let (err, st4) = save_folder_config n fs new config' (cache_config old config' st3) in
          let parent' = record parent_config {
            folders = replace_first old_name new_name parent_config.folders;
            modified_utc = now;
          } in
          if not renamed
          then some (err_io, st3)
          else if not (is_ok err)
          then some (err, st4)
          else with_saved n fs parent parent' st4 (λ st5. some (
            vxcore_ok,
            invalidate_cache new (
                invalidate_cache old
                  (write_through (db.update_folder config.id new_name now config.metadata) st5)),
          ))))

  -- The files of MoveFolder: the content, then the directory of configs as a whole.
  unfoldable pub move_on_disk : String → String → String → D → Bool × D
  move_on_disk src dest_parent dest d =
      then_do (fs.create_directories (get_content_path n dest_parent) d) (λ d.
        then_do (fs.rename (get_content_path n src) (get_content_path n dest) d) (λ d.
          if not (fs.exists (get_config_path n src) d)
          then (true, d)
          else then_do (fs.create_directories (get_config_dir n dest_parent) d)
              (fs.rename (get_config_dir n src) (get_config_dir n dest))))
