-- ===== src/Folders/Config.antt =====
-- core/bundled_folder_manager.cpp: reading, writing and caching the vx.json of a folder.
use vxcore.Prelude.Assoc.{lookup}
use vxcore.Prelude.{
  zero, inr, inl, [], not, leb, false, contains, true, suc, none, map, if◌then◌else◌, ◌⊎◌, ◌∷◌,
  some, Bool, ℕ, String, Option, List,
}
use vxcore.Errors.{err_json_parse, err_io, err_not_found, is_ok, vxcore_ok, VxCoreError}
use vxcore.Folders.{
  is_root, folder_config_changed, emit_event, cache_config, get_config_path, Outcome, FolderState,
  FileRecord, MetadataStore, FileSystem, Notebook, FolderConfig,
}
use vxcore.Utils.Paths.{concatenate_paths, split_path}

-- What GetFolderConfig gives.
pub data Got (J : Type 0) : Type 0 where
  got : FolderConfig J → Got J
  failed : VxCoreError → Got J
  out_of_fuel : Got J

module _ {D J : Type 0} (n : Notebook) (fs : FileSystem D J) where
  unfoldable pub load_folder_config : String → D → VxCoreError ⊎ FolderConfig J
  load_folder_config folder_path d =
      if not (fs.exists (get_config_path n folder_path) d)
      then inl err_not_found
      else (elim (fs.read_json (get_config_path n folder_path) d) [
        | none ↦ inl err_io
        | some none ↦ inl err_json_parse
        | some (some config) ↦ inr config
      ])

module _ {D S J : Type 0} (n : Notebook) (fs : FileSystem D J) where
  unfoldable pub save_folder_config :
      String → FolderConfig J → FolderState D S J → VxCoreError × FolderState D S J
  save_folder_config folder_path config st =
      let (written, d) = fs.write_json (get_config_path n folder_path) config st.disk in
      if written
      then (vxcore_ok, emit_event (folder_config_changed folder_path) record st { disk = d })
      else (err_io, record st { disk = d })

  -- The config is changed in the cache, through the pointer, and then written.
  unfoldable pub with_saved :
      String
      → FolderConfig J
      → FolderState D S J
      → (FolderState D S J → Outcome D S J)
      → Outcome D S J
  with_saved folder_path config st next =
      let (err, st') = save_folder_config folder_path config (cache_config folder_path config st) in
      if is_ok err then next st' else some (err, st')

module _ {S J : Type 0} (db : MetadataStore S J) where
  -- The first two loops of SyncFilesToStore.
  unfoldable pub delete_orphans : List String → List String → S → S
  delete_orphans ids [] s = s
  delete_orphans ids (stored ∷ rest) s =
      delete_orphans ids rest (if contains stored ids then s else (db.delete_file stored s).1)

  unfoldable pub add_or_update : String → List String → List (FileRecord J) → S → S
  add_or_update folder_id stored [] s = s
  add_or_update folder_id stored (file ∷ files) s =
      let updated = (db.update_file file.id file.name file.modified_utc file.metadata s).1 in
      add_or_update folder_id stored files (
        if contains file.id stored
        then (db.set_file_tags file.id file.tags updated).1
        else (db.create_file file folder_id s).1)

  unfoldable pub sync_files_to_store : String → List (FileRecord J) → S → S
  sync_files_to_store folder_id files s =
      let stored = db.list_file_ids folder_id s in
      add_or_update folder_id stored files (delete_orphans (map (λ f. f.id) files) stored s)

  -- The head of SyncFolderToStore: whether its subfolders are to be visited, and the store.
  unfoldable pub sync_folder_record : FolderConfig J → String → S → Bool × S
  sync_folder_record config parent_id s = elim (db.get_folder_modified config.id s) [
    | some modified ↦
        let (updated, s') =
          db.update_folder config.id config.name config.modified_utc config.metadata s in
        if leb config.modified_utc modified
        then (false, s)
        else if updated
        then (true, sync_files_to_store config.id config.files s')
        else (false, s')
    | none ↦
        let (created, s') = db.create_folder config parent_id s in
        if created then (true, sync_files_to_store config.id config.files s') else (false, s')
  ]

unfoldable pub parent_id_of : {J : Type 0} → Got J → Option String
parent_id_of (got config) = some config.id
parent_id_of (failed err) = some ""
parent_id_of out_of_fuel = none

module _ {D S J : Type 0} where
  -- The loop over the subfolders; one that cannot be read is passed over. `false`: out of fuel.
  unfoldable pub visit_subfolders :
      (String → FolderState D S J → Got J × FolderState D S J)
      → String
      → List String
      → FolderState D S J
      → Bool × FolderState D S J
  visit_subfolders visit folder_path [] st = (true, st)
  visit_subfolders visit folder_path (name ∷ names) st =
      let (found, st') = visit (concatenate_paths folder_path name) st in
      elim found [
        | out_of_fuel ↦ (false, st')
        | failed err ↦ visit_subfolders visit folder_path names st'
        | got config ↦ visit_subfolders visit folder_path names st'
      ]

module _ {D S J : Type 0} (db : MetadataStore S J) where
  -- SyncFolderToStore of a folder that was just read and stands in the cache.
  unfoldable pub sync_folder_to_store :
      (String → FolderState D S J → Got J × FolderState D S J)
      → String
      → FolderConfig J
      → String
      → FolderState D S J
      → Got J × FolderState D S J
  sync_folder_to_store visit folder_path config parent_id st = elim st.store [
    | none ↦ (got config, st)
    | some s ↦
        let (go_on, s') = sync_folder_record db config parent_id s in
        elim go_on [
          | false ↦ (got config, record st { store = some s' })
          | true ↦
              let (all, st') =
                visit_subfolders visit folder_path config.folders record st { store = some s' } in
              (if all then got config else out_of_fuel, st')
        ]
  ]

module _ {D S J : Type 0} (n : Notebook) (fs : FileSystem D J) (db : MetadataStore S J) where
  -- GetFolderConfig, with GetParentFolderId and SyncFolderToStore, which call it again; the parent's id
  -- is given where the folder is visited from its parent.
  unfoldable pub get_folder_config :
      ℕ → String → Option String → FolderState D S J → Got J × FolderState D S J
  get_folder_config zero folder_path parent_id st = (out_of_fuel, st)
  get_folder_config (suc fuel) folder_path parent_id st =
      elim (lookup folder_path st.config_cache) [
        | some config ↦ (got config, st)
        | none ↦ elim (load_folder_config n fs folder_path st.disk) [
          | inl err ↦ (failed err, st)
          | inr config ↦
              let st' = cache_config folder_path config st in
              let visit : String → FolderState D S J → Got J × FolderState D S J =
                λ p st. get_folder_config fuel p (some config.id) st in
              elim parent_id [
                | some id ↦ sync_folder_to_store db visit folder_path config id st'
                | none ↦ elim (is_root folder_path) [
                  | true ↦ sync_folder_to_store db visit folder_path config "" st'
                  | false ↦
                      let (found, st'') =
                        get_folder_config fuel (split_path folder_path).0 none st' in
                      elim (parent_id_of found) [
                        | none ↦ (out_of_fuel, st'')
                        | some id ↦ sync_folder_to_store db visit folder_path config id st''
                      ]
                ]
              ]
        ]
      ]

  -- An operation goes on with the folder's config, or returns the error.
  unfoldable pub with_config :
      ℕ
      → String
      → FolderState D S J
      → (FolderConfig J → FolderState D S J → Outcome D S J)
      → Outcome D S J
  with_config fuel folder_path st next =
      let (found, st') = get_folder_config fuel folder_path none st in
      elim found [
        | got config ↦ next config st'
        | failed err ↦ some (err, st')
        | out_of_fuel ↦ none
      ]
