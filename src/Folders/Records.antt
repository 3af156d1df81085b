-- ===== src/Folders/Records.antt =====
-- core/bundled_folder_manager.cpp: tags, attachments, metadata and times of a file.
use vxcore.Errors.{
  err_not_found, err_already_exists, vxcore_ok, err_read_only, err_json_parse, err_invalid_param,
}
use vxcore.Folders.Config.{with_config, with_saved}
use vxcore.Prelude.{
  contains, ◌&&◌, some, not, [], ◌∷◌, ◌++◌, none, if◌then◌else◌, true, Option, Bool, ℕ, String,
  List,
}
use vxcore.Folders.{
  write_through, find_file_record, file_untagged, file_tagged, file_tags_replaced,
  file_metadata_updated, file_detached, file_attachments_replaced, file_attached, emit_event,
  update_record, erase_name, Outcome, FolderEvent, FolderState, FileRecord, MetadataStore,
  FileSystem, Notebook, FolderConfig,
}
use vxcore.Utils.Paths.{split_path}

module _ {D S J : Type 0} (n : Notebook) (fs : FileSystem D J) (db : MetadataStore S J) where
  -- What the operations on one record share: the record is found and goes on to `next`, with its
  -- folder, the folder's config and the file's path.
  unfoldable pub with_file :
      ℕ
      → String
      → FolderState D S J
      → (String → String → FolderConfig J → FileRecord J → FolderState D S J → Outcome D S J)
      → Outcome D S J
  with_file fuel file_path st next =
      let path = n.get_clean_relative_path file_path in
      let (folder, file_name) = split_path path in
      if n.is_read_only
      then some (err_read_only, st)
      else with_config n fs db fuel folder st (λ config st1.
        elim (find_file_record file_name config.files) [
          | none ↦ some (err_not_found, st1)
          | some file ↦ next path folder config file st1
        ])

  -- The changed record is written, with its time as the folder's, then the store is told, and the event
  -- goes out.
  unfoldable pub save_record :
      String
      → FolderConfig J
      → FileRecord J
      → FileRecord J
      → (S → Bool × S)
      → FolderEvent J
      → FolderState D S J
      → Outcome D S J
  save_record folder config file file' call event st =
      let config' = record config {
        files = update_record file.name (λ f. file') config.files;
        modified_utc = file'.modified_utc;
      } in
      with_saved n fs folder config' st
        (λ st2. some (vxcore_ok, emit_event event (write_through call st2)))

  unfoldable pub tag_file : ℕ → String → String → ℕ → FolderState D S J → Outcome D S J
  tag_file fuel file_path tag_name now st =
      with_file fuel file_path st (λ path folder config file st1.
        if not (n.find_tag tag_name)
        then some (err_invalid_param, st1)
        else if contains tag_name file.tags
        then some (err_already_exists, st1)
        else save_record folder config file
            record file { tags = file.tags ++ tag_name ∷ []; modified_utc = now }
            (db.add_tag_to_file file.id tag_name) (file_tagged path tag_name) st1)

  unfoldable pub untag_file : ℕ → String → String → ℕ → FolderState D S J → Outcome D S J
  untag_file fuel file_path tag_name now st =
      with_file fuel file_path st (λ path folder config file st1.
        if not (contains tag_name file.tags)
        then some (err_not_found, st1)
        else save_record folder config file
            record file { tags = erase_name tag_name file.tags; modified_utc = now }
            (db.remove_tag_from_file file.id tag_name) (file_untagged path tag_name) st1)

  all_known : List String → Bool
  all_known [] = true
  all_known (tag ∷ tags) = n.find_tag tag && all_known tags

  -- `tags` is what the JSON text parses to: `none` where it is not an array of strings.
  unfoldable pub update_file_tags :
      ℕ → String → Option (List String) → ℕ → FolderState D S J → Outcome D S J
  unfolding all_known
  update_file_tags fuel file_path tags now st =
      with_file fuel file_path st (λ path folder config file st1. elim tags [
        | none ↦ some (err_json_parse, st1)
        | some new_tags ↦
            if not (all_known new_tags)
            then some (err_invalid_param, st1)
            else save_record folder config file record file { tags = new_tags; modified_utc = now }
                (db.set_file_tags file.id new_tags) (file_tags_replaced path new_tags) st1
      ])

  -- `metadata` is `none` where the JSON text is not an object.
  unfoldable pub update_file_metadata :
      ℕ → String → Option J → ℕ → FolderState D S J → Outcome D S J
  update_file_metadata fuel file_path metadata now st =
      with_file fuel file_path st (λ path folder config file st1. elim metadata [
        | none ↦ some (err_json_parse, st1)
        | some new ↦
            save_record folder config file record file { metadata = new; modified_utc = now }
              (db.update_file file.id file.name now new) (file_metadata_updated path) st1
      ])

  unfoldable pub update_file_attachments :
      ℕ → String → Option (List String) → ℕ → FolderState D S J → Outcome D S J
  update_file_attachments fuel file_path attachments now st =
      with_file fuel file_path st (λ path folder config file st1. elim attachments [
        | none ↦ some (err_json_parse, st1)
        | some new ↦
            save_record folder config file record file { attachments = new; modified_utc = now }
              (db.set_file_attachments file.id new) (file_attachments_replaced path new) st1
      ])

  unfoldable pub add_file_attachment : ℕ → String → String → ℕ → FolderState D S J → Outcome D S J
  add_file_attachment fuel file_path attachment now st =
      with_file fuel file_path st (λ path folder config file st1.
        let new = file.attachments ++ attachment ∷ [] in
        if contains attachment file.attachments
        then some (vxcore_ok, st1)
        else save_record folder config file record file { attachments = new; modified_utc = now }
            (db.set_file_attachments file.id new) (file_attached path attachment) st1)

  unfoldable pub delete_file_attachment :
      ℕ → String → String → ℕ → FolderState D S J → Outcome D S J
  delete_file_attachment fuel file_path attachment now st =
      with_file fuel file_path st (λ path folder config file st1.
        let new = erase_name attachment file.attachments in
        if not (contains attachment file.attachments)
        then some (vxcore_ok, st1)
        else save_record folder config file record file { attachments = new; modified_utc = now }
            (db.set_file_attachments file.id new) (file_detached path attachment) st1)
