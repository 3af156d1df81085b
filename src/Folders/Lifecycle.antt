-- ===== src/Folders/Lifecycle.antt =====
-- core/bundled_folder_manager.cpp: a file that is created and deleted again.
use vxcore.Folders.Cached.{lookup-put_same, with_saved-cases}
use vxcore.Errors.{vxcore_ok}
use vxcore.Prelude.Assoc.{put, lookup}
use vxcore.Folders.Laws.{
  get_file_info-IsAt, IsAt, find-append, write_through-store, write_through-cache, CanWrite,
}
use vxcore.Utils.Paths.{concatenate_paths, split_path}
use vxcore.Prelude.{
  refl, Bool-cases, Option-cases, str_eq, ◌∙◌, ap, inl, inr, is_some, suc, some, eq_iff, false,
  arith, [], ◌∷◌, ◌++ˢ◌, ◌++◌, ℕ, none, true, List, ◌≡◌, String,
}
use vxcore.Folders.Config.{get_folder_config, with_config}
use vxcore.Folders.{
  file_deleted, get_config_path, write_through, file_created, get_content_path, emit_event,
  erase_record, find_file_record, FileRecord, FolderConfig, FolderState, Outcome, Notebook,
  FileSystem, MetadataStore,
}
use vxcore.Folders.Files.{get_file_info, finish_delete_file, create_file, delete_file}

module _ {J : Type 0} where
  erase_record-append :
      (name : String) (file : FileRecord J) (files : List (FileRecord J))
      → find_file_record name files ≡ none
      → file.name ≡ name
      → erase_record name (files ++ file ∷ []) ≡ files
  unfolding find_file_record erase_record
  erase_record-append name file [] h k = ground (arith, k, eq_iff file.name name)
  erase_record-append name file (f ∷ files) h k =
      ground (arith, h, erase_record-append name file files)

module _ {D S J : Type 0} (n : Notebook) (fs : FileSystem D J) (db : MetadataStore S J) where
  -- The recycle bin takes whatever is moved there.
  abbrev pub CanRecycle : Type 0
  CanRecycle = (path : String) (d : D) → (fs.to_recycle_bin path d).0 ≡ true

  -- The path names a file of that name in the folder.
  abbrev pub Names : String → String → String → Type 0
  Names file_path folder name = split_path (n.get_clean_relative_path file_path) ≡ (folder, name)

  create_file-cached :
      (fuel : ℕ) (folder_path : String) (fresh : FileRecord J) (now : ℕ) (st : FolderState D S J)
      (config : FolderConfig J)
      → let folder = n.get_clean_relative_path folder_path in
        let content = get_content_path n folder ++ˢ "/" ++ˢ fresh.name in
        CanWrite n fs db
        → n.is_read_only ≡ false
        → fs.exists content st.disk ≡ false
        → (fs.create_empty_file content st.disk).0 ≡ true
        → lookup folder st.config_cache ≡ some config
        → find_file_record fresh.name config.files ≡ none
        → (st' : FolderState D S J) × (create_file n fs db (suc fuel) folder_path fresh now st
            ≡ some (vxcore_ok, st'))
          × (is_some st'.store ≡ is_some st.store)
          × (lookup folder st'.config_cache
              ≡ some record config {
                files = config.files ++ record fresh { created_utc = now; modified_utc = now } ∷ [];
                modified_utc = now;
              })
  unfolding create_file with_config get_folder_config emit_event
  create_file-cached fuel folder_path fresh now st config can writable absent creates cached new =
      let folder = n.get_clean_relative_path folder_path in
      let file = record fresh { created_utc = now; modified_utc = now } in
      let config' = record config { files = config.files ++ file ∷ []; modified_utc = now } in
      let content = get_content_path n folder ++ˢ "/" ++ˢ fresh.name in
      let st1 = record st { disk = (fs.create_empty_file content st.disk).1 } in
      let event = file_created (concatenate_paths folder fresh.name) in
      let done : FolderState D S J → FolderState D S J =
        λ st2. emit_event event (write_through (db.create_file file config.id) st2) in
      let next : FolderState D S J → Outcome D S J = λ st2. some (vxcore_ok, done st2) in
      let (st2, (at, stored, kept), cases) = with_saved-cases n fs folder config' st1 next in
      elim cases [
        | inr (bad, ran) ↦
            absurd (ground (arith, bad, can (get_config_path n folder) config' st1.disk))
        | inl (written, ran) ↦ (
          done st2,
          ground (arith, writable, absent, creates, cached, new, ran),
          write_through-store n fs db (db.create_file file config.id) st2 ∙ ap is_some stored,
          ap (lookup folder)
                (write_through-cache n fs db (db.create_file file config.id) st2 ∙ kept)
              ∙ lookup-put_same folder config' st.config_cache,
        )
      ]

  finish_delete_file-done :
      (path content : String) (file : FileRecord J) (st : FolderState D S J)
      → CanRecycle
      → is_some st.store ≡ true
      → (st' : FolderState D S J) × (finish_delete_file n fs db path content file st
          ≡ some (vxcore_ok, st'))
        × (st'.config_cache ≡ st.config_cache)
  unfolding finish_delete_file emit_event
  finish_delete_file-done path content file st bin has =
      let recycled = bin content st.disk in
      let st1 = record st { disk = (fs.to_recycle_bin content st.disk).1 } in
      elim (Option-cases st.store) [
        | inl missing ↦ absurd (ground (arith, missing, has))
        | inr (s, stored) ↦ elim (Bool-cases (str_eq file.id "")) [
          | inl no_id ↦ (emit_event (file_deleted path) st1, ground (arith, recycled, no_id), refl)
          | inr id ↦ (
            emit_event (file_deleted path) record st1 { store = some (db.delete_file file.id s).1 },
            ground (arith, recycled, id, stored),
            refl,
          )
        ]
      ]

  finish_delete_file-no_store :
      (path content : String) (file : FileRecord J) (st : FolderState D S J)
      → CanRecycle
      → st.store ≡ none
      → str_eq file.id "" ≡ false
      → finish_delete_file n fs db path content file st ≡ none
  unfolding finish_delete_file
  finish_delete_file-no_store path content file st bin missing id =
      ground (arith, bin content st.disk, id, missing)

  -- What DeleteFile leaves of a file in a folder that was read, where there is a store.
  delete_file-cached :
      (fuel : ℕ) (file_path folder name : String) (file : FileRecord J) (now : ℕ)
      (st : FolderState D S J) (config : FolderConfig J)
      → CanWrite n fs db
      → CanRecycle
      → n.is_read_only ≡ false
      → Names file_path folder name
      → lookup folder st.config_cache ≡ some config
      → find_file_record name config.files ≡ some file
      → is_some st.store ≡ true
      → (st' : FolderState D S J) × (delete_file n fs db (suc fuel) file_path now st
          ≡ some (vxcore_ok, st'))
        × (lookup folder st'.config_cache
            ≡ some record config { files = erase_record name config.files; modified_utc = now })
  unfolding delete_file with_config get_folder_config
  delete_file-cached fuel file_path folder name file now st config can bin writable names cached at
        has =
      let path = n.get_clean_relative_path file_path in
      let folder_of = ap (λ p. p.0) names in
      let name_of = ap (λ p. p.1) names in
      let content = get_content_path n (split_path path).0 ++ˢ "/" ++ˢ (split_path path).1 in
      let config' = record config {
        files = erase_record (split_path path).1 config.files;
        modified_utc = now;
      } in
      let cached' = ap (λ f. lookup f st.config_cache) folder_of ∙ cached in
      let at' = ap (λ a. find_file_record a config.files) name_of ∙ at in
      let next = finish_delete_file n fs db path content file in
      let (st1, (written_to, stored, kept), cases) =
        with_saved-cases n fs (split_path path).0 config' st next in
      elim cases [
        | inr (bad, ran) ↦
            absurd
              (ground (arith, bad, can (get_config_path n (split_path path).0) config' st.disk))
        | inl (written, ran) ↦
            let (st2, ended, same) =
              finish_delete_file-done path content file st1 bin (ap is_some stored ∙ has) in
            let found =
              ap (lookup folder) (same ∙ kept ∙ ap (λ f. put f config' st.config_cache) folder_of)
              ∙ lookup-put_same folder config' st.config_cache in
            (
              st2,
              ground (arith, writable, cached', at', ran, ended),
              found
                  ∙ ap
                      (λ a.
                        some
                          record config { files = erase_record a config.files; modified_utc = now })
                      name_of,
            )
      ]

  -- A file that is created in a folder that was read is found under its path, with its id and the time of
  -- its creation, and after it is deleted the folder lists the files that it listed before: where the
  -- notebook is not read-only and has a store, the name is new in the folder and on the disk, and the
  -- disk takes the file, the folder's vx.json and the move to the recycle bin.
  pub delete_file-create_file :
      (fuel : ℕ) (folder_path file_path : String) (fresh : FileRecord J) (now later : ℕ)
      (st : FolderState D S J) (config : FolderConfig J)
      → let folder = n.get_clean_relative_path folder_path in
        let content = get_content_path n folder ++ˢ "/" ++ˢ fresh.name in
        let file = record fresh { created_utc = now; modified_utc = now } in
        CanWrite n fs db
        → CanRecycle
        → n.is_read_only ≡ false
        → Names file_path folder fresh.name
        → fs.exists content st.disk ≡ false
        → (fs.create_empty_file content st.disk).0 ≡ true
        → lookup folder st.config_cache ≡ some config
        → find_file_record fresh.name config.files ≡ none
        → is_some st.store ≡ true
        → (st1 st2 : FolderState D S J) × (create_file n fs db (suc fuel) folder_path fresh now st
            ≡ some (vxcore_ok, st1))
          × (get_file_info n fs db (suc fuel) file_path st1 ≡ some (inr file, st1))
          × (delete_file n fs db (suc fuel) file_path later st1 ≡ some (vxcore_ok, st2))
          × (lookup folder st2.config_cache ≡ some record config { modified_utc = later })
  delete_file-create_file fuel folder_path file_path fresh now later st config can bin writable
        names absent creates cached new has =
      let folder = n.get_clean_relative_path folder_path in
      let file : FileRecord J = record fresh { created_utc = now; modified_utc = now } in
      let config1 = record config { files = config.files ++ file ∷ []; modified_utc = now } in
      let (st1, ran1, stored, kept) =
        create_file-cached fuel folder_path fresh now st config can writable absent creates cached
          new in
      let there = find-append fresh.name file config.files new refl in
      let at : IsAt n fs db file_path file st1 = (
        config1,
        ap (λ p. lookup (p.0) st1.config_cache) names ∙ kept,
        ap (λ p. find_file_record (p.1) config1.files) names ∙ there,
      ) in
      let (st2, ran2, left) =
        delete_file-cached fuel file_path folder fresh.name file later st1 config1 can bin writable
          names kept there (stored ∙ has) in
      let back = erase_record-append fresh.name file config.files new refl in
      (
        st1,
        st2,
        ran1,
        get_file_info-IsAt n fs db fuel file_path file st1 at,
        ran2,
        left ∙ ap (λ fs'. some record config { files = fs'; modified_utc = later }) back,
      )

  -- In a notebook with no store, DeleteFile uses the null pointer, once the file's record is gone.
  delete_file-no_store :
      (fuel : ℕ) (file_path folder name : String) (file : FileRecord J) (now : ℕ)
      (st : FolderState D S J) (config : FolderConfig J)
      → CanWrite n fs db
      → CanRecycle
      → n.is_read_only ≡ false
      → Names file_path folder name
      → lookup folder st.config_cache ≡ some config
      → find_file_record name config.files ≡ some file
      → str_eq file.id "" ≡ false
      → st.store ≡ none
      → delete_file n fs db (suc fuel) file_path now st ≡ none
  unfolding delete_file with_config get_folder_config
  delete_file-no_store fuel file_path folder name file now st config can bin writable names cached
        at id missing =
      let path = n.get_clean_relative_path file_path in
      let folder_of = ap (λ p. p.0) names in
      let name_of = ap (λ p. p.1) names in
      let content = get_content_path n (split_path path).0 ++ˢ "/" ++ˢ (split_path path).1 in
      let config' = record config {
        files = erase_record (split_path path).1 config.files;
        modified_utc = now;
      } in
      let cached' = ap (λ f. lookup f st.config_cache) folder_of ∙ cached in
      let at' = ap (λ a. find_file_record a config.files) name_of ∙ at in
      let next = finish_delete_file n fs db path content file in
      let (st1, (written_to, stored, kept), cases) =
        with_saved-cases n fs (split_path path).0 config' st next in
      elim cases [
        | inr (bad, ran) ↦
            absurd
              (ground (arith, bad, can (get_config_path n (split_path path).0) config' st.disk))
        | inl (written, ran) ↦
            let ended =
              finish_delete_file-no_store path content file st1 bin (stored ∙ missing) id in
            ground (arith, writable, cached', at', ran, ended)
      ]
