-- ===== src/Folders/Laws.antt =====
-- core/bundled_folder_manager.cpp: the records of a folder's files, and operations that undo another.
use vxcore.Folders.Order.Permutation.{find_file_record-name}
use vxcore.Folders.Cached.{lookup-put_same, with_saved-cases}
use vxcore.Errors.{vxcore_ok}
use vxcore.Folders.Records.{untag_file, with_file, tag_file, save_record}
use vxcore.Prelude.Assoc.{lookup}
use vxcore.Utils.Paths.{split_path}
use vxcore.Folders.Config.{with_config, get_folder_config}
use vxcore.Folders.Files.{get_file_info}
use vxcore.Prelude.{
  is_some, subst, inl, ◌∙◌, ap, Option-cases, Bool, inr, suc, eq_refl, eq_iff, ℕ, arith, [], ◌∷◌,
  true, some, none, false, ◌≡◌, ◌++◌, List, String, contains,
}
use vxcore.Folders.{
  file_untagged, file_tagged, get_config_path, Outcome, FolderEvent, emit_event, write_through,
  FolderState, MetadataStore, FileRecord, update_record, erase_name, FileSystem, find_file_record,
  Notebook, FolderConfig,
}

module _ {J : Type 0} where
  find-update_record :
      (name : String) (change : FileRecord J → FileRecord J) (file : FileRecord J)
      (files : List (FileRecord J))
      → find_file_record name files ≡ some file
      → (change file).name ≡ name
      → find_file_record name (update_record name change files) ≡ some (change file)
  unfolding find_file_record update_record
  find-update_record name change file [] h k = ground (arith, h)
  find-update_record name change file (f ∷ files) h k = ground (
    arith,
    h,
    k,
    find-update_record name change file files,
    eq_iff f.name name,
    eq_iff (change file).name name,
  )

  pub find-append :
      (name : String) (file : FileRecord J) (files : List (FileRecord J))
      → find_file_record name files ≡ none
      → file.name ≡ name
      → find_file_record name (files ++ file ∷ []) ≡ some file
  unfolding find_file_record
  find-append name file [] h k = ground (arith, k, eq_iff file.name name)
  find-append name file (f ∷ files) h k = ground (arith, h, k, find-append name file files)

erase_name-append :
    (a : String) (xs : List String) → contains a xs ≡ false → erase_name a (xs ++ a ∷ []) ≡ xs
unfolding contains erase_name
erase_name-append a [] h = ground (arith, eq_refl a)
erase_name-append a (x ∷ xs) h = ground (arith, h, erase_name-append a xs)

contains-append_last : (a : String) (xs : List String) → contains a (xs ++ a ∷ []) ≡ true
unfolding contains
contains-append_last a [] = ground (arith, eq_refl a)
contains-append_last a (x ∷ xs) = ground (arith, contains-append_last a xs)

module _ {D S J : Type 0} (n : Notebook) (fs : FileSystem D J) (db : MetadataStore S J) where
  -- The record that a path names, in a folder that is in the cache.
  abbrev pub IsAt : String → FileRecord J → FolderState D S J → Type 0
  IsAt file_path file st =
      let (folder, name) = split_path (n.get_clean_relative_path file_path) in
      (config : FolderConfig J) × (lookup folder st.config_cache ≡ some config)
      × (find_file_record name config.files ≡ some file)

  -- The content of a folder can be written, whatever it is.
  abbrev pub CanWrite : Type 0
  CanWrite =
      (path : String) (config : FolderConfig J) (d : D) → (fs.write_json path config d).0 ≡ true

  pub get_file_info-IsAt :
      (fuel : ℕ) (file_path : String) (file : FileRecord J) (st : FolderState D S J)
      → IsAt file_path file st
      → get_file_info n fs db (suc fuel) file_path st ≡ some (inr file, st)
  unfolding get_file_info get_folder_config
  get_file_info-IsAt fuel file_path file st (config, h, k) = ground (arith, h, k)

  pub write_through-cache :
      (call : S → Bool × S) (st : FolderState D S J)
      → (write_through call st).config_cache ≡ st.config_cache
  unfolding write_through
  write_through-cache call st = ground (arith, Option-cases st.store)

  pub write_through-store :
      (call : S → Bool × S) (st : FolderState D S J)
      → is_some (write_through call st).store ≡ is_some st.store
  unfolding write_through
  write_through-store call st = ground (arith, Option-cases st.store)

  -- An operation that goes on with the record, and ends well, with the state `st'`, in which the path
  -- names the changed record and the other names what they did.
  save_record-IsAt :
      (file_path : String) (config : FolderConfig J) (file file' : FileRecord J)
      (call : S → Bool × S) (event : FolderEvent J) (st : FolderState D S J)
      → let (folder, name) = split_path (n.get_clean_relative_path file_path) in
        CanWrite
        → find_file_record name config.files ≡ some file
        → file.name ≡ name
        → file'.name ≡ name
        → (st' : FolderState D S J) × (save_record n fs db folder config file file' call event st
            ≡ some (vxcore_ok, st'))
          × IsAt file_path file' st'
  unfolding save_record emit_event
  save_record-IsAt file_path config file file' call event st can k same same' =
      let (folder, name) = split_path (n.get_clean_relative_path file_path) in
      let config' = record config {
        files = update_record file.name (λ f. file') config.files;
        modified_utc = file'.modified_utc;
      } in
      let done : FolderState D S J → FolderState D S J =
        λ st1. emit_event event (write_through call st1) in
      let next : FolderState D S J → Outcome D S J = λ st1. some (vxcore_ok, done st1) in
      let (st1, (at, stored, cached), cases) = with_saved-cases n fs folder config' st next in
      let found : find_file_record name config'.files ≡ some file' =
        ap (λ a. find_file_record name (update_record a (λ f. file') config.files)) same
        ∙ find-update_record name (λ f. file') file config.files k same' in
      let kept =
        ap (lookup folder) (write_through-cache call st1 ∙ cached)
        ∙ lookup-put_same folder config' st.config_cache in
      elim cases [
        | inl (written, ran) ↦ (done st1, ran, (config', kept, found))
        | inr (bad, ran) ↦
            absurd (ground (arith, bad, can (get_config_path n folder) config' st.disk))
      ]

  tag_file-IsAt :
      (fuel : ℕ) (file_path tag : String) (now : ℕ) (file : FileRecord J) (st : FolderState D S J)
      → CanWrite
      → n.is_read_only ≡ false
      → n.find_tag tag ≡ true
      → IsAt file_path file st
      → contains tag file.tags ≡ false
      → (st' : FolderState D S J) × (tag_file n fs db (suc fuel) file_path tag now st
          ≡ some (vxcore_ok, st'))
        × IsAt file_path record file { tags = file.tags ++ tag ∷ []; modified_utc = now } st'
  unfolding tag_file with_file with_config get_folder_config
  tag_file-IsAt fuel file_path tag now file st can writable known (config, h, k) fresh =
      let path = n.get_clean_relative_path file_path in
      let named = find_file_record-name (split_path path).1 config.files file k in
      let file' = record file { tags = file.tags ++ tag ∷ []; modified_utc = now } in
      let (st', ran, at) =
        save_record-IsAt file_path config file file' (db.add_tag_to_file file.id tag)
          (file_tagged path tag) st can k named named in
      (st', ground (arith, writable, known, h, k, fresh, ran), at)

  untag_file-IsAt :
      (fuel : ℕ) (file_path tag : String) (now : ℕ) (file : FileRecord J) (st : FolderState D S J)
      → CanWrite
      → n.is_read_only ≡ false
      → IsAt file_path file st
      → contains tag file.tags ≡ true
      → (st' : FolderState D S J) × (untag_file n fs db (suc fuel) file_path tag now st
          ≡ some (vxcore_ok, st'))
        × IsAt file_path record file { tags = erase_name tag file.tags; modified_utc = now } st'
  unfolding untag_file with_file with_config get_folder_config
  untag_file-IsAt fuel file_path tag now file st can writable (config, h, k) tagged =
      let path = n.get_clean_relative_path file_path in
      let named = find_file_record-name (split_path path).1 config.files file k in
      let file' = record file { tags = erase_name tag file.tags; modified_utc = now } in
      let (st', ran, at) =
        save_record-IsAt file_path config file file' (db.remove_tag_from_file file.id tag)
          (file_untagged path tag) st can k named named in
      (st', ground (arith, writable, h, k, tagged, ran), at)

  -- Untagging a file that was just tagged gives its record back as it was, but for its time: where the
  -- notebook is not read-only and has the tag, the file is in a folder that was read and does not have
  -- the tag, and folders can be written. In between, the tag is the file's last.
  pub untag_file-tag_file :
      (fuel fuel' : ℕ) (file_path tag : String) (now later : ℕ) (file : FileRecord J)
      (st : FolderState D S J)
      → CanWrite
      → n.is_read_only ≡ false
      → n.find_tag tag ≡ true
      → IsAt file_path file st
      → contains tag file.tags ≡ false
      → (st1 st2 : FolderState D S J) × (tag_file n fs db (suc fuel) file_path tag now st
          ≡ some (vxcore_ok, st1))
        × IsAt file_path record file { tags = file.tags ++ tag ∷ []; modified_utc = now } st1
        × (untag_file n fs db (suc fuel') file_path tag later st1 ≡ some (vxcore_ok, st2))
        × IsAt file_path record file { modified_utc = later } st2
  untag_file-tag_file fuel fuel' file_path tag now later file st can writable known at fresh =
      let file1 = record file { tags = file.tags ++ tag ∷ []; modified_utc = now } in
      let (st1, ran1, at1) =
        tag_file-IsAt fuel file_path tag now file st can writable known at fresh in
      let last = contains-append_last tag file.tags in
      let (st2, ran2, at2) =
        untag_file-IsAt fuel' file_path tag later file1 st1 can writable at1 last in
      let tags = erase_name-append tag file.tags fresh in
      (
        st1,
        st2,
        ran1,
        at1,
        ran2,
        subst (λ ts. IsAt file_path record file { tags = ts; modified_utc = later } st2) tags at2,
      )
