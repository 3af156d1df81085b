-- ===== src/Folders/External.antt =====
-- core/bundled_folder_manager.cpp: what stands in a folder's directory and not in its vx.json.
use vxcore.Folders.Config.{got, failed, out_of_fuel, get_folder_config}
use vxcore.Folders.Listing.{named_only, FolderContents}
use vxcore.Utils.Glob.{matches_patterns}
use vxcore.Utils.Strings.{find}
use vxcore.Errors.{err_io, err_not_found, VxCoreError}
use vxcore.Folders.{
  is_root, get_content_path, FolderState, MetadataStore, FileRecord, FileSystem, Notebook,
}
use vxcore.Prelude.{
  inr, map, inl, contains, if◌then◌else◌, ◌⊎◌, none, ◌==◌, some, is_some, false, ◌∷◌, ◌||◌, ◌&&◌, ℕ,
  [], Option, true, str_eq, not, codes, List, String, Bytes, Bool,
}

pub data EntryKind : Type 0 where
  directory regular_file other_kind : EntryKind

-- What ListExternalNodes asks of the notebook's configuration and of the disk. `list_directory` is the
-- walk of fs::directory_iterator, `none` where it throws; `is_relative` is that of std::filesystem.
pub record DirectoryView (D : Type 0) : Type 0 where
  pub assets_folder : String
  pub ignored : List Bytes
  pub metadata_folder_name : String
  pub is_relative : String → Bool
  pub list_directory : String → D → Option (List (String × EntryKind))

module _ {D : Type 0} (view : DirectoryView D) where
  -- 92 is the backslash.
  unfoldable pub is_single_name : String → Bool
  is_single_name path =
      not (str_eq path "")
      && view.is_relative path
      && not (is_some (find (codes path) (b'/' ∷ []) 0))
      && not (is_some (find (codes path) (92 ∷ []) 0))

  unfoldable pub is_legacy : String → Bool
  is_legacy name =
      str_eq name "vx_images"
      || str_eq name "vx_attachments"
      || str_eq name "_v_images"
      || str_eq name "_v_attachments"

  unfoldable pub is_hidden : Bytes → Bool
  is_hidden [] = true
  is_hidden (c ∷ name) = c == b'.'

  -- The first four guards of the loop.
  unfoldable pub is_reserved : Bool → String → EntryKind → Bool
  is_reserved root name kind =
      is_hidden (codes name)
      || (root && str_eq name view.metadata_folder_name)
      || (is_single_name view.assets_folder && str_eq name view.assets_folder)
      || (elim kind [ directory ↦ is_legacy name | regular_file ↦ false | other_kind ↦ false ])

  -- The loop over the directory: the names of the external files and folders. `none`: a pattern whose
  -- match does not end.
  unfoldable pub external_names :
      Bool
      → List String
      → List String
      → List (String × EntryKind)
      → Option (List String × List String)
  external_names root indexed_files indexed_folders [] = some ([], [])
  external_names root indexed_files indexed_folders ((name, kind) ∷ entries) =
      elim (external_names root indexed_files indexed_folders entries) [
        | none ↦ none
        | some (files, folders) ↦ elim (is_reserved root name kind) [
          | true ↦ some (files, folders)
          | false ↦ elim (matches_patterns (codes name) view.ignored) [
            | none ↦ none
            | some true ↦ some (files, folders)
            | some false ↦ elim kind [
              | other_kind ↦ some (files, folders)
              | directory ↦
                  some (files, if contains name indexed_folders then folders else name ∷ folders)
              | regular_file ↦
                  some (if contains name indexed_files then files else name ∷ files, folders)
            ]
          ]
        ]
      ]

unfoldable pub unindexed_file : {J : Type 0} → J → String → FileRecord J
unindexed_file empty name = record {
  id = "";
  name = name;
  created_utc = 0;
  modified_utc = 0;
  metadata = empty;
  tags = [];
  attachments = [];
}

module _ {D S J : Type 0} (n : Notebook) (fs : FileSystem D J) (db : MetadataStore S J)
    (view : DirectoryView D) (empty : J) where
  unfoldable pub list_external_nodes :
      ℕ → String → FolderState D S J → Option ((VxCoreError ⊎ FolderContents J) × FolderState D S J)
  list_external_nodes fuel folder_path st =
      let folder = n.get_clean_relative_path folder_path in
      let (found, st') = get_folder_config n fs db fuel folder none st in
      elim found [
        | out_of_fuel ↦ none
        | failed err ↦ some (inl err, st')
        | got config ↦ elim (fs.exists (get_content_path n folder) st'.disk) [
          | false ↦ some (inl err_not_found, st')
          | true ↦ elim (view.list_directory (get_content_path n folder) st'.disk) [
            | none ↦ some (inl err_io, st')
            | some entries ↦
                elim (external_names view (is_root folder) (map (λ f. f.name) config.files)
                  config.folders entries) [
                    | none ↦ none
                    | some (files, folders) ↦
                        let contents : FolderContents J = record {
                          files = map (unindexed_file empty) files;
                          folders = map (named_only empty) folders;
                        } in
                        some (inr contents, st')
                  ]
          ]
        ]
      ]
