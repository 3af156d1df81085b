-- ===== src/Tests/FolderWorld.antt =====
-- A disk, a metadata store and a notebook for the tests of core/bundled_folder_manager.cpp.
use vxcore.Prelude.Assoc.{without, put, lookup, has, Assoc}
use text.Mathlib.Text.{starts_with}
use vxcore.Folders.{FileRecord, FolderConfig, FolderState, Notebook, FileSystem, MetadataStore}
use vxcore.Prelude.{
  false, ◌+◌, ◌++ˢ◌, ◌||◌, true, str_eq, some, if◌then◌else◌, [], Option, ◌∷◌, ℕ, none, List, Bool,
  String,
}

-- JSON values do not matter here.
abbrev pub Config : Type 0
Config = FolderConfig ℕ

-- A path has a folder's JSON, or is another file or a directory.
abbrev pub Disk : Type 0
Disk = Assoc (Option Config)

-- The path with all that is below it is gone.
abbrev without_tree : String → Disk → Disk
without_tree path [] = []
without_tree path ((key, v) ∷ d) =
    let rest = without_tree path d in
    if str_eq key path || starts_with key (path ++ˢ "/") then rest else (key, v) ∷ rest

abbrev pub disk : FileSystem Disk ℕ
disk = record {
  exists = λ path d. has path d;
  is_directory = λ path d. has path d;
  read_json = λ path d. lookup path d;
  write_json = λ path config d. (true, put path (some config) d);
  create_directories = λ path d. (true, put path none d);
  create_empty_file = λ path d. (true, put path none d);
  rename = λ path path' d. elim (lookup path d) [
    | none ↦ (false, d)
    | some v ↦ (true, put path' v (without path d))
  ];
  remove = λ path d. (true, without path d);
  remove_all = λ path d. (true, without_tree path d);
  to_recycle_bin = λ path d. (true, without path d);
}

-- The store counts the calls.
abbrev pub counter : MetadataStore ℕ ℕ
counter = record {
  get_folder_modified = λ id s. none;
  list_file_ids = λ id s. [];
  create_folder = λ config parent s. (true, s + 1);
  update_folder = λ id name time json s. (true, s + 1);
  delete_folder = λ id s. (true, s + 1);
  move_folder = λ id parent s. (true, s + 1);
  create_file = λ file id s. (true, s + 1);
  update_file = λ id name time json s. (true, s + 1);
  delete_file = λ id s. (true, s + 1);
  set_file_tags = λ id tags s. (true, s + 1);
  add_tag_to_file = λ id tag s. (true, s + 1);
  remove_tag_from_file = λ id tag s. (true, s + 1);
  set_file_attachments = λ id files s. (true, s + 1);
}

abbrev pub notebook : Bool → Notebook
notebook read_only = record {
  root_folder = "/n";
  metadata_folder = "/n/m";
  is_read_only = read_only;
  get_clean_relative_path = λ path. path;
  find_tag = λ tag. str_eq tag "red";
}

abbrev pub file_named : String → FileRecord ℕ
file_named name = record {
  id = name;
  name = name;
  created_utc = 1;
  modified_utc = 1;
  metadata = 0;
  tags = [];
  attachments = [];
}

abbrev pub folder_with : String → List (FileRecord ℕ) → List String → Config
folder_with name files folders = record {
  id = name;
  name = name;
  created_utc = 1;
  modified_utc = 1;
  metadata = 0;
  files = files;
  folders = folders;
}

-- The folder "a" has two files and a folder "a/b".
abbrev pub folder_a : Config
folder_a = folder_with "a" (file_named "x" ∷ file_named "y" ∷ []) ("b" ∷ [])

abbrev pub tree : Disk
tree =
    ("/n", none)
    ∷ ("/n/a", none)
    ∷ ("/n/a/b", none)
    ∷ ("/n/m/contents/a/b/vx.json", some (folder_with "b" [] []))
    ∷ ("/n/m/contents/a/vx.json", some folder_a)
    ∷ ("/n/m/contents/vx.json", some (folder_with "." [] ("a" ∷ [])))
    ∷ []

-- The root and "a" were read.
abbrev pub world : FolderState Disk ℕ ℕ
world = record {
  disk = tree;
  store = some 0;
  config_cache = (".", folder_with "." [] ("a" ∷ [])) ∷ ("a", folder_a) ∷ [];
  emitted = [];
}
