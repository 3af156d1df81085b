-- ===== src/Tests/Folders.antt =====
-- core/bundled_folder_manager.cpp at concrete inputs.
use vxcore.Folders.Files.{get_file_info}
use vxcore.Folders.Config.{
  save_folder_config, with_saved, load_folder_config, get_folder_config, with_config,
}
use vxcore.Folders.Tree.{rename_on_disk, rename_folder}
use vxcore.Folders.Order.Keeps.{set_children_order-keeps, KeepsNodes}
use vxcore.Folders.Order.{set_children_order}
use vxcore.Utils.Paths.{concatenate_paths, split_last, split_path}
use vxcore.Prelude.Assoc.{without, put, lookup}
use vxcore.Folders.Records.{untag_file, tag_file}
use vxcore.Folders.Lifecycle.{delete_file-create_file, Names, CanRecycle}
use vxcore.Folders.Laws.{untag_file-tag_file, IsAt, CanWrite}
use vxcore.Errors.{is_ok, vxcore_ok, VxCoreError}
use vxcore.Folders.{
  replace_first, get_config_dir, get_config_path, emit_event, write_through, invalidate_cache,
  is_root, find_file_record, cache_config, FolderState, Outcome, Notebook, get_content_path,
}
use vxcore.Folders.Files.{create_file, delete_file, get_file_info}
use vxcore.Folders.Tree.{rename_folder}
use vxcore.Tests.FolderWorld.{Disk}
use vxcore.Tests.FolderWorld.{disk, counter, notebook, world, folder_a, file_named}
use vxcore.Prelude.{
  ℕ, inl, ◌++ˢ◌, inr, Bool, true, ◌∷◌, none, String, some, refl, [], List, false, contains, Option,
  ◌≡◌,
}

abbrev open_notebook : Notebook
open_notebook = notebook false

a_cached : lookup "a" world.config_cache ≡ some folder_a
unfolding lookup
a_cached = refl

abbrev wanted : Option (List String)
wanted = some ("y" ∷ "x" ∷ [])

set_children_order-keeps_example :
    (err : VxCoreError) × (st' : FolderState Disk ℕ ℕ) × (set_children_order open_notebook disk
        counter 1 "a"
        (some (none, wanted))
        9
        world
      ≡ some (err, st'))
    × KeepsNodes open_notebook disk counter "a" folder_a none wanted world err st'
set_children_order-keeps_example =
    set_children_order-keeps open_notebook disk counter 0 "a" none wanted 9 world folder_a refl
      a_cached

can_write : CanWrite open_notebook disk counter
can_write path config d = refl

can_recycle : CanRecycle open_notebook disk counter
can_recycle path d = refl

x-IsAt : IsAt open_notebook disk counter "a/x" (file_named "x") world
unfolding split_path split_last lookup find_file_record
x-IsAt = (folder_a, refl, refl)

not_red : contains "red" [] ≡ false
unfolding contains
not_red = refl

untag_file-tag_file_example :
    (st1 st2 : FolderState Disk ℕ ℕ) × (tag_file open_notebook disk counter 1 "a/x" "red" 5 world
      ≡ some (vxcore_ok, st1))
    × IsAt open_notebook disk counter "a/x"
        record (file_named "x") { tags = "red" ∷ []; modified_utc = 5 }
        st1
    × (untag_file open_notebook disk counter 1 "a/x" "red" 6 st1 ≡ some (vxcore_ok, st2))
    × IsAt open_notebook disk counter "a/x" record (file_named "x") { modified_utc = 6 } st2
untag_file-tag_file_example =
    untag_file-tag_file open_notebook disk counter 0 0 "a/x" "red" 5 6 (file_named "x") world
      can_write refl refl x-IsAt not_red

z-Names : Names open_notebook disk counter "a/z" "a" "z"
unfolding split_path split_last
z-Names = refl

z_new : find_file_record "z" folder_a.files ≡ none
unfolding find_file_record
z_new = refl

z_absent : disk.exists (get_content_path open_notebook "a" ++ˢ "/" ++ˢ "z") world.disk ≡ false
unfolding get_content_path is_root lookup
z_absent = refl

delete_file-create_file_example :
    (st1 st2 : FolderState Disk ℕ ℕ) × (create_file open_notebook disk counter 1 "a"
        (file_named "z")
        5
        world
      ≡ some (vxcore_ok, st1))
    × (get_file_info open_notebook disk counter 1 "a/z" st1
        ≡ some (inr record (file_named "z") { created_utc = 5; modified_utc = 5 }, st1))
    × (delete_file open_notebook disk counter 1 "a/z" 6 st1 ≡ some (vxcore_ok, st2))
    × (lookup "a" st2.config_cache ≡ some record folder_a { modified_utc = 6 })
delete_file-create_file_example =
    delete_file-create_file open_notebook disk counter 0 "a" "a/z" (file_named "z") 5 6 world
      folder_a can_write can_recycle refl z-Names z_absent refl a_cached z_new refl

x-Names : Names open_notebook disk counter "a/x" "a" "x"
unfolding split_path split_last
x-Names = refl

x_found : find_file_record "x" folder_a.files ≡ some (file_named "x")
unfolding find_file_record
x_found = refl

-- What can be read of a folder after "a" was renamed to "c".
abbrev config_of : String → Outcome Disk ℕ ℕ → Bool
config_of folder none = false
config_of folder (some (err, st)) = elim (load_folder_config open_notebook disk folder st.disk) [
  | inl e ↦ false
  | inr config ↦ is_ok err
]

abbrev renamed : Outcome Disk ℕ ℕ
renamed = rename_folder open_notebook disk counter 1 "a" "c" 5 world

-- The renamed folder can be read, and the folder in it cannot.
rename_loses_configs : (config_of "c" renamed ≡ true) × (config_of "c/b" renamed ≡ false)
unfolding rename_folder with_config get_folder_config rename_on_disk with_saved save_folder_config
    cache_config invalidate_cache write_through emit_event load_folder_config get_config_path
    get_config_dir get_content_path is_root split_path split_last concatenate_paths contains
    replace_first is_ok lookup put without
rename_loses_configs = (refl, refl)
