-- ===== src/Tests/Open.antt =====
-- core/: buffers, workspaces and the history at concrete inputs, over a disk that is a list of files.
use vxcore.Workspaces.Load.{load_workspaces}
use vxcore.History.Recent.{get_history-open_files, all_opened, open_files, KeepsHistory}
use vxcore.Workspaces.Orphans.{remove_buffer_from_workspace_lem}
use vxcore.Buffers.Backup.Recovery.{recover_backup-write_backup, recover_backup-bar}
use vxcore.Buffers.Content.Saved.{load_content-save_content}
use vxcore.Buffers.Backup.{recover_backup, write_backup, get_backup_file_path}
use vxcore.Workspaces.Current.{
  deleted, created, start, next, reachable-known_current, known_current,
}
use vxcore.Workspaces.{
  in_any, create_workspace, remove_buffer, delete_workspace, remove_buffer_from_workspace,
  Workspaces, Workspace,
}
use vxcore.Prelude.Assoc.{without, put, lookup-put, has, lookup, Assoc}
use vxcore.Prelude.{
  take, str_eq, false, if◌then◌else◌, eq_refl, true, refl, ◌≡◌, ◌∷◌, some, none, arith, [], String,
  List, Bytes, contains, codes, Option,
}
use vxcore.History.{max_history_items, get_history, HistoryEntry, Store}
use vxcore.Buffers.Manager.{get_buffer, Manager}
use vxcore.Buffers.Disk.{written, unopened, bytes, Read, IsSound, Files}
use vxcore.Buffers.Content.{
  normal, resolve_full_path, load_content, set_content, save_content, new_buffer, Buffer,
}

abbrev Disk : Type 0
Disk = Assoc Bytes

as_read : Option Bytes → Read
as_read none = unopened
as_read (some bs) = bytes bs

abbrev files : Files Disk
files = record {
  exists = λ p d. some (has p d);
  read = λ p d. as_read (lookup p d);
  write = λ p bs d. (written, put p bs d);
  create_parents = λ p d. (true, d);
  last_write_time = λ p d. some 7;
  remove = λ p d. (some (has p d), without p d);
  clean_path = λ p. p;
}

files-IsSound : IsSound files
unfolding as_read
files-IsSound = record {
  read-write = λ p bs d h. ground (arith, lookup-put p p bs d, eq_refl p);
  exists-write = λ p bs d h. ground (arith, lookup-put p p bs d, eq_refl p);
}

abbrev note : Buffer
note = set_content (codes "hi\r\n") (new_buffer "b1" none "/a.md")

abbrev barred : Buffer
barred = set_content (codes "hi") (new_buffer "b2" none "/a|b.md")

abbrev disk : Disk
disk = ("/a.md", codes "old") ∷ []

load_content-save_content_example :
    let r =
      load_content files "/a.md"
        (save_content files "/a.md" disk note).1
        (new_buffer "b3" none "/a.md") in
    (r.content ≡ codes "hi\r\n")
    × (r.state ≡ normal)
    × (r.modified ≡ false)
    × ((save_content files "/a.md" disk note).0.modified ≡ false)
unfolding new_buffer set_content
load_content-save_content_example =
    load_content-save_content files files-IsSound "/a.md" 7 disk note (new_buffer "b3" none "/a.md")
      refl refl refl refl refl

recover_backup-write_backup_example :
    (recover_backup files (new_buffer "b3" none "/a.md") (write_backup files note disk).2).1.content
    ≡ codes "hi\r\n"
unfolding new_buffer set_content resolve_full_path get_backup_file_path write_backup
recover_backup-write_backup_example =
    recover_backup-write_backup files files-IsSound note (new_buffer "b3" none "/a.md") disk refl
      refl refl refl (refl, (refl, (refl, (refl, (refl, tt)))))

recover_backup-bar_example :
    (recover_backup files
      (new_buffer "b3" none "/a|b.md")
      (write_backup files barred disk).2).1.content
    ≡ codes "b.md|hi"
unfolding new_buffer set_content resolve_full_path get_backup_file_path write_backup
recover_backup-bar_example =
    recover_backup-bar files files-IsSound barred (new_buffer "b3" none "/a|b.md") disk refl refl
      refl refl (codes "/a") (codes "b.md") (refl, (refl, tt)) refl

abbrev manager : Manager Disk
manager = record { buffers = ("b1", note) ∷ []; session_buffers = []; disk = disk }

abbrev todo : Workspace Unit
todo = record {
  id = "w1";
  name = "todo";
  buffer_ids = "b1" ∷ "b2" ∷ [];
  current_buffer_id = "b1";
  metadata = tt;
  buffer_metadata = [];
}

abbrev session : Workspaces Unit Disk
session = record {
  workspaces = ("w1", todo) ∷ [];
  current_workspace_id = "w1";
  buffer_manager = record manager { buffers = ("b1", note) ∷ ("b2", barred) ∷ [] };
  session_workspaces = [];
  session_current_id = "";
}

shown : lookup "w1" (session).workspaces ≡ some todo
unfolding lookup
shown = refl

same_members : (j : String) → contains j ("b2" ∷ "b1" ∷ []) ≡ contains j ("b1" ∷ "b2" ∷ [])
unfolding contains
same_members j = ground arith

remove_buffer_from_workspace_lem_example :
    let r = remove_buffer_from_workspace files "w1" "b1" session in
    let w' = remove_buffer "b1" todo in
    (r.0 ≡ true)
    × (lookup "w1" r.1.workspaces ≡ some w')
    × ((j : String)
        → contains j w'.buffer_ids ≡ (if str_eq "b1" j then false else contains j todo.buffer_ids))
    × (str_eq w'.current_buffer_id "b1" ≡ false)
    × (get_buffer "b1" r.1.buffer_manager
        ≡ (if in_any "b1" r.1.workspaces then get_buffer "b1" session.buffer_manager else none))
unfolding contains
remove_buffer_from_workspace_lem_example =
    remove_buffer_from_workspace_lem files "w1" "b1" todo session shown refl (refl, (refl, tt)) refl

abbrev closed_session : Workspaces Unit Disk
closed_session = record session { workspaces = []; current_workspace_id = "" }

reachable-known_current_example :
    known_current
      (delete_workspace "w2"
        (create_workspace "w2" tt "new" (load_workspaces true closed_session)).1).1
    ≡ true
reachable-known_current_example =
    reachable-known_current files
      (delete_workspace "w2"
        (create_workspace "w2" tt "new" (load_workspaces true closed_session)).1).1
      (next
        (next (start true closed_session refl)
          (created "w2" "new" tt (load_workspaces true closed_session)))
        (deleted "w2" (create_workspace "w2" tt "new" (load_workspaces true closed_session)).1))

-- A store whose texts are the lists themselves, and which has one key.
abbrev history_store : Store (List HistoryEntry) (List HistoryEntry)
history_store = record {
  get_notebook_metadata = λ k d. some d;
  set_notebook_metadata = λ k text d. (true, text);
  parse = some;
  dump = λ es. es;
  empty_array = [];
}

history_store-KeepsHistory : KeepsHistory history_store
history_store-KeepsHistory = record { stores = λ k text d. refl; parses = λ es. refl }

abbrev opens : List HistoryEntry
opens =
    record { file_id = "a"; opened_utc = 1 }
    ∷ record { file_id = "b"; opened_utc = 2 }
    ∷ record { file_id = "a"; opened_utc = 3 }
    ∷ []

get_history-open_files_example :
    get_history history_store (open_files history_store opens [])
    ≡ take max_history_items (all_opened [] opens)
unfolding get_history
get_history-open_files_example =
    get_history-open_files history_store history_store-KeepsHistory opens [] []
      (refl, (refl, (refl, tt))) tt refl
