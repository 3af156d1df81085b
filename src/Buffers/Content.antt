-- ===== src/Buffers/Content.antt =====
-- core/buffer.cpp: a buffer, its content and the file behind it.
use vxcore.Utils.Paths.{concatenate_paths}
use vxcore.Prelude.{
  ◌++ˢ◌, ◌||◌, ◌&&◌, ◌==◌, suc, str_eq, some, not, ◌∷◌, ℕ, true, none, if◌then◌else◌, false, [],
  String, Option, Bytes, Bool,
}
use vxcore.Buffers.Disk.{
  written, unreadable, unflushed, unwritten, unopened, refused, bytes, Write, Read, Files,
}
pub mod Eol
pub mod Saved

pub data BufferState : Type 0 where
  normal file_missing file_changed save_failed : BufferState

-- A notebook as a buffer's pointer shows it.
pub record OpenNotebook : Type 0 where
  pub id : String
  pub root_folder : String

-- The provider and the metadata are not modelled.
pub record Buffer : Type 0 where
  pub id : String
  pub notebook : Option OpenNotebook
  pub file_path : String
  pub revision : ℕ
  pub modified : Bool
  pub state : BufferState
  pub content : Bytes
  pub last_modified_time : ℕ
  pub content_loaded : Bool
  pub is_virtual : Bool
  pub backup_file_path : String

-- The constructors for a notebook file, an external file and an address; `uuid` is GenerateUUID().
unfoldable pub new_buffer : String → Option OpenNotebook → String → Buffer
new_buffer uuid notebook path = record {
  id = uuid;
  notebook = notebook;
  file_path = path;
  revision = 0;
  modified = false;
  state = normal;
  content = [];
  last_modified_time = 0;
  content_loaded = false;
  is_virtual = false;
  backup_file_path = "";
}

unfoldable pub new_virtual_buffer : String → String → Buffer
unfolding new_buffer
new_virtual_buffer uuid address = record (new_buffer uuid none address) {
  content_loaded = true;
  is_virtual = true;
}

unfoldable pub notebook_id : Buffer → String
notebook_id b = elim b.notebook [ none ↦ "" | some n ↦ n.id ]

unfoldable pub resolve_full_path : Buffer → String
unfolding concatenate_paths
resolve_full_path b = elim b.notebook [
  | none ↦ b.file_path
  | some n ↦ if b.is_virtual then b.file_path else concatenate_paths n.root_folder b.file_path
]

-- The flag says that the byte before was a CR: then a LF is skipped.
unfoldable pub normalize_from : Bool → Bytes → Bytes
normalize_from after_cr [] = []
normalize_from after_cr (c ∷ cs) =
    let rest = normalize_from (c == b'\r') cs in
    if after_cr && (c == b'\n') then rest else (if c == b'\r' then b'\n' else c) ∷ rest

-- CRLF and a lone CR become LF.
unfoldable pub normalize_eol : Bytes → Bytes
unfolding normalize_from
normalize_eol = normalize_from false

unfoldable pub bytes_eq : Bytes → Bytes → Bool
bytes_eq [] [] = true
bytes_eq [] (d ∷ ds) = false
bytes_eq (c ∷ cs) [] = false
bytes_eq (c ∷ cs) (d ∷ ds) = (c == d) && bytes_eq cs ds

unfoldable pub set_content : Bytes → Buffer → Buffer
set_content new b = record b {
  content = new;
  modified = true;
  content_loaded = true;
  revision = suc b.revision;
}

missing : Buffer → Buffer
missing b = record b { state = file_missing }

-- The catch block of `LoadContent` and the branch of a failed read.
unread : Buffer → Buffer
unfolding missing
unread b = record (missing b) { content = [] }

loaded : Bytes → Option ℕ → Buffer → Buffer
unfolding unread
loaded bs none b = unread b
loaded bs (some t) b = record b {
  content = bs;
  last_modified_time = t;
  state = normal;
  modified = false;
  content_loaded = true;
  revision = suc b.revision;
}

failed : Buffer → Buffer
failed b = record b { state = save_failed }

stamped : Option ℕ → Buffer → Buffer
unfolding failed
stamped none b = failed b
stamped (some t) b = record b {
  last_modified_time = t;
  state = normal;
  modified = false;
  revision = suc b.revision;
}

-- The state changes to normal from file_changed and file_missing, and from no other.
unfoldable pub recovered : BufferState → BufferState
recovered normal = normal
recovered file_missing = normal
recovered file_changed = normal
recovered save_failed = save_failed

unfoldable pub same_content : Read → Bytes → Bool
same_content unopened content = false
same_content unreadable content = false
same_content (bytes disk) content =
    bytes_eq disk content || bytes_eq (normalize_eol disk) (normalize_eol content)

module _ {D : Type 0} (f : Files D) where
  load_from : Read → String → D → Buffer → Buffer
  unfolding missing unread loaded
  load_from unopened path d b = missing b
  load_from unreadable path d b = unread b
  load_from (bytes bs) path d b = loaded bs (f.last_write_time path d) b

  unfoldable pub load_content : String → D → Buffer → Buffer
  unfolding missing unread load_from
  load_content path d b = if b.is_virtual then b else elim (f.exists path d) [
    | none ↦ unread b
    | some here ↦ if here then load_from (f.read path d) path d b else missing b
  ]

  -- `file.close()` is called and its result not looked at.
  after_write : String → Write × D → Buffer → Buffer × D
  unfolding failed stamped
  after_write path (refused, d) b = (failed b, d)
  after_write path (unwritten, d) b = (failed b, d)
  after_write path (unflushed, d) b = (stamped (f.last_write_time path d) b, d)
  after_write path (written, d) b = (stamped (f.last_write_time path d) b, d)

  unfoldable pub save_content : String → D → Buffer → Buffer × D
  unfolding failed after_write
  save_content path d b =
      if b.is_virtual
      then (b, d)
      else let (made, d') = f.create_parents path d in
        if made then after_write path (f.write path b.content d') b else (failed b, d')

  compare_times : Option ℕ → Bool → Buffer → Buffer
  unfolding recovered
  compare_times none same b = b
  compare_times (some t) same b =
      if t == b.last_modified_time
      then record b { state = recovered b.state }
      else if same
      then record b { last_modified_time = t; state = recovered b.state }
      else record b { state = file_changed }

  unfoldable pub check_external_changes : String → D → Buffer → Buffer
  unfolding missing compare_times same_content
  check_external_changes path d b =
      if b.is_virtual
      then b
      else if not b.content_loaded && (b.last_modified_time == 0)
      then b
      else elim (f.exists path d) [
        | none ↦ b
        | some here ↦
            if here
            then compare_times (f.last_write_time path d) (same_content (f.read path d) b.content) b
            else missing b
      ]
