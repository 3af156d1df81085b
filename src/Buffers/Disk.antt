-- ===== src/Buffers/Disk.antt =====
-- The file system as core/buffer.cpp uses it: std::filesystem and the file streams, on a disk `D`.
use vxcore.Prelude.{ℕ, true, some, Bool, ◌≡◌, Option, String, Bytes}

-- Opening a file for reading and reading all of it.
pub data Read : Type 0 where
  unopened unreadable : Read
  bytes : Bytes → Read

-- Opening a file for writing, writing to it, and closing it.
pub data Write : Type 0 where
  refused unwritten unflushed written : Write

-- `none` stands for an exception.
pub record Files (D : Type 0) : Type 0 where
  pub exists : String → D → Option Bool
  pub read : String → D → Read
  pub write : String → Bytes → D → Write × D
  -- create_directories, if they are not there, of the directories above a file: false where it throws
  pub create_parents : String → D → Bool × D
  pub last_write_time : String → D → Option ℕ
  pub remove : String → D → Option Bool × D
  -- CleanPath of src/utils/file_utils.cpp: std::filesystem's lexical normal form
  pub clean_path : String → String

-- What the file operations do where none of them fails.
pub record IsSound {D : Type 0} (f : Files D) : Type 0 where
  pub read-write :
      (p : String) (bs : Bytes) (d : D)
      → (f.write p bs d).0 ≡ Write.written
      → f.read p (f.write p bs d).1 ≡ bytes bs
  pub exists-write :
      (p : String) (bs : Bytes) (d : D)
      → (f.write p bs d).0 ≡ Write.written
      → f.exists p (f.write p bs d).1 ≡ some true
