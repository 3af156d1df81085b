-- ===== src/Buffers/Backup.antt =====
-- core/buffer.cpp: the backup file of a buffer.
use vxcore.Errors.{err_not_found, err_invalid_state, vxcore_ok, err_io, VxCoreError}
use vxcore.Prelude.{
  ◌==◌, ◌++ˢ◌, not, false, [], ◌∷◌, ◌++◌, str_eq, some, none, if◌then◌else◌, codes, Bool, String,
  Option, Bytes,
}
use vxcore.Buffers.Disk.{
  unreadable, unopened, refused, unwritten, unflushed, written, bytes, Read, Write, Files,
}
use vxcore.Buffers.Content.{save_failed, save_content, set_content, Buffer, resolve_full_path}
pub mod Recovery

-- std::find for '|', and what stands behind it.
unfoldable pub after_bar : Bytes → Option Bytes
after_bar [] = none
after_bar (c ∷ cs) = if c == b'|' then some cs else after_bar cs

unfoldable pub backup_header : Buffer → Bytes
backup_header b = codes "vnotex_backup_file " ++ codes (resolve_full_path b) ++ b'|' ∷ []

backup_code : Write → VxCoreError
backup_code refused = err_io
backup_code unwritten = err_io
backup_code unflushed = err_io
backup_code written = vxcore_ok

module _ {D : Type 0} (f : Files D) where
  -- The path is computed once and kept in the buffer.
  unfoldable pub get_backup_file_path : Buffer → String × Buffer
  unfolding resolve_full_path
  get_backup_file_path b =
      if b.is_virtual
      then ("", b)
      else if str_eq b.backup_file_path ""
      then (let p = f.clean_path (resolve_full_path b ++ˢ ".vswp") in
          (p, record b { backup_file_path = p }))
      else (b.backup_file_path, b)

  unfoldable pub write_backup : Buffer → D → VxCoreError × Buffer × D
  unfolding backup_code
  write_backup b d =
      if b.is_virtual
      then (vxcore_ok, b, d)
      else if not b.content_loaded
      then (err_invalid_state, b, d)
      else let (p, b') = get_backup_file_path b in
        let (w, d') = f.write p (backup_header b ++ b.content) d in (backup_code w, b', d')

  -- `none` stands for an exception that leaves the function.
  unfoldable pub has_backup : Buffer → D → Option Bool × Buffer
  unfolding get_backup_file_path
  has_backup b d =
      if b.is_virtual
      then (some false, b)
      else let (p, b') = get_backup_file_path b in (f.exists p d, b')

  removed : Option Bool × D → Buffer → Option VxCoreError × Buffer × D
  removed (none, d) b = (some err_io, b, d)
  removed (some done, d) b = (some (if done then vxcore_ok else err_io), b, d)

  save_recovered : String → Buffer × D → Option VxCoreError × Buffer × D
  unfolding removed
  save_recovered p (b, d) = elim b.state [
    | save_failed ↦ (some err_io, b, d)
    | _ ↦ removed (f.remove p d) b
  ]

  restore_content : String → Read → Buffer → D → Option VxCoreError × Buffer × D
  unfolding after_bar set_content save_recovered save_content resolve_full_path
  restore_content p unopened b d = (some err_io, b, d)
  restore_content p unreadable b d = (some err_io, b, d)
  restore_content p (bytes backup) b d = elim (after_bar backup) [
    | none ↦ (some err_io, b, d)
    | some content ↦
        let b' = set_content content b in
        save_recovered p (save_content f (resolve_full_path b') d b')
  ]

  unfoldable pub recover_backup : Buffer → D → Option VxCoreError × Buffer × D
  unfolding has_backup restore_content
  recover_backup b d =
      if b.is_virtual
      then (some vxcore_ok, b, d)
      else let (found, b') = has_backup b d in
        let (p, b'') = get_backup_file_path b' in
        elim found [
          | none ↦ (none, b', d)
          | some here ↦
              if here then restore_content p (f.read p d) b'' d else (some err_not_found, b', d)
        ]

  -- An exception is logged and swallowed.
  unfoldable pub discard_backup : Buffer → D → Buffer × D
  unfolding get_backup_file_path
  discard_backup b d =
      if b.is_virtual
      then (b, d)
      else let (p, b') = get_backup_file_path b in
        elim (f.exists p d) [
          | none ↦ (b', d)
          | some here ↦ (b', if here then (f.remove p d).1 else d)
        ]
