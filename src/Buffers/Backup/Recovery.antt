-- ===== src/Buffers/Backup/Recovery.antt =====
-- core/buffer.cpp: what a backup gives back.
use vxcore.Errors.{vxcore_ok}
use vxcore.Buffers.Content.Saved.{save_content-content}
use vxcore.Buffers.Disk.{written, IsSound, bytes, Files}
use vxcore.Buffers.Content.{set_content, save_content, resolve_full_path, Buffer}
use vxcore.Prelude.{
  append_assoc, ◌∙◌, String, true, refl, arith, some, false, codes, ap, [], ◌≡◌, ◌∷◌, ◌==◌, ◌++◌,
  List, All, Bytes,
}
use vxcore.Buffers.Backup.{
  backup_code, write_backup, removed, save_recovered, restore_content, get_backup_file_path,
  has_backup, recover_backup, backup_header, after_bar,
}

abbrev NoBar : Bytes → Type 0
NoBar = All λ c. (c == b'|') ≡ false

after_bar-append : (h cs : Bytes) → NoBar h → after_bar (h ++ b'|' ∷ cs) ≡ some cs
unfolding after_bar
after_bar-append [] cs n = refl
after_bar-append (c ∷ h) cs n = ground (arith, after_bar-append h cs n.1)

All-append {ℓ κ} :
    {A : Type ℓ} (P : A → Type κ) (xs ys : List A) → All P xs → All P ys → All P (xs ++ ys)
All-append P [] ys h k = k
All-append P (x ∷ xs) ys h k = (h.0, All-append P xs ys h.1 k)

after_bar-bar : (h cs : Bytes) → after_bar ((h ++ b'|' ∷ []) ++ cs) ≡ after_bar (h ++ b'|' ∷ cs)
after_bar-bar h cs = ap after_bar (append_assoc h (b'|' ∷ []) cs)

header_lem :
    (b : Buffer) (p cs tail : Bytes)
    → NoBar p
    → codes (resolve_full_path b) ++ b'|' ∷ tail ≡ p ++ b'|' ∷ cs
    → after_bar (backup_header b ++ tail) ≡ some cs
unfolding backup_header after_bar
header_lem b p cs tail n e =
    after_bar-bar (codes (resolve_full_path b)) tail ∙ ap after_bar e ∙ after_bar-append p cs n

module _ {D : Type 0} (f : Files D) where
  get_backup_file_path-twice :
      (b : Buffer)
      → let b' = (get_backup_file_path f b).1 in
        ((get_backup_file_path f b').0 ≡ (get_backup_file_path f b).0)
        × ((get_backup_file_path f b').1.content ≡ b.content)
  unfolding get_backup_file_path resolve_full_path
  get_backup_file_path-twice b = ground (arith)

  save_recovered-content :
      (p : String) (b : Buffer) (d : D) → (save_recovered f p (b, d)).1.content ≡ b.content
  unfolding save_recovered removed
  save_recovered-content p b d = ground arith

  restore_content_lem :
      (p : String) (backup content : Bytes) (b : Buffer) (d : D)
      → after_bar backup ≡ some content
      → (restore_content f p (bytes backup) b d).1.content ≡ content
  unfolding restore_content
  restore_content_lem p backup content b d bar =
      let b' = set_content content b in
      let (c, d') = save_content f (resolve_full_path b') d b' in
      rw (restore_content, bar)
        (save_recovered-content p c d' ∙ save_content-content f (resolve_full_path b') d b')

  -- The content of the buffer after a recovery is what stands behind the first '|' of the backup.
  recover_backup_lem :
      (b : Buffer) (d : D) (backup content : Bytes)
      → b.is_virtual ≡ false
      → f.exists (get_backup_file_path f b).0 d ≡ some true
      → f.read (get_backup_file_path f b).0 d ≡ bytes backup
      → after_bar backup ≡ some content
      → (recover_backup f b d).1.content ≡ content
  unfolding recover_backup has_backup
  recover_backup_lem b d backup content real here read bar =
      let (p, c) = get_backup_file_path f b in
      let e = (get_backup_file_path-twice b).0 in
      let r = restore_content_lem p backup content (get_backup_file_path f c).1 d bar in
      ground (arith, e, r)

module _ {D : Type 0} (f : Files D) (q : IsSound f) (b c : Buffer) (d : D)
    (real : b.is_virtual ≡ false) (real' : c.is_virtual ≡ false)
    (same : (get_backup_file_path f c).0 ≡ (get_backup_file_path f b).0)
    (success : (write_backup f b d).0 ≡ vxcore_ok) where
  written_backup :
      let w = f.write (get_backup_file_path f b).0 (backup_header b ++ b.content) d in
      (w.0 ≡ written) × ((write_backup f b d).2 ≡ w.1)
  unfolding write_backup backup_code
  written_backup = ground arith

  recover_written :
      (content : Bytes)
      → after_bar (backup_header b ++ b.content) ≡ some content
      → (recover_backup f c (write_backup f b d).2).1.content ≡ content
  recover_written content bar =
      let p = (get_backup_file_path f b).0 in
      let backup = backup_header b ++ b.content in
      let d' = (f.write p backup d).1 in
      let w = written_backup in
      ap (λ e. (recover_backup f c e).1.content) w.1
      ∙ recover_backup_lem f c d' backup content real'
          (ap (λ k. f.exists k d') same ∙ q.exists-write p backup d w.0)
          (ap (λ k. f.read k d') same ∙ q.read-write p backup d w.0) bar

  -- Where no file operation lies about its success and neither buffer is virtual: after a backup that
  -- succeeded, a buffer with the same backup file recovers the content of the first, if the path of
  -- its file has no '|'.
  pub recover_backup-write_backup :
      NoBar (codes (resolve_full_path b))
      → (recover_backup f c (write_backup f b d).2).1.content ≡ b.content
  recover_backup-write_backup plain =
      recover_written b.content
        (header_lem b (codes (resolve_full_path b)) b.content b.content plain refl)

  -- Where no file operation lies about its success and neither buffer is virtual: after a backup that
  -- succeeded, of a buffer whose file has a '|' in its path, a buffer with the same backup file
  -- recovers what stands in the path behind the first '|' as the beginning of the content.
  pub recover_backup-bar :
      (p r : Bytes)
      → NoBar p
      → codes (resolve_full_path b) ≡ p ++ b'|' ∷ r
      → (recover_backup f c (write_backup f b d).2).1.content ≡ r ++ b'|' ∷ b.content
  recover_backup-bar p r plain path = recover_written (r ++ b'|' ∷ b.content) (
      header_lem b p (r ++ b'|' ∷ b.content) b.content plain
        (ap (λ l. l ++ b'|' ∷ b.content) path ∙ append_assoc p (b'|' ∷ r) (b'|' ∷ b.content)))
