-- ===== src/Buffers/Content/Saved.antt =====
-- core/buffer.cpp: what saving and loading do to the content and the file.
use vxcore.Prelude.{[], Option, arith, some, true, false, ◌≡◌, ℕ, String}
use vxcore.Buffers.Content.{
  OpenNotebook, new_buffer, failed, normal, Buffer, stamped, loaded, load_from, after_write,
  load_content, save_content,
}
use vxcore.Buffers.Disk.{bytes, written, IsSound, Files}

pub save_content-content :
    {D : Type 0} (f : Files D) (path : String) (d : D) (b : Buffer)
    → (save_content f path d b).0.content ≡ b.content
unfolding save_content after_write stamped failed
save_content-content f path d b = ground arith

module _ {D : Type 0} (f : Files D) (q : IsSound f) where
  -- What was saved is loaded again: where no file operation lies about its success, neither buffer is
  -- virtual, the folders of the file can be made, the write succeeds and the time of the file can be
  -- read, the buffer that loads the file then has the content that was saved, unmodified and in the
  -- state normal, and the saved one is unmodified too.
  pub load_content-save_content :
      (path : String) (t : ℕ) (d : D) (b c : Buffer)
      → b.is_virtual ≡ false
      → c.is_virtual ≡ false
      → (f.create_parents path d).0 ≡ true
      → let d' = (f.create_parents path d).1 in
        (f.write path b.content d').0 ≡ written
        → f.last_write_time path (save_content f path d b).1 ≡ some t
        → let r = load_content f path (save_content f path d b).1 c in
          (r.content ≡ b.content)
          × (r.state ≡ normal)
          × (r.modified ≡ false)
          × ((save_content f path d b).0.modified ≡ false)
  unfolding save_content load_content after_write load_from loaded stamped
  load_content-save_content path t d b c h h' made w time =
      let d' = (f.create_parents path d).1 in
      ground (arith, q.read-write path b.content d' w, q.exists-write path b.content d' w)

  -- Saving a buffer whose content was never loaded empties its file, where the write succeeds.
  save_content-new_buffer :
      (id : String) (n : Option OpenNotebook) (file path : String) (d : D)
      → (f.create_parents path d).0 ≡ true
      → (f.write path [] (f.create_parents path d).1).0 ≡ written
      → f.read path (save_content f path d (new_buffer id n file)).1 ≡ bytes []
  unfolding save_content new_buffer after_write
  save_content-new_buffer id n file path d made w =
      ground (arith, q.read-write path [] (f.create_parents path d).1 w)
