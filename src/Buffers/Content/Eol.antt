-- ===== src/Buffers/Content/Eol.antt =====
-- core/buffer.cpp: line endings, and how a change behind a buffer is found.
use vxcore.Buffers.Disk.{bytes, Files}
use vxcore.Buffers.Content.{
  file_changed, Buffer, recovered, same_content, compare_times, check_external_changes,
  normalize_from, normalize_eol, bytes_eq,
}
use vxcore.Prelude.{
  sym, ◌∙◌, inr, inl, Bool-cases, ◌≢◌, some, ℕ, String, ◌==◌, refl, if◌then◌else◌, ==_iff, ◌↔◌, [],
  true, arith, ◌≡◌, false, Bool, ◌∷◌, All, Bytes,
}

-- The text with every LF written as CRLF.
abbrev pub to_crlf : Bytes → Bytes
to_crlf [] = []
to_crlf (c ∷ cs) = let rest = to_crlf cs in if c == b'\n' then b'\r' ∷ c ∷ rest else c ∷ rest

abbrev pub NoCr : Bytes → Type 0
NoCr = All λ c. (c == b'\r') ≡ false

normalize_from-to_crlf : (cs : Bytes) → NoCr cs → normalize_from false (to_crlf cs) ≡ cs
unfolding normalize_from
normalize_from-to_crlf [] h = refl
normalize_from-to_crlf (c ∷ cs) h = ground (arith, normalize_from-to_crlf cs h.1)

normalize_from-NoCr : (cr : Bool) (cs : Bytes) → NoCr (normalize_from cr cs)
unfolding normalize_from
normalize_from-NoCr cr [] = tt
normalize_from-NoCr cr (c ∷ cs) = ground (arith, normalize_from-NoCr (c == b'\r') cs)

normalize_from-fixed : (cs : Bytes) → NoCr cs → normalize_from false cs ≡ cs
unfolding normalize_from
normalize_from-fixed [] h = refl
normalize_from-fixed (c ∷ cs) h = ground (arith, normalize_from-fixed cs h.1)

-- Normalising leaves no CR and is idempotent.
normalize_eol-NoCr :
    (cs : Bytes) → NoCr (normalize_eol cs) × (normalize_eol (normalize_eol cs) ≡ normalize_eol cs)
unfolding normalize_eol
normalize_eol-NoCr cs =
    let n = normalize_from-NoCr false cs in (n, normalize_from-fixed (normalize_from false cs) n)

bytes_eq_iff : (cs ds : Bytes) → (bytes_eq cs ds ≡ true) ↔ (cs ≡ ds)
unfolding bytes_eq
bytes_eq_iff [] [] = ground arith
bytes_eq_iff [] (d ∷ ds) = ground arith
bytes_eq_iff (c ∷ cs) [] = ground arith
bytes_eq_iff (c ∷ cs) (d ∷ ds) = ground (arith, bytes_eq_iff cs ds, ==_iff c d)

bytes_eq_refl : (cs : Bytes) → bytes_eq cs cs ≡ true
bytes_eq_refl cs = ground (arith, bytes_eq_iff cs cs)

same_content_iff :
    (disk content : Bytes)
    → (same_content (bytes disk) content ≡ true) ↔ (normalize_eol disk ≡ normalize_eol content)
unfolding same_content
same_content_iff disk content =
    ground
      (arith, bytes_eq_iff disk content, bytes_eq_iff (normalize_eol disk) (normalize_eol content))

module _ {D : Type 0} (f : Files D) where
  -- A loaded buffer whose file is there, readable and newer than its stamp: the buffer's content,
  -- modification and revision stay, and it counts as changed exactly where the normalised contents
  -- differ; otherwise the stamp is renewed.
  check_external_changes_lem :
      (path : String) (t : ℕ) (disk : Bytes) (d : D) (b : Buffer)
      → b.is_virtual ≡ false
      → b.content_loaded ≡ true
      → f.exists path d ≡ some true
      → f.last_write_time path d ≡ some t
      → f.read path d ≡ bytes disk
      → (t == b.last_modified_time) ≡ false
      → let r = check_external_changes f path d b in
        (r.content ≡ b.content)
        × (r.modified ≡ b.modified)
        × (r.revision ≡ b.revision)
        × ((r.state ≡ file_changed) ↔ (normalize_eol disk ≢ normalize_eol b.content))
        × ((r.last_modified_time ≡ t) ↔ (normalize_eol disk ≡ normalize_eol b.content))
  unfolding check_external_changes compare_times recovered
  check_external_changes_lem path t disk d b real loaded here time read newer =
      elim (Bool-cases (same_content (bytes disk) b.content)) [
        | inl same ↦ ground (arith, same_content_iff disk b.content)
        | inr other ↦ ground (arith, same_content_iff disk b.content)
      ]

  -- Converting the file's line ends to CRLF is no change of a loaded buffer whose text has no CR.
  check_external_changes-to_crlf :
      (path : String) (t : ℕ) (d : D) (b : Buffer)
      → b.is_virtual ≡ false
      → b.content_loaded ≡ true
      → NoCr b.content
      → f.exists path d ≡ some true
      → f.last_write_time path d ≡ some t
      → f.read path d ≡ bytes (to_crlf b.content)
      → (check_external_changes f path d b).state ≡ recovered b.state
  unfolding check_external_changes compare_times recovered normalize_eol
  check_external_changes-to_crlf path t d b real loaded plain here time read =
      let same =
        (same_content_iff (to_crlf b.content) b.content).1
          (normalize_from-to_crlf b.content plain ∙ sym (normalize_from-fixed b.content plain)) in
      ground (arith, same)
