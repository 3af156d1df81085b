-- ===== src/Search/Streaming/Batches.antt =====
-- search/simple_search_backend.cpp: the chunks of a search put together.
use vxcore.Utils.Strings.{RegexEngine}
use vxcore.Search.Match.{scan_file, scan_chunk, scan_from, MatchContext, SearchFileInfo}
use vxcore.Search.{ContentSearchMatchedFile}
use vxcore.Search.Streaming.{min, never, scan_batch, reassemble, Chunks}
use vxcore.Prelude.{
  drop-drop, sym, drop-all, subst, refl, append_assoc, inr, inl, take-min, Option-cases, ◌∙◌,
  length-drop, arith, ◌-◌, zero, ap, ◌++◌, suc, drop, [], ◌+◌, ◌*◌, ◌≤◌, take, ◌∷◌, some, length,
  false, ℕ, Bytes, List, Option, String, ◌≡◌,
}
use native.Mathlib.Nat.{suc-mul}

module _ {R : Type 0} (g : RegexEngine R) (read_lines : String → Option (List Bytes))
    (ctx : MatchContext R) where
  abbrev scan : ℕ → List SearchFileInfo → Option (List ContentSearchMatchedFile)
  scan = scan_from g read_lines (λ i. false) ctx

  -- Where a scan ends, so do those of the first files and of the others, and it finds what they find.
  scan-split :
      (k i : ℕ) (files : List SearchFileInfo) (found : List ContentSearchMatchedFile)
      → scan i files ≡ some found
      → (first last : List ContentSearchMatchedFile) × (scan i (take k files) ≡ some first)
        × (scan (i + k) (drop k files) ≡ some last)
        × (found ≡ first ++ last)
  unfolding scan_from
  scan-split zero i files found e =
      ([], found, refl, ap (λ j. scan j files) (omega arith) ∙ e, refl)
  scan-split (suc k) i [] found e = ([], [], refl, refl, ground (arith, e))
  scan-split (suc k) i (file ∷ files) found e =
      elim (Option-cases (scan_file g read_lines ctx file)) [
        | inl h ↦ absurd (ground (arith, h, e))
        | inr (here, h) ↦ elim (Option-cases (scan (i + 1) files)) [
          | inl h' ↦ absurd (ground (arith, h, h', e))
          | inr (more, h') ↦
              let (first, last, p, q, r) = scan-split k (i + 1) files more h' in
              (
                here ++ first,
                last,
                ground (arith, h, p),
                ap (λ j. scan j (drop k files)) (omega arith) ∙ q,
                ground (arith, h, h', e, r, append_assoc here first last),
              )
        ]
      ]

  -- `cs` is what the batches from `b` on find.
  abbrev pub Found : List SearchFileInfo → ℕ → ℕ → Chunks → Type 0
  Found files batch b [] = Unit
  Found files batch b (c ∷ cs) =
      (scan_batch g read_lines never ctx files batch b ≡ some c) × Found files batch (b + 1) cs

  scan_batch-take :
      (files : List SearchFileInfo) (batch b : ℕ)
      → scan_batch g read_lines never ctx files batch b
        ≡ scan (b * batch) (take batch (drop (b * batch) files))
  unfolding scan_batch scan_chunk
  scan_batch-take files batch b =
      let begin = b * batch in
      let rest = drop begin files in
      let size : min (begin + batch) (length files) - begin ≡ min batch (length rest) =
        omega (arith, length-drop begin files) in
      ap (λ n. scan begin (take n rest)) size ∙ ap (scan begin) (take-min batch rest)

  scan-nil : (i : ℕ) → scan i [] ≡ some []
  unfolding scan_from
  scan-nil i = refl

  -- The batches from `b` on, `todo` of them, where they reach the last file.
  pub scan-Found :
      (files : List SearchFileInfo) (batch todo b : ℕ) (found : List ContentSearchMatchedFile)
      → length files ≤ (b + todo) * batch
      → scan (b * batch) (drop (b * batch) files) ≡ some found
      → (cs : Chunks) × (length cs ≡ todo) × Found files batch b cs × (reassemble cs ≡ found)
  unfolding reassemble
  scan-Found files batch zero b found reach e =
      let past : length files ≤ b * batch =
        subst (λ n. length files ≤ n * batch) (let z : b + 0 ≡ b = omega arith in z) reach in
      let empty = ap (scan (b * batch)) (drop-all (b * batch) files past) in
      ([], refl, tt, ground (arith, empty, e, scan-nil (b * batch)))
  scan-Found files batch (suc todo) b found reach e =
      let begin = b * batch in
      let (first, last, p, q, r) = scan-split batch begin (drop begin files) found e in
      let step : begin + batch ≡ (b + 1) * batch =
        sym (suc-mul b batch) ∙ ap (λ n. n * batch) (omega arith) in
      let q' = ap (scan (begin + batch)) (sym (drop-drop begin batch files)) ∙ q in
      let next : scan ((b + 1) * batch) (drop ((b + 1) * batch) files) ≡ some last =
        subst (λ n. scan n (drop n files) ≡ some last) step q' in
      let sum : b + suc todo ≡ b + 1 + todo = omega arith in
      let (cs, len, all, put) =
        scan-Found files batch todo (b + 1) last (subst (λ n. length files ≤ n * batch) sum reach)
          next in
      (
        first ∷ cs,
        omega (arith, len),
        (scan_batch-take files batch b ∙ p, all),
        ap (λ xs. first ++ xs) put ∙ sym r,
      )
