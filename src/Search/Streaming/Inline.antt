-- ===== src/Search/Streaming/Inline.antt =====
-- search/simple_search_backend.cpp: the search with no work queue.
use vxcore.Errors.{is_ok, vxcore_ok}
use vxcore.Utils.Strings.{RegexEngine}
use vxcore.Search.Match.{build_match_context, scan_from, MatchContext, SearchFileInfo}
use vxcore.Search.{truncate, ContentSearchMatchedFile}
use vxcore.Search.Streaming.{
  finish_search, search_streaming, backend_search, reassemble, effective_batch, never,
  inline_batches, resized, total_batches, set_chunk, accumulate, Chunks,
}
use vxcore.Search.Streaming.Batches.{Found, scan-Found}
use vxcore.Prelude.{
  inr, drop, length-append, suc, subst, append_assoc, ◌/◌, sym, false, arith, ◌∙◌, ◌-◌, some, refl,
  ap, ◌+◌, ◌++◌, ◌*◌, [], Bytes, ◌≤◌, ◌∷◌, length, Option, ◌<◌, String, List, ℕ, ◌≡◌,
}
use native.Mathlib.Omega.{div_any}
use native.Mathlib.Nat.{mod-lt, zero-mul, mul_comm}

-- The chunks of one sweep, given to the callback in order.
unfoldable pub emit_all :
    {S : Type 0} (emit_batch : ℕ → ℕ → List ContentSearchMatchedFile → S → S)
    → ℕ
    → ℕ
    → Chunks
    → S
    → S
emit_all emit_batch total b [] s = s
emit_all emit_batch total b (c ∷ cs) s =
    emit_all emit_batch total (b + 1) cs (emit_batch b total c s)

module _ {R S : Type 0} (g : RegexEngine R) (read_lines : String → Option (List Bytes)) where
  inline_batches-Found :
      (emit_batch : ℕ → ℕ → List ContentSearchMatchedFile → S → S) (ctx : MatchContext R)
      (files : List SearchFileInfo) (batch total b : ℕ) (cs : Chunks) (s : S)
      → Found g read_lines ctx files batch b cs
      → inline_batches g read_lines emit_batch never ctx files batch total (length cs) b s
        ≡ some (vxcore_ok, emit_all emit_batch total b cs s)
  unfolding inline_batches emit_all
  inline_batches-Found emit_batch ctx files batch total b [] s all = refl
  inline_batches-Found emit_batch ctx files batch total b (c ∷ cs) s all = rw (all.0) (
      inline_batches-Found emit_batch ctx files batch total (b + 1) cs (emit_batch b total c s)
        (all.1))

set_chunk-last :
    (pre rest : Chunks) (old found : List ContentSearchMatchedFile)
    → set_chunk (length pre) found (pre ++ old ∷ rest) ≡ pre ++ found ∷ rest
unfolding set_chunk
set_chunk-last [] rest old found = refl
set_chunk-last (c ∷ pre) rest old found = ap (λ cs. c ∷ cs) (set_chunk-last pre rest old found)

-- The callback of `Search`, when the chunks before are in their places.
emit_all-accumulate :
    (total : ℕ) (c : List ContentSearchMatchedFile) (pre cs : Chunks)
    → emit_all accumulate total (length (c ∷ pre)) cs (c ∷ pre ++ resized (length cs))
      ≡ c ∷ pre ++ cs
unfolding emit_all accumulate resized
emit_all-accumulate total c pre [] = refl
emit_all-accumulate total c pre (d ∷ cs) =
    let rest = resized (length cs) in
    let place =
      set_chunk-last (c ∷ pre) rest [] d
      ∙ ap (λ ds. c ∷ ds) (sym (append_assoc pre (d ∷ []) rest)) in
    let next = c ∷ (pre ++ d ∷ []) ++ rest in
    let len : suc (length pre) + 1 ≡ suc (length (pre ++ d ∷ [])) =
      omega (arith, length-append pre (d ∷ [])) in
    ap (emit_all accumulate total (suc (length pre) + 1) cs) place
    ∙ ap (λ n. emit_all accumulate total n cs next) len
    ∙ emit_all-accumulate total c (pre ++ d ∷ []) cs
    ∙ ap (λ ds. c ∷ ds) (append_assoc pre (d ∷ []) cs)

accumulate-all : (cs : Chunks) → emit_all accumulate (length cs) 0 cs [] ≡ cs
unfolding emit_all accumulate resized set_chunk
accumulate-all [] = refl
accumulate-all (c ∷ cs) = emit_all-accumulate (length (c ∷ cs)) c [] cs

pub reaches : (count batch : ℕ) → 0 < batch → count ≤ total_batches count batch * batch
unfolding total_batches
reaches count batch h =
    let n = count + batch - 1 in
    let split = div_any n batch in
    let small = mod-lt n h in
    let turn = mul_comm batch (n / batch) in omega (arith, h, split, small, turn)

module _ {R : Type 0} (g : RegexEngine R) (read_lines : String → Option (List Bytes)) where
  abbrev pub all_files :
      MatchContext R → List SearchFileInfo → Option (List ContentSearchMatchedFile)
  all_files ctx = scan_from g read_lines (λ i. false) ctx 0

  abbrev pub chunk_count : ℕ → List SearchFileInfo → ℕ
  chunk_count batch_size files = total_batches (length files) (effective_batch batch_size)

  effective_batch-positive : (batch_size : ℕ) → 0 < effective_batch batch_size
  unfolding effective_batch
  effective_batch-positive batch_size = ground arith

  -- Where the scan of all files ends, the chunks, in order, find what it finds.
  pub chunks-Found :
      (ctx : MatchContext R) (files : List SearchFileInfo) (batch_size : ℕ)
      (found : List ContentSearchMatchedFile)
      → all_files ctx files ≡ some found
      → (cs : Chunks) × (length cs ≡ chunk_count batch_size files)
        × Found g read_lines ctx files (effective_batch batch_size) 0 cs
        × (reassemble cs ≡ found)
  chunks-Found ctx files batch_size found e =
      let batch = effective_batch batch_size in
      let total = chunk_count batch_size files in
      scan-Found g read_lines ctx files batch total 0 found
        (subst (λ n. length files ≤ n * batch) (let z : total ≡ 0 + total = omega arith in z)
          (reaches (length files) batch (effective_batch-positive batch_size)))
        (subst (λ n. scan_from g read_lines (λ i. false) ctx n (drop n files) ≡ some found)
          (sym (zero-mul batch)) e)

  -- For a pattern that is not empty and compiles, and a flag that is never set, `Search` without a work
  -- queue gives the matches of all files, in the order of the files, cut at the limit: the chunks do
  -- not show in the result.
  pub backend_search-all_files :
      (files : List SearchFileInfo) (q : ℕ) (qs : Bytes) (options : ℕ) (excludes : List Bytes)
      (max_results : ℕ) (ctx : MatchContext R) (found : List ContentSearchMatchedFile)
      → build_match_context g (q ∷ qs) options excludes ≡ inr ctx
      → all_files ctx files ≡ some found
      → backend_search g read_lines never files (q ∷ qs) options excludes max_results
        ≡ some (vxcore_ok, truncate max_results found)
  unfolding backend_search search_streaming finish_search reassemble scan_from is_ok
  backend_search-all_files [] q qs options excludes max_results ctx found built e =
      ground (arith, e)
  backend_search-all_files (file ∷ files) q qs options excludes max_results ctx found built e =
      let all = file ∷ files in
      let batch = effective_batch 0 in
      let (cs, len, parts, join) = chunks-Found ctx all 0 found e in
      let run =
        inline_batches-Found g read_lines accumulate ctx all batch (length cs) 0 cs [] parts in
      let swept : inline_batches g read_lines accumulate never ctx all batch (chunk_count 0 all)
            (chunk_count 0 all) 0 []
          ≡ some (vxcore_ok, cs) =
        subst
          (λ n.
            inline_batches g read_lines accumulate never ctx all batch n n 0 []
            ≡ some (vxcore_ok, cs))
          len (run ∙ ap (λ c. some (vxcore_ok, c)) (accumulate-all cs)) in
      ground (arith, built, swept, join)
