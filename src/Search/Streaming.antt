-- ===== src/Search/Streaming.antt =====
-- search/simple_search_backend.cpp: SearchStreaming and Search. The chunks that run on a work queue
-- are in the child.
use Prim.Native.Nat.{min}
use vxcore.Errors.{is_ok, err_cancelled, vxcore_ok, VxCoreError}
use vxcore.Utils.Strings.{RegexEngine}
use vxcore.Prelude.{
  inr, inl, ◌*◌, some, leb, none, length, ◌/◌, zero, Bytes, ◌-◌, ◌++◌, suc, ltb, Option, ◌∷◌, ◌+◌,
  if◌then◌else◌, [], String, Bool, ℕ, false, List,
}
use vxcore.Search.Match.{build_match_context, scan_chunk, MatchContext, SearchFileInfo}
use vxcore.Search.{truncate, ContentSearchResult, ContentSearchMatchedFile}
pub mod Batches
pub mod Inline
pub mod Queued

abbrev pub k_default_search_chunk_size : ℕ
k_default_search_chunk_size = 64

-- What the cancel flag says where it is read.
pub record CancelFlag : Type 0 where
  pub before_file : ℕ → Bool
  pub before_batch : ℕ → Bool
  pub at_end : Bool

abbrev pub never : CancelFlag
never = record { before_file = λ i. false; before_batch = λ b. false; at_end = false }

-- A batch size that is not positive asks for the default.
unfoldable pub effective_batch : ℕ → ℕ
effective_batch batch_size = if ltb 0 batch_size then batch_size else k_default_search_chunk_size

unfoldable pub total_batches : ℕ → ℕ → ℕ
total_batches file_count batch = (file_count + batch - 1) / batch

module _ {S : Type 0} (emit_batch : ℕ → ℕ → List ContentSearchMatchedFile → S → S) where
  -- The batches of an empty pattern, `todo` of them from batch `b` on.
  unfoldable pub empty_batches : CancelFlag → ℕ → ℕ → ℕ → S → VxCoreError × S
  empty_batches cancel total zero b s = (vxcore_ok, s)
  empty_batches cancel total (suc todo) b s =
      let rest = empty_batches cancel total todo (b + 1) (emit_batch b total [] s) in
      if cancel.before_batch b then (err_cancelled, s) else rest

module _ {R : Type 0} (g : RegexEngine R) (read_lines : String → Option (List Bytes)) where
  -- What the work of batch `b` finds.
  unfoldable pub scan_batch :
      CancelFlag
      → MatchContext R
      → List SearchFileInfo
      → ℕ
      → ℕ
      → Option (List ContentSearchMatchedFile)
  scan_batch cancel ctx files batch b =
      scan_chunk g read_lines cancel.before_file ctx files (b * batch)
        (min (b * batch + batch) (length files))

module _ {R S : Type 0} (g : RegexEngine R) (read_lines : String → Option (List Bytes)) where
  -- The chunks in order on the calling thread, `todo` of them from batch `b` on.
  unfoldable pub inline_batches :
      (ℕ → ℕ → List ContentSearchMatchedFile → S → S)
      → CancelFlag
      → MatchContext R
      → List SearchFileInfo
      → ℕ
      → ℕ
      → ℕ
      → ℕ
      → S
      → Option (VxCoreError × S)
  inline_batches emit_batch cancel ctx files batch total zero b s =
      some (if cancel.at_end then err_cancelled else vxcore_ok, s)
  inline_batches emit_batch cancel ctx files batch total (suc todo) b s =
      if cancel.before_batch b
      then some (err_cancelled, s)
      else (elim (scan_batch g read_lines cancel ctx files batch b) [
        | none ↦ none
        | some found ↦
            inline_batches emit_batch cancel ctx files batch total todo (b + 1)
              (emit_batch b total found s)
      ])

  -- SearchStreaming with no work queue; `none` where a scan does not end.
  unfoldable pub search_streaming :
      (ℕ → ℕ → List ContentSearchMatchedFile → S → S)
      → CancelFlag
      → List SearchFileInfo
      → Bytes
      → ℕ
      → List Bytes
      → ℕ
      → S
      → Option (VxCoreError × S)
  search_streaming emit_batch cancel files pattern options excludes batch_size s =
      let batch = effective_batch batch_size in
      let total = total_batches (length files) batch in
      if leb (length files) 0
      then some (vxcore_ok, s)
      else if leb (length pattern) 0
      then some (empty_batches emit_batch cancel total total 0 s)
      else (elim (build_match_context g pattern options excludes) [
        | inl err ↦ some (err, s)
        | inr ctx ↦ inline_batches emit_batch cancel ctx files batch total total 0 s
      ])

abbrev pub Chunks : Type 0
Chunks = List (List ContentSearchMatchedFile)

-- chunks.resize(n) on an empty vector
unfoldable pub resized : ℕ → Chunks
resized zero = []
resized (suc n) = [] ∷ resized n

-- chunks[i] = batch, nothing where `i` is out of range
unfoldable pub set_chunk : ℕ → List ContentSearchMatchedFile → Chunks → Chunks
set_chunk i found [] = []
set_chunk zero found (c ∷ cs) = found ∷ cs
set_chunk (suc i) found (c ∷ cs) = c ∷ set_chunk i found cs

-- The callback of `Search`.
unfoldable pub accumulate : ℕ → ℕ → List ContentSearchMatchedFile → Chunks → Chunks
accumulate batch_index total_batches found [] = set_chunk batch_index found (resized total_batches)
accumulate batch_index total_batches found (c ∷ cs) = set_chunk batch_index found (c ∷ cs)

unfoldable pub reassemble : Chunks → List ContentSearchMatchedFile
reassemble [] = []
reassemble (c ∷ cs) = c ++ reassemble cs

-- `Search` behind a streaming search: an error leaves the result cleared.
unfoldable pub finish_search : ℕ → VxCoreError × Chunks → VxCoreError × ContentSearchResult
finish_search max_results (err, chunks) =
    if is_ok err
    then (vxcore_ok, truncate max_results (reassemble chunks))
    else (err, record { matched_files = []; truncated = false })

module _ {R : Type 0} (g : RegexEngine R) (read_lines : String → Option (List Bytes)) where
  -- SimpleSearchBackend::Search
  unfoldable pub backend_search :
      CancelFlag
      → List SearchFileInfo
      → Bytes
      → ℕ
      → List Bytes
      → ℕ
      → Option (VxCoreError × ContentSearchResult)
  backend_search cancel files pattern options excludes max_results =
      elim (search_streaming g read_lines accumulate cancel files pattern options excludes 0 []) [
        | none ↦ none
        | some r ↦ some (finish_search max_results r)
      ]
