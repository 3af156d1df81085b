-- ===== src/Search/Streaming/Queued/Result.antt =====
-- search/simple_search_backend.cpp: the result does not depend on the threads.
use vxcore.Search.Streaming.Inline.{chunks-Found, all_files, chunk_count}
use vxcore.Errors.{vxcore_ok, is_ok}
use vxcore.WorkQueue.{new_queue}
use vxcore.Search.Streaming.Queued.Accumulate.{IsSized}
use vxcore.Search.Streaming.Batches.{Found}
use vxcore.Search.Streaming.Queued.Kept.{
  DrainStep-IsKept, DrainStep-IsCounted, IsKept, IsFound, is_pending, IsCounted,
}
use vxcore.Utils.Strings.{RegexEngine}
use vxcore.Search.Streaming.Queued.{here, next, DrainSteps, start_drain, drained, Drain}
use vxcore.Search.Match.{MatchContext, SearchFileInfo}
use vxcore.Search.{truncate, ContentSearchMatchedFile}
use vxcore.Search.Streaming.{
  reassemble, scan_batch, effective_batch, never, finish_search, CancelFlag, Chunks,
}
use vxcore.Prelude.{
  zero, suc, sym, ap, ◌∙◌, ◌+◌, ◌⊎◌, inr, true, some, inl, get_elem?_ext, refl, get_elem?, [], ◌∷◌,
  arith, false, Bytes, ◌<◌, length, Option, String, List, ℕ, is_member, ◌≡◌,
}

is_member-empty : (b : ℕ) (xs : List ℕ) → length xs ≡ 0 → is_member b xs ≡ false
unfolding is_member
is_member-empty b [] e = refl
is_member-empty b (x ∷ xs) e = absurd (omega (arith, e))

-- When the counter is 0, no chunk is pending.
ended :
    (total b : ℕ) (d : Drain)
    → IsCounted total d
    → d.remaining ≡ 0
    → b < total
    → is_pending b d ≡ false
ended total b d h e k =
    let none_left : length d.work_queue.queue ≡ 0 = omega (arith, h.0, h.1, e) in
    let none_runs : length d.running ≡ 0 = omega (arith, h.0, h.1, e) in
    ground (
      arith,
      h,
      e,
      k,
      is_member-empty b d.work_queue.queue none_left,
      is_member-empty b d.running none_runs,
    )

module _ {R : Type 0} (g : RegexEngine R) (read_lines : String → Option (List Bytes))
    (ctx : MatchContext R) (files : List SearchFileInfo) where
  Found-IsFound :
      (batch b i : ℕ) (cs : Chunks)
      → Found g read_lines ctx files batch b cs
      → i < length cs
      → (c : List ContentSearchMatchedFile) × (get_elem? cs i ≡ some c)
        × (scan_batch g read_lines never ctx files batch (b + i) ≡ some c)
  Found-IsFound batch b i [] f h = absurd (omega (arith, h))
  Found-IsFound batch b zero (c ∷ cs) f h =
      (c, refl, ap (scan_batch g read_lines never ctx files batch) (omega arith) ∙ f.0)
  Found-IsFound batch b (suc i) (c ∷ cs) f h =
      let (c', at, ran) = Found-IsFound batch (b + 1) i cs (f.1) (omega (arith, h)) in
      (c', at, ap (scan_batch g read_lines never ctx files batch) (omega arith) ∙ ran)

  pub DrainSteps-IsCounted :
      (cancel : CancelFlag) (batch total : ℕ) {d d' : Drain}
      → DrainSteps g read_lines cancel ctx files batch total d d'
      → IsCounted total d
      → IsCounted total d'
  DrainSteps-IsCounted cancel batch total here h = h
  DrainSteps-IsCounted cancel batch total (next r s) h =
      DrainStep-IsCounted g read_lines ctx files cancel batch total s
        (DrainSteps-IsCounted cancel batch total r h)

  DrainSteps-IsKept :
      (batch total : ℕ) (cs : Chunks) {d d' : Drain}
      → IsFound g read_lines ctx files batch total cs
      → DrainSteps g read_lines never ctx files batch total d d'
      → IsKept g read_lines ctx files total cs d
      → IsKept g read_lines ctx files total cs d'
  DrainSteps-IsKept batch total cs fs here h = h
  DrainSteps-IsKept batch total cs fs (next r s) h =
      DrainStep-IsKept g read_lines ctx files batch total cs fs s
        (DrainSteps-IsKept batch total cs fs r h)

  start-IsKept :
      (total : ℕ) (cs : Chunks)
      → IsKept g read_lines ctx files total cs (start_drain total new_queue)
  unfolding start_drain new_queue
  start-IsKept total cs no_exc up = (inl refl, λ b k. inl (ground arith))

  pub start-IsCounted : (total : ℕ) → IsCounted total (start_drain total new_queue)
  unfolding start_drain new_queue
  start-IsCounted total = (omega arith, omega arith)

  sized-all :
      (batch total : ℕ) (cs : Chunks) (d : Drain)
      → length cs ≡ total
      → IsFound g read_lines ctx files batch total cs
      → IsCounted total d
      → d.remaining ≡ 0
      → IsSized total d.chunks
      → ((b : ℕ) → b < total → (is_pending b d ≡ true) ⊎ (get_elem? d.chunks b ≡ get_elem? cs b))
      → length d.chunks ≡ length cs
  sized-all batch total cs d len fs counted e (inr sized) all = sized ∙ sym len
  sized-all batch zero cs d len fs counted e (inl sized) all = ap length sized ∙ sym len
  sized-all batch (suc total) cs d len fs counted e (inl sized) all =
      let k : 0 < suc total = omega arith in
      let (c, at, ran) = fs 0 k in
      elim (all 0 k) [
        | inl p ↦ absurd (ground (arith, p, ended (suc total) 0 d counted e k))
        | inr same ↦ absurd (ground (arith, same, at, ap (λ ds. get_elem? ds 0) sized))
      ]

  kept-all :
      (batch total : ℕ) (cs : Chunks) (d : Drain)
      → length cs ≡ total
      → IsFound g read_lines ctx files batch total cs
      → IsCounted total d
      → IsKept g read_lines ctx files total cs d
      → d.remaining ≡ 0
      → d.first_exc ≡ false
      → d.work_queue.shutdown ≡ false
      → d.chunks ≡ cs
  kept-all batch total cs d len fs counted kept e no_exc up =
      let (sized, all) = kept no_exc up in
      get_elem?_ext d.chunks cs (sized-all batch total cs d len fs counted e sized all) (λ b k.
        elim (all b (omega (arith, len, k))) [
          | inl p ↦ absurd (ground (arith, p, ended total b d counted e (omega (arith, len, k))))
          | inr same ↦ same
        ])

  -- A search whose chunks run on a queue that is not shut down, on any number of threads and in any
  -- order, with no exception and a flag that is never set, has all matches when the counter is 0: as the
  -- search with no queue, it gives the matches of all files in the order of the files, cut at the limit.
  pub drained-all_files :
      (batch_size max_results : ℕ) (found : List ContentSearchMatchedFile) (d : Drain)
      → let batch = effective_batch batch_size in
        let total = chunk_count g read_lines batch_size files in
        all_files g read_lines ctx files ≡ some found
        → DrainSteps g read_lines never ctx files batch total (start_drain total new_queue) d
        → d.remaining ≡ 0
        → d.first_exc ≡ false
        → d.work_queue.shutdown ≡ false
        → (drained never d ≡ some (vxcore_ok, d.chunks))
          × (finish_search max_results (vxcore_ok, d.chunks)
              ≡ (vxcore_ok, truncate max_results found))
  unfolding drained finish_search is_ok
  drained-all_files batch_size max_results found d e steps ends no_exc up =
      let batch = effective_batch batch_size in
      let (cs, len, parts, join) = chunks-Found g read_lines ctx files batch_size found e in
      let total = chunk_count g read_lines batch_size files in
      let fs : IsFound g read_lines ctx files batch total cs = λ b k.
        let (c, at, ran) = Found-IsFound batch 0 b cs parts (omega (arith, len, k)) in
        (c, at, ap (scan_batch g read_lines never ctx files batch) (omega arith) ∙ ran) in
      let counted = DrainSteps-IsCounted never batch total steps (start-IsCounted total) in
      let kept = DrainSteps-IsKept batch total cs fs steps (start-IsKept total cs) in
      let same = kept-all batch total cs d len fs counted kept ends no_exc up in
      (
        ground (arith, no_exc),
        ap (λ c. (vxcore_ok, truncate max_results (reassemble c))) same
            ∙ ap (λ x. (vxcore_ok, truncate max_results x)) join,
      )
