-- ===== src/Search/Streaming/Queued/Kept.antt =====
-- search/simple_search_backend.cpp: what every step of the threads keeps.

use vxcore.Search.Streaming.Queued.Accumulate.{
  accumulate-other, accumulate-IsSized, accumulate-here, IsSized,
}
use vxcore.WorkQueue.{shut_down, enqueue, WorkQueue, pop_front}
use vxcore.Utils.Strings.{RegexEngine}
use native.Mathlib.Decide.{ℕ_discrete}
use vxcore.Search.Streaming.Queued.{
  DrainStep, shuts, throws, emits, skips, takes, enqueues, end_item, enqueue_chunk, Drain,
}
use vxcore.Search.Match.{MatchContext, SearchFileInfo}
use vxcore.Search.{ContentSearchMatchedFile}
use vxcore.Search.Streaming.{accumulate, CancelFlag, never, scan_batch, Chunks}
use vxcore.Prelude.{
  sym, inr, ◌∙◌, is_member-remove_one, ◌≢◌, is_member-append, inl, ap, length-remove_one, [],
  length-append, ◌⊎◌, true, get_elem?, ◌<◌, false, length, is_member, arith, Bytes, ◌∷◌, ◌||◌, ◌+◌,
  List, ◌-◌, some, leb, Option, ◌≤◌, String, Bool, ℕ, ◌≡◌,
}

-- Chunk `b` is to be enqueued, waits in the queue or runs.
abbrev pub is_pending : ℕ → Drain → Bool
is_pending b d = leb d.next_batch b || is_member b d.work_queue.queue || is_member b d.running

-- The counter counts the chunks that have not ended.
abbrev pub IsCounted : ℕ → Drain → Type 0
IsCounted total d =
    (d.next_batch ≤ total)
    × (d.remaining ≡ (total - d.next_batch) + length d.work_queue.queue + length d.running)

pop_front-queue :
    (q rest : WorkQueue ℕ) (b : ℕ)
    → pop_front q ≡ some (b, rest)
    → (q.queue ≡ b ∷ rest.queue) × (q.shutdown ≡ rest.shutdown)
unfolding pop_front
pop_front-queue q rest b e = (ground (arith, e), ground (arith, e))

-- The chunk of the loop goes to the queue, the others stay where they are.
enqueue_chunk-is_pending :
    (b : ℕ) (d : Drain)
    → d.work_queue.shutdown ≡ false
    → is_pending b (enqueue_chunk d) ≡ is_pending b d
unfolding enqueue_chunk enqueue is_member
enqueue_chunk-is_pending b d up =
    ground (arith, up, is_member-append b d.work_queue.queue (d.next_batch ∷ []))

takes-is_pending :
    (b j : ℕ) (q : WorkQueue ℕ) (d : Drain)
    → pop_front d.work_queue ≡ some (b, q)
    → is_pending j record d { work_queue = q; running = b ∷ d.running } ≡ is_pending j d
unfolding is_member
takes-is_pending b j q d e =
    let (front, same) = pop_front-queue d.work_queue q b e in ground (arith, ap (is_member j) front)

end_item-is_pending : (b j : ℕ) (d : Drain) → b ≢ j → is_pending j (end_item b d) ≡ is_pending j d
unfolding end_item
end_item-is_pending b j d h =
    ap (λ t. leb d.next_batch j || is_member j d.work_queue.queue || t)
      (is_member-remove_one b j d.running h)

module _ {R : Type 0} (g : RegexEngine R) (read_lines : String → Option (List Bytes))
    (ctx : MatchContext R) (files : List SearchFileInfo) where
  pub DrainStep-IsCounted :
      (cancel : CancelFlag) (batch total : ℕ) {d d' : Drain}
      → DrainStep g read_lines cancel ctx files batch total d d'
      → IsCounted total d
      → IsCounted total d'
  unfolding enqueue_chunk enqueue end_item shut_down
  DrainStep-IsCounted cancel batch total (enqueues d k) h =
      ground (arith, k, h, length-append d.work_queue.queue (d.next_batch ∷ []))
  DrainStep-IsCounted cancel batch total (takes d b q e) h =
      ground (arith, h, pop_front-queue d.work_queue q b e)
  DrainStep-IsCounted cancel batch total (skips d b m c) h =
      (h.0, omega (arith, h.1, length-remove_one b d.running m))
  DrainStep-IsCounted cancel batch total (emits d b found m e) h =
      (h.0, omega (arith, h.1, length-remove_one b d.running m))
  DrainStep-IsCounted cancel batch total (throws d b m) h =
      (h.0, omega (arith, h.1, length-remove_one b d.running m))
  DrainStep-IsCounted cancel batch total (shuts d e) h = h

  -- A chunk that is not pending is kept, if no exception was thrown and the queue not shut down.
  abbrev pub IsKept : ℕ → Chunks → Drain → Type 0
  IsKept total cs d =
      d.first_exc ≡ false
      → d.work_queue.shutdown ≡ false
      → IsSized total d.chunks
        × ((b : ℕ) → b < total → (is_pending b d ≡ true) ⊎ (get_elem? d.chunks b ≡ get_elem? cs b))

  -- The chunks that are found, by index.
  abbrev pub IsFound : ℕ → ℕ → Chunks → Type 0
  IsFound batch total cs =
      (b : ℕ)
      → b < total
      → (c : List ContentSearchMatchedFile) × (get_elem? cs b ≡ some c)
        × (scan_batch g read_lines never ctx files batch b ≡ some c)

  emitted :
      (batch b : ℕ) (found : List ContentSearchMatchedFile) (j total : ℕ) (chunks cs : Chunks)
      → b ≡ j
      → IsSized total chunks
      → j < total
      → scan_batch g read_lines never ctx files batch b ≡ some found
      → IsFound batch total cs
      → get_elem? (accumulate b total found chunks) j ≡ get_elem? cs j
  emitted batch b found j total chunks cs there sized k e fs =
      let (c, at, ran) = fs j k in
      let same : found ≡ c =
        ground (arith, ran, e, ap (scan_batch g read_lines never ctx files batch) there) in
      let put = accumulate-here b total found chunks sized (omega (arith, k, there)) in
      let moved = ap (get_elem? (accumulate b total found chunks)) (sym there) in
      moved ∙ put ∙ ap some same ∙ sym at

  pub DrainStep-IsKept :
      (batch total : ℕ) (cs : Chunks) {d d' : Drain}
      → IsFound batch total cs
      → DrainStep g read_lines never ctx files batch total d d'
      → IsKept total cs d
      → IsKept total cs d'
  unfolding enqueue_chunk enqueue end_item shut_down
  DrainStep-IsKept batch total cs fs (enqueues d k) h no_exc up =
      let down : d.work_queue.shutdown ≡ false = ground (arith, up) in
      let (sized, kept) = h no_exc down in
      (
        sized,
        λ b k'. elim (kept b k') [
          | inl p ↦ inl (enqueue_chunk-is_pending b d down ∙ p)
          | inr e ↦ inr e
        ],
      )
  DrainStep-IsKept batch total cs fs (takes d b q e) h no_exc up =
      let (sized, kept) = h no_exc ((pop_front-queue d.work_queue q b e).1 ∙ up) in
      (
        sized,
        λ j k. elim (kept j k) [
          | inl p ↦ inl (takes-is_pending b j q d e ∙ p)
          | inr same ↦ inr same
        ],
      )
  DrainStep-IsKept batch total cs fs (skips d b m c) h no_exc up = absurd (ground (arith, c))
  DrainStep-IsKept batch total cs fs (emits d b found m e) h no_exc up =
      let (sized, kept) = h no_exc up in
      (
        inr (accumulate-IsSized b total found d.chunks sized),
        λ j k. elim (ℕ_discrete b j) [
          | yes there ↦ inr (emitted batch b found j total d.chunks cs there sized k e fs)
          | no other ↦ elim (kept j k) [
            | inl p ↦ inl (end_item-is_pending b j d other ∙ p)
            | inr same ↦
                let (c, at, ran) = fs j k in
                inr (accumulate-other b j total found c d.chunks other (same ∙ at) ∙ sym at)
          ]
        ],
      )
  DrainStep-IsKept batch total cs fs (throws d b m) h no_exc up = absurd (ground (arith, no_exc))
  DrainStep-IsKept batch total cs fs (shuts d e) h no_exc up = absurd (ground (arith, up))
