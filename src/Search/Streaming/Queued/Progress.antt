-- ===== src/Search/Streaming/Queued/Progress.antt =====
-- search/simple_search_backend.cpp: the loop that waits for the counter ends.
use vxcore.Search.Streaming.Queued.Result.{DrainSteps-IsCounted}
use vxcore.Search.Streaming.Queued.Kept.{IsCounted}
use vxcore.Search.Streaming.{scan_batch, CancelFlag}
use vxcore.WorkQueue.{shut_down, enqueue, WorkQueue, pop_front}
use vxcore.Utils.Strings.{RegexEngine}
use native.Mathlib.Decide.{dec_lt}
use vxcore.Search.Streaming.Queued.{
  here, next, shuts, throws, emits, skips, takes, enqueues, start_drain, end_item, DrainSteps,
  DrainStep, enqueue_chunk, Drain,
}
use vxcore.Search.Match.{MatchContext, SearchFileInfo}
use vxcore.Search.{ContentSearchMatchedFile}
use vxcore.Prelude.{
  ◌⊎◌, inr, inl, Option-cases, true, ap, length-remove_one, ◌∷◌, length-append, ◌≤◌, ◌<◌, is_member,
  [], arith, suc, if◌then◌else◌, Bytes, ◌+◌, length, List, ◌*◌, some, Option, ◌-◌, String, ℕ, ◌≡◌,
}

-- The steps that are left: three for a chunk that is to be enqueued, two for one in the queue and one
-- for one that runs, and one for a shutdown.
abbrev steps_left : ℕ → Drain → ℕ
steps_left total d =
    (total - d.next_batch) * 3
    + length d.work_queue.queue * 2
    + length d.running
    + (if d.work_queue.shutdown then 0 else 1)

pop_front-steps :
    (q rest : WorkQueue ℕ) (b : ℕ)
    → pop_front q ≡ some (b, rest)
    → (length q.queue ≡ suc (length rest.queue)) × (q.shutdown ≡ rest.shutdown)
unfolding pop_front
pop_front-steps q rest b e = (ground (arith, e), ground (arith, e))

first-is_member : (xs : List ℕ) → 0 < length xs → (b : ℕ) × (is_member b xs ≡ true)
unfolding is_member
first-is_member [] k = absurd (omega (arith, k))
first-is_member (b ∷ xs) k = (b, ground arith)

front :
    (q : WorkQueue ℕ)
    → 0 < length q.queue
    → (b : ℕ) × (rest : WorkQueue ℕ) × (pop_front q ≡ some (b, rest))
unfolding pop_front
front q k = elim (Option-cases (pop_front q)) [
  | inl missing ↦ absurd (ground (arith, missing, k))
  | inr ((b, rest), e) ↦ (b, rest, e)
]

start_drain-IsCounted :
    (total : ℕ) (q : WorkQueue ℕ) → q.queue ≡ [] → IsCounted total (start_drain total q)
unfolding start_drain
start_drain-IsCounted total q empty = (omega arith, omega (arith, ap length empty))

start_drain-steps_left :
    (total : ℕ) (q : WorkQueue ℕ)
    → q.queue ≡ []
    → steps_left total (start_drain total q) ≤ total * 3 + 1
unfolding start_drain
start_drain-steps_left total q empty = ground (arith, ap length empty)

module _ {R : Type 0} (g : RegexEngine R) (read_lines : String → Option (List Bytes))
    (cancel : CancelFlag) (ctx : MatchContext R) (files : List SearchFileInfo)
    (batch total : ℕ) where
  DrainStep-steps_left :
      {d d' : Drain}
      → DrainStep g read_lines cancel ctx files batch total d d'
      → steps_left total d' < steps_left total d
  unfolding enqueue_chunk enqueue end_item shut_down
  DrainStep-steps_left (enqueues d k) =
      ground (arith, k, length-append d.work_queue.queue (d.next_batch ∷ []))
  DrainStep-steps_left (takes d b q e) =
      let (less, same) = pop_front-steps d.work_queue q b e in ground (arith, less, same)
  DrainStep-steps_left (skips d b m c) = ground (arith, length-remove_one b d.running m)
  DrainStep-steps_left (emits d b found m e) = ground (arith, length-remove_one b d.running m)
  DrainStep-steps_left (throws d b m) = ground (arith, length-remove_one b d.running m)
  DrainStep-steps_left (shuts d e) = ground (arith, e)

  -- A running chunk can end.
  running-step :
      (d : Drain)
      → ((b : ℕ)
          → (found : List ContentSearchMatchedFile) × (scan_batch g read_lines cancel ctx files
                batch b
              ≡ some found))
      → 0 < length d.running
      → (d' : Drain) × DrainStep g read_lines cancel ctx files batch total d d'
  running-step d scans k =
      let (b, m) = first-is_member d.running k in
      let (found, e) = scans b in (_, emits d b found m e)

  queue-step :
      (d : Drain)
      → 0 < length d.work_queue.queue
      → (d' : Drain) × DrainStep g read_lines cancel ctx files batch total d d'
  queue-step d k = let (b, rest, e) = front d.work_queue k in (_, takes d b rest e)

  abbrev pub count_steps :
      {d d' : Drain} → DrainSteps g read_lines cancel ctx files batch total d d' → ℕ
  count_steps here = 0
  count_steps (next r s) = suc (count_steps r)

  DrainSteps-steps_left :
      {d d' : Drain} (r : DrainSteps g read_lines cancel ctx files batch total d d')
      → count_steps r + steps_left total d' ≤ steps_left total d
  DrainSteps-steps_left here = omega arith
  DrainSteps-steps_left (next r s) = omega (arith, DrainSteps-steps_left r, DrainStep-steps_left s)

  counted-step :
      (d : Drain)
      → ((b : ℕ)
          → (found : List ContentSearchMatchedFile) × (scan_batch g read_lines cancel ctx files
                batch b
              ≡ some found))
      → IsCounted total d
      → 0 < d.remaining
      → (d' : Drain) × DrainStep g read_lines cancel ctx files batch total d d'
  counted-step d scans h k = elim (dec_lt d.next_batch total) [
    | yes more ↦ (_, enqueues d more)
    | no all ↦ elim (dec_lt 0 (length d.work_queue.queue)) [
      | yes waiting ↦ queue-step d waiting
      | no empty ↦ running-step d scans (omega (arith, h.0, h.1, k, all, empty))
    ]
  ]

  -- However the threads go on from the start of the search, where each scan ends: they make at most
  -- three steps for each chunk and one more, and unless the counter is 0 another step can be made. So
  -- the thread that searches does not wait for ever, whether chunks are cancelled, fail, or are refused
  -- because the queue was shut down.
  pub drain-ends :
      (q : WorkQueue ℕ) (d : Drain)
      → q.queue ≡ []
      → ((b : ℕ)
          → (found : List ContentSearchMatchedFile) × (scan_batch g read_lines cancel ctx files
                batch b
              ≡ some found))
      → (r : DrainSteps g read_lines cancel ctx files batch total (start_drain total q) d)
      → (count_steps r ≤ total * 3 + 1)
        × ((d.remaining ≡ 0)
            ⊎ ((d' : Drain) × DrainStep g read_lines cancel ctx files batch total d d'))
  drain-ends q d empty scans r =
      let counted =
        DrainSteps-IsCounted g read_lines ctx files cancel batch total r
          (start_drain-IsCounted total q empty) in
      (
        omega (arith, DrainSteps-steps_left r, start_drain-steps_left total q empty),
        elim (dec_lt 0 d.remaining) [
          | yes more ↦ inr (counted-step d scans counted more)
          | no over ↦ inl (omega (arith, over))
        ],
      )
