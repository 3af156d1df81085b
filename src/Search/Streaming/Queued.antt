-- ===== src/Search/Streaming/Queued.antt =====
-- search/simple_search_backend.cpp: the chunks as items of a work queue, run by any number of threads.
-- Of the queue, the items of one search are modelled; other items do not touch the search.
use vxcore.Errors.{vxcore_ok, err_cancelled, VxCoreError}
use vxcore.Utils.Strings.{RegexEngine}
use vxcore.WorkQueue.{shut_down, WorkQueue, enqueue, pop_front}
use vxcore.Search.Match.{MatchContext, SearchFileInfo}
use vxcore.Search.{ContentSearchMatchedFile}
use vxcore.Search.Streaming.{accumulate, scan_batch, CancelFlag, Chunks}
use vxcore.Prelude.{
  is_some, not, ◌||◌, ◌==◌, ◌<◌, true, is_member, ◌∷◌, some, zero, none, ◌-◌, ◌+◌, false, Bytes,
  Bool, suc, remove_one, if◌then◌else◌, [], String, Option, List, ℕ, ◌≡◌,
}
pub mod Accumulate
pub mod Kept
pub mod Result
pub mod Progress
pub mod Refused

-- The search while its chunks run: the loop that enqueues, by the chunk that is next; the queue of
-- chunks; those that a thread has taken; the counter; what the callback made of the chunks; and whether
-- an exception was kept.
pub record Drain : Type 0 where
  pub next_batch : ℕ
  pub work_queue : WorkQueue ℕ
  pub running : List ℕ
  pub remaining : ℕ
  pub chunks : Chunks
  pub first_exc : Bool

-- Whether the chunks run on the thread that searches, and not on the queue: a single chunk does, and so
-- do all where there is no queue.
unfoldable pub is_inline : ℕ → Option (WorkQueue ℕ) → Bool
is_inline total q = (total == 1) || not (is_some q)

unfoldable pub start_drain : ℕ → WorkQueue ℕ → Drain
start_drain total q = record {
  next_batch = 0;
  work_queue = q;
  running = [];
  remaining = total;
  chunks = [];
  first_exc = false;
}

-- A round of the loop that enqueues. A chunk that the queue refuses is counted off.
unfoldable pub enqueue_chunk : Drain → Drain
enqueue_chunk d =
    let (accepted, q) = enqueue d.next_batch d.work_queue in
    record d {
      next_batch = d.next_batch + 1;
      work_queue = q;
      remaining = if accepted then d.remaining else d.remaining - 1;
    }

-- The item of a chunk has ended; its guard counts it off.
unfoldable pub end_item : ℕ → Drain → Drain
end_item b d = record d { running = remove_one b d.running; remaining = d.remaining - 1 }

-- What is returned when the counter is 0: `none` where the exception is thrown again.
unfoldable pub drained : CancelFlag → Drain → Option (VxCoreError × Chunks)
drained cancel d =
    if d.first_exc
    then none
    else some (if cancel.at_end then err_cancelled else vxcore_ok, d.chunks)

module _ {R : Type 0} (g : RegexEngine R) (read_lines : String → Option (List Bytes))
    (cancel : CancelFlag) (ctx : MatchContext R) (files : List SearchFileInfo)
    (batch total : ℕ) where
  -- A step of the thread that searches, of one that runs items, or of one that shuts the queue down. Threads take chunks in the order of the queue; those that run end in any order.
  pub data DrainStep : Drain → Drain → Type 0 where
    enqueues : (d : Drain) → d.next_batch < total → DrainStep d (enqueue_chunk d)
    takes :
        (d : Drain) (b : ℕ) (q : WorkQueue ℕ)
        → pop_front d.work_queue ≡ some (b, q)
        → DrainStep d record d { work_queue = q; running = b ∷ d.running }
    skips :
        (d : Drain) (b : ℕ)
        → is_member b d.running ≡ true
        → cancel.before_batch b ≡ true
        → DrainStep d (end_item b d)
    emits :
        (d : Drain) (b : ℕ) (found : List ContentSearchMatchedFile)
        → is_member b d.running ≡ true
        → scan_batch g read_lines cancel ctx files batch b ≡ some found
        → DrainStep d (end_item b record d { chunks = accumulate b total found d.chunks })
    throws :
        (d : Drain) (b : ℕ)
        → is_member b d.running ≡ true
        → DrainStep d (end_item b record d { first_exc = true })
    shuts :
        (d : Drain)
        → d.work_queue.shutdown ≡ false
        → DrainStep d record d { work_queue = shut_down d.work_queue }

  pub data DrainSteps (d : Drain) : Drain → Type 0 where
    here : DrainSteps d d
    next : {d' d'' : Drain} → DrainSteps d d' → DrainStep d' d'' → DrainSteps d d''
