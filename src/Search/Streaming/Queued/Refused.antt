-- ===== src/Search/Streaming/Queued/Refused.antt =====
-- search/simple_search_backend.cpp: a search on a queue that was shut down.
use vxcore.Search.Streaming.Queued.Progress.{count_steps}
use native.Mathlib.Decide.{dec_lt}
use vxcore.Errors.{vxcore_ok, is_ok}
use vxcore.Search.Streaming.{reassemble, finish_search, CancelFlag}
use vxcore.WorkQueue.{pop_front, enqueue, WorkQueue}
use vxcore.Utils.Strings.{RegexEngine}
use vxcore.Search.Streaming.Queued.{
  shuts, throws, emits, skips, takes, is_inline, DrainStep, enqueues, next, here, enqueue_chunk,
  DrainSteps, start_drain, drained, Drain,
}
use vxcore.Search.Match.{MatchContext, SearchFileInfo}
use vxcore.Search.{cut_files, truncate}
use vxcore.Prelude.{
  inr, inl, ap, ◌⊎◌, ◌≢◌, ◌<◌, is_member, refl, arith, some, suc, ◌≤◌, true, false, Bytes, ◌-◌,
  List, [], Option, String, ℕ, ◌≡◌,
}

-- Nothing is queued, runs or was emitted, and the chunks that were offered are counted off.
record IsRefused (total rounds : ℕ) (d : Drain) : Type 0 where
  down : d.work_queue.shutdown ≡ true
  nothing_queued : d.work_queue.queue ≡ []
  nothing_runs : d.running ≡ []
  nothing_emitted : d.chunks ≡ []
  nothing_thrown : d.first_exc ≡ false
  offered : rounds ≡ d.next_batch
  bounded : d.next_batch ≤ total
  counted : d.remaining ≡ total - d.next_batch

pop_front-empty : (q rest : WorkQueue ℕ) (b : ℕ) → q.queue ≡ [] → pop_front q ≢ some (b, rest)
unfolding pop_front
pop_front-empty q rest b e h = ground (arith, e, h)

is_member-nothing : (b : ℕ) (xs : List ℕ) → xs ≡ [] → is_member b xs ≢ true
unfolding is_member
is_member-nothing b xs e h = ground (arith, ap (is_member b) e, h)

enqueue_chunk-IsRefused :
    (total rounds : ℕ) (d : Drain)
    → d.next_batch < total
    → IsRefused total rounds d
    → IsRefused total (suc rounds) (enqueue_chunk d)
unfolding enqueue_chunk enqueue
enqueue_chunk-IsRefused total rounds d k r =
    ground (arith, k, r.down, r.nothing_queued, r.counted, r.offered)

module _ {R : Type 0} (g : RegexEngine R) (read_lines : String → Option (List Bytes))
    (cancel : CancelFlag) (ctx : MatchContext R) (files : List SearchFileInfo)
    (batch total : ℕ) where
  DrainStep-IsRefused :
      (rounds : ℕ) {d d' : Drain}
      → DrainStep g read_lines cancel ctx files batch total d d'
      → IsRefused total rounds d
      → IsRefused total (suc rounds) d'
  DrainStep-IsRefused rounds (enqueues d k) r = enqueue_chunk-IsRefused total rounds d k r
  DrainStep-IsRefused rounds (takes d b q e) r =
      absurd (pop_front-empty d.work_queue q b r.nothing_queued e)
  DrainStep-IsRefused rounds (skips d b m c) r =
      absurd (is_member-nothing b d.running r.nothing_runs m)
  DrainStep-IsRefused rounds (emits d b found m e) r =
      absurd (is_member-nothing b d.running r.nothing_runs m)
  DrainStep-IsRefused rounds (throws d b m) r =
      absurd (is_member-nothing b d.running r.nothing_runs m)
  DrainStep-IsRefused rounds (shuts d e) r = absurd (cc (r.down, e))

  DrainSteps-IsRefused :
      {d d' : Drain} (r : DrainSteps g read_lines cancel ctx files batch total d d')
      → IsRefused total 0 d
      → IsRefused total (count_steps g read_lines cancel ctx files batch total r) d'
  DrainSteps-IsRefused here h = h
  DrainSteps-IsRefused (next r s) h =
      DrainStep-IsRefused (count_steps g read_lines cancel ctx files batch total r) s
        (DrainSteps-IsRefused r h)

  start-IsRefused :
      (q : WorkQueue ℕ) → q.queue ≡ [] → q.shutdown ≡ true → IsRefused total 0 (start_drain total q)
  unfolding start_drain
  start-IsRefused q empty down = record {
    down = down;
    nothing_queued = empty;
    nothing_runs = refl;
    nothing_emitted = refl;
    nothing_thrown = refl;
    offered = refl;
    bounded = omega arith;
    counted = omega arith;
  }

  -- A search of more than one chunk on a queue that was shut down and is empty, where the flag is not
  -- set at the end: however the threads go on, they make at most one step for each chunk, and either
  -- another one can be made, or the counter is 0 and the search reports success with a result that
  -- has no file and does not count as truncated.
  pub refused-empty :
      (max_results : ℕ) (q : WorkQueue ℕ) (d : Drain)
      → is_inline total (some q) ≡ false
      → q.queue ≡ []
      → q.shutdown ≡ true
      → cancel.at_end ≡ false
      → (r : DrainSteps g read_lines cancel ctx files batch total (start_drain total q) d)
      → (count_steps g read_lines cancel ctx files batch total r ≤ total)
        × (((d' : Drain) × DrainStep g read_lines cancel ctx files batch total d d')
            ⊎ ((d.remaining ≡ 0)
                × (drained cancel d ≡ some (vxcore_ok, []))
                × (finish_search max_results (vxcore_ok, [])
                    ≡ (vxcore_ok, record { matched_files = []; truncated = false }))))
  unfolding drained finish_search is_ok reassemble truncate cut_files
  refused-empty max_results q d queued empty down go_on r =
      let h = DrainSteps-IsRefused r (start-IsRefused q empty down) in
      (
        omega (arith, h.offered, h.bounded),
        elim (dec_lt d.next_batch total) [
          | yes more ↦ inl (enqueue_chunk d, enqueues d more)
          | no over ↦ inr (
            omega (arith, over, h.counted),
            ground (arith, go_on, h.nothing_thrown, h.nothing_emitted),
            refl,
          )
        ],
      )
