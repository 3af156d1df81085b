-- ===== src/Tests/Streaming.antt =====
-- search/simple_search_backend.cpp at concrete inputs: three files, and two chunks.
use Prim.Native.Nat.{min}
use vxcore.Search.Streaming.Queued.Progress.{drain-ends, count_steps}
use vxcore.Search.Streaming.Queued.Refused.{refused-empty}
use vxcore.Search.Streaming.Queued.Result.{drained-all_files}
use vxcore.WorkQueue.{enqueue, new_queue, pop_front}
use vxcore.Search.Streaming.Queued.{
  is_inline, DrainStep, enqueues, emits, here, enqueue_chunk, takes, start_drain, next, DrainSteps,
  end_item, drained, Drain,
}
use vxcore.Errors.{vxcore_ok, is_ok}
use vxcore.Search.{
  matches_at, truncate, positions, do_pattern_match, SearchMatch, ContentSearchMatchedFile,
}
use vxcore.Search.Streaming.{
  set_chunk, resized, accumulate, finish_search, effective_batch, total_batches, scan_batch, Chunks,
  never, backend_search,
}
use vxcore.Search.Match.{
  scan_chunk, run_match, scan_lines, scan_file, has_flag, scan_from, build_match_context,
  SearchFileInfo, MatchContext,
}
use vxcore.Search.Streaming.Inline.{chunk_count, backend_search-all_files}
use vxcore.Utils.Strings.{
  starts_with, find_from, find, is_line_excluded, preprocess_exclude_patterns, RegexEngine,
}
use vxcore.Prelude.{
  ◌⊎◌, ◌++◌, drop, ◌-◌, ◌+◌, ◌≤◌, take, inl, ◌*◌, Bool-cases, arith, remove_one, is_member, refl,
  str_eq, inr, some, if◌then◌else◌, true, codes, Bytes, ◌∷◌, none, false, [], Option, ℕ, String,
  List, ◌≡◌,
}

-- No text is a regular expression.
abbrev no_regex : RegexEngine ℕ
no_regex = record { compile = λ p icase. none; search = λ r line. [] }

abbrev lines_of : String → Option (List Bytes)
lines_of path = if str_eq path "/c" then none else some (codes "ab" ∷ codes "xa" ∷ [])

abbrev file_at : String → SearchFileInfo
file_at path = record {
  path = path;
  absolute_path = path;
  name = path;
  id = path;
  tags = [];
  created_utc = 0;
  modified_utc = 0;
  is_folder = false;
}

abbrev three_files : List SearchFileInfo
three_files = file_at "/a" ∷ file_at "/b" ∷ file_at "/c" ∷ []

-- Case counts, and whole words do not.
abbrev letter_a : MatchContext ℕ
letter_a = record {
  regex = false;
  case_sensitive = true;
  whole_word = false;
  pattern_regex = none;
  lowercased_pattern = [];
  literal_pattern = codes "a";
  content_exclude_patterns = [];
  lowercased_exclude_patterns = [];
  exclude_regexes = [];
}

abbrev two_hits : List SearchMatch
two_hits =
    record { line_number = 1; column_start = 0; column_end = 1; line_text = codes "ab" }
    ∷ record { line_number = 2; column_start = 1; column_end = 2; line_text = codes "xa" }
    ∷ []

abbrev all_hits : List ContentSearchMatchedFile
all_hits =
    record { path = "/a"; id = "/a"; matches = two_hits }
    ∷ record { path = "/b"; id = "/b"; matches = two_hits }
    ∷ []

scan_three : scan_from no_regex lines_of (λ i. false) letter_a 0 three_files ≡ some all_hits
unfolding scan_from scan_file scan_lines run_match do_pattern_match positions is_line_excluded find
    find_from starts_with matches_at
scan_three = refl

context_a : build_match_context no_regex (codes "a") 1 [] ≡ inr letter_a
unfolding build_match_context has_flag preprocess_exclude_patterns is_ok
context_a = refl

backend_search-all_files_example :
    backend_search no_regex lines_of never three_files (codes "a") 1 [] 3
    ≡ some (vxcore_ok, truncate 3 all_hits)
backend_search-all_files_example =
    backend_search-all_files no_regex lines_of three_files b'a' [] 1 [] 3 letter_a all_hits
      context_a scan_three

-- Two chunks of two files; the second ends first.
abbrev at_step : ℕ → List ℕ → List ℕ → ℕ → Chunks → Drain
at_step loop waiting running remaining chunks = record {
  next_batch = loop;
  work_queue = record { queue = waiting; shutdown = false };
  running = running;
  remaining = remaining;
  chunks = chunks;
  first_exc = false;
}

abbrev last_step : Drain
last_step = at_step 2 [] [] 0 (all_hits ∷ [] ∷ [])

abbrev Run : Drain → Type 0
Run d =
    DrainSteps no_regex lines_of never letter_a three_files (effective_batch 2)
      (chunk_count no_regex lines_of 2 three_files)
      (start_drain (chunk_count no_regex lines_of 2 three_files) new_queue) d

chunks_queued : Run (at_step 2 (0 ∷ 1 ∷ []) [] 2 [])
unfolding total_batches effective_batch start_drain new_queue enqueue_chunk enqueue
chunks_queued =
    next (next here (enqueues (at_step 0 [] [] 2 []) (omega arith)))
      (enqueues (at_step 1 (0 ∷ []) [] 2 []) (omega arith))

chunks_running : Run (at_step 2 [] (1 ∷ 0 ∷ []) 2 [])
unfolding pop_front
chunks_running =
    next
      (next chunks_queued
        (takes (at_step 2 (0 ∷ 1 ∷ []) [] 2 []) 0 record { queue = 1 ∷ []; shutdown = false } refl))
      (takes (at_step 2 (1 ∷ []) (0 ∷ []) 2 []) 1 record { queue = []; shutdown = false } refl)

second_ended : Run (at_step 2 [] (0 ∷ []) 1 ([] ∷ [] ∷ []))
unfolding end_item is_member remove_one accumulate resized set_chunk scan_batch scan_chunk
    total_batches effective_batch scan_from scan_file
second_ended = next chunks_running (emits (at_step 2 [] (1 ∷ 0 ∷ []) 2 []) 1 [] refl refl)

all_ended : Run last_step
unfolding end_item is_member remove_one accumulate resized set_chunk scan_batch scan_chunk
    total_batches effective_batch scan_from scan_file scan_lines run_match do_pattern_match
    positions is_line_excluded find find_from starts_with matches_at
all_ended = next second_ended (emits (at_step 2 [] (0 ∷ []) 1 ([] ∷ [] ∷ [])) 0 all_hits refl refl)

drained-all_files_example :
    (drained never last_step ≡ some (vxcore_ok, all_hits ∷ [] ∷ []))
    × (finish_search 3 (vxcore_ok, all_hits ∷ [] ∷ []) ≡ (vxcore_ok, truncate 3 all_hits))
drained-all_files_example =
    drained-all_files no_regex lines_of letter_a three_files 2 3 all_hits last_step scan_three
      all_ended refl refl refl

-- Both chunks were offered, and the queue refused them.
abbrev both_refused : Drain
both_refused = record {
  next_batch = 2;
  work_queue = record { queue = []; shutdown = true };
  running = [];
  remaining = 0;
  chunks = [];
  first_exc = false;
}

refuse_both :
    DrainSteps no_regex lines_of never letter_a three_files 2 2
      (start_drain 2 record { queue = []; shutdown = true })
      both_refused
unfolding start_drain enqueue_chunk enqueue
refuse_both =
    next (next here (enqueues (start_drain 2 record { queue = []; shutdown = true }) (omega arith)))
      (enqueues (enqueue_chunk (start_drain 2 record { queue = []; shutdown = true }))
        (omega arith))

two_chunks : is_inline 2 (some record { queue = []; shutdown = true }) ≡ false
unfolding is_inline
two_chunks = refl

abbrev SmallStep : Drain → Drain → Type 0
SmallStep = DrainStep no_regex lines_of never letter_a three_files 2 2

refused-empty_example :
    (count_steps no_regex lines_of never letter_a three_files 2 2 refuse_both ≤ 2)
    × (((d' : Drain) × SmallStep both_refused d')
        ⊎ ((◌≡◌ {A = ℕ} 0 0)
            × (drained never both_refused ≡ some (vxcore_ok, []))
            × (finish_search 3 (vxcore_ok, [])
                ≡ (vxcore_ok, record { matched_files = []; truncated = false }))))
refused-empty_example =
    refused-empty no_regex lines_of never letter_a three_files 2 2 3
      record { queue = []; shutdown = true } both_refused two_chunks refl refl refl refuse_both

file_scanned :
    (file : SearchFileInfo)
    → (found : List ContentSearchMatchedFile) × (scan_file no_regex lines_of letter_a file
        ≡ some found)
unfolding scan_file scan_lines run_match do_pattern_match positions is_line_excluded find find_from
    starts_with matches_at
file_scanned file = elim (Bool-cases (str_eq file.absolute_path "/c")) [
  | inl missing ↦ ([], ground (arith, missing))
  | inr there ↦
      (record { path = file.path; id = file.id; matches = two_hits } ∷ [], ground (arith, there))
]

files_scanned :
    (i : ℕ) (files : List SearchFileInfo)
    → (found : List ContentSearchMatchedFile) × (scan_from no_regex lines_of
          (λ j. false)
          letter_a
          i
          files
        ≡ some found)
unfolding scan_from
files_scanned i [] = ([], refl)
files_scanned i (file ∷ files) =
    let (first, p) = file_scanned file in
    let (more, q) = files_scanned (i + 1) files in (first ++ more, ground (arith, p, q))

batch_scanned :
    (b : ℕ)
    → (found : List ContentSearchMatchedFile) × (scan_batch no_regex lines_of never letter_a
          three_files 2 b
        ≡ some found)
unfolding scan_batch scan_chunk
batch_scanned b =
    files_scanned (b * 2) (take (min (b * 2 + 2) 3 - b * 2) (drop (b * 2) three_files))

half_way :
    DrainSteps no_regex lines_of never letter_a three_files 2 2
      (start_drain 2 new_queue)
      (at_step 1 (0 ∷ []) [] 2 [])
unfolding start_drain new_queue enqueue_chunk enqueue
half_way = next here (enqueues (at_step 0 [] [] 2 []) (omega arith))

no_items : (new_queue {Item = ℕ}).queue ≡ []
unfolding new_queue
no_items = refl

drain-ends_example :
    (count_steps no_regex lines_of never letter_a three_files 2 2 half_way ≤ 2 * 3 + 1)
    × ((◌≡◌ {A = ℕ} 2 0) ⊎ ((d' : Drain) × SmallStep (at_step 1 (0 ∷ []) [] 2 []) d'))
drain-ends_example =
    drain-ends no_regex lines_of never letter_a three_files 2 2 new_queue
      (at_step 1 (0 ∷ []) [] 2 []) no_items batch_scanned half_way
