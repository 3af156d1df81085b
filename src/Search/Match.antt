-- ===== src/Search/Match.antt =====
-- search/simple_search_backend.cpp: a line against a query, and the scan of files.
use vxcore.Errors.{is_ok, err_invalid_param, VxCoreError}
use vxcore.Prelude.{
  inr, inl, true, is_some, ◌++◌, ◌&&◌, false, ◌+◌, drop, ◌⊎◌, ◌∷◌, ◌==◌, ◌-◌, not, [], ◌%◌, take,
  some, none, if◌then◌else◌, ◌/◌, Option, List, ℕ, String, Bytes, Bool,
}
use vxcore.Search.{do_pattern_match, SearchMatch, ContentSearchMatchedFile}
use vxcore.Utils.Strings.{
  to_lower_string, is_line_excluded, preprocess_exclude_patterns, RegexEngine,
}

-- search/search_query.h, the bits of SearchOption
abbrev pub k_case_sensitive : ℕ
k_case_sensitive = 1

abbrev pub k_whole_word : ℕ
k_whole_word = 2

abbrev pub k_regex : ℕ
k_regex = 4

-- HasFlag for a flag of one bit
unfoldable pub has_flag : ℕ → ℕ → Bool
has_flag flags flag = flags / flag % 2 == 1

pub record SearchFileInfo : Type 0 where
  pub path : String
  pub absolute_path : String
  pub name : String
  pub id : String
  pub tags : List String
  pub created_utc : ℕ
  pub modified_utc : ℕ
  pub is_folder : Bool

-- A regex that was not compiled stands for the empty one, and is not used.
pub record MatchContext (R : Type 0) : Type 0 where
  pub regex : Bool
  pub case_sensitive : Bool
  pub whole_word : Bool
  pub pattern_regex : Option R
  pub lowercased_pattern : Bytes
  pub literal_pattern : Bytes
  pub content_exclude_patterns : List Bytes
  pub lowercased_exclude_patterns : List Bytes
  pub exclude_regexes : List R

unfoldable pub regex_matches : Bytes → ℕ → List (ℕ × ℕ) → List SearchMatch
regex_matches line number [] = []
regex_matches line number ((position, len) ∷ ms) =
    record {
      line_number = number;
      column_start = position;
      column_end = position + len;
      line_text = line;
    }
    ∷ regex_matches line number ms

module _ {R : Type 0} (g : RegexEngine R) where
  unfoldable pub do_regex_match : R → Bytes → ℕ → List SearchMatch
  do_regex_match r line number = regex_matches line number (g.search r line)

  -- The pattern as the options ask for it, with the lists of the exclude patterns.
  unfoldable pub build_match_context : Bytes → ℕ → List Bytes → VxCoreError ⊎ MatchContext R
  build_match_context pattern options excludes =
      let case_sensitive = has_flag options k_case_sensitive in
      let regex = has_flag options k_regex in
      let compiled = if regex then g.compile pattern (not case_sensitive) else none in
      let (err, lowered, regexes) = preprocess_exclude_patterns g excludes case_sensitive regex in
      let ctx : MatchContext R = record {
        regex = regex;
        case_sensitive = case_sensitive;
        whole_word = has_flag options k_whole_word;
        pattern_regex = compiled;
        lowercased_pattern =
            if not regex && not case_sensitive then to_lower_string pattern else [];
        literal_pattern = if not regex && case_sensitive then pattern else [];
        content_exclude_patterns = excludes;
        lowercased_exclude_patterns = lowered;
        exclude_regexes = regexes;
      } in
      if regex && not (is_some compiled)
      then inl err_invalid_param
      else if is_ok err
      then inr ctx
      else inl err

  -- The matches of a line; `none` where the search for an empty pattern does not end.
  unfoldable pub run_match : MatchContext R → Bytes → ℕ → Option (List SearchMatch)
  run_match ctx line number =
      if ctx.regex
      then (elim ctx.pattern_regex [
        | none ↦ some []
        | some r ↦ some (do_regex_match r line number)
      ])
      else if not ctx.case_sensitive
      then do_pattern_match ctx.lowercased_pattern false ctx.whole_word line number
      else do_pattern_match ctx.literal_pattern true ctx.whole_word line number

  -- The loop over the lines of a file, from line `number` on.
  unfoldable pub scan_lines : MatchContext R → ℕ → List Bytes → Option (List SearchMatch)
  scan_lines ctx number [] = some []
  scan_lines ctx number (line ∷ lines) =
      let rest = scan_lines ctx (number + 1) lines in
      if is_line_excluded g line ctx.content_exclude_patterns ctx.lowercased_exclude_patterns
        ctx.exclude_regexes
      then rest
      else (elim (run_match ctx line number) [
        | none ↦ none
        | some here ↦ elim rest [ none ↦ none | some ms ↦ some (here ++ ms) ]
      ])

  -- SimpleSearchBackend::MatchesPattern on one line
  unfoldable pub matches_line : Bytes → Bytes → ℕ → Option (List SearchMatch)
  matches_line line pattern options =
      let case_sensitive = has_flag options k_case_sensitive in
      let whole_word = has_flag options k_whole_word in
      if has_flag options k_regex
      then (elim (g.compile pattern (not case_sensitive)) [
        | none ↦ some []
        | some r ↦ some (do_regex_match r line 0)
      ])
      else if not case_sensitive
      then do_pattern_match (to_lower_string pattern) false whole_word line 0
      else do_pattern_match pattern true whole_word line 0

-- `read_lines path` is the lines of the file, `none` where it cannot be opened.
module _ {R : Type 0} (g : RegexEngine R) (read_lines : String → Option (List Bytes)) where
  -- What a file adds to the results: nothing where it cannot be read or has no match.
  unfoldable pub scan_file :
      MatchContext R → SearchFileInfo → Option (List ContentSearchMatchedFile)
  scan_file ctx file = elim (read_lines file.absolute_path) [
    | none ↦ some []
    | some lines ↦ elim (scan_lines g ctx 1 lines) [
      | none ↦ none
      | some [] ↦ some []
      | some (m ∷ ms) ↦ some (record { path = file.path; id = file.id; matches = m ∷ ms } ∷ [])
    ]
  ]

  -- The loop over the files from index `i` on; `cancelled i` is what the cancel flag says before
  -- file `i`.
  unfoldable pub scan_from :
      (ℕ → Bool) → MatchContext R → ℕ → List SearchFileInfo → Option (List ContentSearchMatchedFile)
  scan_from cancelled ctx i [] = some []
  scan_from cancelled ctx i (file ∷ files) =
      let rest = scan_from cancelled ctx (i + 1) files in
      if cancelled i then some [] else (elim (scan_file ctx file) [
        | none ↦ none
        | some here ↦ elim rest [ none ↦ none | some more ↦ some (here ++ more) ]
      ])

  unfoldable pub scan_chunk :
      (ℕ → Bool)
      → MatchContext R
      → List SearchFileInfo
      → ℕ
      → ℕ
      → Option (List ContentSearchMatchedFile)
  scan_chunk cancelled ctx files begin end =
      scan_from cancelled ctx begin (take (end - begin) (drop begin files))
