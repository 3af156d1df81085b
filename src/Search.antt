-- ===== src/Search.antt =====
-- search/simple_search_backend.cpp: the matches of a line, and the limit on the results.
use vxcore.Utils.Strings.{to_lower_string, find}
use vxcore.Prelude.{
  true, ◌||◌, zero, ltb, ◌&&◌, some, length, get_elem?, [], ◌+◌, suc, not, leb, if◌then◌else◌,
  false, ◌∷◌, none, Bool, ℕ, String, Option, List, Bytes,
}
pub mod Literal
pub mod Limit
pub mod Match
pub mod Streaming
pub mod Files

pub record SearchMatch : Type 0 where
  pub line_number : ℕ
  pub column_start : ℕ
  pub column_end : ℕ
  pub line_text : Bytes

pub record ContentSearchMatchedFile : Type 0 where
  pub path : String
  pub id : String
  pub matches : List SearchMatch

pub record ContentSearchResult : Type 0 where
  pub matched_files : List ContentSearchMatchedFile
  pub truncated : Bool

-- std::isalnum in the "C" locale
unfoldable pub is_alnum : ℕ → Bool
is_alnum c = (leb b'0' c && leb c b'9') || (leb b'A' c && leb c b'Z') || (leb b'a' c && leb c b'z')

alnum_at : Option ℕ → Bool
unfolding is_alnum
alnum_at none = false
alnum_at (some c) = is_alnum c

before : Bytes → ℕ → Option ℕ
before line zero = none
before line (suc i) = get_elem? line i

-- No alphanumeric byte stands before position `i` of the line, nor `n` bytes behind it.
unfoldable pub is_word : Bytes → ℕ → ℕ → Bool
unfolding alnum_at before
is_word line n i = not (alnum_at (before line i)) && not (alnum_at (get_elem? line (i + n)))

-- The loop of `DoPatternMatch` from `pos` on: the positions of the matches. `text` is the line that is
-- searched, `line` the one whose letters count for whole words. `none`: the fuel is used up.
unfoldable pub positions : ℕ → Bool → Bytes → Bytes → Bytes → ℕ → Option (List ℕ)
unfolding is_word
positions zero whole_word p text line pos = none
positions (suc fuel) whole_word p text line pos = elim (find text p pos) [
  | none ↦ some []
  | some i ↦
      let after = positions fuel whole_word p text line (i + length p) in
      let next = positions fuel whole_word p text line (i + 1) in
      if whole_word && not (is_word line (length p) i)
      then next
      else elim after [ none ↦ none | some is ↦ some (i ∷ is) ]
]

unfoldable pub matches_at : ℕ → Bytes → ℕ → List ℕ → List SearchMatch
matches_at n line number [] = []
matches_at n line number (i ∷ is) =
    record { line_number = number; column_start = i; column_end = i + n; line_text = line }
    ∷ matches_at n line number is

-- The matches of a line; `none` where the loop does not end.
unfoldable pub do_pattern_match : Bytes → Bool → Bool → Bytes → ℕ → Option (List SearchMatch)
do_pattern_match p case_sensitive whole_word line number =
    let text = if case_sensitive then line else to_lower_string line in
    elim (positions (length text + 1) whole_word p text line 0) [
      | none ↦ none
      | some is ↦ some (matches_at (length p) line number is)
    ]

-- The loop over the matches of a file: `some` of the first of them, up to the one that reaches the
-- limit, and `none`, with the new total, where the limit is not reached.
unfoldable pub cut_matches : ℕ → ℕ → List SearchMatch → Option (List SearchMatch)
cut_matches limit total [] = none
cut_matches limit total (m ∷ ms) =
    let rest = cut_matches limit (total + 1) ms in
    if leb limit (total + 1)
    then some (m ∷ [])
    else elim rest [ none ↦ none | some kept ↦ some (m ∷ kept) ]

unfoldable pub cut_files :
    ℕ → ℕ → List ContentSearchMatchedFile → Option (List ContentSearchMatchedFile)
cut_files limit total [] = none
cut_files limit total (file ∷ files) =
    let rest = cut_files limit (total + length file.matches) files in
    elim (cut_matches limit total file.matches) [
      | none ↦ elim rest [ none ↦ none | some kept ↦ some (file ∷ kept) ]
      | some kept ↦ some (record file { matches = kept } ∷ [])
    ]

-- The end of `Search`; a limit that is not positive is no limit.
unfoldable pub truncate : ℕ → List ContentSearchMatchedFile → ContentSearchResult
truncate max_results files = elim (cut_files max_results 0 files) [
  | none ↦ record { matched_files = files; truncated = false }
  | some kept ↦
      if ltb 0 max_results
      then record { matched_files = kept; truncated = true }
      else record { matched_files = files; truncated = false }
]
