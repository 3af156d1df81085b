-- ===== src/Snippets/Expand.antt =====
-- core/snippet_manager.cpp: how the symbols of a text are expanded. An index into a text is a number.
pub mod Cursor
pub mod Plain
use vxcore.Utils.Strings.{find}
use vxcore.Prelude.{
  not, ◌-◌, is_some, codes, ltb, false, ◌||◌, ◌&&◌, zero, true, ◌==◌, ◌+◌, drop, [], ◌++◌, some,
  none, length, if◌then◌else◌, ◌∷◌, take, suc, Option, Bool, ℕ, List, Bytes,
}

unfoldable pub bytes_eq : Bytes → Bytes → Bool
bytes_eq [] [] = true
bytes_eq (c ∷ s) (d ∷ t) = (c == d) && bytes_eq s t
bytes_eq _ _ = false

-- text.replace(pos, len, with)
unfoldable pub replace : Bytes → ℕ → ℕ → Bytes → Bytes
replace text pos len with_text = take pos text ++ with_text ++ drop (pos + len) text

-- The loop of ReplaceAll, from `pos` on; each round passes one byte of the text at least.
unfoldable pub replace_loop : ℕ → Bytes → Bytes → Bytes → ℕ → Bytes
replace_loop zero text mark replacement pos = text
replace_loop (suc fuel) text mark replacement pos = elim (find text mark pos) [
  | none ↦ text
  | some at_pos ↦
      replace_loop fuel (replace text at_pos (length mark) replacement) mark replacement
        (at_pos + length replacement)
]

unfoldable pub replace_all : Bytes → Bytes → Bytes → Bytes
replace_all text [] replacement = text
replace_all text (c ∷ mark) replacement =
    replace_loop (length text + 1) text (c ∷ mark) replacement 0

-- The loop over the lines: each behind the first is indented. A text that ends in a line break has no
-- further line.
unfoldable pub indent_lines : Bytes → Bytes → Bytes
indent_lines indentation [] = []
indent_lines indentation (c ∷ s) =
    let rest = indent_lines indentation s in
    if (c == 10) && ltb 0 (length s) then c ∷ (indentation ++ rest) else c ∷ rest

-- ApplyResult; `none` is the offset -1.
pub record ApplyResult : Type 0 where
  pub text : Bytes
  pub cursor_offset : Option ℕ

unfoldable pub split_at_mark : Bytes → Bytes → Bytes × Bytes
split_at_mark [] text = (text, [])
split_at_mark (c ∷ mark) text = elim (find text (c ∷ mark) 0) [
  | none ↦ (text, [])
  | some pos ↦ (take pos text, drop (pos + length (c ∷ mark)) text)
]

unfoldable pub apply_snippet_raw : Bytes → Bytes → Bytes → Bytes → Bytes → Bool → ApplyResult
apply_snippet_raw [] selected_text indentation cursor_mark selection_mark indent_first = record {
  text = [];
  cursor_offset = none;
}
apply_snippet_raw (c ∷ s) selected_text indentation cursor_mark selection_mark indent_first =
    let indented = if indent_first then indent_lines indentation (c ∷ s) else c ∷ s in
    let (before, behind) = split_at_mark cursor_mark indented in
    let before' = replace_all before selection_mark selected_text in
    let behind' = replace_all behind selection_mark selected_text in
    record { text = before' ++ behind'; cursor_offset = some (length before') }

-- What ResolveSnippetContent finds for a name that is not overridden: the value of a dynamic snippet, or
-- a text snippet with its marks.
pub data Resolved : Type 0 where
  value : Bytes → Resolved
  snippet : Bytes → Bytes → Bytes → Bool → Resolved

abbrev pub Overrides : Type 0
Overrides = List (Bytes × Bytes)

unfoldable pub find_override : Bytes → Overrides → Option Bytes
find_override name [] = none
find_override name ((key, v) ∷ overrides) =
    let later = find_override name overrides in if bytes_eq key name then some v else later

-- The spaces and tabs at the start of a line.
unfoldable pub leading_blanks : Bytes → Bytes
leading_blanks [] = []
leading_blanks (c ∷ s) =
    let rest = leading_blanks s in if (c == b' ') || (c == 9) then c ∷ rest else []

-- The text from the start of the line that `pos` stands on.
unfoldable pub line_from : Bytes → ℕ → Bytes → Bytes
line_from line zero text = line
line_from line (suc pos) [] = line
line_from line (suc pos) (c ∷ text) = line_from (if c == 10 then text else line) pos text

unfoldable pub extract_indentation : Bytes → ℕ → Bytes
extract_indentation text pos = leading_blanks (line_from text pos text)

-- The body of a loop round behind the search for a name: what stands in its place, if anything does.
module _ (resolve : Bytes → Option Resolved) (overrides : Overrides) (selected_text : Bytes) where
  unfoldable pub after_text : Bytes → ℕ → Bytes → Option Bytes
  after_text result open_pos name = elim (find_override name overrides) [
    | some v ↦ some v
    | none ↦ elim (resolve name) [
      | none ↦ none
      | some (value v) ↦ some v
      | some (snippet content cursor_mark selection_mark indent_first) ↦
          let raw =
            apply_snippet_raw content selected_text (extract_indentation result open_pos)
              cursor_mark selection_mark indent_first in
          some raw.text
    ]
  ]

-- The cursor after `len` bytes at `open_pos` gave way to `added` bytes.
unfoldable pub move_cursor : ℕ → ℕ → ℕ → Option ℕ → Option ℕ
move_cursor open_pos len added none = none
move_cursor open_pos len added (some c) =
    if ltb open_pos c
    then (if ltb c (open_pos + len) then some open_pos else some (c + added - len))
    else some c

-- The text and the cursor.
abbrev pub Expanded : Type 0
Expanded = Bytes × Option ℕ

abbrev pub AfterText : Type 0
AfterText = Bytes → ℕ → Bytes → Option Bytes

unfoldable pub symbol_name : Bytes → ℕ → ℕ → Bytes
symbol_name result open_pos close_pos = take (close_pos - open_pos - 1) (drop (open_pos + 1) result)

-- What one round finds from `pos` on: nothing more to expand, a name that is passed over up to the
-- second '%', or a name at the first '%' up to the second that gives way to a text.
pub data Symbol : Type 0 where
  no_symbol : Symbol
  unknown : ℕ → Symbol
  known : ℕ → ℕ → Bytes → Symbol

unfoldable pub next_symbol : AfterText → Bytes → ℕ → Symbol
next_symbol look result pos = elim (ltb pos (length result)) [
  | false ↦ no_symbol
  | true ↦ elim (find result (b'%' ∷ []) pos) [
    | none ↦ no_symbol
    | some open_pos ↦ elim (find result (b'%' ∷ []) (open_pos + 1)) [
      | none ↦ no_symbol
      | some close_pos ↦
          let name = symbol_name result open_pos close_pos in
          elim (length name == 0) [
            | true ↦ unknown close_pos
            | false ↦ elim (look result open_pos name) [
              | none ↦ unknown close_pos
              | some text ↦ known open_pos close_pos text
            ]
          ]
    ]
  ]
]

-- The loop of ExpandSymbols. The first number is the rounds left of kMaxTotalIterations, the second
-- `max_times_at_same_pos`.
unfoldable pub expand_loop : AfterText → ℕ → ℕ → ℕ → Option ℕ → Bytes → Expanded
expand_loop look zero same pos cursor result = (result, cursor)
expand_loop look (suc rounds) same pos cursor result = elim (next_symbol look result pos) [
  | no_symbol ↦ (result, cursor)
  | unknown close_pos ↦ expand_loop look rounds same (close_pos + 1) cursor result
  | known open_pos close_pos text ↦
      let len = close_pos - open_pos + 1 in
      let result' = replace result open_pos len text in
      let cursor' = move_cursor open_pos len (length text) cursor in
      let left = if pos == open_pos then same - 1 else 100 in
      elim (left == 0) [
        | true ↦ (result', cursor')
        | false ↦ expand_loop look rounds left open_pos cursor' result'
      ]
]

abbrev pub k_max_total_iterations : ℕ
k_max_total_iterations = 1000

unfoldable pub expand_symbols : AfterText → Bytes → Option ℕ → Expanded
expand_symbols look content cursor = expand_loop look k_max_total_iterations 100 0 cursor content

module _ (resolve : Bytes → Option Resolved) (overrides : Overrides) (selected_text : Bytes) where
  unfoldable pub apply_marks_and_expand : Bytes → Bytes → Bytes → Bytes → Bool → Bool → ApplyResult
  apply_marks_and_expand content indentation cursor_mark selection_mark indent_first
        detect_cursor_mark =
      let has_cursor_mark = ltb 0 (length cursor_mark) && is_some (find content cursor_mark 0) in
      let raw =
        apply_snippet_raw content selected_text indentation cursor_mark selection_mark
          indent_first in
      let cursor = if detect_cursor_mark && not has_cursor_mark then none else raw.cursor_offset in
      let (text, cursor') =
        expand_symbols (after_text resolve overrides selected_text) raw.text cursor in
      record { text = text; cursor_offset = cursor' }

  unfoldable pub expand_content : Bytes → Bytes → ApplyResult
  expand_content content indentation =
      apply_marks_and_expand content indentation (codes "@@") (codes "$$") false true
