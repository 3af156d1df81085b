-- ===== src/Tests/Snippets.antt =====
-- core/snippet_manager.cpp at concrete inputs.
use vxcore.Utils.Decimal.{to_string, digits}
use vxcore.Errors.{vxcore_ok, err_io}
use vxcore.Snippets.Manager.{SnippetFiles}
use vxcore.Folders.Available.{
  get_available_name_lem, FirstFree, split_extension, last_dot, candidate, available_loop,
  get_available_name,
}
use vxcore.Utils.Strings.{find}
use vxcore.Snippets.Expand.Plain.Result.{expand_symbols-one_pass}
use vxcore.Snippets.Expand.Cursor.{expand_content-cursor, IsInText}
use vxcore.Snippets.Expand.Plain.{symbol_text, expand_once, count_percent}
use vxcore.Snippets.Expand.{
  symbol_name, split_at_mark, replace_loop, replace_all, replace, next_symbol, move_cursor,
  expand_loop, bytes_eq, apply_snippet_raw, apply_marks_and_expand, Resolved, expand_symbols,
  find_override, expand_content, after_text, Overrides,
}
use vxcore.Prelude.{
  if◌then◌else◌, ◌⊎◌, ◌||◌, inr, inl, true, false, Bool, is_some, ◌∷◌, arith, [], ℕ, some, refl,
  none, codes, Option, ◌≡◌, Bytes,
}
use vxcore.Snippets.Week.{
  iso_week_number_lem, week_of_thursday, iso_week, from_monday, is_leap, days_in, Tm,
  iso_week_number,
}

-- 1 January 2027, a Friday: the week belongs to 2026.
abbrev new_year : Tm
new_year = record { mday = 1; mon = 0; year = 2027; yday = 0; wday = 5; hour = 9; min = 5; sec = 0 }

iso_week_number_lem_example :
    iso_week_number new_year ≡ week_of_thursday (days_in 2026) (days_in 2027) 1 (from_monday 5)
unfolding days_in is_leap
iso_week_number_lem_example = iso_week_number_lem new_year (omega arith) (omega arith)

week_of_new_year : iso_week_number new_year ≡ 53
unfolding iso_week_number iso_week from_monday days_in is_leap
week_of_new_year = refl

-- "%a%" stands for "1" and "%b%" for nothing.
abbrev two_names : Overrides
two_names = (codes "a", codes "1") ∷ (codes "b", []) ∷ []

abbrev no_snippets : Bytes → Option Resolved
no_snippets name = none

abbrev two_values : Bytes → Option Bytes
two_values name = find_override name two_names

two_values-plain : (name text : Bytes) → two_values name ≡ some text → count_percent text ≡ 0
unfolding find_override count_percent
two_values-plain name text h = ground (arith, h)

look_lem :
    (text : Bytes) (open_pos : ℕ) (name : Bytes)
    → after_text no_snippets two_names [] text open_pos name ≡ two_values name
unfolding after_text
look_lem text open_pos name = ground arith

expand_symbols-one_pass_example :
    (expand_symbols (after_text no_snippets two_names []) (codes "x%a%%%c%b%") none).0
    ≡ expand_once two_values none (codes "x%a%%%c%b%")
unfolding count_percent
expand_symbols-one_pass_example =
    expand_symbols-one_pass (after_text no_snippets two_names []) two_values look_lem
      two_values-plain (codes "x%a%%%c%b%") none (omega arith)

expands_in_one_pass : expand_once two_values none (codes "x%a%%%c%b%") ≡ codes "x1%%c"
unfolding expand_once symbol_text find_override bytes_eq
expands_in_one_pass = refl

expand_content-cursor_example :
    let r = expand_content no_snippets two_names (codes "sel") (codes "%a%-@@$$") [] in
    IsInText r.cursor_offset r.text
    × (is_some r.cursor_offset ≡ is_some (find (codes "%a%-@@$$") (codes "@@") 0))
expand_content-cursor_example =
    expand_content-cursor no_snippets two_names (codes "sel") (codes "%a%-@@$$") []

caret_behind_dash :
    expand_content no_snippets two_names (codes "sel") (codes "%a%-@@$$") []
    ≡ record { text = codes "1-sel"; cursor_offset = some 2 }
unfolding expand_content apply_marks_and_expand expand_symbols expand_loop next_symbol
    apply_snippet_raw replace_all replace_loop split_at_mark find replace symbol_name after_text
    find_override bytes_eq move_cursor
caret_behind_dash = refl

-- A disk is a function from paths; JSON is its own text, with all fields missing.
abbrev Disk : Type 0
Disk = Bytes → Option Bytes

abbrev files : SnippetFiles Disk Bytes
files = record {
  create_directories = λ d. (true, d);
  exists = λ path d. is_some (d path);
  read_file = λ path d. elim (d path) [ none ↦ inl err_io | some text ↦ inr text ];
  write_file = λ path text d. (vxcore_ok, λ p. if bytes_eq path p then some text else d p);
  remove = λ path d. (true, λ p. if bytes_eq path p then none else d p);
  rename = λ path path' d. (true, λ p. if bytes_eq path' p then d path else d p);
  entries = λ d. [];
  parse = λ text. some text;
  text_field = λ key j. some none;
  bool_field = λ key j. some none;
}

-- "a.md" and "a_1.md" are taken.
abbrev taken : Bytes → Bool
taken name = bytes_eq name (codes "a.md") || bytes_eq name (codes "a_1.md")

next_free_name : get_available_name taken (codes "a.md") ≡ inr (codes "a_2.md")
unfolding get_available_name bytes_eq available_loop candidate split_extension last_dot to_string
    digits
next_free_name = refl

get_available_name_lem_example :
    ((taken (codes "a.md") ≡ false)
      × (get_available_name taken (codes "a.md") ≡ inr (codes "a.md")))
    ⊎ ((taken (codes "a.md") ≡ true)
        × FirstFree taken (codes "a.md") 1 10000 (get_available_name taken (codes "a.md")))
get_available_name_lem_example = get_available_name_lem taken (b'a') (codes ".md")
