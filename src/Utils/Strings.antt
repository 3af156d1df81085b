-- ===== src/Utils/Strings.antt =====
-- utils/string_utils.cpp: lower case, substrings and excluded lines. A text is the list of its bytes.
use vxcore.Prelude.{
  ℕ, ◌+◌, Bool, true, false, not, ◌&&◌, ◌||◌, List, [], ◌∷◌, map, Option, none, some, leb, ◌==◌,
  if◌then◌else◌, Bytes, length, drop, is_some,
}
use vxcore.Errors.{VxCoreError, vxcore_ok, err_invalid_param}

-- std::tolower in the C locale, on one byte
unfoldable pub tolower : ℕ → ℕ
tolower c = if leb b'A' c && leb c b'Z' then c + 32 else c

unfoldable pub to_lower_string : Bytes → Bytes
unfolding tolower
to_lower_string = map tolower

unfoldable pub starts_with : Bytes → Bytes → Bool
starts_with [] t = true
starts_with (c ∷ p) [] = false
starts_with (c ∷ p) (d ∷ t) = (c == d) && starts_with p t

-- The first position from `i` on at which `p` stands; `t` is the text from there.
unfoldable pub find_from : Bytes → Bytes → ℕ → Option ℕ
unfolding starts_with
find_from p [] i = if starts_with p [] then some i else none
find_from p (c ∷ t) i =
    let later = find_from p t (i + 1) in if starts_with p (c ∷ t) then some i else later

-- std::string::find(p, pos); `none` is npos
unfoldable pub find : Bytes → Bytes → ℕ → Option ℕ
unfolding find_from
find t p pos = if leb pos (length t) then find_from p (drop pos t) pos else none

-- `line.find(p) != npos` for one of the patterns
unfoldable pub contains_any : Bytes → List Bytes → Bool
unfolding find
contains_any line [] = false
contains_any line (p ∷ ps) = is_some (find line p 0) || contains_any line ps

abbrev pub is_empty {ℓ} : {A : Type ℓ} → List A → Bool
is_empty [] = true
is_empty (x ∷ xs) = false

-- std::regex: what a text compiles to, and the matches in a line by position and length.
pub record RegexEngine (R : Type 0) : Type 0 where
  pub compile : Bytes → Bool → Option R
  pub search : R → Bytes → List (ℕ × ℕ)

module _ {R : Type 0} (g : RegexEngine R) where
  -- The regexes of all patterns; the flag asks to ignore the case.
  compile_all : List Bytes → Bool → Option (List R)
  compile_all [] icase = some []
  compile_all (p ∷ ps) icase = elim (g.compile p icase) [
    | none ↦ none
    | some r ↦ elim (compile_all ps icase) [ none ↦ none | some rs ↦ some (r ∷ rs) ]
  ]

  -- `out_patterns` and `out_regexes`, which are empty when it is called
  unfoldable pub preprocess_exclude_patterns :
      List Bytes → Bool → Bool → VxCoreError × List Bytes × List R
  unfolding compile_all to_lower_string
  preprocess_exclude_patterns raw case_sensitive regex =
      if is_empty raw
      then (vxcore_ok, [], [])
      else if regex
      then (elim (compile_all raw (not case_sensitive)) [
        | none ↦ (err_invalid_param, [], [])
        | some rs ↦ (vxcore_ok, [], rs)
      ])
      else if not case_sensitive
      then (vxcore_ok, map to_lower_string raw, [])
      else (vxcore_ok, [], [])

  regex_any : Bytes → List R → Bool
  regex_any line [] = false
  regex_any line (r ∷ rs) = not (is_empty (g.search r line)) || regex_any line rs

  unfoldable pub is_line_excluded : Bytes → List Bytes → List Bytes → List R → Bool
  unfolding regex_any contains_any to_lower_string
  is_line_excluded line excludes lowered regexes =
      if is_empty excludes
      then false
      else if not (is_empty regexes)
      then regex_any line regexes
      else if not (is_empty lowered)
      then contains_any (to_lower_string line) lowered
      else contains_any line excludes
