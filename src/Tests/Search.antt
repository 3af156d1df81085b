-- ===== src/Tests/Search.antt =====
-- search/ at concrete inputs.
use vxcore.Search.Match.{SearchFileInfo}
use vxcore.Search.Files.{all_in, matches_tags, tagged_from, get_matched_files_by_tags}
use vxcore.Utils.Strings.{starts_with}
use vxcore.Search.Literal.{do_pattern_match-occurrences, occurrences}
use vxcore.Search.{is_word, matches_at, do_pattern_match}
use vxcore.Prelude.{
  map, length, take, false, String, refl, arith, ◌&&◌, ◌≤◌, not, ◌↔◌, some, ◌≡◌, ◌∷◌, true, [],
  codes, List,
}

do_pattern_match-occurrences_example :
    do_pattern_match (codes "aa") true true (codes "aa aaa aa") 3
    ≡ some (
        matches_at 2 (codes "aa aaa aa") 3 (
          occurrences
            (λ i. not (true && not (is_word (codes "aa aaa aa") 2 i)))
            (codes "aa")
            0
            (codes "aa aaa aa")
            0))
do_pattern_match-occurrences_example =
    do_pattern_match-occurrences b'a' (codes "a") true true (codes "aa aaa aa") 3

whole_words :
    occurrences
      (λ i. not (true && not (is_word (codes "aa aaa aa") 2 i)))
      (codes "aa")
      0
      (codes "aa aaa aa")
      0
    ≡ 0 ∷ 7 ∷ []
unfolding occurrences is_word starts_with
whole_words = refl

abbrev tagged_file : String → List String → SearchFileInfo
tagged_file path tags = record {
  path = path;
  absolute_path = "";
  name = path;
  id = path;
  tags = tags;
  created_utc = 0;
  modified_utc = 0;
  is_folder = false;
}

abbrev tagged_files : List SearchFileInfo
tagged_files =
    tagged_file "a" ("x" ∷ [])
    ∷ tagged_file "b" []
    ∷ tagged_file "c" ("y" ∷ "x" ∷ [])
    ∷ tagged_file "d" ("x" ∷ [])
    ∷ []

found_by_tag :
    map (λ f. f.path) (get_matched_files_by_tags tagged_files ("x" ∷ []) "AND" 2) ≡ "a" ∷ "c" ∷ []
unfolding get_matched_files_by_tags tagged_from matches_tags all_in vxcore.Prelude.contains
found_by_tag = refl
