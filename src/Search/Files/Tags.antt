-- ===== src/Search/Files/Tags.antt =====
-- search/search_manager.cpp: what the search by tags finds, and its limit.
use vxcore.Search.Files.{matches_tags, is_truncated, tagged_from, get_matched_files_by_tags}
use vxcore.Prelude.{
  leb→le, ◌+◌, leb, inl, length-take, inr, ◌∙◌, refl, Bool-cases, zero, ap, sym, arith, length, ◌≤◌,
  [], ◌↔◌, ◌-◌, ◌&&◌, true, take, not, ◌≡◌, ◌<◌, if◌then◌else◌, ◌∷◌, ℕ, String, List,
}
use Prim.Native.Nat.{suc, max}
use vxcore.Search.Match.{SearchFileInfo}

-- The files with the tags, in the order they are given.
unfoldable pub tagged : List String → String → List SearchFileInfo → List SearchFileInfo
tagged tags tag_operator [] = []
tagged tags tag_operator (file ∷ files) =
    let rest = tagged tags tag_operator files in
    if not file.is_folder && matches_tags file.tags tags tag_operator then file ∷ rest else rest

take-nil : (n : ℕ) → take {A = SearchFileInfo} n [] ≡ []
take-nil zero = refl
take-nil (suc n) = refl

tagged_from-take :
    (tags : List String) (tag_operator : String) (max_results count : ℕ)
    (files : List SearchFileInfo)
    → count < max 1 max_results
    → tagged_from tags tag_operator max_results count files
      ≡ take (max 1 max_results - count) (tagged tags tag_operator files)
unfolding tagged_from tagged
tagged_from-take tags tag_operator max_results count [] k =
    sym (take-nil (max 1 max_results - count))
tagged_from-take tags tag_operator max_results count (file ∷ files) k =
    let n = max 1 max_results - count in
    let rest = tagged tags tag_operator files in
    let first : n ≡ suc (n - 1) = omega (arith, k) in
    let split = ap (λ m. take m (file ∷ rest)) first in
    elim (Bool-cases (not file.is_folder && matches_tags file.tags tags tag_operator)) [
      | inr other ↦
          ground (arith, other, tagged_from-take tags tag_operator max_results count files k)
      | inl here ↦ elim (Bool-cases (leb max_results (count + 1))) [
        | inl last ↦
            let end : n - 1 ≡ 0 = omega (arith, leb→le max_results (count + 1) last, k) in
            let none_left = ap (λ m. take m rest) end in
            ground (arith, here, last, split, none_left)
        | inr more ↦
            let below : count + 1 < max 1 max_results = ground (arith, more) in
            let next = tagged_from-take tags tag_operator max_results (count + 1) files below in
            let size : n - 1 ≡ max 1 max_results - (count + 1) = omega arith in
            let same = ap (λ m. take m rest) size in ground (arith, here, more, split, next, same)
      ]
    ]

-- A search by tags finds the files with the tags, in the order in which they are given, up to the limit,
-- and one at least where there is one, also if the limit is 0. The flag for a cut result is set exactly
-- if as many files as the limit were found.
get_matched_files_by_tags_lem :
    (tags : List String) (tag_operator : String) (max_results : ℕ) (files : List SearchFileInfo)
    → let found = get_matched_files_by_tags files tags tag_operator max_results in
      (found ≡ take (max 1 max_results) (tagged tags tag_operator files))
      × ((is_truncated found max_results ≡ true)
          ↔ (max_results ≤ length (tagged tags tag_operator files)))
unfolding get_matched_files_by_tags is_truncated
get_matched_files_by_tags_lem tags tag_operator max_results files =
    let m = max 1 max_results in
    let all = tagged tags tag_operator files in
    let z : m - 0 ≡ m = omega arith in
    let cut =
      tagged_from-take tags tag_operator max_results 0 files (omega arith)
      ∙ ap (λ k. take k all) z in
    let size = ap length cut ∙ length-take m all in
    (cut, (ground (arith, size), ground (arith, size)))
