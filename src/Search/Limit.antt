-- ===== src/Search/Limit.antt =====
-- search/simple_search_backend.cpp: the limit on the number of results.
use Prim.Native.Nat.{min}
use vxcore.Search.{truncate, cut_files, SearchMatch, ContentSearchMatchedFile, cut_matches}
use vxcore.Prelude.{
  false, leb→le, ◌↔◌, refl, leb, true, inr, Bool-cases, inl, ◌⊎◌, ◌≤◌, arith, ◌<◌, [], ◌+◌, some,
  none, ◌≡◌, length, ◌∷◌, ℕ, List,
}

abbrev pub total : List ContentSearchMatchedFile → ℕ
total [] = 0
total (file ∷ files) = length file.matches + total files

-- Either all of a file is below the limit, or it is cut where the limit is reached.
cut_matches_lem :
    (limit n : ℕ) (ms : List SearchMatch)
    → n < limit
    → ((cut_matches limit n ms ≡ none) × (n + length ms < limit))
      ⊎ ((kept : List SearchMatch) × (cut_matches limit n ms ≡ some kept)
          × (n + length kept ≡ limit)
          × (limit ≤ n + length ms))
unfolding cut_matches
cut_matches_lem limit n [] k = inl (refl, omega (arith, k))
cut_matches_lem limit n (m ∷ ms) k = elim (Bool-cases (leb limit (n + 1))) [
  | inl last ↦
      let end = leb→le limit (n + 1) last in
      inr (m ∷ [], ground (arith, last), omega (arith, k, end), omega (arith, end))
  | inr more ↦
      let below : n + 1 < limit = ground (arith, more) in
      elim (cut_matches_lem limit (n + 1) ms below) [
        | inl all ↦ inl (ground (arith, more, all.0), omega (arith, all.1))
        | inr (kept, e, full, over) ↦
            inr (m ∷ kept, ground (arith, more, e), omega (arith, full), omega (arith, over))
      ]
]

cut_files_lem :
    (limit n : ℕ) (files : List ContentSearchMatchedFile)
    → n < limit
    → ((cut_files limit n files ≡ none) × (n + total files < limit))
      ⊎ ((kept : List ContentSearchMatchedFile) × (cut_files limit n files ≡ some kept)
          × (n + total kept ≡ limit)
          × (limit ≤ n + total files))
unfolding cut_files
cut_files_lem limit n [] k = inl (refl, omega (arith, k))
cut_files_lem limit n (file ∷ files) k = elim (cut_matches_lem limit n file.matches k) [
  | inr (kept, e, full, over) ↦ inr (
    record file { matches = kept } ∷ [],
    ground (arith, e),
    omega (arith, full),
    omega (arith, over),
  )
  | inl (e, below) ↦ elim (cut_files_lem limit (n + length file.matches) files below) [
    | inl all ↦ inl (ground (arith, e, all.0), omega (arith, all.1))
    | inr (kept, e', full, over) ↦
        inr (file ∷ kept, ground (arith, e, e'), omega (arith, full), omega (arith, over))
  ]
]

truncate-all :
    (max_results : ℕ) (files : List ContentSearchMatchedFile)
    → cut_files max_results 0 files ≡ none
    → truncate max_results files ≡ record { matched_files = files; truncated = false }
unfolding truncate
truncate-all max_results files e = ground (arith, e)

truncate-some :
    (max_results : ℕ) (files kept : List ContentSearchMatchedFile)
    → 0 < max_results
    → cut_files max_results 0 files ≡ some kept
    → truncate max_results files ≡ record { matched_files = kept; truncated = true }
unfolding truncate
truncate-some max_results files kept k e = ground (arith, e, k)

-- With a positive limit, the results have the matches that were found, or as many as the limit where
-- they are more, and they count as truncated exactly if the limit is reached.
truncate_lem :
    (max_results : ℕ) (files : List ContentSearchMatchedFile)
    → 0 < max_results
    → let r = truncate max_results files in
      (total r.matched_files ≡ min max_results (total files))
      × ((r.truncated ≡ true) ↔ (max_results ≤ total files))
truncate_lem max_results files k = elim (cut_files_lem max_results 0 files k) [
  | inl (e, below) ↦
      rw (truncate-all max_results files e) (omega (arith, below), ground (arith, below))
  | inr (kept, e, full, over) ↦
      rw (truncate-some max_results files kept k e)
        (omega (arith, full, over), ground (arith, over))
]
