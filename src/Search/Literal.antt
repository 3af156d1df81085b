-- ===== src/Search/Literal.antt =====
-- search/simple_search_backend.cpp: the loop of `DoPatternMatch` against its meaning.
use vxcore.Search.{matches_at, do_pattern_match, is_word, positions}
use vxcore.Utils.Strings.{to_lower_string, find, find_from, starts_with}
use vxcore.Prelude.{
  drop-drop, drop-all, subst, sym, length-drop, leb, Option-cases, not, inr, inl, false, Bool-cases,
  ◌&&◌, zero, true, if◌then◌else◌, ◌∙◌, ◌-◌, refl, ◌<◌, length, arith, ap, ◌≤◌, ◌+◌, [], suc, some,
  none, drop, ◌≡◌, ◌∷◌, List, Bytes, Bool, ℕ,
}

-- The positions of a text, read from the left, at which the pattern stands and `good` holds; behind a
-- position that is taken, the search goes on after the pattern. `skip` bytes are to be passed over,
-- and the text begins at position `i`.
unfoldable pub occurrences : (ℕ → Bool) → Bytes → ℕ → Bytes → ℕ → List ℕ
unfolding starts_with
occurrences good p skip [] i = []
occurrences good p (suc skip) (c ∷ t) i = occurrences good p skip t (i + 1)
occurrences good p zero (c ∷ t) i =
    let taken = occurrences good p (length p - 1) t (i + 1) in
    let passed = occurrences good p 0 t (i + 1) in
    if starts_with p (c ∷ t) && good i then i ∷ taken else passed

module _ (good : ℕ → Bool) (q : ℕ) (qs : Bytes) where
  abbrev p : Bytes
  p = q ∷ qs

  occurrences-skip :
      (skip : ℕ) (t : Bytes) (i : ℕ)
      → occurrences good p skip t i ≡ occurrences good p 0 (drop skip t) (i + skip)
  unfolding occurrences
  occurrences-skip zero t i = ap (occurrences good p 0 t) (omega arith)
  occurrences-skip (suc skip) [] i = refl
  occurrences-skip (suc skip) (c ∷ t) i =
      occurrences-skip skip t (i + 1) ∙ ap (occurrences good p 0 (drop skip t)) (omega arith)

  occurrences-none : (t : Bytes) (i : ℕ) → find_from p t i ≡ none → occurrences good p 0 t i ≡ []
  unfolding occurrences find_from
  occurrences-none [] i h = refl
  occurrences-none (c ∷ t) i h = ground (arith, occurrences-none t (i + 1), h)

  passed :
      (c : ℕ) (t : Bytes) (i : ℕ)
      → starts_with p (c ∷ t) ≡ false
      → occurrences good p 0 (c ∷ t) i ≡ occurrences good p 0 t (i + 1)
  unfolding occurrences
  passed c t i absent = ground (arith, absent)

  -- Up to the position that is found, `k` bytes from the start, nothing matches.
  occurrences-found :
      (t : Bytes) (i j : ℕ)
      → find_from p t i ≡ some j
      → (k : ℕ) × (j ≡ i + k)
        × (k < length t)
        × (starts_with p (drop k t) ≡ true)
        × (occurrences good p 0 t i ≡ occurrences good p 0 (drop k t) (i + k))
  unfolding find_from
  occurrences-found [] i j h = ground (arith, h)
  occurrences-found (c ∷ t) i j h = elim (Bool-cases (starts_with p (c ∷ t))) [
    | inl here ↦ (
      0,
      ground (arith, h, here),
      omega arith,
      here,
      ap (occurrences good p 0 (c ∷ t)) (omega arith),
    )
    | inr absent ↦
        let (k, e, b, st, o) = occurrences-found t (i + 1) j (ground (arith, h, absent)) in
        (
          suc k,
          omega (arith, e),
          omega (arith, b),
          st,
          passed c t i absent ∙ o ∙ ap (occurrences good p 0 (drop k t)) (omega arith),
        )
  ]

  occurrences-behind :
      (t : Bytes) (i : ℕ)
      → occurrences good p (length p - 1) t (i + 1)
        ≡ occurrences good p 0 (drop (length qs) t) (i + length p)
  occurrences-behind t i =
      let whole : length p - 1 ≡ length qs = omega arith in
      let end : i + 1 + length qs ≡ i + length p = omega arith in
      ap (λ k. occurrences good p k t (i + 1)) whole
      ∙ occurrences-skip (length qs) t (i + 1)
      ∙ ap (occurrences good p 0 (drop (length qs) t)) end

  occurrences-taken :
      (t : Bytes) (i : ℕ)
      → starts_with p t ≡ true
      → occurrences good p 0 t i ≡ (
          if good i
          then i ∷ occurrences good p 0 (drop (length p) t) (i + length p)
          else occurrences good p 0 (drop 1 t) (i + 1))
  unfolding occurrences
  occurrences-taken [] i h = ground (arith, h)
  occurrences-taken (c ∷ t) i h = ground (arith, occurrences-behind t i, h)

  find-none :
      (text : Bytes) (pos : ℕ)
      → find text p pos ≡ none
      → occurrences good p 0 (drop pos text) pos ≡ []
  unfolding find occurrences
  find-none text pos h = elim (Bool-cases (leb pos (length text))) [
    | inl inside ↦ occurrences-none (drop pos text) pos (ground (arith, h, inside))
    | inr over ↦ ap (λ t. occurrences good p 0 t pos) (drop-all pos text (ground (arith, over)))
  ]

  find-some :
      (text : Bytes) (pos j : ℕ)
      → find text p pos ≡ some j
      → (pos ≤ j)
        × (j < length text)
        × (starts_with p (drop j text) ≡ true)
        × (occurrences good p 0 (drop pos text) pos ≡ occurrences good p 0 (drop j text) j)
  unfolding find
  find-some text pos j h =
      let (k, e, b, st, o) = occurrences-found (drop pos text) pos j (ground (arith, h)) in
      let len = length-drop pos text in
      let there = drop-drop pos k text ∙ ap (λ n. drop n text) (sym e) in
      (
        omega (arith, e),
        omega (arith, e, b, len),
        subst (λ t. starts_with p t ≡ true) there st,
        o
            ∙ ap (λ t. occurrences good p 0 t (pos + k)) there
            ∙ ap (occurrences good p 0 (drop j text)) (sym e),
      )

  -- The loop finds what the text has, from any position on, with fuel for the rest of the text.
  positions-occurrences :
      (fuel : ℕ) (whole_word : Bool) (text line : Bytes) (pos : ℕ)
      → length text - pos < fuel
      → ((i : ℕ) → good i ≡ not (whole_word && not (is_word line (length p) i)))
      → positions fuel whole_word p text line pos ≡ some (occurrences good p 0 (drop pos text) pos)
  unfolding positions
  positions-occurrences zero whole_word text line pos enough g = absurd (omega (arith, enough))
  positions-occurrences (suc fuel) whole_word text line pos enough g =
      elim (Option-cases (find text p pos)) [
        | inl absent ↦ ground (arith, absent, find-none text pos absent)
        | inr (j, here) ↦
            let (after, inside, st, o) = find-some text pos j here in
            let taken = occurrences-taken (drop j text) j st in
            let behind =
              positions-occurrences fuel whole_word text line (j + length p)
                (omega (arith, enough, after, inside)) g in
            let next =
              positions-occurrences fuel whole_word text line (j + 1)
                (omega (arith, enough, after, inside)) g in
            ground (
              arith,
              here,
              behind,
              next,
              taken,
              o,
              g j,
              drop-drop j (length p) text,
              drop-drop j 1 text,
            )
      ]

-- For a pattern that is not empty, `DoPatternMatch` ends and gives a match for each occurrence, read
-- from the left and without overlap, of the pattern in the line, or in the lower-case line where case
-- does not count; with the option for whole words, for each occurrence between no alphanumeric bytes.
pub do_pattern_match-occurrences :
    (q : ℕ) (qs : Bytes) (case_sensitive whole_word : Bool) (line : Bytes) (number : ℕ)
    → let p = q ∷ qs in
      let text = if case_sensitive then line else to_lower_string line in
      let good = λ (i : ℕ). not (whole_word && not (is_word line (length p) i)) in
      do_pattern_match p case_sensitive whole_word line number
      ≡ some (matches_at (length p) line number (occurrences good p 0 text 0))
unfolding do_pattern_match
do_pattern_match-occurrences q qs case_sensitive whole_word line number =
    let p = q ∷ qs in
    let text = if case_sensitive then line else to_lower_string line in
    let good = λ (i : ℕ). not (whole_word && not (is_word line (length p) i)) in
    let all =
      positions-occurrences good q qs (length text + 1) whole_word text line 0 (omega arith)
        (λ i. refl) in
    ground (arith, all)

-- An empty pattern is found where it was found before, and the loop does not end.
positions-empty : (fuel : ℕ) (text line : Bytes) → positions fuel false [] text line 0 ≡ none
unfolding positions find find_from starts_with
positions-empty zero text line = refl
positions-empty (suc fuel) [] line = ground (arith, positions-empty fuel [] line)
positions-empty (suc fuel) (c ∷ text) line = ground (arith, positions-empty fuel (c ∷ text) line)
