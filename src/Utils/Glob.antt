-- ===== src/Utils/Glob.antt =====
-- utils/string_utils.cpp: `MatchesPattern`. An index into a text is the suffix that it leaves.
pub mod Correct
use vxcore.Prelude.{
  ℕ, zero, suc, ◌+◌, ◌*◌, Bool, true, false, ◌&&◌, ◌||◌, List, [], ◌∷◌, Option, none, some, ◌==◌,
  if◌then◌else◌, Bytes, length, is_some,
}
use vxcore.Utils.Strings.{find, to_lower_string}

unfoldable pub only_stars : Bytes → Bool
only_stars [] = true
only_stars (q ∷ p) = (q == b'*') && only_stars p

-- `star_idx` and `match_idx`: the pattern behind the last star, and the text that it was tried on
abbrev Back : Type 0
Back = Option (Bytes × Bytes)

abbrev Round : Type 0
Round = Bytes → Bytes → Back → Option Bool

-- The last two branches of the loop.
retry : Back → Round → Option Bool
unfolding only_stars
retry none next = some false
retry (some (bp, [])) next = some (only_stars bp)
retry (some (bp, c ∷ bt)) next = next bp bt (some (bp, bt))

-- The two loops; `none` means that the fuel ran out.
unfoldable pub match_loop : ℕ → Round
unfolding only_stars retry
match_loop zero p t back = none
match_loop (suc f) p [] back = some (only_stars p)
match_loop (suc f) [] (c ∷ t) back = retry back (match_loop f)
match_loop (suc f) (q ∷ p) (c ∷ t) back =
    let onward = match_loop f p t back in
    let starred = match_loop f p (c ∷ t) (some (p, c ∷ t)) in
    let again = retry back (match_loop f) in
    if (q == b'?') || (q == c) then onward else if q == b'*' then starred else again

abbrev holds : ℕ → Bytes → Bool
holds c p = is_some (find p (c ∷ []) 0)

abbrev match_fuel : Bytes → Bytes → ℕ
match_fuel t p = (length t + 1) * (length p + 1)

-- A pattern with no wildcard is a substring.
unfoldable pub matches_pattern : Bytes → Bytes → Option Bool
unfolding find match_loop
matches_pattern t p =
    let wild = match_loop (match_fuel t p) p t none in
    if holds b'*' p || holds b'?' p then wild else some (is_some (find t p 0))

unfoldable pub matches_pattern_case_insensitive : Bytes → Bytes → Option Bool
unfolding matches_pattern to_lower_string
matches_pattern_case_insensitive t p = matches_pattern (to_lower_string t) (to_lower_string p)

unfoldable pub matches_patterns : Bytes → List Bytes → Option Bool
unfolding matches_pattern
matches_patterns t [] = some false
matches_patterns t (p ∷ ps) =
    let rest = matches_patterns t ps in
    elim (matches_pattern t p) [ none ↦ none | some b ↦ if b then some true else rest ]
