-- ===== src/Utils/Glob/Correct.antt =====
-- The loop of `MatchesPattern` against the meaning of the wildcards.
use vxcore.Prelude.{
  sym, ==_iff, ap, ◌∙◌, ℕ, zero, suc, ◌+◌, ◌*◌, ◌≤◌, ◌<◌, ◌≡◌, refl, Bool, true, false, ◌&&◌, ◌||◌,
  [], ◌∷◌, none, some, ◌==◌, if◌then◌else◌, Bytes, length, arith, All, Bool-cases, inl, inr,
}
use vxcore.Utils.Glob.{
  only_stars, Back, Round, retry, match_loop, match_fuel, holds, matches_pattern,
}

-- The meaning of a pattern: '*' stands for any text, '?' for any byte, and all else for itself.
pub glob : Bytes → Bytes → Bool
glob [] [] = true
glob [] (c ∷ t) = false
glob (q ∷ p) [] = (q == b'*') && glob p []
glob (q ∷ p) (c ∷ t) =
    if q == b'*' then glob p (c ∷ t) || glob (q ∷ p) t else ((q == b'?') || (q == c)) && glob p t

abbrev NoStar : Bytes → Type 0
NoStar = All (λ c. (c == b'*') ≡ false)

abbrev tail : Bytes → Bytes
tail [] = []
tail (c ∷ t) = t

abbrev star_then : Bytes → Bytes → Bool
star_then p = glob (b'*' ∷ p)

only_stars-eq-glob : (p : Bytes) → only_stars p ≡ glob p []
unfolding only_stars glob
only_stars-eq-glob [] = refl
only_stars-eq-glob (q ∷ p) = ground (arith, only_stars-eq-glob p)

two_stars : (p t : Bytes) → star_then (b'*' ∷ p) t ≡ star_then p t
unfolding glob
two_stars p [] = refl
two_stars p (c ∷ t) = ground (arith, two_stars p t)

-- Behind a star, a test and a byte can be dropped together.
drop_test :
    (q c : ℕ) (p t : Bytes)
    → (q == b'*') ≡ false
    → star_then (q ∷ p) (c ∷ t) ≡ true
    → star_then p t ≡ true
unfolding glob
drop_test q c p [] h m = ground arith
drop_test q c p (d ∷ t) h m = ground (arith, drop_test q d p t)

-- What is left to decide: the current attempt, or the last star one byte later.
abbrev pending : Back → Bool
pending none = false
pending (some (bp, bt)) = star_then bp (tail bt)

abbrev Saved : ℕ → ℕ → Bytes → Back → Type 0
Saved m k t none = Unit
Saved m k t (some (bp, bt)) = (length bp < k) × (length bt ≤ m) × (length t ≤ length bt) × NoStar bt

record Inv (f m k : ℕ) (p t : Bytes) (back : Back) : Type 0 where
  fuel : m * k + length p < f
  text_bound : length t ≤ m
  pattern_bound : length p < k
  no_star : NoStar t
  later : pending back ≡ true → star_then p t ≡ true
  saved : Saved m k t back

-- A star tries the text at hand, and then what is behind its first byte.
star_unfold : (p t : Bytes) → glob p t || star_then p (tail t) ≡ star_then p t
unfolding glob
star_unfold p [] = ground arith
star_unfold p (c ∷ t) = ground arith

Inv-restart :
    {f m k : ℕ} (p t : Bytes)
    → m * k + length p < f
    → length t ≤ m
    → length p < k
    → NoStar t
    → Inv f m k p t (some (p, t))
Inv-restart p t hf ht hp ns = record {
  fuel = hf;
  text_bound = ht;
  pattern_bound = hp;
  no_star = ns;
  later = λ h. ground (arith, star_unfold p t);
  saved = (hp, ht, omega arith, ns);
}

Inv-byte :
    (f m k q c : ℕ) (p t : Bytes) (back : Back)
    → Inv (suc f) m k (q ∷ p) (c ∷ t) back
    → (q == b'*') ≡ false
    → Inv f m k p t back
Inv-byte f m k q c p t back i h = record {
  fuel = omega arith;
  text_bound = omega arith;
  pattern_bound = omega arith;
  no_star = i.no_star.1;
  later = λ e. drop_test q c p t h (i.later e);
  saved = shorter back i.saved;
}
  where
    shorter : (b : Back) → Saved m k (c ∷ t) b → Saved m k t b
    shorter none v = tt
    shorter (some (bp, bt)) v = (v.0, v.1, omega arith, v.3)

retry_lem :
    (f m k c : ℕ) (p t : Bytes) (back : Back) (next : Round)
    → ((m' : ℕ) (p' t' : Bytes) (b : Back)
        → Inv f m' k p' t' b
        → next p' t' b ≡ some (glob p' t' || pending b))
    → Inv (suc f) m k p (c ∷ t) back
    → retry back next ≡ some (pending back)
unfolding retry
retry_lem f m k c p t none next ih i = refl
retry_lem f m k c p t (some (bp, [])) next ih i = absurd (omega (arith, i.saved.2))
retry_lem f zero k c p t (some (bp, x ∷ bs)) next ih i = absurd (omega (arith, i.text_bound))
retry_lem f (suc m) k c p t (some (bp, x ∷ bs)) next ih i =
    ih m bp bs (some (bp, bs)) (
      Inv-restart bp bs (omega (arith, i.fuel, i.saved.0)) (omega (arith, i.saved.1)) i.saved.0
        i.saved.3.1)
    ∙ ap some (star_unfold bp bs)

-- `or_later` closes a round in which the attempt at hand has become the whole question.
or_later : (a b : Bool) → (b ≡ true → a ≡ true) → a || b ≡ a
or_later true b h = refl
or_later false true h = sym (h refl)
or_later false false h = refl

-- The round in which the pattern's star is saved.
star_round :
    (q c : ℕ) (p t : Bytes) (back : Back)
    → (q == b'*') ≡ true
    → (pending back ≡ true → star_then (q ∷ p) (c ∷ t) ≡ true)
    → glob p (c ∷ t) || star_then p t ≡ glob (q ∷ p) (c ∷ t) || pending back
star_round q c p t back h later =
    let e = (==_iff q b'*').0 h in
    rw e (
      star_unfold p (c ∷ t)
      ∙ sym (
          or_later (star_then p (c ∷ t)) (pending back)
            (λ b. sym (two_stars p (c ∷ t)) ∙ (rw e at (later b)))))

module _ (f m k : ℕ)
    (ih : (m' : ℕ) (p' t' : Bytes) (b : Back)
      → Inv f m' k p' t' b
      → match_loop f p' t' b ≡ some (glob p' t' || pending b)) where
  round_lem :
      (q c : ℕ) (p t : Bytes) (back : Back)
      → Inv (suc f) m k (q ∷ p) (c ∷ t) back
      → match_loop (suc f) (q ∷ p) (c ∷ t) back ≡ some (glob (q ∷ p) (c ∷ t) || pending back)
  unfolding match_loop glob
  round_lem q c p t back i = elim (Bool-cases (q == b'*')) [
    | inl star ↦
        let r = ih m p (c ∷ t) (some (p, c ∷ t)) (
          Inv-restart p (c ∷ t) (omega (arith, i.fuel)) i.text_bound
            (omega (arith, i.pattern_bound)) i.no_star) in
        let e = star_round q c p t back star i.later in ground (arith, star, i.no_star.0, r, e)
    | inr other ↦
        let r = ih m p t back (Inv-byte f m k q c p t back i other) in
        let v = retry_lem f m k c (q ∷ p) t back (match_loop f) ih i in ground (arith, other, r, v)
  ]

match_loop_lem :
    (f m k : ℕ) (p t : Bytes) (back : Back)
    → Inv f m k p t back
    → match_loop f p t back ≡ some (glob p t || pending back)
unfolding match_loop glob
match_loop_lem zero m k p t back i = absurd (omega (arith, i.fuel))
match_loop_lem (suc f) m k p [] back i =
    ap some (only_stars-eq-glob p ∙ sym (or_later (glob p []) (pending back) (λ b. i.later b)))
match_loop_lem (suc f) m k [] (c ∷ t) back i =
    retry_lem f m k c [] t back (match_loop f) (λ m' p' t' b j. match_loop_lem f m' k p' t' b j) i
match_loop_lem (suc f) m k (q ∷ p) (c ∷ t) back i =
    round_lem f m k (λ m' p' t' b j. match_loop_lem f m' k p' t' b j) q c p t back i

-- A pattern with a wildcard: on a text without the byte '*' the loop stops within its fuel and
-- answers by the meaning of the pattern.
pub matches_pattern-glob :
    (t p : Bytes)
    → holds b'*' p || holds b'?' p ≡ true
    → NoStar t
    → matches_pattern t p ≡ some (glob p t)
unfolding matches_pattern
matches_pattern-glob t p wild ns =
    let i : Inv (match_fuel t p) (length t) (length p + 1) p t none = record {
      fuel = omega arith;
      text_bound = omega arith;
      pattern_bound = omega arith;
      no_star = ns;
      later = λ h. cc h;
      saved = tt;
    } in
    rw wild (
      match_loop_lem (match_fuel t p) (length t) (length p + 1) p t none i ∙ ap some (ground arith))

-- A byte '*' of the text is taken for the pattern's star and matches it alone: for bytes c, d with c
-- not a wildcard and not d, "*c" does not match "*dc", though '*' stands for any text.
pub matches_pattern-star_in_text :
    (c d : ℕ)
    → (c == b'*') ≡ false
    → (c == b'?') ≡ false
    → (c == d) ≡ false
    → (matches_pattern (b'*' ∷ d ∷ c ∷ []) (b'*' ∷ c ∷ []) ≡ some false)
      × (glob (b'*' ∷ c ∷ []) (b'*' ∷ d ∷ c ∷ []) ≡ true)
unfolding matches_pattern glob
matches_pattern-star_in_text c d h k n = ground arith
