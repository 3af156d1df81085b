-- ===== src/Snippets/Expand/Plain.antt =====
-- core/snippet_manager.cpp: what ExpandSymbols means where no symbol stands for further symbols.
use vxcore.Utils.Strings.{starts_with, find_from, find}
use vxcore.Prelude.{
  length-append, append_assoc, true, inr, append-nil, ◌==◌, sym, refl, leb, Bool-cases, inl,
  if◌then◌else◌, arith, ap, [], ◌⊎◌, ◌∷◌, ◌+◌, some, none, length, ◌≡◌, ◌++◌, ℕ, take, drop, Option,
  Bytes,
}
pub mod Loop
pub mod Round
pub mod Result

unfoldable pub count_percent : Bytes → ℕ
count_percent [] = 0
count_percent (c ∷ s) = let rest = count_percent s in if c == b'%' then rest + 1 else rest

module _ (lookup : Bytes → Option Bytes) where
  -- What a name between two '%' gives way to; an unknown or empty one stays as it is.
  unfoldable pub symbol_text : Bytes → Bytes
  symbol_text [] = b'%' ∷ b'%' ∷ []
  symbol_text (c ∷ name) = elim (lookup (c ∷ name)) [
    | some text ↦ text
    | none ↦ b'%' ∷ ((c ∷ name) ++ b'%' ∷ [])
  ]

  -- One pass over a text: `none` between symbols, `some name` behind a '%' and a part of a name.
  unfoldable pub expand_once : Option Bytes → Bytes → Bytes
  expand_once none [] = []
  expand_once (some name) [] = b'%' ∷ name
  expand_once none (c ∷ s) =
      let begin = expand_once (some []) s in
      let on = expand_once none s in if c == b'%' then begin else c ∷ on
  expand_once (some name) (c ∷ s) =
      let ended = expand_once none s in
      let on = expand_once (some (name ++ c ∷ [])) s in
      if c == b'%' then symbol_text name ++ ended else on

  pub expand_once-append :
      (u s : Bytes) → count_percent u ≡ 0 → expand_once none (u ++ s) ≡ u ++ expand_once none s
  unfolding expand_once count_percent
  expand_once-append [] s h = refl
  expand_once-append (c ∷ u) s h = ground (arith, h, expand_once-append u s)

  pub expand_once-name :
      (name u s : Bytes)
      → count_percent u ≡ 0
      → expand_once (some name) (u ++ s) ≡ expand_once (some (name ++ u)) s
  unfolding expand_once count_percent
  expand_once-name name [] s h = ap (λ n. expand_once (some n) s) (sym (append-nil name))
  expand_once-name name (c ∷ u) s h =
      let same = append_assoc name (c ∷ []) u in
      let later = expand_once-name (name ++ c ∷ []) u s in
      ground (arith, h, later, ap (λ n. expand_once (some n) s) same)

pub count_percent-append :
    (s t : Bytes) → count_percent (s ++ t) ≡ count_percent s + count_percent t
unfolding count_percent
count_percent-append [] t = omega arith
count_percent-append (c ∷ s) t = ground (arith, count_percent-append s t)

-- A text has no '%', or one behind a part without.
pub split_percent :
    (s : Bytes)
    → (count_percent s ≡ 0)
      ⊎ ((u : Bytes) × (v : Bytes) × (s ≡ u ++ b'%' ∷ v) × (count_percent u ≡ 0))
unfolding count_percent
split_percent [] = inl refl
split_percent (c ∷ s) = elim (Bool-cases (c == b'%')) [
  | inl e ↦ let same : c ≡ b'%' = ground (arith, e) in inr ([], s, ap (λ d. d ∷ s) same, refl)
  | inr e ↦ elim (split_percent s) [
    | inl none_left ↦ inl (ground (arith, e, none_left))
    | inr (u, v, p, q) ↦ inr (c ∷ u, v, ap (λ r. c ∷ r) p, ground (arith, e, q))
  ]
]

pub find_from-none : (s : Bytes) (i : ℕ) → count_percent s ≡ 0 → find_from (b'%' ∷ []) s i ≡ none
unfolding find_from starts_with count_percent
find_from-none [] i h = refl
find_from-none (c ∷ s) i h = ground (arith, h, find_from-none s (i + 1))

pub find_from-some :
    (u v : Bytes) (i : ℕ)
    → count_percent u ≡ 0
    → find_from (b'%' ∷ []) (u ++ b'%' ∷ v) i ≡ some (i + length u)
unfolding find_from starts_with count_percent
find_from-some [] v i h = ground arith
find_from-some (c ∷ u) v i h = ground (arith, h, find_from-some u v (i + 1))

pub drop-append : (a s : Bytes) → drop (length a) (a ++ s) ≡ s
drop-append [] s = refl
drop-append (c ∷ a) s = drop-append a s

pub take-append : (a s : Bytes) → take (length a) (a ++ s) ≡ a
take-append [] s = refl
take-append (c ∷ a) s = ap (λ r. c ∷ r) (take-append a s)

pub find-behind :
    (a s : Bytes) → find (a ++ s) (b'%' ∷ []) (length a) ≡ find_from (b'%' ∷ []) s (length a)
unfolding find
find-behind a s =
    let fits : leb (length a) (length (a ++ s)) ≡ true = ground (arith, length-append a s) in
    rw fits (ap (λ r. find_from (b'%' ∷ []) r (length a)) (drop-append a s))
