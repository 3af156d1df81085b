-- ===== src/Snippets/Expand/Plain/Result.antt =====
-- core/snippet_manager.cpp: the result of ExpandSymbols where values are plain.
use vxcore.Snippets.Expand.Plain.Loop.{
  next_symbol-one, next_symbol-known, next_symbol-unknown, next_symbol-none, text_with,
}
use vxcore.Snippets.Expand.Plain.Round.{
  once-one, expands_known, once-no_percent, expands_unknown, ExpandsTo,
}
use vxcore.Snippets.Expand.Plain.{
  split_percent, count_percent-append, expand_once, symbol_text, count_percent,
}
use vxcore.Prelude.{
  zero, subst, refl, sym, inr, ap, Option-cases, ◌∙◌, inl, [], length, ◌*◌, suc, none, ◌+◌, arith,
  ◌∷◌, ◌<◌, ◌++◌, some, ◌≡◌, ℕ, Option, Bytes,
}
use vxcore.Snippets.Expand.{
  next_symbol, k_max_total_iterations, expand_symbols, expand_loop, AfterText,
}

module _ (look : AfterText) (lookup : Bytes → Option Bytes)
    (same_look : (text : Bytes) (open_pos : ℕ) (name : Bytes)
      → look text open_pos name ≡ lookup name)
    (plain : (name text : Bytes) → lookup name ≡ some text → count_percent text ≡ 0) where
  expands_two :
      (rounds : ℕ) (ih : ExpandsTo look lookup same_look plain rounds) (same : ℕ)
      (cursor : Option ℕ) (a p name w : Bytes) (h : count_percent p ≡ 0)
      (k : count_percent name ≡ 0)
      → count_percent w + 2 < 2 * suc rounds
      → count_percent w + 2 < 2 * same
      → count_percent w + 2 < 200
      → (expand_loop look (suc rounds) same (length a) cursor (text_with a p (name ++ b'%' ∷ w))).0
        ≡ a ++ expand_once lookup none (p ++ b'%' ∷ (name ++ b'%' ∷ w))
  unfolding symbol_text
  expands_two rounds ih same cursor a p [] w h k b1 b2 b3 =
      let e = next_symbol-unknown look a p [] w h k (inl refl) in
      expands_unknown look lookup same_look plain rounds ih same cursor a p [] w h k b1 b2 b3 e refl
  expands_two rounds ih same cursor a p (c ∷ name) w h k b1 b2 b3 =
      let whole_text = text_with a p ((c ∷ name) ++ b'%' ∷ w) in
      let asked = same_look whole_text (length a + length p) (c ∷ name) in
      elim (Option-cases (lookup (c ∷ name))) [
        | inl missing ↦
            let e = next_symbol-unknown look a p (c ∷ name) w h k (inr (asked ∙ missing)) in
            expands_unknown look lookup same_look plain rounds ih same cursor a p (c ∷ name) w h k
              b1 b2 b3 e (ground (arith, missing))
        | inr (v, found) ↦
            let some_name : 0 < length (c ∷ name) = omega arith in
            let e = next_symbol-known look a p (c ∷ name) w h k v some_name (asked ∙ found) in
            expands_known look lookup same_look plain rounds ih same cursor a p (c ∷ name) w h k b1
              b2 b3 v e (ground (arith, found)) (plain (c ∷ name) v found)
      ]

  count_two :
      (p name w : Bytes)
      → count_percent p ≡ 0
      → count_percent name ≡ 0
      → count_percent (p ++ b'%' ∷ (name ++ b'%' ∷ w)) ≡ count_percent w + 2
  unfolding count_percent
  count_two p name w h k = ground (
    arith,
    h,
    k,
    count_percent-append p (b'%' ∷ (name ++ b'%' ∷ w)),
    count_percent-append name (b'%' ∷ w),
  )

  expands : (rounds : ℕ) → ExpandsTo look lookup same_look plain rounds
  unfolding expand_loop
  expands zero same cursor a t b1 b2 b3 = absurd (omega (arith, b1))
  expands (suc rounds) same cursor a t b1 b2 b3 = elim (split_percent t) [
    | inl h ↦
        let e = next_symbol-none look a t h in
        let stop : (expand_loop look (suc rounds) same (length a) cursor (a ++ t)).0 ≡ a ++ t =
          ground (arith, e) in
        stop ∙ ap (λ r. a ++ r) (sym (once-no_percent look lookup same_look plain t h))
    | inr (p, v, q, h) ↦ elim (split_percent v) [
      | inl k ↦
          let same_text = ap (λ r. a ++ r) q in
          let e =
            ap (λ r. next_symbol look r (length a)) same_text ∙ next_symbol-one look a p v h k in
          let stop : (expand_loop look (suc rounds) same (length a) cursor (a ++ t)).0 ≡ a ++ t =
            ground (arith, e) in
          let f = ap (expand_once lookup none) q ∙ once-one look lookup same_look plain p v h k in
          stop ∙ ap (λ r. a ++ r) (q ∙ sym f)
      | inr (name, w, q', k) ↦
          let whole_text = q ∙ ap (λ r. p ++ b'%' ∷ r) q' in
          let n = ap count_percent whole_text ∙ count_two p name w h k in
          let two =
            expands_two rounds (expands rounds) same cursor a p name w h k (omega (arith, b1, n))
              (omega (arith, b2, n)) (omega (arith, b3, n)) in
          subst
            (λ r.
              (expand_loop look (suc rounds) same (length a) cursor (a ++ r)).0
              ≡ a ++ expand_once lookup none r)
            (sym whole_text) two
    ]
  ]

  -- ExpandSymbols is one pass over the text, from left to right, if a text with at most 199 bytes '%'
  -- is given, the value of a name does not depend on where it stands, and no value has a '%': a name
  -- between two '%' gives way to its value, and an unknown or empty name stays with both its '%'.
  pub expand_symbols-one_pass :
      (content : Bytes) (cursor : Option ℕ)
      → count_percent content < 200
      → (expand_symbols look content cursor).0 ≡ expand_once lookup none content
  unfolding expand_symbols
  expand_symbols-one_pass content cursor h =
      expands k_max_total_iterations 100 cursor [] content (omega (arith, h)) (omega (arith, h)) h
