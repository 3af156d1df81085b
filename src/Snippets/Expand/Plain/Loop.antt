-- ===== src/Snippets/Expand/Plain/Loop.antt =====
-- core/snippet_manager.cpp: the loop of ExpandSymbols is one pass over a text.
use vxcore.Utils.Strings.{find_from, find}
use vxcore.Snippets.Expand.Plain.{
  take-append, drop-append, find_from-some, find_from-none, find-behind, count_percent,
}
use vxcore.Snippets.Expand.{unknown, known, symbol_name, no_symbol, next_symbol, AfterText}
use vxcore.Prelude.{
  ◌==◌, inr, inl, take, Bool-cases, none, length-append, ap, ◌⊎◌, ◌∙◌, ◌-◌, true, subst, arith,
  append_assoc, ◌<◌, ◌+◌, ℕ, sym, some, ltb, [], ◌≡◌, ◌∷◌, ◌++◌, length, drop, Bytes,
}

abbrev pub percent : Bytes
percent = b'%' ∷ []

module _ (a p v : Bytes) where
  -- The text up to the first '%', and what stands behind it.
  abbrev pub text_with : Bytes
  text_with = a ++ (p ++ b'%' ∷ v)

  first_percent :
      count_percent p ≡ 0 → find text_with percent (length a) ≡ some (length a + length p)
  first_percent h = find-behind a (p ++ b'%' ∷ v) ∙ find_from-some p v (length a) h

  abbrev head : Bytes
  head = (a ++ p) ++ percent

  head-append : text_with ≡ head ++ v
  head-append = sym (append_assoc (a ++ p) percent v ∙ append_assoc a p (b'%' ∷ v))

  length-head : length head ≡ length a + length p + 1
  length-head = omega (arith, length-append (a ++ p) percent, length-append a p)

  second_percent :
      find text_with percent (length a + length p + 1)
      ≡ find_from percent v (length a + length p + 1)
  second_percent =
      subst (λ n. find text_with percent n ≡ find_from percent v n) length-head
        (ap (λ t. find t percent (length head)) head-append ∙ find-behind head v)

  behind_percent : drop (length a + length p + 1) text_with ≡ v
  behind_percent =
      subst (λ n. drop n text_with ≡ v) length-head
        (ap (drop (length head)) head-append ∙ drop-append head v)

module _ (look : AfterText) where
  pub next_symbol-none :
      (a t : Bytes) → count_percent t ≡ 0 → next_symbol look (a ++ t) (length a) ≡ no_symbol
  unfolding next_symbol
  next_symbol-none a t h =
      let missing = find-behind a t ∙ find_from-none t (length a) h in
      elim (Bool-cases (ltb (length a) (length (a ++ t)))) [
        | inl e ↦ ground (arith, e, missing)
        | inr e ↦ ground (arith, e)
      ]

  pub next_symbol-one :
      (a p v : Bytes)
      → count_percent p ≡ 0
      → count_percent v ≡ 0
      → next_symbol look (text_with a p v) (length a) ≡ no_symbol
  unfolding next_symbol
  next_symbol-one a p v h k =
      let found = first_percent a p v h in
      let missing = second_percent a p v ∙ find_from-none v (length a + length p + 1) k in
      elim (Bool-cases (ltb (length a) (length (text_with a p v)))) [
        | inl e ↦ ground (arith, e, found, missing)
        | inr e ↦ ground (arith, e)
      ]

  module _ (a p name w : Bytes) (h : count_percent p ≡ 0) (k : count_percent name ≡ 0) where
    abbrev pub whole : Bytes
    whole = text_with a p (name ++ b'%' ∷ w)

    abbrev pub open_at : ℕ
    open_at = length a + length p

    abbrev pub close_at : ℕ
    close_at = length a + length p + 1 + length name

    close_percent : find whole percent (open_at + 1) ≡ some close_at
    close_percent = second_percent a p (name ++ b'%' ∷ w) ∙ find_from-some name w (open_at + 1) k

    symbol_name_lem : symbol_name whole open_at close_at ≡ name
    unfolding symbol_name
    symbol_name_lem =
        let n : close_at - open_at - 1 ≡ length name = omega arith in
        ap (λ m. take m (drop (open_at + 1) whole)) n
        ∙ ap (take (length name)) (behind_percent a p (name ++ b'%' ∷ w))
        ∙ take-append name (b'%' ∷ w)

    in_text : ltb (length a) (length whole) ≡ true
    in_text = ground (
      arith,
      length-append a (p ++ b'%' ∷ (name ++ b'%' ∷ w)),
      length-append p (b'%' ∷ (name ++ b'%' ∷ w)),
    )

    pub next_symbol-unknown :
        (name ≡ []) ⊎ (look whole open_at name ≡ none)
        → next_symbol look whole (length a) ≡ unknown close_at
    unfolding next_symbol
    next_symbol-unknown (inl e) =
        let n = symbol_name_lem ∙ e in
        ground (arith, in_text, first_percent a p (name ++ b'%' ∷ w) h, close_percent, n)
    next_symbol-unknown (inr e) =
        let n = symbol_name_lem in
        elim (Bool-cases (length name == 0)) [
          | inl z ↦
              ground (arith, in_text, first_percent a p (name ++ b'%' ∷ w) h, close_percent, n, z)
          | inr z ↦
              ground
                (arith, in_text, first_percent a p (name ++ b'%' ∷ w) h, close_percent, n, z, e)
        ]

    pub next_symbol-known :
        (text : Bytes)
        → 0 < length name
        → look whole open_at name ≡ some text
        → next_symbol look whole (length a) ≡ known open_at close_at text
    unfolding next_symbol
    next_symbol-known text z e = ground (
      arith,
      in_text,
      first_percent a p (name ++ b'%' ∷ w) h,
      close_percent,
      symbol_name_lem,
      z,
      e,
    )
