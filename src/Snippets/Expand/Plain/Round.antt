-- ===== src/Snippets/Expand/Plain/Round.antt =====
-- core/snippet_manager.cpp: one round of ExpandSymbols where values are plain.
use vxcore.Snippets.Expand.Plain.{
  count_percent-append, drop-append, take-append, symbol_text, expand_once-name, expand_once-append,
  expand_once, count_percent,
}
use vxcore.Snippets.Expand.{
  move_cursor, unknown, known, next_symbol, expand_loop, replace, AfterText,
}
use vxcore.Prelude.{
  false, ◌==◌, if◌then◌else◌, drop, subst, take, ◌-◌, append_assoc, suc, append-nil, sym, ◌∙◌, ap,
  [], ◌∷◌, ◌*◌, none, ◌<◌, length-append, arith, ◌+◌, some, ◌≡◌, ℕ, ◌++◌, length, Option, Bytes,
}
use vxcore.Snippets.Expand.Plain.Loop.{text_with, open_at, close_at, percent}

module _ (a p name w : Bytes) where
  -- The text up to the second '%'.
  abbrev pub passed : Bytes
  passed = ((a ++ p) ++ percent) ++ (name ++ percent)

  length-passed : length passed ≡ length a + length p + 1 + length name + 1
  length-passed = omega (
    arith,
    length-append ((a ++ p) ++ percent) (name ++ percent),
    length-append (a ++ p) percent,
    length-append a p,
    length-append name percent,
  )

  passed-append : text_with a p (name ++ b'%' ∷ w) ≡ passed ++ w
  passed-append = simp append_assoc

  replaced :
      (text : Bytes)
      → replace
          (text_with a p (name ++ b'%' ∷ w))
          (length a + length p)
          (length a + length p + 1 + length name - (length a + length p) + 1)
          text
        ≡ (a ++ p) ++ (text ++ w)
  unfolding replace
  replaced text =
      let t = text_with a p (name ++ b'%' ∷ w) in
      let o = length a + length p in
      let len = length a + length p + 1 + length name - o + 1 in
      let front : take o t ≡ a ++ p =
        subst (λ n. take n t ≡ a ++ p) (length-append a p)
          (ap (take (length (a ++ p))) (sym (append_assoc a p (b'%' ∷ (name ++ b'%' ∷ w))))
            ∙ take-append (a ++ p) (b'%' ∷ (name ++ b'%' ∷ w))) in
      let n : length passed ≡ o + len = omega (arith, length-passed) in
      let back : drop (o + len) t ≡ w =
        subst (λ n. drop n t ≡ w) n
          (ap (drop (length passed)) passed-append ∙ drop-append passed w) in
      ap (λ r. (r ++ text) ++ drop (o + len) t) front
      ∙ ap (λ r. ((a ++ p) ++ text) ++ r) back
      ∙ append_assoc (a ++ p) text w

module _ (look : AfterText) (lookup : Bytes → Option Bytes)
    (same_look : (text : Bytes) (open_pos : ℕ) (name : Bytes)
      → look text open_pos name ≡ lookup name)
    (plain : (name text : Bytes) → lookup name ≡ some text → count_percent text ≡ 0) where
  pub once-no_percent : (t : Bytes) → count_percent t ≡ 0 → expand_once lookup none t ≡ t
  unfolding expand_once
  once-no_percent t h =
      let e = expand_once-append lookup t [] h in
      ap (expand_once lookup none) (sym (append-nil t)) ∙ e ∙ append-nil t

  pub once-one :
      (p v : Bytes)
      → count_percent p ≡ 0
      → count_percent v ≡ 0
      → expand_once lookup none (p ++ b'%' ∷ v) ≡ p ++ b'%' ∷ v
  unfolding expand_once
  once-one p v h k =
      let e = expand_once-append lookup p (b'%' ∷ v) h in
      let f = expand_once-name lookup [] v [] k in
      let g = ap (expand_once lookup (some [])) (sym (append-nil v)) ∙ f in e ∙ ap (λ r. p ++ r) g

  once-two :
      (p name w : Bytes)
      → count_percent p ≡ 0
      → count_percent name ≡ 0
      → expand_once lookup none (p ++ b'%' ∷ (name ++ b'%' ∷ w))
        ≡ p ++ (symbol_text lookup name ++ expand_once lookup none w)
  unfolding expand_once
  once-two p name w h k =
      expand_once-append lookup p (b'%' ∷ (name ++ b'%' ∷ w)) h
      ∙ ap (λ r. p ++ r) (expand_once-name lookup [] name (b'%' ∷ w) k)

  abbrev pub ExpandsTo : ℕ → Type 0
  ExpandsTo rounds =
      (same : ℕ) (cursor : Option ℕ) (a t : Bytes)
      → count_percent t < 2 * rounds
      → count_percent t < 2 * same
      → count_percent t < 200
      → (expand_loop look rounds same (length a) cursor (a ++ t)).0 ≡ a ++ expand_once lookup none t

  module _ (rounds : ℕ) (ih : ExpandsTo rounds) (same : ℕ) (cursor : Option ℕ) (a p name w : Bytes)
      (h : count_percent p ≡ 0) (k : count_percent name ≡ 0)
      (b1 : count_percent w + 2 < 2 * suc rounds) (b2 : count_percent w + 2 < 2 * same)
      (b3 : count_percent w + 2 < 200) where
    abbrev pub text : Bytes
    text = text_with a p (name ++ b'%' ∷ w)

    abbrev pub Expands : Type 0
    Expands =
        (expand_loop look (suc rounds) same (length a) cursor text).0
        ≡ a ++ expand_once lookup none (p ++ b'%' ∷ (name ++ b'%' ∷ w))

    -- A name that is passed over.
    pub expands_unknown :
        next_symbol look text (length a) ≡ unknown (close_at look a p name w h k)
        → symbol_text lookup name ≡ b'%' ∷ (name ++ percent)
        → Expands
    unfolding expand_loop
    expands_unknown e kept =
        let pos = close_at look a p name w h k + 1 in
        let step : expand_loop look (suc rounds) same (length a) cursor text
            ≡ expand_loop look rounds same pos cursor text =
          ground (arith, e) in
        let on =
          ih same cursor (passed a p name w) w (omega (arith, b1)) (omega (arith, b2))
            (omega (arith, b3)) in
        let moved =
          subst
            (λ n.
              (expand_loop look rounds same n cursor text).0
              ≡ passed a p name w ++ expand_once lookup none w)
            (length-passed a p name w)
            (ap (λ t. (expand_loop look rounds same (length (passed a p name w)) cursor t).0)
                (passed-append a p name w)
              ∙ on) in
        let x = expand_once lookup none w in
        let regroup : passed a p name w ++ x ≡ a ++ (p ++ ((b'%' ∷ (name ++ percent)) ++ x)) =
          simp append_assoc in
        ap (λ r. r.0) step
        ∙ moved
        ∙ regroup
        ∙ sym (ap (λ r. a ++ r) (once-two p name w h k ∙ ap (λ r. p ++ (r ++ x)) kept))

    -- A name that gives way to its value.
    pub expands_known :
        (v : Bytes)
        → next_symbol look text (length a)
          ≡ known (open_at look a p name w h k) (close_at look a p name w h k) v
        → symbol_text lookup name ≡ v
        → count_percent v ≡ 0
        → Expands
    unfolding expand_loop
    expands_known v e gone clean =
        let o = open_at look a p name w h k in
        let len = close_at look a p name w h k - o + 1 in
        let left = if length a == o then same - 1 else 100 in
        let cursor' = move_cursor o len (length v) cursor in
        let some_left : (left == 0) ≡ false = ground (arith, b2) in
        let step : expand_loop look (suc rounds) same (length a) cursor text
            ≡ expand_loop look rounds left o cursor' (replace text o len v) =
          ground (arith, e, some_left) in
        let count : count_percent (v ++ w) ≡ count_percent w =
          omega (arith, count_percent-append v w, clean) in
        let enough : count_percent (v ++ w) < 2 * left = ground (arith, count, b2, b3) in
        let on =
          ih left cursor' (a ++ p) (v ++ w) (omega (arith, b1, count)) enough
            (omega (arith, b3, count)) in
        let moved =
          subst
            (λ n.
              (expand_loop look rounds left n cursor' ((a ++ p) ++ (v ++ w))).0
              ≡ (a ++ p) ++ expand_once lookup none (v ++ w))
            (length-append a p) on in
        let there =
          ap (λ t. (expand_loop look rounds left o cursor' t).0) (replaced a p name w v) in
        let x = expand_once lookup none w in
        ap (λ r. r.0) step
        ∙ there
        ∙ moved
        ∙ ap (λ r. (a ++ p) ++ r) (expand_once-append lookup v w clean)
        ∙ append_assoc a p (v ++ x)
        ∙ sym (ap (λ r. a ++ r) (once-two p name w h k ∙ ap (λ r. p ++ (r ++ x)) gone))
