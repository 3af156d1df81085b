-- ===== src/Snippets/Expand/Cursor.antt =====
-- core/snippet_manager.cpp: the cursor of an expanded text.
use vxcore.Utils.Strings.{starts_with, find_from, find}
use vxcore.Snippets.Expand.{
  replace_all, split_at_mark, k_max_total_iterations, after_text, apply_snippet_raw, expand_symbols,
  apply_marks_and_expand, expand_content, Overrides, Resolved, Expanded, unknown, no_symbol, known,
  next_symbol, Symbol, expand_loop, replace, move_cursor, AfterText,
}
use vxcore.Prelude.{
  false, ◌∙◌, not, true, Bool, codes, is_some, sym, subst, Option-cases, refl, ◌==◌, ◌⊎◌,
  if◌then◌else◌, ◌-◌, length-take, ◌++◌, inl, take, length-drop, inr, ltb, length-append, drop, ◌<◌,
  none, arith, Bool-cases, ◌≡◌, length, ◌≤◌, zero, [], ◌∷◌, ◌+◌, suc, some, ℕ, Bytes, Option,
}

-- A cursor stands in the text, at its end at most; -1 is no cursor.
abbrev pub IsInText : Option ℕ → Bytes → Type 0
IsInText none text = Unit
IsInText (some c) text = c ≤ length text

abbrev pub IsPlaced : Expanded → Type 0
IsPlaced r = IsInText r.1 r.0

length-replace :
    (text : Bytes) (pos len : ℕ) (with_text : Bytes)
    → pos + len ≤ length text
    → length (replace text pos len with_text) + len ≡ length text + length with_text
unfolding replace
length-replace text pos len with_text h =
    let size : length (take pos text ++ with_text ++ drop (pos + len) text) + len
        ≡ length text + length with_text =
      omega (
        arith,
        length-append (take pos text ++ with_text) (drop (pos + len) text),
        length-append (take pos text) with_text,
        length-take pos text,
        length-drop (pos + len) text,
        h,
      ) in
    size

find_from_bounds :
    (c : ℕ) (text : Bytes) (i at_pos : ℕ)
    → find_from (c ∷ []) text i ≡ some at_pos
    → (i ≤ at_pos) × (at_pos < i + length text)
unfolding find_from starts_with
find_from_bounds c [] i at_pos h = absurd (ground (arith, h))
find_from_bounds c (d ∷ text) i at_pos h = ground (arith, h, find_from_bounds c text (i + 1) at_pos)

pub find_bounds :
    (c : ℕ) (text : Bytes) (pos at_pos : ℕ)
    → find text (c ∷ []) pos ≡ some at_pos
    → (pos ≤ at_pos) × (at_pos < length text)
unfolding find
find_bounds c text pos at_pos h =
    ground (arith, h, find_from_bounds c (drop pos text) pos at_pos, length-drop pos text)

move_cursor-IsInText :
    (text : Bytes) (open_pos len : ℕ) (with_text : Bytes) (cursor : Option ℕ)
    → open_pos + len ≤ length text
    → IsInText cursor text
    → IsInText
        (move_cursor open_pos len (length with_text) cursor)
        (replace text open_pos len with_text)
unfolding move_cursor
move_cursor-IsInText text open_pos len with_text none h k = tt
move_cursor-IsInText text open_pos len with_text (some c) h k =
    let size = length-replace text open_pos len with_text h in
    elim (Bool-cases (ltb open_pos c)) [
      | inr e ↦ rw e (ground (arith, e, h, k, size))
      | inl e ↦ elim (Bool-cases (ltb c (open_pos + len))) [
        | inl f ↦ rw (e, f) (ground (arith, e, f, h, k, size))
        | inr f ↦ rw (e, f) (ground (arith, e, f, h, k, size))
      ]
    ]

Symbol-cases :
    (s : Symbol)
    → (s ≡ no_symbol)
      ⊎ ((close_pos : ℕ) × (s ≡ unknown close_pos))
      ⊎ ((open_pos : ℕ) × (close_pos : ℕ) × (text : Bytes) × (s ≡ known open_pos close_pos text))
Symbol-cases no_symbol = inl refl
Symbol-cases (unknown close_pos) = inr (inl (close_pos, refl))
Symbol-cases (known open_pos close_pos text) = inr (inr (open_pos, close_pos, text, refl))

module _ (look : AfterText) where
  next_symbol_ends :
      (result : Bytes) (pos o c open_pos close_pos : ℕ) (text : Bytes)
      → find result (b'%' ∷ []) pos ≡ some o
      → find result (b'%' ∷ []) (o + 1) ≡ some c
      → next_symbol look result pos ≡ known open_pos close_pos text
      → (o ≡ open_pos) × (c ≡ close_pos)
  unfolding next_symbol
  next_symbol_ends result pos o c open_pos close_pos text e f h =
      (ground (arith, h, e, f), ground (arith, h, e, f))

  -- A known symbol stands in the text.
  next_symbol_bounds :
      (result : Bytes) (pos open_pos close_pos : ℕ) (text : Bytes)
      → next_symbol look result pos ≡ known open_pos close_pos text
      → open_pos + (close_pos - open_pos + 1) ≤ length result
  unfolding next_symbol
  next_symbol_bounds result pos open_pos close_pos text h =
      elim (Option-cases (find result (b'%' ∷ []) pos)) [
        | inl e ↦ absurd (ground (arith, h, e))
        | inr (o, e) ↦ elim (Option-cases (find result (b'%' ∷ []) (o + 1))) [
          | inl f ↦ absurd (ground (arith, h, e, f))
          | inr (c, f) ↦
              let (below, above) = find_bounds (b'%') result (o + 1) c f in
              let ends : (o ≡ open_pos) × (c ≡ close_pos) =
                next_symbol_ends result pos o c open_pos close_pos text e f h in
              let (p, q) = ends in omega (arith, below, above, p, q)
        ]
      ]

  expand_loop-IsInText :
      (rounds same pos : ℕ) (cursor : Option ℕ) (text : Bytes)
      → IsInText cursor text
      → IsInText
          (expand_loop look rounds same pos cursor text).1
          (expand_loop look rounds same pos cursor text).0
  unfolding expand_loop
  expand_loop-IsInText zero same pos cursor text h = h
  expand_loop-IsInText (suc rounds) same pos cursor text h =
      elim (Symbol-cases (next_symbol look text pos)) [
        | inl e ↦
            let step : expand_loop look (suc rounds) same pos cursor text ≡ (text, cursor) =
              ground (arith, e) in
            subst IsPlaced (sym step) h
        | inr (inl (close_pos, e)) ↦
            let step : expand_loop look (suc rounds) same pos cursor text
                ≡ expand_loop look rounds same (close_pos + 1) cursor text =
              ground (arith, e) in
            subst IsPlaced (sym step)
              (expand_loop-IsInText rounds same (close_pos + 1) cursor text h)
        | inr (inr (open_pos, close_pos, with_text, e)) ↦
            let len = close_pos - open_pos + 1 in
            let left = if pos == open_pos then same - 1 else 100 in
            let result' = replace text open_pos len with_text in
            let cursor' = move_cursor open_pos len (length with_text) cursor in
            let bounds = next_symbol_bounds text pos open_pos close_pos with_text e in
            let moved = move_cursor-IsInText text open_pos len with_text cursor bounds h in
            elim (Bool-cases (left == 0)) [
              | inl z ↦
                  let step : expand_loop look (suc rounds) same pos cursor text
                      ≡ (result', cursor') =
                    ground (arith, e, z) in
                  subst IsPlaced (sym step) moved
              | inr z ↦
                  let step : expand_loop look (suc rounds) same pos cursor text
                      ≡ expand_loop look rounds left open_pos cursor' result' =
                    ground (arith, e, z) in
                  subst IsPlaced (sym step)
                    (expand_loop-IsInText rounds left open_pos cursor' result' moved)
            ]
      ]

  move_cursor-is_some :
      (open_pos len added : ℕ) (cursor : Option ℕ)
      → is_some (move_cursor open_pos len added cursor) ≡ is_some cursor
  unfolding move_cursor
  move_cursor-is_some open_pos len added none = refl
  move_cursor-is_some open_pos len added (some c) = ground arith

  expand_loop-is_some :
      (rounds same pos : ℕ) (cursor : Option ℕ) (text : Bytes)
      → is_some (expand_loop look rounds same pos cursor text).1 ≡ is_some cursor
  unfolding expand_loop
  expand_loop-is_some zero same pos cursor text = refl
  expand_loop-is_some (suc rounds) same pos cursor text =
      elim (Symbol-cases (next_symbol look text pos)) [
        | inl e ↦ ground (arith, e)
        | inr (inl (close_pos, e)) ↦
            ground (arith, e, expand_loop-is_some rounds same (close_pos + 1) cursor text)
        | inr (inr (open_pos, close_pos, with_text, e)) ↦
            let len = close_pos - open_pos + 1 in
            let left = if pos == open_pos then same - 1 else 100 in
            let result' = replace text open_pos len with_text in
            let cursor' = move_cursor open_pos len (length with_text) cursor in
            let kept = move_cursor-is_some open_pos len (length with_text) cursor in
            let on = expand_loop-is_some rounds left open_pos cursor' result' in
            elim (Bool-cases (left == 0)) [
              | inl z ↦ ground (arith, e, z, kept)
              | inr z ↦ ground (arith, e, z, kept, on)
            ]
      ]

expand_symbols-IsPlaced :
    (look : AfterText) (text : Bytes) (offset : Option ℕ) (marked : Bool)
    → IsInText offset text
    → is_some offset ≡ true
    → let r = expand_symbols look text (if not marked then none else offset) in
      IsPlaced r × (is_some r.1 ≡ marked)
unfolding expand_symbols
expand_symbols-IsPlaced look text offset true h k = (
  expand_loop-IsInText look k_max_total_iterations 100 0 offset text h,
  expand_loop-is_some look k_max_total_iterations 100 0 offset text ∙ k,
)
expand_symbols-IsPlaced look text offset false h k = (
  expand_loop-IsInText look k_max_total_iterations 100 0 none text tt,
  expand_loop-is_some look k_max_total_iterations 100 0 none text,
)

module _ (resolve : Bytes → Option Resolved) (overrides : Overrides) (selected_text : Bytes) where
  -- ExpandContent places the cursor exactly if the template has the mark "@@", and always in the text
  -- that it returns or at its end, whatever the symbols stand for and also where a limit of the
  -- expansion is reached.
  pub expand_content-cursor :
      (content indentation : Bytes)
      → let r = expand_content resolve overrides selected_text content indentation in
        IsInText r.cursor_offset r.text
        × (is_some r.cursor_offset ≡ is_some (find content (codes "@@") 0))
  unfolding expand_content apply_marks_and_expand expand_symbols apply_snippet_raw find
  expand_content-cursor [] indentation =
      let look = after_text resolve overrides selected_text in
      (
        expand_loop-IsInText look k_max_total_iterations 100 0 none [] tt,
        expand_loop-is_some look k_max_total_iterations 100 0 none [],
      )
  expand_content-cursor (c ∷ content) indentation =
      let parts = split_at_mark (codes "@@") (c ∷ content) in
      let before = replace_all (parts.0) (codes "$$") selected_text in
      let behind = replace_all (parts.1) (codes "$$") selected_text in
      let size : length before ≤ length (before ++ behind) =
        omega (arith, length-append before behind) in
      expand_symbols-IsPlaced (after_text resolve overrides selected_text) (before ++ behind)
        (some (length before)) (is_some (find (c ∷ content) (codes "@@") 0)) size refl
