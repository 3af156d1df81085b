-- ===== src/Notebooks/Tags/Deleted.antt =====
-- core/notebook.cpp: DeleteTag deletes a tag with all tags below it, and nothing else.
use vxcore.Prelude.{
  ◌∙◌, Option-cases, sym, inr, ap, zero, refl, inl, false, eq_iff, subst, str_eq, eq_refl, [],
  Bool-cases, Bool, arith, ◌||◌, true, suc, ◌++◌, some, contains, All-map, ◌≡◌, ◌∷◌, ℕ, All, String,
  List,
}
use mathlib.Core.List.{reverse}
use vxcore.Notebooks.Tags.{TagNode, find_tag, children, subtree_loop, is_above}
use vxcore.Notebooks.Tags.Forest.{find_tag_self, IsWellFormed, HasDistinctNames}
use vxcore.Notebooks.Tags.Subtree.{
  below_top, contains-children, contains-reverse, contains-append, children-Under, All-reverse,
  All-append_list, Under,
}

pub All-contains :
    (P : String → Type 0) (x : String) (xs : List String) → All P xs → contains x xs ≡ true → P x
unfolding contains
All-contains P x [] a h = absurd (ground (arith, h))
All-contains P x (y ∷ ys) a h = elim (Bool-cases (str_eq y x)) [
  | inl e ↦ subst P ((eq_iff y x).0 e) (a.0)
  | inr e ↦ All-contains P x ys (a.1) (ground (arith, h, e))
]

module _ {J : Type 0} (tags : List (TagNode J)) (tag_name : String) where
  abbrev pub IsBelow : String → Type 0
  IsBelow x = (j : ℕ) × Under tags tag_name j x

  -- What is right below a collected tag is collected, or its parent waits on the stack.
  abbrev pub IsClosed : List String → List String → Type 0
  IsClosed found todo =
      (x : String) (t : TagNode J)
      → find_tag x tags ≡ some t
      → contains t.parent found ≡ true
      → (contains t.parent todo || contains x found) ≡ true

  pub record IsCollected (found todo : List String) : Type 0 where
    pub sound : All IsBelow found
    pub waiting : All IsBelow todo
    pub closed : IsClosed found todo
    pub own : contains tag_name found ≡ true

  IsBelow-children :
      (x : String) → HasDistinctNames tags → IsBelow x → All IsBelow (children x tags)
  IsBelow-children x d (j, u) =
      All-map (λ y v. (suc j, v)) (children x tags)
        (children-Under tags tag_name j x tags u (find_tag_self tags d))

  IsClosed-round :
      (found todo : List String) (x : String)
      → IsClosed found (x ∷ todo)
      → IsClosed (found ++ children x tags) (reverse (children x tags) ++ todo)
  unfolding contains
  IsClosed-round found todo x c y t f h =
      let below = children x tags in
      ground (
        arith,
        h,
        c y t f,
        contains-append t.parent found below,
        contains-append t.parent (reverse below) todo,
        contains-reverse t.parent below,
        contains-append y found below,
        contains-children y x tags t f,
        eq_iff x t.parent,
        eq_iff t.parent x,
      )

  IsCollected-round :
      (found todo : List String) (x : String)
      → HasDistinctNames tags
      → IsCollected found (x ∷ todo)
      → IsCollected (found ++ children x tags) (reverse (children x tags) ++ todo)
  IsCollected-round found todo x d c =
      let below = children x tags in
      let a = IsBelow-children x d (c.waiting.0) in
      record {
        sound = All-append_list IsBelow found below c.sound a;
        waiting =
            All-append_list IsBelow (reverse below) todo (All-reverse IsBelow below a)
              (c.waiting.1);
        closed = λ y t f h. IsClosed-round found todo x c.closed y t f h;
        own = ground (arith, contains-append tag_name found below, c.own);
      }

  pub subtree_loop-IsCollected :
      (fuel : ℕ) (found todo r : List String)
      → HasDistinctNames tags
      → IsCollected found todo
      → subtree_loop fuel tags found todo ≡ some r
      → IsCollected r []
  unfolding subtree_loop
  subtree_loop-IsCollected zero found todo r d c e = absurd (ground (arith, e))
  subtree_loop-IsCollected (suc fuel) found [] r d c e =
      let same : found ≡ r = ground (arith, e) in subst (λ z. IsCollected z []) same c
  subtree_loop-IsCollected (suc fuel) found (x ∷ todo) r d c e =
      subtree_loop-IsCollected fuel (found ++ children x tags) (reverse (children x tags) ++ todo) r
        d (IsCollected-round found todo x d c) e

  pub IsCollected-start : IsCollected (tag_name ∷ []) (tag_name ∷ [])
  unfolding contains
  IsCollected-start = record {
    sound = ((0, refl), tt);
    waiting = ((0, refl), tt);
    closed = λ x t f h. ground (arith, h);
    own = ground (arith, eq_refl tag_name);
  }

  pub is_above-contains :
      (fuel : ℕ) (x : String) (r : List String)
      → IsCollected r []
      → is_above fuel tags tag_name x ≡ some true
      → contains x r ≡ true
  unfolding is_above contains
  is_above-contains zero x r c h = absurd (ground (arith, h))
  is_above-contains (suc fuel) x r c h = elim (Bool-cases (str_eq x tag_name)) [
    | inl e ↦ subst (λ y. contains y r ≡ true) (sym ((eq_iff x tag_name).0 e)) c.own
    | inr e ↦ elim (Option-cases (find_tag x tags)) [
      | inl m ↦ absurd (ground (arith, h, e, m))
      | inr (t, f) ↦
          let up : is_above fuel tags tag_name t.parent ≡ some true = ground (arith, h, e, f) in
          ground (arith, c.closed x t f, is_above-contains fuel t.parent r c up)
    ]
  ]

  pub is_above-Under :
      (j fuel : ℕ) (x : String) (b : Bool)
      → IsWellFormed tags
      → str_eq tag_name "" ≡ false
      → Under tags tag_name j x
      → is_above fuel tags tag_name x ≡ some b
      → b ≡ true
  unfolding is_above
  is_above-Under j zero x b w top u h = absurd (ground (arith, h))
  is_above-Under zero (suc fuel) x b w top u h =
      let same : str_eq x tag_name ≡ true = (eq_iff x tag_name).1 u in
      let inside : str_eq x "" ≡ false = ap (λ y. str_eq y "") u ∙ top in
      ground (arith, h, same, inside)
  is_above-Under (suc j) (suc fuel) x b w top (t, f, u) h =
      let inside = below_top tags tag_name w top x t f in
      ground (arith, h, inside, f, is_above-Under j fuel t.parent b w top u)
