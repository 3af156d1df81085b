-- ===== src/Notebooks/Tags/Forest.antt =====
-- core/notebook.cpp: tags that stand in no cycle.
use vxcore.Prelude.{
  eq_refl, is_some, ◌&&◌, not, refl, ◌++◌, eq_iff, [], inr, zero, none, inl, Bool-cases, ◌∷◌, ◌||◌,
  subst, false, Option-cases, ◌<◌, ◌+◌, suc, arith, true, str_eq, some, ◌≡◌, Bool, All, ℕ, String,
  List,
}
use vxcore.Notebooks.Tags.{TagNode, find_tag, set_parent, is_above}

module _ {J : Type 0} where
  -- From `name` at most `n` steps upwards lead to a tag with no parent.
  unfoldable pub ends : ℕ → List (TagNode J) → String → Bool
  ends zero tags name = str_eq name ""
  ends (suc n) tags name =
      str_eq name "" || (elim (find_tag name tags) [ none ↦ false | some t ↦ ends n tags t.parent ])

  -- Every parent is a tag, and no tag stands above itself.
  abbrev pub IsForest : List (TagNode J) → Type 0
  IsForest tags = (n : ℕ) × All (λ t. ends n tags t.parent ≡ true) tags

  pub ends-suc :
      (n : ℕ) (tags : List (TagNode J)) (x : String)
      → ends n tags x ≡ true
      → ends (suc n) tags x ≡ true
  unfolding ends
  ends-suc zero tags x h = ground (arith, h)
  ends-suc (suc n) tags x h = elim (Option-cases (find_tag x tags)) [
    | inl e ↦ ground (arith, e, h)
    | inr (t, e) ↦ ground (arith, e, h, ends-suc n tags t.parent)
  ]

  pub ends-add :
      (k n : ℕ) (tags : List (TagNode J)) (x : String)
      → ends n tags x ≡ true
      → ends (n + k) tags x ≡ true
  ends-add zero n tags x h =
      let e : n ≡ n + 0 = omega arith in subst (λ m. ends m tags x ≡ true) e h
  ends-add (suc k) n tags x h =
      let e : suc (n + k) ≡ n + suc k = omega arith in
      subst (λ m. ends m tags x ≡ true) e (ends-suc (n + k) tags x (ends-add k n tags x h))

  pub All-find_tag :
      (P : TagNode J → Type 0) (x : String) (tags : List (TagNode J)) (t : TagNode J)
      → All P tags
      → find_tag x tags ≡ some t
      → P t
  unfolding find_tag
  All-find_tag P x [] t a h = absurd (ground (arith, h))
  All-find_tag P x (u ∷ tags) t a h = elim (Bool-cases (str_eq u.name x)) [
    | inl e ↦ let same : u ≡ t = ground (arith, e, h) in subst P same (a.0)
    | inr e ↦
        let later : find_tag x tags ≡ some t = ground (arith, e, h) in
        All-find_tag P x tags t (a.1) later
  ]

  -- A tag that is there reaches the top.
  pub ends-find_tag :
      (n : ℕ) (tags : List (TagNode J)) (x : String) (t : TagNode J)
      → All (λ t. ends n tags t.parent ≡ true) tags
      → find_tag x tags ≡ some t
      → ends (suc n) tags x ≡ true
  unfolding ends
  ends-find_tag n tags x t a h =
      let up = All-find_tag (λ t. ends n tags t.parent ≡ true) x tags t a h in ground (arith, h, up)

  -- The loop of MoveTag ends where the way upwards does.
  pub is_above-ends :
      (n fuel : ℕ) (tags : List (TagNode J)) (tag_name x : String)
      → ends n tags x ≡ true
      → n < fuel
      → (b : Bool) × (is_above fuel tags tag_name x ≡ some b)
  unfolding is_above ends
  is_above-ends n zero tags tag_name x h k = absurd (omega (arith, k))
  is_above-ends zero (suc fuel) tags tag_name x h k = (false, ground (arith, h))
  is_above-ends (suc n) (suc fuel) tags tag_name x h k = elim (Bool-cases (str_eq x "")) [
    | inl e ↦ (false, ground (arith, e))
    | inr e ↦ elim (Bool-cases (str_eq x tag_name)) [
      | inl f ↦ (true, ground (arith, e, f))
      | inr f ↦ elim (Option-cases (find_tag x tags)) [
        | inl g ↦ (false, ground (arith, e, f, g))
        | inr (t, g) ↦
            let up : ends n tags t.parent ≡ true = ground (arith, h, e, g) in
            let (b, r) = is_above-ends n fuel tags tag_name t.parent up (omega (arith, k)) in
            (b, ground (arith, e, f, g, r))
      ]
    ]
  ]

  pub find_tag-append :
      (x : String) (tags : List (TagNode J)) (t u : TagNode J)
      → find_tag x tags ≡ some t
      → find_tag x (tags ++ u ∷ []) ≡ some t
  unfolding find_tag
  find_tag-append x [] t u h = absurd (ground (arith, h))
  find_tag-append x (v ∷ tags) t u h = ground (arith, h, find_tag-append x tags t u)

  pub ends-append :
      (n : ℕ) (tags : List (TagNode J)) (u : TagNode J) (x : String)
      → ends n tags x ≡ true
      → ends n (tags ++ u ∷ []) x ≡ true
  unfolding ends
  ends-append zero tags u x h = h
  ends-append (suc n) tags u x h = elim (Option-cases (find_tag x tags)) [
    | inl e ↦ ground (arith, e, h)
    | inr (t, e) ↦ ground (arith, e, h, find_tag-append x tags t u e, ends-append n tags u t.parent)
  ]

  pub find_tag-set_parent :
      (x tag_name parent_tag : String) (tags : List (TagNode J))
      → str_eq x tag_name ≡ false
      → find_tag x (set_parent tag_name parent_tag tags) ≡ find_tag x tags
  unfolding find_tag set_parent
  find_tag-set_parent x tag_name parent_tag [] h = refl
  find_tag-set_parent x tag_name parent_tag (t ∷ tags) h = ground (
    arith,
    h,
    find_tag-set_parent x tag_name parent_tag tags h,
    eq_iff t.name x,
    eq_iff t.name tag_name,
    eq_iff x tag_name,
  )

  pub find_tag-set_parent_self :
      (tag_name parent_tag : String) (tags : List (TagNode J)) (t : TagNode J)
      → find_tag tag_name tags ≡ some t
      → find_tag tag_name (set_parent tag_name parent_tag tags)
        ≡ some record t { parent = parent_tag }
  unfolding find_tag set_parent
  find_tag-set_parent_self tag_name parent_tag [] t h = absurd (ground (arith, h))
  find_tag-set_parent_self tag_name parent_tag (u ∷ tags) t h =
      ground (arith, h, find_tag-set_parent_self tag_name parent_tag tags t)

  abbrev pub HasDistinctNames : List (TagNode J) → Type 0
  HasDistinctNames [] = Unit
  HasDistinctNames (t ∷ tags) = (find_tag t.name tags ≡ none) × HasDistinctNames tags

  abbrev pub IsNamed : TagNode J → Type 0
  IsNamed t = str_eq t.name "" ≡ false

  pub record IsWellFormed (tags : List (TagNode J)) : Type 0 where
    pub forest : IsForest tags
    pub distinct : HasDistinctNames tags
    pub named : All IsNamed tags

  pub find_tag-append_none :
      (x : String) (tags : List (TagNode J)) (u : TagNode J)
      → find_tag x tags ≡ none
      → str_eq u.name x ≡ false
      → find_tag x (tags ++ u ∷ []) ≡ none
  unfolding find_tag
  find_tag-append_none x [] u h k = ground (arith, k)
  find_tag-append_none x (t ∷ tags) u h k = ground (arith, h, k, find_tag-append_none x tags u)

  pub All-append :
      (P : TagNode J → Type 0) (tags : List (TagNode J)) (u : TagNode J)
      → All P tags
      → P u
      → All P (tags ++ u ∷ [])
  All-append P [] u a p = (p, tt)
  All-append P (t ∷ tags) u a p = (a.0, All-append P tags u (a.1) p)

  pub HasDistinctNames-append :
      (tags : List (TagNode J)) (u : TagNode J)
      → HasDistinctNames tags
      → find_tag u.name tags ≡ none
      → HasDistinctNames (tags ++ u ∷ [])
  unfolding find_tag
  HasDistinctNames-append [] u d h = (refl, tt)
  HasDistinctNames-append (t ∷ tags) u d h =
      let other : str_eq t.name u.name ≡ false = ground (arith, h) in
      let other' : str_eq u.name t.name ≡ false =
        ground (arith, other, eq_iff t.name u.name, eq_iff u.name t.name) in
      (
        find_tag-append_none t.name tags u (d.0) other',
        HasDistinctNames-append tags u (d.1) (ground (arith, h)),
      )

  -- What the operations ask of a new parent.
  pub ends_parent :
      (n : ℕ) (tags : List (TagNode J)) (x : String)
      → All (λ t. ends n tags t.parent ≡ true) tags
      → not (str_eq x "") && not (is_some (find_tag x tags)) ≡ false
      → ends (suc n) tags x ≡ true
  unfolding ends
  ends_parent n tags x a h = elim (Option-cases (find_tag x tags)) [
    | inl e ↦ ground (arith, e, h)
    | inr (t, e) ↦ ends-find_tag n tags x t a e
  ]

  find_tag-behind :
      (t : TagNode J) (tags some_tags : List (TagNode J))
      → find_tag t.name some_tags ≡ none
      → All (λ u. find_tag u.name tags ≡ some u) some_tags
      → All (λ u. find_tag u.name (t ∷ tags) ≡ some u) some_tags
  unfolding find_tag
  find_tag-behind t tags [] h a = tt
  find_tag-behind t tags (u ∷ us) h a =
      let other : str_eq t.name u.name ≡ false =
        ground (arith, h, eq_iff u.name t.name, eq_iff t.name u.name) in
      (ground (arith, other, a.0), find_tag-behind t tags us (ground (arith, h)) (a.1))

  -- A tag is what FindTag gives for its name.
  pub find_tag_self :
      (tags : List (TagNode J))
      → HasDistinctNames tags
      → All (λ t. find_tag t.name tags ≡ some t) tags
  unfolding find_tag
  find_tag_self [] d = tt
  find_tag_self (t ∷ tags) d =
      (ground (arith, eq_refl t.name), find_tag-behind t tags tags (d.0) (find_tag_self tags (d.1)))
