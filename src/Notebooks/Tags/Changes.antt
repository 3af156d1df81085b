-- ===== src/Notebooks/Tags/Changes.antt =====
-- core/notebook.cpp: creating and moving a tag leaves no cycle.

use vxcore.Prelude.{
  ◌&&◌, ◌∙◌, not, sym, zero, eq_iff, [], Option-cases, inr, All-map, subst, inl, suc, str_eq, arith,
  ◌+◌, false, Bool-cases, ◌∷◌, true, some, ◌≡◌, is_some, All, ℕ, List, String,
}
use vxcore.Notebooks.Tags.{TagNode, find_tag, set_parent, is_above}
use vxcore.Notebooks.Tags.Forest.{
  IsNamed, IsWellFormed, ends_parent, HasDistinctNames, ends-add, find_tag-set_parent_self,
  find_tag-set_parent, ends,
}

module _ {J : Type 0} (tag_name parent_tag : String) where
  -- A way upwards that does not meet the tag is the same when the tag was moved.
  ends-apart :
      (n fuel : ℕ) (tags : List (TagNode J)) (x : String)
      → is_above fuel tags tag_name x ≡ some false
      → ends n tags x ≡ true
      → ends n (set_parent tag_name parent_tag tags) x ≡ true
  unfolding ends is_above
  ends-apart n zero tags x a h = absurd (ground (arith, a))
  ends-apart zero (suc fuel) tags x a h = h
  ends-apart (suc n) (suc fuel) tags x a h = elim (Bool-cases (str_eq x "")) [
    | inl top ↦ ground (arith, top)
    | inr inside ↦ elim (Option-cases (find_tag x tags)) [
      | inl missing ↦ ground (arith, missing, inside, h)
      | inr (t, found) ↦
          let other : str_eq x tag_name ≡ false = ground (arith, a, inside) in
          let up : is_above fuel tags tag_name t.parent ≡ some false =
            ground (arith, a, inside, other, found) in
          let on : ends n tags t.parent ≡ true = ground (arith, h, inside, found) in
          let same = find_tag-set_parent x tag_name parent_tag tags other in
          ground (arith, inside, found, same, ends-apart n fuel tags t.parent up on)
    ]
  ]

  -- Any other way goes on from the new parent where it met the tag.
  ends-moved :
      (n m : ℕ) (tags : List (TagNode J)) (x : String)
      → is_some (find_tag tag_name tags) ≡ true
      → ends m (set_parent tag_name parent_tag tags) parent_tag ≡ true
      → ends n tags x ≡ true
      → ends (n + suc m) (set_parent tag_name parent_tag tags) x ≡ true
  unfolding ends
  ends-moved zero m tags x i p h =
      let e : suc m ≡ 0 + suc m = omega arith in
      subst (λ k. ends k (set_parent tag_name parent_tag tags) x ≡ true) e (ground (arith, h))
  ends-moved (suc n) m tags x i p h =
      let tags' = set_parent tag_name parent_tag tags in
      let e : suc (n + suc m) ≡ suc n + suc m = omega arith in
      let moved : ends (suc (n + suc m)) tags' x ≡ true = elim (Bool-cases (str_eq x "")) [
        | inl top ↦ ground (arith, top)
        | inr inside ↦ elim (Option-cases (find_tag x tags)) [
          | inl missing ↦ absurd (ground (arith, missing, inside, h))
          | inr (t, found) ↦
              let on : ends n tags t.parent ≡ true = ground (arith, h, inside, found) in
              elim (Bool-cases (str_eq x tag_name)) [
                | inl here ↦
                    let same : x ≡ tag_name = (eq_iff x tag_name).0 here in
                    let own =
                      find_tag-set_parent_self tag_name parent_tag tags t
                        (subst (λ y. find_tag y tags ≡ some t) same found) in
                    let f : m + suc n ≡ n + suc m = omega arith in
                    let up =
                      subst (λ k. ends k tags' parent_tag ≡ true) f
                        (ends-add (suc n) m tags' parent_tag p) in
                    subst (λ y. ends (suc (n + suc m)) tags' y ≡ true) (sym same)
                      (ground (arith, own, up))
                | inr other ↦
                    let kept = find_tag-set_parent x tag_name parent_tag tags other in
                    ground (arith, inside, kept, found, ends-moved n m tags t.parent i p on)
              ]
        ]
      ] in
      subst (λ k. ends k tags' x ≡ true) e moved

  All-set_parent :
      (P Q : TagNode J → Type 0) (tags : List (TagNode J))
      → ((t : TagNode J) → P t → Q t)
      → ((t : TagNode J) → P t → Q (record t { parent = parent_tag }))
      → All P tags
      → All Q (set_parent tag_name parent_tag tags)
  unfolding set_parent
  All-set_parent P Q [] f g a = tt
  All-set_parent P Q (t ∷ tags) f g a = elim (Bool-cases (str_eq t.name tag_name)) [
    | inl here ↦ rw here (g t (a.0), All-map f tags (a.1))
    | inr other ↦ rw other (f t (a.0), All-set_parent P Q tags f g (a.1))
  ]

  HasDistinctNames-set_parent :
      (tags : List (TagNode J))
      → HasDistinctNames tags
      → HasDistinctNames (set_parent tag_name parent_tag tags)
  unfolding set_parent
  HasDistinctNames-set_parent [] d = tt
  HasDistinctNames-set_parent (t ∷ tags) d = elim (Bool-cases (str_eq t.name tag_name)) [
    | inl here ↦ rw here (d.0, d.1)
    | inr other ↦ rw other (
      find_tag-set_parent t.name tag_name parent_tag tags other ∙ d.0,
      HasDistinctNames-set_parent tags (d.1),
    )
  ]

  -- The new parent reaches the top, and the way upwards from it does not meet the tag.
  pub set_parent-IsWellFormed :
      (tags : List (TagNode J)) (fuel : ℕ)
      → IsWellFormed tags
      → is_some (find_tag tag_name tags) ≡ true
      → is_above fuel tags tag_name parent_tag ≡ some false
      → not (str_eq parent_tag "") && not (is_some (find_tag parent_tag tags)) ≡ false
      → IsWellFormed (set_parent tag_name parent_tag tags)
  set_parent-IsWellFormed tags fuel w i a c =
      let (n, up) = w.forest in
      let tags' = set_parent tag_name parent_tag tags in
      let top = ends_parent n tags parent_tag up c in
      let top' = ends-apart (suc n) fuel tags parent_tag a top in
      let old = λ (t : TagNode J) (h : ends n tags t.parent ≡ true).
        ends-moved n (suc n) tags t.parent i top' h in
      let e : suc n + suc n ≡ n + suc (suc n) = omega arith in
      let new =
        subst (λ k. ends k tags' parent_tag ≡ true) e
          (ends-add (suc n) (suc n) tags' parent_tag top') in
      record {
        forest = (
          n + suc (suc n),
          All-set_parent (λ t. ends n tags t.parent ≡ true)
              (λ t. ends (n + suc (suc n)) tags' t.parent ≡ true) tags old (λ t h. new) up,
        );
        distinct = HasDistinctNames-set_parent tags w.distinct;
        named = All-set_parent IsNamed IsNamed tags (λ t h. h) (λ t h. h) w.named;
      }
