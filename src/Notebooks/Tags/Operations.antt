-- ===== src/Notebooks/Tags/Operations.antt =====
-- core/notebook.cpp: CreateTag and MoveTag keep the tags well formed.
use vxcore.Notebooks.Tags.Changes.{set_parent-IsWellFormed}
use vxcore.Errors.{err_not_found, err_invalid_param, err_read_only, VxCoreError}
use vxcore.Prelude.{
  ◌<◌, Option-cases, true, ap, ◌∙◌, All-map, inr, false, arith, is_some, ◌&&◌, inl, str_eq,
  Bool-cases, suc, not, some, none, ◌≡◌, [], ◌∷◌, ◌++◌, ℕ, String,
}
use vxcore.Notebooks.Tags.{
  set_parent, Notebook, Host, TagNode, find_tag, create_tag, move_tag, save_tags,
}
use vxcore.Notebooks.Tags.Forest.{
  HasDistinctNames-append, ends, All-append, is_above-ends, ends-suc, ends_parent, ends-append,
  IsWellFormed, IsNamed,
}

abbrev pub TagsAreWellFormed : {W J : Type 0} → Notebook W J → Type 0
TagsAreWellFormed n = IsWellFormed n.config.tags

module _ {W J : Type 0} (host : Host W J) where
  -- CreateTag on every branch.
  pub create_tag-IsWellFormed :
      (tag_name parent_tag : String) (n : Notebook W J)
      → TagsAreWellFormed n
      → TagsAreWellFormed (create_tag host tag_name parent_tag n).1
  unfolding create_tag save_tags
  create_tag-IsWellFormed tag_name parent_tag n w =
      let tags = n.config.tags in
      let (k, up) = w.forest in
      let tag : TagNode J = record {
        name = tag_name;
        parent = parent_tag;
        metadata = host.no_metadata;
      } in
      let tags' = tags ++ tag ∷ [] in
      let made =
        λ (fresh : find_tag tag_name tags ≡ none)
            (c : not (str_eq parent_tag "") && not (is_some (find_tag parent_tag tags)) ≡ false)
            (m : str_eq tag_name "" ≡ false).
          let top = ends-append (suc k) tags tag parent_tag (ends_parent k tags parent_tag up c) in
          let old =
            All-map (λ t h. ends-append (suc k) tags tag t.parent (ends-suc k tags t.parent h)) tags
              up in
          let wf : IsWellFormed tags' = record {
            forest = (suc k, All-append (λ t. ends (suc k) tags' t.parent ≡ true) tags tag old top);
            distinct = HasDistinctNames-append tags tag w.distinct fresh;
            named = All-append IsNamed tags tag w.named m;
          } in
          wf in
      elim (Bool-cases n.read_only) [
        | inl r ↦ rw r w
        | inr r ↦ elim (Bool-cases (str_eq tag_name "")) [
          | inl m ↦ rw (r, m) w
          | inr m ↦ elim (Option-cases (find_tag tag_name tags)) [
            | inr (t, f) ↦ rw (r, m, f) w
            | inl f ↦
                elim (Bool-cases
                  (not (str_eq parent_tag "") && not (is_some (find_tag parent_tag tags)))) [
                    | inl c ↦ rw (r, m, f, c) w
                    | inr c ↦ rw (r, m, f, c) (made f c m)
                  ]
          ]
        ]
      ]

  -- On well-formed tags, with more rounds than one and the tags' depth, MoveTag ends on every branch and
  -- leaves the tags well formed.
  pub move_tag-IsWellFormed :
      (tag_name parent_tag : String) (n : Notebook W J) (fuel : ℕ) (w : TagsAreWellFormed n)
      → suc (w.forest.0) < fuel
      → (r : VxCoreError × Notebook W J) × (move_tag host fuel tag_name parent_tag n ≡ some r)
        × TagsAreWellFormed r.1
  unfolding move_tag save_tags
  move_tag-IsWellFormed tag_name parent_tag n fuel w enough =
      let tags = n.config.tags in
      let (k, up) = w.forest in
      elim (Bool-cases n.read_only) [
        | inl r ↦ ((err_read_only, n), ground (arith, r), w)
        | inr r ↦ elim (Bool-cases (str_eq tag_name "")) [
          | inl m ↦ ((err_invalid_param, n), ground (arith, r, m), w)
          | inr m ↦ elim (Bool-cases (str_eq parent_tag tag_name)) [
            | inl s ↦ ((err_invalid_param, n), ground (arith, r, m, s), w)
            | inr s ↦ elim (Bool-cases (is_some (find_tag tag_name tags))) [
              | inr f ↦ ((err_not_found, n), ground (arith, r, m, s, f), w)
              | inl f ↦
                  elim (Bool-cases
                    (not (str_eq parent_tag "") && not (is_some (find_tag parent_tag tags)))) [
                      | inl c ↦ ((err_not_found, n), ground (arith, r, m, s, f, c), w)
                      | inr c ↦
                          let top = ends_parent k tags parent_tag up c in
                          let (b, above) =
                            is_above-ends (suc k) fuel tags tag_name parent_tag top enough in
                          elim (Bool-cases b) [
                            | inl yes_above ↦
                                let e = above ∙ ap some yes_above in
                                ((err_invalid_param, n), ground (arith, r, m, s, f, c, e), w)
                            | inr not_above ↦
                                let e = above ∙ ap some not_above in
                                let w' =
                                  set_parent-IsWellFormed tag_name parent_tag tags fuel w f e c in
                                (
                                  save_tags host (set_parent tag_name parent_tag tags) n,
                                  ground (arith, r, m, s, f, c, e),
                                  w',
                                )
                          ]
                    ]
            ]
          ]
        ]
      ]
