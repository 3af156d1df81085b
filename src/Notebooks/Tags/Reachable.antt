-- ===== src/Notebooks/Tags/Reachable.antt =====
-- core/notebook.cpp: any sequence of tag operations, and a configuration with a cycle.
use vxcore.Notebooks.Tags.Deletion.{erase_tags-IsWellFormed}
use vxcore.Notebooks.Tags.Deleted.{IsCollected-start, subtree_loop-IsCollected}
use vxcore.Utils.Paths.{split_path_components}
use vxcore.Errors.{is_already_exists, is_ok, VxCoreError}
use vxcore.Prelude.{
  ap, ◌∙◌, refl, zero, true, ◌&&◌, none, sym, not, false, ◌==◌, Option-cases, length, arith, subst,
  [], ◌||◌, is_some, inr, inl, str_eq, Bool-cases, some, ◌≡◌, ◌∷◌, List, ℕ, String,
}
use vxcore.Notebooks.Tags.{
  set_parent, suc, move_tag, create_tag, save_tags, create_tags, create_tag_path, TagNode, find_tag,
  erase_tags, subtree_loop, is_above, Notebook, Host, delete_tag,
}
use vxcore.Notebooks.Tags.Forest.{IsWellFormed}
use vxcore.Notebooks.Tags.Changes.{set_parent-IsWellFormed}
use vxcore.Notebooks.Tags.Operations.{create_tag-IsWellFormed, TagsAreWellFormed}

module _ {W J : Type 0} (host : Host W J) where
  create_tags-IsWellFormed :
      (above : String) (names : List String) (n : Notebook W J)
      → TagsAreWellFormed n
      → TagsAreWellFormed (create_tags host above names n).1
  unfolding create_tags
  create_tags-IsWellFormed above [] n w = w
  create_tags-IsWellFormed above (name ∷ names) n w =
      let (err, n') = create_tag host name above n in
      let w' = create_tag-IsWellFormed host name above n w in
      let created = create_tags-IsWellFormed name names n' w' in
      elim (Bool-cases (str_eq name "")) [
        | inl m ↦ rw m w
        | inr m ↦ elim (Bool-cases (is_some (find_tag name n.config.tags))) [
          | inl f ↦ rw (m, f) (create_tags-IsWellFormed name names n w)
          | inr f ↦ elim (Bool-cases (is_ok err || is_already_exists err)) [
            | inl e ↦ rw (m, f, e) created
            | inr e ↦ rw (m, f, e) w'
          ]
        ]
      ]

  create_tag_path-IsWellFormed :
      (tag_path : String) (n : Notebook W J)
      → TagsAreWellFormed n
      → TagsAreWellFormed (create_tag_path host tag_path n).1
  unfolding create_tag_path
  create_tag_path-IsWellFormed tag_path n w =
      let names = split_path_components tag_path in
      elim (Bool-cases n.read_only) [
        | inl r ↦ rw r w
        | inr r ↦ elim (Bool-cases (str_eq tag_path "")) [
          | inl m ↦ rw (r, m) w
          | inr m ↦ elim (Bool-cases (length names == 0)) [
            | inl z ↦ rw (r, m, z) w
            | inr z ↦ simp (r, m, z) (create_tags-IsWellFormed "" names n w)
          ]
        ]
      ]

  delete_tag-IsWellFormed :
      (fuel : ℕ) (tag_name : String) (n n' : Notebook W J) (err : VxCoreError)
      → TagsAreWellFormed n
      → delete_tag host fuel tag_name n ≡ some (err, n')
      → TagsAreWellFormed n'
  unfolding delete_tag save_tags
  delete_tag-IsWellFormed fuel tag_name n n' err w h =
      let tags = n.config.tags in
      let start = tag_name ∷ [] in
      let stay = λ (e : n ≡ n'). subst TagsAreWellFormed e w in
      elim (Bool-cases n.read_only) [
        | inl r ↦ stay (ground (arith, h, r))
        | inr r ↦ elim (Bool-cases (str_eq tag_name "")) [
          | inl m ↦ stay (ground (arith, h, r, m))
          | inr m ↦ elim (Bool-cases (is_some (find_tag tag_name tags))) [
            | inr f ↦ stay (ground (arith, h, r, m, f))
            | inl f ↦ elim (Option-cases (subtree_loop fuel tags start start)) [
              | inl e ↦ absurd (ground (arith, h, r, m, f, e))
              | inr (names, e) ↦
                  let c =
                    subtree_loop-IsCollected tags tag_name fuel start start names w.distinct
                      (IsCollected-start tags tag_name) e in
                  let kept = erase_tags-IsWellFormed tags tag_name names w c in
                  let same : erase_tags names tags ≡ n'.config.tags =
                    ground (arith, h, r, m, f, e) in
                  subst IsWellFormed same kept
            ]
          ]
        ]
      ]

  move_tag-eq_some :
      (fuel : ℕ) (tag_name parent_tag : String) (n n' : Notebook W J) (err : VxCoreError)
      → TagsAreWellFormed n
      → move_tag host fuel tag_name parent_tag n ≡ some (err, n')
      → TagsAreWellFormed n'
  unfolding move_tag save_tags
  move_tag-eq_some fuel tag_name parent_tag n n' err w h =
      let tags = n.config.tags in
      let stay = λ (e : n ≡ n'). subst TagsAreWellFormed e w in
      let asked = not (str_eq parent_tag "") && not (is_some (find_tag parent_tag tags)) in
      elim (Bool-cases n.read_only) [
        | inl r ↦ stay (ground (arith, h, r))
        | inr r ↦ elim (Bool-cases (str_eq tag_name "" || str_eq parent_tag tag_name)) [
          | inl m ↦ stay (ground (arith, h, r, m))
          | inr m ↦ elim (Bool-cases (is_some (find_tag tag_name tags) && not asked)) [
            | inr f ↦ stay (ground (arith, h, r, m, f))
            | inl f ↦ elim (Option-cases (is_above fuel tags tag_name parent_tag)) [
              | inl e ↦ absurd (ground (arith, h, r, m, f, e))
              | inr (above, e) ↦ elim (Bool-cases above) [
                | inl a ↦ stay (ground (arith, h, r, m, f, e, a))
                | inr a ↦
                    let there : is_some (find_tag tag_name tags) ≡ true = ground (arith, f) in
                    let parent : asked ≡ false = ground (arith, f) in
                    let moved =
                      set_parent-IsWellFormed tag_name parent_tag tags fuel w there (e ∙ ap some a)
                        parent in
                    let same : set_parent tag_name parent_tag tags ≡ n'.config.tags =
                      ground (arith, h, r, m, f, e, a) in
                    subst IsWellFormed same moved
              ]
            ]
          ]
        ]
      ]

  -- The operations on tags, with rounds enough for their loops.
  pub data TagStep (n n' : Notebook W J) : Type 0 where
    created : (tag parent : String) → (create_tag host tag parent n).1 ≡ n' → TagStep n n'
    created_path : (path : String) → (create_tag_path host path n).1 ≡ n' → TagStep n n'
    deleted :
        (fuel : ℕ) (tag : String) (err : VxCoreError)
        → delete_tag host fuel tag n ≡ some (err, n')
        → TagStep n n'
    moved :
        (fuel : ℕ) (tag parent : String) (err : VxCoreError)
        → move_tag host fuel tag parent n ≡ some (err, n')
        → TagStep n n'

  pub data TagSteps (n : Notebook W J) : Notebook W J → Type 0 where
    here : TagSteps n n
    next : {m n' : Notebook W J} → TagSteps n m → TagStep m n' → TagSteps n n'

  TagStep-AreWellFormed :
      (n n' : Notebook W J) → TagStep n n' → TagsAreWellFormed n → TagsAreWellFormed n'
  TagStep-AreWellFormed n n' (created tag parent e) w =
      subst TagsAreWellFormed e (create_tag-IsWellFormed host tag parent n w)
  TagStep-AreWellFormed n n' (created_path path e) w =
      subst TagsAreWellFormed e (create_tag_path-IsWellFormed path n w)
  TagStep-AreWellFormed n n' (deleted fuel tag err e) w =
      delete_tag-IsWellFormed fuel tag n n' err w e
  TagStep-AreWellFormed n n' (moved fuel tag parent err e) w =
      move_tag-eq_some fuel tag parent n n' err w e

  -- From a notebook without tags, whatever tags are created, moved and deleted, on every branch and
  -- with failing saves: no two tags have one name, every parent is a tag, and no tag stands above
  -- itself.
  pub TagSteps-AreWellFormed :
      (n n' : Notebook W J) → n.config.tags ≡ [] → TagSteps n n' → TagsAreWellFormed n'
  TagSteps-AreWellFormed n n' empty here =
      let none_yet : IsWellFormed {J = J} [] = record {
        forest = (0, tt);
        distinct = tt;
        named = tt;
      } in
      subst IsWellFormed (sym empty) none_yet
  TagSteps-AreWellFormed n n' empty (next {m} steps step) =
      TagStep-AreWellFormed m n' step (TagSteps-AreWellFormed n m empty steps)

  is_above-cycle :
      (fuel : ℕ) (tags : List (TagNode J)) (tag_name : String) (t u : TagNode J)
      → find_tag t.parent tags ≡ some u
      → find_tag u.parent tags ≡ some t
      → str_eq t.parent "" || str_eq t.parent tag_name ≡ false
      → str_eq u.parent "" || str_eq u.parent tag_name ≡ false
      → is_above fuel tags tag_name t.parent ≡ none
  unfolding is_above
  is_above-cycle zero tags tag_name t u p q h k = refl
  is_above-cycle (suc fuel) tags tag_name t u p q h k =
      ground (arith, p, h, is_above-cycle fuel tags tag_name u t q p k h)

  -- A tag moved below one of two other tags that are each other's parent: the loop of MoveTag never
  -- ends.
  pub move_tag-cycle :
      (fuel : ℕ) (tag_name : String) (n : Notebook W J) (tag t u : TagNode J)
      → n.read_only ≡ false
      → str_eq tag_name "" ≡ false
      → find_tag tag_name n.config.tags ≡ some tag
      → find_tag t.parent n.config.tags ≡ some u
      → find_tag u.parent n.config.tags ≡ some t
      → str_eq t.parent "" || str_eq t.parent tag_name ≡ false
      → str_eq u.parent "" || str_eq u.parent tag_name ≡ false
      → move_tag host fuel tag_name t.parent n ≡ none
  unfolding move_tag
  move_tag-cycle fuel tag_name n tag t u r m f p q h k =
      ground (arith, r, m, f, p, h, is_above-cycle fuel n.config.tags tag_name t u p q h k)
