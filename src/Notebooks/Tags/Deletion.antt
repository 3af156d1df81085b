-- ===== src/Notebooks/Tags/Deletion.antt =====
-- core/notebook.cpp: the tags that stay when DeleteTag is done.
use vxcore.Notebooks.Tags.Subtree.{subtree_loop_ends}
use vxcore.Errors.{VxCoreError}
use vxcore.Notebooks.Tags.Operations.{TagsAreWellFormed}
use vxcore.Prelude.{
  ap, ◌∙◌, Bool, is_some, zero, Option-cases, ◌++◌, inr, All-map, refl, inl, eq_iff, true, str_eq,
  none, arith, some, if◌then◌else◌, false, Bool-cases, ◌≤◌, ◌≡◌, ◌∷◌, [], All, ℕ, contains, String,
  List,
}
use vxcore.Notebooks.Tags.{
  forget_tags, is_above, Notebook, save_tags, delete_tag, Host, reverse, suc, TagNode, find_tag,
  erase_tag, erase_tags, children, subtree_loop,
}
use vxcore.Notebooks.Tags.Forest.{
  find_tag_self, All-find_tag, ends, IsWellFormed, HasDistinctNames, IsNamed,
}
use vxcore.Notebooks.Tags.Deleted.{
  is_above-contains, is_above-Under, IsBelow, All-contains, IsCollected-start,
  subtree_loop-IsCollected, IsCollected,
}

module _ {J : Type 0} where
  find_tag-erase_tag :
      (x tag_name : String) (tags : List (TagNode J))
      → HasDistinctNames tags
      → find_tag x (erase_tag tag_name tags) ≡ (if str_eq tag_name x then none else find_tag x tags)
  unfolding find_tag erase_tag
  find_tag-erase_tag x tag_name [] d = ground arith
  find_tag-erase_tag x tag_name (t ∷ tags) d = ground (
    arith,
    d.0,
    find_tag-erase_tag x tag_name tags (d.1),
    eq_iff t.name x,
    eq_iff t.name tag_name,
    eq_iff tag_name x,
  )

  All-erase_tag :
      (P : TagNode J → Type 0) (tag_name : String) (tags : List (TagNode J))
      → All P tags
      → All P (erase_tag tag_name tags)
  unfolding erase_tag
  All-erase_tag P tag_name [] a = tt
  All-erase_tag P tag_name (t ∷ tags) a = elim (Bool-cases (str_eq t.name tag_name)) [
    | inl e ↦ rw e (a.1)
    | inr e ↦ rw e (a.0, All-erase_tag P tag_name tags (a.1))
  ]

  HasDistinctNames-erase_tag :
      (tag_name : String) (tags : List (TagNode J))
      → HasDistinctNames tags
      → HasDistinctNames (erase_tag tag_name tags)
  unfolding erase_tag
  HasDistinctNames-erase_tag tag_name [] d = tt
  HasDistinctNames-erase_tag tag_name (t ∷ tags) d = elim (Bool-cases (str_eq t.name tag_name)) [
    | inl e ↦ rw e (d.1)
    | inr e ↦
        let gone = find_tag-erase_tag t.name tag_name tags (d.1) in
        rw e (ground (arith, gone, d.0), HasDistinctNames-erase_tag tag_name tags (d.1))
  ]

  HasDistinctNames-erase_tags :
      (names : List String) (tags : List (TagNode J))
      → HasDistinctNames tags
      → HasDistinctNames (erase_tags names tags)
  unfolding erase_tags
  HasDistinctNames-erase_tags [] tags d = d
  HasDistinctNames-erase_tags (a ∷ names) tags d =
      HasDistinctNames-erase_tags names (erase_tag a tags) (HasDistinctNames-erase_tag a tags d)

  All-erase_tags :
      (P : TagNode J → Type 0) (names : List String) (tags : List (TagNode J))
      → All P tags
      → All P (erase_tags names tags)
  unfolding erase_tags
  All-erase_tags P [] tags a = a
  All-erase_tags P (b ∷ names) tags a =
      All-erase_tags P names (erase_tag b tags) (All-erase_tag P b tags a)

  find_tag-erase_tags :
      (x : String) (names : List String) (tags : List (TagNode J))
      → HasDistinctNames tags
      → find_tag x (erase_tags names tags) ≡ (if contains x names then none else find_tag x tags)
  unfolding erase_tags contains
  find_tag-erase_tags x [] tags d = refl
  find_tag-erase_tags x (a ∷ names) tags d = ground (
    arith,
    find_tag-erase_tags x names (erase_tag a tags) (HasDistinctNames-erase_tag a tags d),
    find_tag-erase_tag x a tags d,
  )

module _ {J : Type 0} (tags : List (TagNode J)) (tag_name : String) (r : List String) where
  -- What is left is as far from the top as before.
  ends-erase_tags :
      (n : ℕ) (x : String)
      → HasDistinctNames tags
      → IsCollected tags tag_name r []
      → contains x r ≡ false
      → ends n tags x ≡ true
      → ends n (erase_tags r tags) x ≡ true
  unfolding ends contains
  ends-erase_tags zero x d c h e = e
  ends-erase_tags (suc n) x d c h e = elim (Bool-cases (str_eq x "")) [
    | inl top ↦ ground (arith, top)
    | inr inside ↦ elim (Option-cases (find_tag x tags)) [
      | inl missing ↦ absurd (ground (arith, missing, inside, e))
      | inr (t, f) ↦
          let kept = find_tag-erase_tags x r tags d in
          let up : ends n tags t.parent ≡ true = ground (arith, e, inside, f) in
          let apart : contains t.parent r ≡ false = ground (arith, h, c.closed x t f) in
          ground (arith, kept, h, f, inside, ends-erase_tags n t.parent d c apart up)
    ]
  ]

  pub erase_tags-IsWellFormed :
      IsWellFormed tags → IsCollected tags tag_name r [] → IsWellFormed (erase_tags r tags)
  unfolding contains
  erase_tags-IsWellFormed w c =
      let tags' = erase_tags r tags in
      let (n, up) = w.forest in
      let distinct = HasDistinctNames-erase_tags r tags w.distinct in
      let one = λ (t : TagNode J) (own : find_tag t.name tags' ≡ some t).
        let kept = find_tag-erase_tags t.name r tags w.distinct in
        let left : contains t.name r ≡ false = ground (arith, kept, own) in
        let f : find_tag t.name tags ≡ some t = ground (arith, kept, own) in
        let apart : contains t.parent r ≡ false = ground (arith, left, c.closed t.name t f) in
        let old = All-find_tag (λ u. ends n tags u.parent ≡ true) t.name tags t up f in
        ends-erase_tags n t.parent w.distinct c apart old in
      record {
        forest = (n, All-map one tags' (find_tag_self tags' distinct));
        distinct = distinct;
        named = All-erase_tags IsNamed r tags w.named;
      }

is_above-erased :
    {J : Type 0} (tags : List (TagNode J)) (tag_name : String) (r : List String)
    → IsWellFormed tags
    → str_eq tag_name "" ≡ false
    → IsCollected tags tag_name r []
    → (x : String) (rounds : ℕ) (gone : Bool) → is_above rounds tags tag_name x ≡ some gone
    → find_tag x (erase_tags r tags) ≡ (if gone then none else find_tag x tags)
is_above-erased tags tag_name r w top c x rounds gone h =
    let kept = find_tag-erase_tags x r tags w.distinct in
    elim (Bool-cases (contains x r)) [
      | inl erased ↦
          let (j, under) = All-contains (IsBelow tags tag_name) x r c.sound erased in
          let e = is_above-Under tags tag_name j rounds x gone w top under h in
          ground (arith, kept, erased, e)
      | inr stays ↦ elim (Bool-cases gone) [
        | inl e ↦
            let found = is_above-contains tags tag_name rounds x r c (h ∙ ap some e) in
            ground (arith, found, stays)
        | inr e ↦ ground (arith, kept, stays, e)
      ]
    ]

subtree_loop-more :
    {J : Type 0} (k fuel : ℕ) (tags : List (TagNode J)) (found todo r : List String)
    → k ≤ fuel
    → subtree_loop k tags found todo ≡ some r
    → subtree_loop fuel tags found todo ≡ some r
unfolding subtree_loop
subtree_loop-more zero fuel tags found todo r h e = absurd (ground (arith, e))
subtree_loop-more (suc k) zero tags found todo r h e = absurd (omega (arith, h))
subtree_loop-more (suc k) (suc fuel) tags found [] r h e = e
subtree_loop-more (suc k) (suc fuel) tags found (x ∷ todo) r h e =
    subtree_loop-more k fuel tags (found ++ children x tags) (reverse (children x tags) ++ todo) r
      (omega (arith, h)) e

-- The rounds that DeleteTag needs.
abbrev pub delete_rounds :
    {W J : Type 0} (tag_name : String) (n : Notebook W J)
    → TagsAreWellFormed n
    → str_eq tag_name "" ≡ false
    → is_some (find_tag tag_name n.config.tags) ≡ true
    → ℕ
delete_rounds tag_name n w top exists = (subtree_loop_ends n.config.tags tag_name w top exists).0

module _ {W J : Type 0} (host : Host W J) where
  -- DeleteTag of a tag that is there, in a notebook with well-formed tags that may be written, ends
  -- with enough rounds. A tag is gone after it exactly if the way upwards from it meets the deleted
  -- tag, as MoveTag looks for it; every other tag stays as it was, and the tags are well-formed again.
  pub delete_tag-subtree :
      (tag_name : String) (n : Notebook W J) (fuel : ℕ) (x : String) (rounds : ℕ) (gone : Bool)
      (w : TagsAreWellFormed n) (top : str_eq tag_name "" ≡ false)
      (exists : is_some (find_tag tag_name n.config.tags) ≡ true)
      → n.read_only ≡ false
      → delete_rounds tag_name n w top exists ≤ fuel
      → is_above rounds n.config.tags tag_name x ≡ some gone
      → (r : VxCoreError × Notebook W J) × (delete_tag host fuel tag_name n ≡ some r)
        × TagsAreWellFormed r.1
        × (find_tag x r.1.config.tags ≡ (if gone then none else find_tag x n.config.tags))
  unfolding delete_tag save_tags
  delete_tag-subtree tag_name n fuel x rounds gone w top exists writable enough h =
      let tags = n.config.tags in
      let (bound, names, e) = subtree_loop_ends tags tag_name w top exists in
      let start = tag_name ∷ [] in
      let c =
        subtree_loop-IsCollected tags tag_name bound start start names w.distinct
          (IsCollected-start tags tag_name) e in
      let n' = record n { world = host.iterate_all_files (forget_tags host names) n.world } in
      let more = subtree_loop-more bound fuel tags start start names enough e in
      (
        save_tags host (erase_tags names tags) n',
        ground (arith, writable, top, exists, more),
        erase_tags-IsWellFormed tags tag_name names w c,
        is_above-erased tags tag_name names w top c x rounds gone h,
      )
