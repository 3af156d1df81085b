-- ===== src/Notebooks/Tags/Subtree.antt =====
-- core/notebook.cpp: the tags that DeleteTag collects.
use vxcore.Prelude.{
  ◌+◌, ◌≤◌, Option-cases, is_some, inr, ◌∙◌, subst, eq_iff, sym, ◌<◌, inl, zero, true, refl, ap,
  Bool-cases, ◌||◌, some, false, arith, [], ◌≡◌, ◌∷◌, ◌++◌, ℕ, str_eq, All, contains, String, List,
}
use mathlib.Core.List.{reverse, reverse-cons}
use vxcore.Notebooks.Tags.{suc, TagNode, find_tag, children, subtree_loop}
use vxcore.Notebooks.Tags.Forest.{
  find_tag_self, ends-find_tag, All-find_tag, ends, IsWellFormed, IsNamed,
}

pub All-append_list :
    {A : Type 0} (P : A → Type 0) (xs ys : List A) → All P xs → All P ys → All P (xs ++ ys)
All-append_list P [] ys a b = b
All-append_list P (x ∷ xs) ys a b = (a.0, All-append_list P xs ys (a.1) b)

pub All-reverse : {A : Type 0} (P : A → Type 0) (xs : List A) → All P xs → All P (reverse xs)
All-reverse P [] a = tt
All-reverse P (x ∷ xs) a =
    rw (reverse-cons x xs)
      (All-append_list P (reverse xs) (x ∷ []) (All-reverse P xs (a.1)) (a.0, tt))

pub contains-append :
    (a : String) (xs ys : List String) → contains a (xs ++ ys) ≡ (contains a xs || contains a ys)
unfolding contains
contains-append a [] ys = refl
contains-append a (x ∷ xs) ys = ground (arith, contains-append a xs ys)

pub contains-reverse : (a : String) (xs : List String) → contains a (reverse xs) ≡ contains a xs
unfolding contains
contains-reverse a [] = refl
contains-reverse a (x ∷ xs) = ground (
  arith,
  ap (contains a) (reverse-cons x xs),
  contains-append a (reverse xs) (x ∷ []),
  contains-reverse a xs,
)

module _ {J : Type 0} where
  pub find_tag-name :
      (x : String) (tags : List (TagNode J)) (t : TagNode J)
      → find_tag x tags ≡ some t
      → str_eq t.name x ≡ true
  unfolding find_tag
  find_tag-name x [] t h = absurd (ground (arith, h))
  find_tag-name x (u ∷ tags) t h = ground (arith, h, find_tag-name x tags t)

  pub contains-children :
      (x current : String) (tags : List (TagNode J)) (t : TagNode J)
      → find_tag x tags ≡ some t
      → str_eq t.parent current ≡ true
      → contains x (children current tags) ≡ true
  unfolding find_tag contains children
  contains-children x current [] t h k = absurd (ground (arith, h))
  contains-children x current (u ∷ tags) t h k =
      ground (arith, h, k, contains-children x current tags t)

module _ {J : Type 0} (tags : List (TagNode J)) (tag_name : String) where
  -- `x` stands `j` steps below the tag.
  abbrev pub Under : ℕ → String → Type 0
  Under zero x = x ≡ tag_name
  Under (suc j) x = (t : TagNode J) × (find_tag x tags ≡ some t) × Under j t.parent

  pub children-Under :
      (j : ℕ) (current : String) (some_tags : List (TagNode J))
      → Under j current
      → All (λ u. find_tag u.name tags ≡ some u) some_tags
      → All (Under (suc j)) (children current some_tags)
  unfolding children
  children-Under j current [] u h = tt
  children-Under j current (t ∷ ts) u h =
      let later = children-Under j current ts u (h.1) in
      elim (Bool-cases (str_eq t.parent current)) [
        | inl e ↦
            let same : current ≡ t.parent = sym ((eq_iff t.parent current).0 e) in
            rw e ((t, h.0, subst (Under j) same u), later)
        | inr e ↦ rw e later
      ]

  abbrev Finishes : List String → Type 0
  Finishes todo =
      (found : List String)
      → (fuel : ℕ) × (r : List String) × (subtree_loop fuel tags found todo ≡ some r)

  Finishes-append :
      (P : String → Type 0) (zs todo : List String)
      → ((y : String) (rest : List String) → P y → Finishes rest → Finishes (y ∷ rest))
      → All P zs
      → Finishes todo
      → Finishes (zs ++ todo)
  Finishes-append P [] todo one a f = f
  Finishes-append P (z ∷ zs) todo one a f =
      one z (zs ++ todo) (a.0) (Finishes-append P zs todo one (a.1) f)

  module _ (w : IsWellFormed tags) (top : str_eq tag_name "" ≡ false) where
    pub below_top : (x : String) (t : TagNode J) → find_tag x tags ≡ some t → str_eq x "" ≡ false
    below_top x t found =
        let own : str_eq t.name "" ≡ false = All-find_tag IsNamed x tags t w.named found in
        let e : t.name ≡ x = (eq_iff t.name x).0 (find_tag-name x tags t found) in
        sym (ap (λ y. str_eq y "") e) ∙ own

    pub Under-lt : (j k : ℕ) (x : String) → Under j x → ends k tags x ≡ true → j < k
    unfolding ends
    Under-lt zero zero x u h = absurd (ground (arith, ap (λ y. str_eq y "") u, h, top))
    Under-lt zero (suc k) x u h = omega arith
    Under-lt (suc j) zero x (t, found, u) h = absurd (ground (arith, below_top x t found, h))
    Under-lt (suc j) (suc k) x (t, found, u) h =
        let up : ends k tags t.parent ≡ true = ground (arith, h, found, below_top x t found) in
        omega (arith, Under-lt j k t.parent u up)

    module _ (exists : is_some (find_tag tag_name tags) ≡ true) where
      Under-ends : (j : ℕ) (x : String) → Under j x → ends (suc (w.forest.0)) tags x ≡ true
      Under-ends zero x u = elim (Option-cases (find_tag tag_name tags)) [
        | inl missing ↦ absurd (ground (arith, missing, exists))
        | inr (t, found) ↦
            let up = ends-find_tag (w.forest.0) tags tag_name t (w.forest.1) found in
            subst (λ y. ends (suc (w.forest.0)) tags y ≡ true) (sym u) up
      ]
      Under-ends (suc j) x (t, found, u) = ends-find_tag (w.forest.0) tags x t (w.forest.1) found

      Under-Finishes :
          (m j : ℕ) (x : String) (todo : List String)
          → suc (w.forest.0) ≤ j + m
          → Under j x
          → Finishes todo
          → Finishes (x ∷ todo)
      unfolding subtree_loop
      Under-Finishes zero j x todo k u f found =
          absurd (omega (arith, k, Under-lt j (suc (w.forest.0)) x u (Under-ends j x u)))
      Under-Finishes (suc m) j x todo k u f found =
          let below = children x tags in
          let a = children-Under j x tags u (find_tag_self tags w.distinct) in
          let one = λ (y : String) (rest : List String) (v : Under (suc j) y) (g : Finishes rest).
            Under-Finishes m (suc j) y rest (omega (arith, k)) v g in
          let (fuel, r, e) =
            Finishes-append (Under (suc j)) (reverse below) todo one
              (All-reverse (Under (suc j)) below a) f (found ++ below) in
          (suc fuel, r, e)

      -- DeleteTag's loops end.
      pub subtree_loop_ends :
          (fuel : ℕ) × (r : List String) × (subtree_loop fuel tags (tag_name ∷ []) (tag_name ∷ [])
            ≡ some r)
      unfolding subtree_loop
      subtree_loop_ends =
          Under-Finishes (suc (w.forest.0)) 0 tag_name [] (omega arith) refl
            (λ found. (1, found, refl)) (tag_name ∷ [])
