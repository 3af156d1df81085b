-- ===== src/Folders/Order/Complete.antt =====
-- core/bundled_folder_manager.cpp: the check of a new order takes every permutation.

use vxcore.Folders.Order.{is_permutation, sorted, same_names, insert_name}
use vxcore.Prelude.{
  ◌∙◌, ap, Bool-cases, refl, suc, eq_refl, [], ◌∷◌, length, List, arith, true, false, ◌≡◌, Bool,
}
use Prim.Native.Nat.{Ordering, compare as compare_ℕ}
use Prim.Native.Char.{Char, code}
use Prim.Native.String.compare
use text.Mathlib.TextEquality.{path_by_compare}
use Prim.Native.String.{String, compare, then}
use text.Mathlib.Text.{is_lt}
use mathlib.Core.List.{Perm, Permᴰ}
use mathlib.Core.List.Perm
use mathlib.Core.Logic.{inr, inl, ∥∥₁_elim}
use mathlib.Core.Bool.{Bool-set}

abbrev lt : String → String → Bool
lt s t = is_lt (compare s t)

nil-cons : (d : Char) (t : String) → compare String.[] (String.◌∷◌ d t) ≡ Ordering.lt
nil-cons d t = compare.nil-cons d t

cons-nil : (c : Char) (s : String) → compare (String.◌∷◌ c s) String.[] ≡ Ordering.gt
cons-nil c s = compare.cons-nil c s

cons-cons :
    (c d : Char) (s t : String)
    → compare (String.◌∷◌ c s) (String.◌∷◌ d t) ≡ then (compare_ℕ (code c) (code d)) (compare s t)
cons-cons c d s t = compare.cons-cons c d s t

nil-nil : compare String.[] String.[] ≡ Ordering.eq
nil-nil = compare.nil-nil

-- Where `x` is not below `b` but below `a`, `b` is below `a`.
lt-between : (x a b : String) → lt x b ≡ false → lt x a ≡ true → lt b a ≡ true
lt-between String.[] String.[] b h k = ground (arith, k, nil-nil)
lt-between String.[] (String.◌∷◌ c a) String.[] h k = ground (arith, nil-cons c a)
lt-between String.[] (String.◌∷◌ c a) (String.◌∷◌ d b) h k = ground (arith, h, nil-cons d b)
lt-between (String.◌∷◌ e x) String.[] b h k = ground (arith, k, cons-nil e x)
lt-between (String.◌∷◌ e x) (String.◌∷◌ c a) String.[] h k = ground (arith, nil-cons c a)
lt-between (String.◌∷◌ e x) (String.◌∷◌ c a) (String.◌∷◌ d b) h k =
    ground (arith, h, k, cons-cons e c x a, cons-cons e d x b, cons-cons d c b a, lt-between x a b)

lt-asym : (a b : String) → lt a b ≡ true → lt b a ≡ false
lt-asym String.[] String.[] h = ground (arith, h, nil-nil)
lt-asym String.[] (String.◌∷◌ d b) h = ground (arith, cons-nil d b)
lt-asym (String.◌∷◌ c a) String.[] h = ground (arith, h, cons-nil c a)
lt-asym (String.◌∷◌ c a) (String.◌∷◌ d b) h =
    ground (arith, h, cons-cons c d a b, cons-cons d c b a, lt-asym a b)

incomparable : (a b : String) → lt a b ≡ false → lt b a ≡ false → compare a b ≡ Ordering.eq
incomparable String.[] String.[] h k = nil-nil
incomparable String.[] (String.◌∷◌ d b) h k = ground (arith, h, nil-cons d b)
incomparable (String.◌∷◌ c a) String.[] h k = ground (arith, k, nil-cons c a)
incomparable (String.◌∷◌ c a) (String.◌∷◌ d b) h k =
    ground (arith, h, k, cons-cons c d a b, cons-cons d c b a, incomparable a b)

lt-total : (a b : String) → lt a b ≡ false → lt b a ≡ false → a ≡ b
lt-total a b h k = path_by_compare a b (incomparable a b h k)

-- The order in which two names are inserted does not matter.
insert_name_comm :
    (a b : String) (xs : List String)
    → insert_name a (insert_name b xs) ≡ insert_name b (insert_name a xs)
unfolding insert_name
insert_name_comm a b [] = ground (arith, lt-asym a b, lt-asym b a, lt-total a b)
insert_name_comm a b (x ∷ xs) = ground (
  arith,
  insert_name_comm a b xs,
  lt-asym a b,
  lt-asym b a,
  lt-total a b,
  lt-between x a b,
  lt-between x b a,
)

length-insert_name : (a : String) (xs : List String) → length (insert_name a xs) ≡ suc (length xs)
unfolding insert_name
length-insert_name a [] = refl
length-insert_name a (x ∷ xs) = ground (arith, length-insert_name a xs)

sorted-perm : {xs ys : List String} → Permᴰ xs ys → sorted xs ≡ sorted ys
unfolding sorted
sorted-perm Permᴰ.nil = refl
sorted-perm (Permᴰ.cons {a} {b} {l₁} {l₂} e p) =
    ap (insert_name a) (sorted-perm p) ∙ ap (λ x. insert_name x (sorted l₂)) e
sorted-perm (Permᴰ.swap {a} {b} {a'} {b'} {l} e k) =
    insert_name_comm a b (sorted l)
    ∙ ap (λ x. insert_name x (insert_name a (sorted l))) k
    ∙ ap (λ x. insert_name a' (insert_name x (sorted l))) e
sorted-perm (Permᴰ.trans p q) = sorted-perm p ∙ sorted-perm q

pub same_names_refl : (xs : List String) → same_names xs xs ≡ true
unfolding same_names
same_names_refl [] = refl
same_names_refl (x ∷ xs) = ground (arith, same_names_refl xs, eq_refl x)

length-perm : {xs ys : List String} → Permᴰ xs ys → length xs ≡ length ys
length-perm Permᴰ.nil = refl
length-perm (Permᴰ.cons e p) = ap suc (length-perm p)
length-perm (Permᴰ.swap e k) = refl
length-perm (Permᴰ.trans p q) = length-perm p ∙ length-perm q

-- The check takes every permutation.
pub is_permutation-perm : (xs ys : List String) → Perm xs ys → is_permutation xs ys ≡ true
unfolding is_permutation
is_permutation-perm xs ys p =
    ∥∥₁_elim p (Bool-set _ _)
      (λ q. ground (arith, sorted-perm q, length-perm q, same_names_refl (sorted ys)))

insert_name-perm : (a : String) (xs : List String) → Perm (insert_name a xs) (a ∷ xs)
unfolding insert_name
insert_name-perm a [] = Perm.refl (a ∷ [])
insert_name-perm a (x ∷ xs) = elim (Bool-cases (lt x a)) [
  | inl below ↦ rw below (Perm.trans (Perm.cons x (insert_name-perm a xs)) (Perm.swap a x xs))
  | inr above ↦ rw above (Perm.refl (a ∷ x ∷ xs))
]

pub sorted_perm : (xs : List String) → Perm (sorted xs) xs
unfolding sorted
sorted_perm [] = Perm.refl []
sorted_perm (x ∷ xs) = Perm.trans (insert_name-perm x (sorted xs)) (Perm.cons x (sorted_perm xs))
