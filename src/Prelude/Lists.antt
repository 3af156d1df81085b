-- ===== src/Prelude/Lists.antt =====
-- Lists measured and indexed by native numbers, and texts as lists of bytes.
use Prim.Native.Nat.{ℕ, zero, suc, ◌+◌, ◌-◌, ◌≤◌, ◌<◌, min}
use Prim.Native.Char.{code}
use Prim.Native.String.{String}
use mathlib.Core.Path.{◌≡◌, refl, sym, ap, ◌∙◌}
use mathlib.Core.Bool.{Bool, true, false, ◌||◌}
use mathlib.Core.List.{List, [], ◌∷◌, ◌++◌}
use mathlib.Core.Option.{Option, none, some}
use native.Mathlib.Omega.{arith}
use vxcore.Prelude.Tests.{◌==◌, if◌then◌else◌}
use text.Mathlib.Text.{◌==◌ as str_eq}
use mathlib.Core.Logic.{◌≢◌}

abbrev pub Bytes : Type 0
Bytes = List ℕ

-- The bytes of a text, one for each character.
abbrev pub codes : String → Bytes
codes String.[] = []
codes (String.◌∷◌ c s) = code c ∷ codes s

module _ {ℓ} {A : Type ℓ} where
  abbrev pub length : List A → ℕ
  length [] = 0
  length (x ∷ xs) = suc (length xs)

  abbrev pub get_elem? : List A → ℕ → Option A
  get_elem? [] i = none
  get_elem? (x ∷ xs) zero = some x
  get_elem? (x ∷ xs) (suc i) = get_elem? xs i

  abbrev pub take : ℕ → List A → List A
  take zero xs = []
  take (suc n) [] = []
  take (suc n) (x ∷ xs) = x ∷ take n xs

  abbrev pub drop : ℕ → List A → List A
  drop zero xs = xs
  drop (suc n) [] = []
  drop (suc n) (x ∷ xs) = drop n xs

  pub length-append : (xs ys : List A) → length (xs ++ ys) ≡ length xs + length ys
  length-append [] ys = omega arith
  length-append (x ∷ xs) ys = omega (arith, length-append xs ys)

  pub length-take : (n : ℕ) (xs : List A) → length (take n xs) ≡ min n (length xs)
  length-take zero xs = omega arith
  length-take (suc n) [] = omega arith
  length-take (suc n) (x ∷ xs) = omega (arith, length-take n xs)

  pub length-drop : (n : ℕ) (xs : List A) → length (drop n xs) ≡ length xs - n
  length-drop zero xs = omega arith
  length-drop (suc n) [] = omega arith
  length-drop (suc n) (x ∷ xs) = omega (arith, length-drop n xs)

pub drop-nil {ℓ} : {A : Type ℓ} (n : ℕ) → drop {A = A} n [] ≡ []
drop-nil zero = refl
drop-nil (suc n) = refl

pub drop-drop {ℓ} : {A : Type ℓ} (m n : ℕ) (xs : List A) → drop n (drop m xs) ≡ drop (m + n) xs
drop-drop zero n xs = let e : n ≡ 0 + n = omega arith in ap (λ k. drop k xs) e
drop-drop (suc m) n [] = drop-nil n ∙ sym (drop-nil (suc m + n))
drop-drop (suc m) n (x ∷ xs) =
    let e : suc (m + n) ≡ suc m + n = omega arith in drop-drop m n xs ∙ ap (λ k. drop k (x ∷ xs)) e

pub drop-all {ℓ} : {A : Type ℓ} (n : ℕ) (xs : List A) → length xs ≤ n → drop n xs ≡ []
drop-all zero [] h = refl
drop-all zero (x ∷ xs) h = absurd (omega (arith, h))
drop-all (suc n) [] h = refl
drop-all (suc n) (x ∷ xs) h = drop-all n xs (omega (arith, h))

pub take-min {ℓ} : {A : Type ℓ} (k : ℕ) (xs : List A) → take (min k (length xs)) xs ≡ take k xs
take-min zero xs = let e : min 0 (length xs) ≡ 0 = omega arith in ap (λ n. take n xs) e
take-min (suc k) [] = let e : min (suc k) 0 ≡ 0 = omega arith in ap (λ n. take n []) e
take-min (suc k) (x ∷ xs) =
    let e : min (suc k) (suc (length xs)) ≡ suc (min k (length xs)) = omega arith in
    ap (λ n. take n (x ∷ xs)) e ∙ ap (λ ys. x ∷ ys) (take-min k xs)

-- Lists of one length with the same elements are equal.
pub get_elem?_ext {ℓ} :
    {A : Type ℓ} (xs ys : List A)
    → length xs ≡ length ys
    → ((i : ℕ) → i < length ys → get_elem? xs i ≡ get_elem? ys i)
    → xs ≡ ys
get_elem?_ext [] [] e h = refl
get_elem?_ext [] (y ∷ ys) e h = absurd (omega (arith, e))
get_elem?_ext (x ∷ xs) [] e h = absurd (omega (arith, e))
get_elem?_ext (x ∷ xs) (y ∷ ys) e h =
    let tails = get_elem?_ext xs ys (omega (arith, e)) (λ i k. h (suc i) (omega (arith, k))) in
    let heads = h 0 (omega arith) in ground (arith, heads, tails)

module _ {ℓ κ} {A : Type ℓ} (P : A → Type κ) where
  abbrev pub All : List A → Type κ
  All [] = Unit
  All (x ∷ xs) = P x × All xs

pub All-map {ℓ κ μ} :
    {A : Type ℓ} {P : A → Type κ} {Q : A → Type μ}
    → ((x : A) → P x → Q x)
    → (xs : List A) → All P xs
    → All Q xs
All-map f [] a = tt
All-map f (x ∷ xs) a = (f x (a.0), All-map f xs (a.1))

-- std::find over a vector of strings, as a test.
unfoldable pub contains : String → List String → Bool
contains a [] = false
contains a (x ∷ xs) = str_eq x a || contains a xs

-- Membership in a list of numbers, and the list without the first `a`.
unfoldable pub is_member : ℕ → List ℕ → Bool
is_member a [] = false
is_member a (x ∷ xs) = (x == a) || is_member a xs

unfoldable pub remove_one : ℕ → List ℕ → List ℕ
remove_one a [] = []
remove_one a (x ∷ xs) = let rest = remove_one a xs in if x == a then xs else x ∷ rest

pub length-remove_one :
    (a : ℕ) (xs : List ℕ) → is_member a xs ≡ true → suc (length (remove_one a xs)) ≡ length xs
unfolding is_member remove_one
length-remove_one a [] h = ground (arith, h)
length-remove_one a (x ∷ xs) h = ground (arith, h, length-remove_one a xs)

pub is_member-remove_one :
    (a b : ℕ) (xs : List ℕ) → a ≢ b → is_member b (remove_one a xs) ≡ is_member b xs
unfolding is_member remove_one
is_member-remove_one a b [] h = refl
is_member-remove_one a b (x ∷ xs) h = ground (arith, h, is_member-remove_one a b xs h)

pub is_member-append :
    (a : ℕ) (xs ys : List ℕ) → is_member a (xs ++ ys) ≡ (is_member a xs || is_member a ys)
unfolding is_member
is_member-append a [] ys = refl
is_member-append a (x ∷ xs) ys = ground (arith, is_member-append a xs ys)
