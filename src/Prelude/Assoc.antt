-- ===== src/Prelude/Assoc.antt =====
-- `std::map` with string keys as a list in key order. `std::unordered_map` is the same list, and
-- no statement about one depends on the order.
use Prim.Native.String.{String, compare}
use mathlib.Core.Path.{◌≡◌, refl}
use mathlib.Core.Bool.{Bool}
use mathlib.Core.List.{List, [], ◌∷◌, map}
use mathlib.Core.Option.{Option, none, some}
use native.Mathlib.Omega.{arith}
use text.Mathlib.Text.{◌==◌, is_lt}
use text.Mathlib.TextEquality.{eq_iff}
use vxcore.Prelude.Lists.{All}
use vxcore.Prelude.Tests.{if◌then◌else◌, is_some}

abbrev pub Assoc {ℓ} : Type ℓ → Type ℓ
Assoc V = List (String × V)

module _ {ℓ} {V : Type ℓ} where
  -- m.find(k)
  unfoldable pub lookup : String → Assoc V → Option V
  lookup k [] = none
  lookup k ((j, v) ∷ m) = if j == k then some v else lookup k m

  -- m.count(k) > 0
  abbrev pub has : String → Assoc V → Bool
  has k m = is_some (lookup k m)

  update : String → V → Assoc V → Assoc V
  update k v [] = []
  update k v ((j, w) ∷ m) = if j == k then (k, v) ∷ m else (j, w) ∷ update k v m

  place : String → V → Assoc V → Assoc V
  place k v [] = (k, v) ∷ []
  place k v ((j, w) ∷ m) = if is_lt (compare k j) then (k, v) ∷ (j, w) ∷ m else (j, w) ∷ place k v m

  -- m[k] = v: the value of a key that is there is replaced, a new key takes its place in the order.
  unfoldable pub put : String → V → Assoc V → Assoc V
  unfolding update place lookup
  put k v m = if has k m then update k v m else place k v m

  -- m.erase(k)
  unfoldable pub without : String → Assoc V → Assoc V
  without k [] = []
  without k ((j, v) ∷ m) = let rest = without k m in if j == k then rest else (j, v) ∷ rest

  abbrev pub keys : Assoc V → List String
  keys = map λ e. e.0

  lookup-update :
      (k j : String) (v : V) (m : Assoc V)
      → lookup j (update k v m)
        ≡ (if k == j then (if has k m then some v else none) else lookup j m)
  unfolding lookup update
  lookup-update k j v [] = ground arith
  lookup-update k j v ((i, w) ∷ m) =
      ground (arith, lookup-update k j v m, eq_iff i k, eq_iff i j, eq_iff k j)

  lookup-place :
      (k j : String) (v : V) (m : Assoc V)
      → lookup k m ≡ none
      → lookup j (place k v m) ≡ (if k == j then some v else lookup j m)
  unfolding lookup place
  lookup-place k j v [] h = refl
  lookup-place k j v ((i, w) ∷ m) h =
      ground (arith, lookup-place k j v m, eq_iff i k, eq_iff i j, eq_iff k j)

  pub lookup-put :
      (k j : String) (v : V) (m : Assoc V)
      → lookup j (put k v m) ≡ (if k == j then some v else lookup j m)
  unfolding put
  lookup-put k j v m = ground (arith, lookup-update k j v m, lookup-place k j v m)

  pub lookup-without :
      (k j : String) (m : Assoc V) → lookup j (without k m) ≡ (if k == j then none else lookup j m)
  unfolding lookup without
  lookup-without k j [] = ground arith
  lookup-without k j ((i, v) ∷ m) =
      ground (arith, lookup-without k j m, eq_iff i k, eq_iff i j, eq_iff k j)

-- No key stands twice.
module _ {ℓ} {V : Type ℓ} where
  abbrev pub DistinctKeys : Assoc V → Type ℓ
  DistinctKeys [] = Unit
  DistinctKeys ((k, v) ∷ m) = (lookup k m ≡ none) × DistinctKeys m

  update-DistinctKeys :
      (k : String) (v : V) (m : Assoc V) → DistinctKeys m → DistinctKeys (update k v m)
  unfolding update
  update-DistinctKeys k v [] d = d
  update-DistinctKeys k v ((i, w) ∷ m) d =
      ground (arith, update-DistinctKeys k v m, lookup-update k i v m, eq_iff i k, eq_iff k i)

  place-DistinctKeys :
      (k : String) (v : V) (m : Assoc V)
      → lookup k m ≡ none
      → DistinctKeys m
      → DistinctKeys (place k v m)
  unfolding place lookup
  place-DistinctKeys k v [] h d = (refl, tt)
  place-DistinctKeys k v ((i, w) ∷ m) h d =
      ground (arith, place-DistinctKeys k v m, lookup-place k i v m, eq_iff i k, eq_iff k i)

  pub put-DistinctKeys :
      (k : String) (v : V) (m : Assoc V) → DistinctKeys m → DistinctKeys (put k v m)
  unfolding put
  put-DistinctKeys k v m d = ground (arith, update-DistinctKeys k v m, place-DistinctKeys k v m)

  pub without-DistinctKeys :
      (k : String) (m : Assoc V) → DistinctKeys m → DistinctKeys (without k m)
  unfolding without
  without-DistinctKeys k [] d = d
  without-DistinctKeys k ((i, w) ∷ m) d =
      ground (arith, without-DistinctKeys k m, lookup-without k i m, eq_iff i k, eq_iff k i)

module _ {ℓ κ} {V : Type ℓ} (P : String × V → Type κ) where
  All-update : (k : String) (v : V) (m : Assoc V) → P (k, v) → All P m → All P (update k v m)
  unfolding update
  All-update k v [] h a = a
  All-update k v ((j, w) ∷ m) h a = ground (arith, All-update k v m h)

  All-place : (k : String) (v : V) (m : Assoc V) → P (k, v) → All P m → All P (place k v m)
  unfolding place
  All-place k v [] h a = (h, tt)
  All-place k v ((j, w) ∷ m) h a = ground (arith, All-place k v m h)

  pub All-put : (k : String) (v : V) (m : Assoc V) → P (k, v) → All P m → All P (put k v m)
  unfolding put
  All-put k v m h a = ground (arith, All-update k v m h a, All-place k v m h a)

pub ruleset assoc_laws = (lookup-put, lookup-without)
