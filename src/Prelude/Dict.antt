-- ===== src/Prelude/Dict.antt =====
-- Python's `dict` with string keys, as an association list in insertion order.
use Prim.Native.String.{String}
use mathlib.Core.Path.{◌≡◌, refl}
use mathlib.Core.Bool.{Bool, true, false, ◌||◌, ◌&&◌}
use fedservice.Prelude.Lists.{filter}
use mathlib.Core.Option.{Option, none, some}
use mathlib.Core.List.{List, [], ◌∷◌, ◌++◌}
use native.Mathlib.Omega.{arith}
use fedservice.Prelude.Tests.{◌==◌, if◌then◌else◌}

abbrev pub Dict {ℓ} : Type ℓ → Type ℓ
Dict V = List (String × V)

-- `k in xs`, for a list or a set of strings.
abbrev pub mem : String → List String → Bool
mem k [] = false
mem k (x ∷ xs) = k == x || mem k xs

module _ {ℓ} {V : Type ℓ} where
  -- `d.get(k)`
  unfoldable pub lookup : String → Dict V → Option V
  lookup key [] = none
  lookup key ((other, val) ∷ rest) = if key == other then some val else lookup key rest

  -- `k in d`
  unfoldable pub has_key : String → Dict V → Bool
  has_key k [] = false
  has_key k ((j, v) ∷ d) = if k == j then true else has_key k d

  -- `d[k] = v`
  unfoldable pub insert : String → V → Dict V → Dict V
  insert key val [] = (key, val) ∷ []
  insert key val ((other, w) ∷ rest) =
      if key == other then (other, val) ∷ rest else (other, w) ∷ insert key val rest

  -- `del d[k]`
  unfoldable pub erase : String → Dict V → Dict V
  erase k [] = []
  erase k ((j, w) ∷ d) = let rest = erase k d in if k == j then rest else (j, w) ∷ rest

  unfoldable pub keys : Dict V → List String
  keys [] = []
  keys ((k, v) ∷ d) = k ∷ keys d

  -- `d.update(e)`
  unfoldable pub update : Dict V → Dict V → Dict V
  update d [] = d
  update d ((k, v) ∷ e) = update (insert k v d) e

  pub lookup-nil : (k : String) → lookup k [] ≡ none
  unfolding lookup
  lookup-nil k = refl

  pub lookup-cons :
      (j k : String) (v : V) (d : Dict V)
      → lookup j ((k, v) ∷ d) ≡ (if j == k then some v else lookup j d)
  unfolding lookup
  lookup-cons j k v d = refl

  pub lookup-insert :
      (j k : String) (v : V) (d : Dict V)
      → lookup j (insert k v d) ≡ (if j == k then some v else lookup j d)
  unfolding insert lookup
  lookup-insert j k v [] = refl
  lookup-insert j k v (_ ∷ d) = ground (arith, lookup-insert j k v d)

  pub lookup-erase :
      (j k : String) (d : Dict V) → lookup j (erase k d) ≡ (if j == k then none else lookup j d)
  unfolding erase lookup
  lookup-erase j k [] = ground arith
  lookup-erase j k (_ ∷ d) = ground (arith, lookup-erase j k d)

  pub has_key-insert :
      (j k : String) (v : V) (d : Dict V)
      → has_key j (insert k v d) ≡ (if j == k then true else has_key j d)
  unfolding insert has_key
  has_key-insert j k v [] = refl
  has_key-insert j k v (_ ∷ d) = ground (arith, has_key-insert j k v d)

  -- A key is present exactly when it is found.
  pub has_key-eq-lookup :
      (k : String) (d : Dict V) → has_key k d ≡ elim (lookup k d) [ none ↦ false | some v ↦ true ]
  unfolding has_key lookup
  has_key-eq-lookup k [] = refl
  has_key-eq-lookup k ((j, v) ∷ d) = ground (arith, has_key-eq-lookup k d)

  pub mem-keys : (k : String) (d : Dict V) → mem k (keys d) ≡ has_key k d
  unfolding keys has_key
  mem-keys k [] = refl
  mem-keys k ((j, v) ∷ d) = ground (arith, mem-keys k d)

pub mem-append : (k : String) (xs ys : List String) → mem k (xs ++ ys) ≡ (mem k xs || mem k ys)
mem-append k [] ys = refl
mem-append k (x ∷ xs) ys = ground (arith, mem-append k xs ys)

pub mem-filter :
    (p : String → Bool) (k : String) (xs : List String) → mem k (filter p xs) ≡ (mem k xs && p k)
mem-filter p k [] = refl
mem-filter p k (x ∷ xs) = ground (arith, mem-filter p k xs)
