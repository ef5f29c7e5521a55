-- ===== src/Base/Dict.antt =====
-- `HashMap` as an association list in which a key stands at most once. An iteration may meet the
-- entries in any order; here it is the order of the list, and a new key comes last.
use mathlib.Core.Path.{◌≡◌, refl}
use mathlib.Core.Logic.{◌≢◌}
use mathlib.Core.Bool.{Bool}
use mathlib.Core.Option.{Option, none, some}
use mathlib.Core.List.{List, [], ◌∷◌, ◌++◌}
use native.Mathlib.Omega.{arith}
use nkv.Base.Tests.{if◌then◌else◌, is_some}
use nkv.Base.Equality.{PartialEq, ◌==◌, eq_iff, eq_refl}

abbrev pub Dict {ℓ κ} : Type ℓ → Type κ → Type (ℓ ⊔ κ)
Dict K V = List (K × V)

unfoldable pub keys {ℓ κ} : {K : Type ℓ} {V : Type κ} → Dict K V → List K
keys [] = []
keys ((k, _) ∷ d) = k ∷ keys d

module _ {ℓ κ} {K : Type ℓ} {V : Type κ} ⦃e : PartialEq K⦄ where
  -- `map.get(&k)`
  unfoldable pub lookup : K → Dict K V → Option V
  lookup k [] = none
  lookup k ((j, v) ∷ d) = if j == k then some v else lookup k d

  -- `map.contains_key(&k)`
  abbrev pub contains_key : K → Dict K V → Bool
  contains_key k d = is_some (lookup k d)

  -- `map.insert(k, v)`
  unfoldable pub insert : K → V → Dict K V → Dict K V
  insert k v [] = (k, v) ∷ []
  insert k v ((j, w) ∷ d) = if j == k then (k, v) ∷ d else (j, w) ∷ insert k v d

  -- `map.remove(&k)`
  unfoldable pub remove : K → Dict K V → Dict K V
  remove k [] = []
  remove k ((j, w) ∷ d) = let rest = remove k d in if j == k then rest else (j, w) ∷ rest

  abbrev pub NodupKeys : Dict K V → Type κ
  NodupKeys [] = Unit
  NodupKeys ((k, _) ∷ d) = (lookup k d ≡ none) × NodupKeys d

  pub lookup-insert :
      (k j : K) (v : V) (d : Dict K V)
      → lookup j (insert k v d) ≡ (if k == j then some v else lookup j d)
  unfolding lookup insert
  lookup-insert k j v [] = refl
  lookup-insert k j v ((i, w) ∷ d) =
      ground (arith, eq_iff k j, eq_iff i k, eq_iff i j, lookup-insert k j v d)

  pub lookup-remove :
      (k j : K) (d : Dict K V) → lookup j (remove k d) ≡ (if k == j then none else lookup j d)
  unfolding lookup remove
  lookup-remove k j [] = ground arith
  lookup-remove k j ((i, w) ∷ d) =
      ground (arith, eq_iff k j, eq_iff i k, eq_iff i j, lookup-remove k j d)

  pub insert-NodupKeys : (k : K) (v : V) (d : Dict K V) → NodupKeys d → NodupKeys (insert k v d)
  unfolding insert lookup
  insert-NodupKeys k v [] _ = (refl, tt)
  insert-NodupKeys k v ((j, w) ∷ d) (fresh, u) =
      ground (arith, insert-NodupKeys k v d u, lookup-insert k j v d, eq_iff j k, eq_iff k j)

  pub remove-NodupKeys : (k : K) (d : Dict K V) → NodupKeys d → NodupKeys (remove k d)
  unfolding remove
  remove-NodupKeys k [] _ = tt
  remove-NodupKeys k ((j, w) ∷ d) (fresh, u) =
      ground (arith, remove-NodupKeys k d u, lookup-remove k j d)

  lookup-append_self :
      (found later : Dict K V) (k : K) (v : V) → lookup k (found ++ (k, v) ∷ later) ≢ none
  unfolding lookup
  lookup-append_self [] later k v = ground (arith, eq_refl k)
  lookup-append_self ((j, w) ∷ found) later k v = ground (arith, lookup-append_self found later k v)

  pub lookup_fresh :
      (found later : Dict K V) (k : K) (v : V)
      → NodupKeys (found ++ (k, v) ∷ later)
      → lookup k found ≡ none
  unfolding lookup
  lookup_fresh [] later k v h = refl
  lookup_fresh ((j, w) ∷ found) later k v h =
      ground
        (arith, lookup-append_self found later k v, eq_iff j k, lookup_fresh found later k v h.1)

  -- A new key comes last.
  pub insert-append :
      (found later : Dict K V) (k : K) (v : V)
      → NodupKeys (found ++ (k, v) ∷ later)
      → insert k v found ≡ found ++ (k, v) ∷ []
  unfolding insert
  insert-append [] later k v h = refl
  insert-append ((j, w) ∷ found) later k v h =
      ground
        (arith, lookup-append_self found later k v, eq_iff j k, insert-append found later k v h.1)
