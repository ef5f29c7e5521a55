-- ===== src/Base/Lists.antt =====
-- Lists measured by native numbers, and predicates by recursion.
use Prim.Native.Nat.{ℕ, suc, ◌+◌}
use mathlib.Core.Path.{◌≡◌, sym}
use mathlib.Core.Logic.{◌↔◌, inl, inr}
use mathlib.Core.Bool.{Bool, true, false, ◌||◌}
use mathlib.Core.List.{Memᴰ, List, [], ◌∷◌, ◌++◌}
use native.Mathlib.Omega.{arith}
use nkv.Base.Tests.{Bool-cases}
use nkv.Base.Equality.{PartialEq, ◌==◌, eq_iff}

module _ {ℓ} {A : Type ℓ} where
  abbrev pub length : List A → ℕ
  length [] = 0
  length (x ∷ xs) = suc (length xs)

  pub length-append : (xs ys : List A) → length (xs ++ ys) ≡ length xs + length ys
  length-append [] ys = omega arith
  length-append (x ∷ xs) ys = omega (arith, length-append xs ys)

-- `P` of each entry, as a tuple.
module _ {ℓ κ} {A : Type ℓ} (P : A → Type κ) where
  abbrev pub All : List A → Type κ
  All [] = Unit
  All (entry ∷ rest) = P entry × All rest

-- `xs.contains(&x)`, read off the library's membership.
module _ {ℓ} {A : Type ℓ} ⦃e : PartialEq A⦄ where
  unfoldable pub elem : A → List A → Bool
  elem x [] = false
  elem x (y ∷ ys) = y == x || elem x ys

  pub elem_iff : (x : A) (ys : List A) → (elem x ys ≡ true) ↔ Memᴰ x ys
  unfolding elem
  elem_iff x [] = ((λ h. cc), λ m. elim m [ ])
  elem_iff x (y ∷ ys) = (
    (λ h. elim (Bool-cases (y == x)) [
      | inl same ↦ Memᴰ.head (sym ((eq_iff y x).0 same))
      | inr other ↦ Memᴰ.tail ((elem_iff x ys).0 (rw other at h))
    ]),
    λ m. elim m [
      | Memᴰ.head p ↦ ground (arith, eq_iff y x)
      | Memᴰ.tail m' ↦ ground (arith, (elem_iff x ys).1 m')
    ],
  )
