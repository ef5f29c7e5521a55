-- ===== src/Base/Equality.antt =====
-- Rust's `==` on keys: an interface with instances for numbers, lists and booleans.
use Prim.Native.Nat.{ℕ}
use mathlib.Core.Path.{◌≡◌, refl}
use mathlib.Core.Logic.{◌↔◌}
use mathlib.Core.Bool.{Bool, true, false, ◌&&◌}
use mathlib.Core.List.{List, [], ◌∷◌}
use native.Mathlib.Omega.{arith}
use nkv.Base.Tests.{nat_beq, nat_beq_iff}

pub record PartialEq {ℓ} (Key : Type ℓ) : Type ℓ where
  pub eq : Key → Key → Bool
  pub eq_decides : (left right : Key) → (eq left right ≡ true) ↔ (left ≡ right)

module _ {ℓ} {Key : Type ℓ} ⦃test : PartialEq Key⦄ where
  infix 50 ◌==◌
  abbrev pub ◌==◌ : Key → Key → Bool
  left == right = test.eq left right

  pub eq_iff : (left right : Key) → ((left == right) ≡ true) ↔ (left ≡ right)
  eq_iff left right = test.eq_decides left right

  pub eq_refl : (key : Key) → (key == key) ≡ true
  eq_refl key = (eq_iff key key).1 refl

instance abbrev pub number_eq : PartialEq ℕ
number_eq = record { eq_decides = nat_beq_iff; eq = nat_beq }

module _ {ℓ} {A : Type ℓ} ⦃e : PartialEq A⦄ where
  unfoldable pub list_beq : List A → List A → Bool
  list_beq [] [] = true
  list_beq (a ∷ as1) (b ∷ bs) = a == b && list_beq as1 bs
  list_beq _ _ = false

  pub list_beq_iff : (as1 bs : List A) → (list_beq as1 bs ≡ true) ↔ (as1 ≡ bs)
  unfolding list_beq
  list_beq_iff [] [] = ground arith
  list_beq_iff [] (b ∷ bs) = ground arith
  list_beq_iff (a ∷ as1) [] = ground arith
  list_beq_iff (a ∷ as1) (b ∷ bs) = ground (arith, eq_iff a b, list_beq_iff as1 bs)

instance abbrev pub list_eq {ℓ} : {A : Type ℓ} ⦃e : PartialEq A⦄ → PartialEq (List A)
list_eq = record { eq_decides = list_beq_iff; eq = list_beq }
