-- ===== src/Prelude/Eq.antt =====
-- Equality of the keys and names that the program compares by `===`.
use Prim.Native.Nat.{ℕ}
use mathlib.Core.Path.{◌≡◌, refl}
use mathlib.Core.Logic.{◌↔◌}
use mathlib.Core.Bool.{Bool, true, false, ◌&&◌, ◌||◌}
use mathlib.Core.List.{List, [], ◌∷◌}
use native.Mathlib.Omega.{arith}
use webshark.Prelude.Tests.{nat_beq, nat_beq_iff}

-- A test on pairs, and that it decides their equality.
pub record Equality {ℓ} (A : Type ℓ) : Type ℓ where
  pub test : A → A → Bool
  pub decides : (x y : A) → (test x y ≡ true) ↔ (x ≡ y)

abbrev pub list_beq : List ℕ → List ℕ → Bool
list_beq [] [] = true
list_beq [] (_ ∷ _) = false
list_beq (_ ∷ _) [] = false
list_beq (a ∷ s) (b ∷ t) = nat_beq a b && list_beq s t

pub list_beq_iff : (s t : List ℕ) → (list_beq s t ≡ true) ↔ (s ≡ t)
list_beq_iff [] [] = ground arith
list_beq_iff [] (b ∷ t) = ground arith
list_beq_iff (a ∷ s) [] = ground arith
list_beq_iff (a ∷ s) (b ∷ t) = ground (arith, list_beq_iff s t)

instance abbrev pub text_eq : Equality (List ℕ)
text_eq = record { test = list_beq; decides = list_beq_iff }

instance abbrev pub nat_eq : Equality ℕ
nat_eq = record { test = nat_beq; decides = nat_beq_iff }

-- `===`
infix 50 ◌==◌
abbrev pub ◌==◌ {ℓ} : {A : Type ℓ} ⦃e : Equality A⦄ → A → A → Bool
◌==◌ ⦃e⦄ = e.test

module _ {ℓ} {A : Type ℓ} ⦃e : Equality A⦄ where
  pub beq_refl : (a : A) → (a == a) ≡ true
  beq_refl a = (e.decides a a).1 refl

  -- `Array.includes`, and `Set.has` of the set's members in order
  abbrev pub contains : List A → A → Bool
  contains [] sought = false
  contains (first ∷ rest) sought = first == sought || contains rest sought
