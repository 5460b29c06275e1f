-- ===== src/Prelude/Sorts.antt =====
-- `Array.sort`, which is stable: insertion from the right by a Boolean order.
use mathlib.Core.Path.{◌≡◌, refl, ap₂, ◌∙◌}
use mathlib.Core.Logic.{◌⊎◌, inl, inr, ∥∥₁_elim}
use mathlib.Core.Bool.{Bool, true}
use mathlib.Core.List.{List, [], ◌∷◌, Perm, Permᴰ}
use mathlib.Core.List.Perm
use native.Mathlib.Omega.{arith}
use webshark.Prelude.Tests.{if◌then◌else◌, Bool-cases}

module _ {ℓ} {A : Type ℓ} (leq : A → A → Bool) where
  abbrev pub insert_by : A → List A → List A
  insert_by x [] = x ∷ []
  insert_by x (y ∷ ys) = if leq x y then x ∷ y ∷ ys else y ∷ insert_by x ys

  abbrev pub sort_by : List A → List A
  sort_by [] = []
  sort_by (x ∷ xs) = insert_by x (sort_by xs)

  insert_by-perm : (x : A) (l : List A) → Perm (insert_by x l) (x ∷ l)
  insert_by-perm x [] = Perm.refl _
  insert_by-perm x (y ∷ ys) = elim (Bool-cases (leq x y)) [
    | inl first ↦ rw first (Perm.refl _)
    | inr later ↦ rw later (Perm.trans (Perm.cons y (insert_by-perm x ys)) (Perm.swap x y ys))
  ]

  pub sort_by-perm : (l : List A) → Perm (sort_by l) l
  sort_by-perm [] = Perm.refl _
  sort_by-perm (x ∷ xs) = Perm.trans (insert_by-perm x (sort_by xs)) (Perm.cons x (sort_by-perm xs))

pub record TotalOrder {ℓ} {A : Type ℓ} (leq : A → A → Bool) : Type ℓ where
  pub total : (a b : A) → (leq a b ≡ true) ⊎ (leq b a ≡ true)
  pub antisymmetric : (a b : A) → leq a b ≡ true → leq b a ≡ true → a ≡ b
  pub transitive : (a b c : A) → leq a b ≡ true → leq b c ≡ true → leq a c ≡ true

list_set {ℓ} : {A : Type ℓ} → IsSet A → IsSet (List A)
list_set s = hlevel s

module _ {ℓ} {A : Type ℓ} (leq : A → A → Bool) (o : TotalOrder leq) where
  open o use {total, antisymmetric, transitive}

  insert_by_comm :
      (x y : A) (l : List A)
      → insert_by leq x (insert_by leq y l) ≡ insert_by leq y (insert_by leq x l)
  insert_by_comm x y [] = ground (arith, total x y, antisymmetric x y)
  insert_by_comm x y (z ∷ l) = ground (
    arith,
    total x y,
    antisymmetric x y,
    total x z,
    total y z,
    transitive x z y,
    transitive y z x,
    transitive x y z,
    transitive y x z,
    insert_by_comm x y l,
  )

  sort_by-permᴰ : {l r : List A} → Permᴰ l r → sort_by leq l ≡ sort_by leq r
  sort_by-permᴰ Permᴰ.nil = refl
  sort_by-permᴰ (Permᴰ.cons e p) = ap₂ (insert_by leq) e (sort_by-permᴰ p)
  sort_by-permᴰ (Permᴰ.swap {a} {b} {l} e f) =
      insert_by_comm a b (sort_by leq l)
      ∙ ap₂ (λ u v. insert_by leq u (insert_by leq v (sort_by leq l))) f e
  sort_by-permᴰ (Permᴰ.trans p q) = sort_by-permᴰ p ∙ sort_by-permᴰ q

  -- Sorting forgets the order of what it is given.
  pub sort_by-eq_of_perm : IsSet A → {l r : List A} → Perm l r → sort_by leq l ≡ sort_by leq r
  sort_by-eq_of_perm s p = ∥∥₁_elim p (list_set s _ _) sort_by-permᴰ

-- Each element comes, in the order of the sort, no later than those behind it.
module _ {ℓ} {A : Type ℓ} (leq : A → A → Bool) where
  abbrev pub AllAfter : A → List A → Type 0
  AllAfter x [] = Unit
  AllAfter x (y ∷ ys) = (leq x y ≡ true) × AllAfter x ys

  abbrev pub IsSortedBy : List A → Type 0
  IsSortedBy [] = Unit
  IsSortedBy (x ∷ xs) = AllAfter x xs × IsSortedBy xs

  module _ (total : (a b : A) → (leq a b ≡ true) ⊎ (leq b a ≡ true))
      (transitive : (a b c : A) → leq a b ≡ true → leq b c ≡ true → leq a c ≡ true) where
    AllAfter-weaken : (x y : A) (l : List A) → leq x y ≡ true → AllAfter y l → AllAfter x l
    AllAfter-weaken x y [] h a = tt
    AllAfter-weaken x y (z ∷ l) h (first, a) = (transitive x y z h first, AllAfter-weaken x y l h a)

    AllAfter-insert_by :
        (x y : A) (l : List A) → leq x y ≡ true → AllAfter x l → AllAfter x (insert_by leq y l)
    AllAfter-insert_by x y [] h a = (h, tt)
    AllAfter-insert_by x y (z ∷ l) h (first, a) = elim (Bool-cases (leq y z)) [
      | inl before ↦ rw before (h, (first, a))
      | inr after ↦ rw after (first, AllAfter-insert_by x y l h a)
    ]

    insert_by-IsSortedBy : (x : A) (l : List A) → IsSortedBy l → IsSortedBy (insert_by leq x l)
    insert_by-IsSortedBy x [] s = (tt, tt)
    insert_by-IsSortedBy x (y ∷ l) (first, s) = elim (Bool-cases (leq x y)) [
      | inl before ↦ rw before ((before, AllAfter-weaken x y l before first), (first, s))
      | inr after ↦
          let behind : leq y x ≡ true = ground (arith, total x y) in
          rw after (AllAfter-insert_by y x l behind first, insert_by-IsSortedBy x l s)
    ]

    pub sort_by-IsSortedBy : (l : List A) → IsSortedBy (sort_by leq l)
    sort_by-IsSortedBy [] = tt
    sort_by-IsSortedBy (x ∷ l) = insert_by-IsSortedBy x (sort_by leq l) (sort_by-IsSortedBy l)
