-- ===== src/Prelude/Sets.antt =====
-- A JavaScript `Set` as a list of its members: `add` and `delete`, and what they leave in it.
use mathlib.Core.Path.{◌≡◌, refl, sym, ap, ◌∙◌}
use mathlib.Core.Logic.{inl, inr}
use mathlib.Core.Bool.{Bool, true, false, not, ◌&&◌, ◌||◌}
use mathlib.Core.List.{List, [], ◌∷◌, ◌++◌}
use webshark.Prelude.Tests.{if◌then◌else◌, Bool-cases}
use webshark.Prelude.Eq.{Equality, ◌==◌, contains}

absorb : (a c : Bool) → (c && not a) ≡ ((a || c) && not a)
absorb true true = refl
absorb true false = refl
absorb false c = refl

pub or_false : (a : Bool) → (a || false) ≡ a
or_false true = refl
or_false false = refl

pub or_assoc : (a b c : Bool) → (a || (b || c)) ≡ ((a || b) || c)
or_assoc true b c = refl
or_assoc false b c = refl

module _ {ℓ} {A : Type ℓ} ⦃e : Equality A⦄ where
  abbrev pub delete : A → List A → List A
  delete k [] = []
  delete k (p ∷ ps) = let rest = delete k ps in if p == k then rest else p ∷ rest

  -- A member that is there already keeps its place.
  abbrev pub add : A → List A → List A
  add k ps = if contains ps k then ps else ps ++ k ∷ []

  pub contains-delete :
      (k : A) (picked : List A) (key : A)
      → contains (delete k picked) key ≡ (contains picked key && not (k == key))
  contains-delete k [] key = refl
  contains-delete k (p ∷ picked) key =
      let later = contains-delete k picked key in
      elim (Bool-cases (p == k)) [
        | inl gone ↦
            let same = (e.decides p k).0 gone in
            rw (gone) (rw same (later ∙ absorb (k == key) (contains picked key)))
        | inr stays ↦ rw stays (elim (Bool-cases (p == key)) [
          | inl here ↦
              let same = (e.decides p key).0 here in
              elim (Bool-cases (k == key)) [
                | inl never ↦
                    absurd (cc ((e.decides p k).1 (same ∙ sym ((e.decides k key).0 never)), stays))
                | inr apart ↦ rw (here, apart) refl
              ]
          | inr other ↦ rw other later
        ])
      ]

  contains-concat :
      (ps : List A) (k key : A) → contains (ps ++ k ∷ []) key ≡ (contains ps key || k == key)
  contains-concat [] k key = or_false (k == key)
  contains-concat (p ∷ ps) k key =
      ap (λ b. p == key || b) (contains-concat ps k key)
      ∙ or_assoc (p == key) (contains ps key) (k == key)

  pub contains-add :
      (k : A) (ps : List A) (key : A) → contains (add k ps) key ≡ (contains ps key || k == key)
  contains-add k ps key = elim (Bool-cases (contains ps k)) [
    | inl there ↦ rw there (elim (Bool-cases (k == key)) [
      | inl here ↦
          let same = (e.decides k key).0 here in
          rw (here, (ap (contains ps) (sym same)) ∙ there) refl
      | inr apart ↦ rw apart (sym (or_false (contains ps key)))
    ])
    | inr new ↦ rw new (contains-concat ps k key)
  ]
