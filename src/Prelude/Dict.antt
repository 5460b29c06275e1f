-- ===== src/Prelude/Dict.antt =====
-- A JavaScript `Map`: the entries in insertion order, a key written again keeping its place.
use mathlib.Core.Path.{◌≡◌, refl}
use mathlib.Core.Logic.{◌⊎◌, inl, inr}
use mathlib.Core.Option.{Option, none, some}
use mathlib.Core.List.{List, [], ◌∷◌}
use native.Mathlib.Omega.{arith}
use webshark.Prelude.Tests.{if◌then◌else◌, Bool-cases}
use webshark.Prelude.Eq.{Equality, ◌==◌}

module _ {ℓ κ} {K : Type ℓ} ⦃e : Equality K⦄ {V : Type κ} where
  abbrev pub get : List (K × V) → K → Option V
  get [] k = none
  get ((j, v) ∷ m) k = if j == k then some v else get m k

  abbrev pub put : List (K × V) → K → V → List (K × V)
  put [] k v = (k, v) ∷ []
  put ((j, w) ∷ m) k v = if j == k then (j, v) ∷ m else (j, w) ∷ put m k v

  abbrev pub remove : List (K × V) → K → List (K × V)
  remove [] k = []
  remove ((j, w) ∷ m) k = if j == k then remove m k else (j, w) ∷ remove m k

  pub get-put :
      (m : List (K × V)) (k j : K) (v : V)
      → get (put m k v) j ≡ (if k == j then some v else get m j)
  get-put [] k j v = refl
  get-put ((i, w) ∷ m) k j v =
      ground (arith, e.decides k j, e.decides i k, e.decides i j, get-put m k j v)

  pub get-remove :
      (m : List (K × V)) (k j : K) → get (remove m k) j ≡ (if k == j then none else get m j)
  get-remove [] k j = ground arith
  get-remove ((i, w) ∷ m) k j =
      ground (arith, e.decides k j, e.decides i k, e.decides i j, get-remove m k j)

  -- What is found after a write is what was written, or was there before.
  pub get-put_cases :
      (m : List (K × V)) (k j : K) (v : V) {x : V}
      → get (put m k v) j ≡ some x
      → ((k ≡ j) × (v ≡ x)) ⊎ (get m j ≡ some x)
  get-put_cases m k j v h = elim (Bool-cases (k == j)) [
    | inl same ↦ inl (ground (arith, e.decides k j, get-put m k j v))
    | inr other ↦ inr (ground (arith, get-put m k j v))
  ]

  pub get-put_self : (m : List (K × V)) (k : K) (v : V) → get (put m k v) k ≡ some v
  get-put_self m k v = rw (get-put, (e.decides k k).1 refl)
