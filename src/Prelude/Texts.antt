-- ===== src/Prelude/Texts.antt =====
-- A JavaScript string as the list of its UTF-16 code units, with the string methods that the
-- program calls.
use Prim.Native.Nat.{ℕ, suc}
use Prim.Native.Char.{code}
use Prim.Native.String.{String}
use mathlib.Core.Path.{◌≡◌, ap, ◌∙◌}
use mathlib.Core.Logic.{◌≢◌, inl, inr}
use mathlib.Core.Bool.{Bool, true, false, ◌&&◌, ◌||◌}
use mathlib.Core.Option
use mathlib.Core.Option.{Option, none, some}
use mathlib.Core.List.{List, [], ◌∷◌, ◌++◌, append-nil, append_assoc}
use native.Mathlib.Omega.{arith}
use webshark.Prelude.Tests.{if◌then◌else◌, Bool-cases}
use webshark.Prelude.Eq.{◌==◌, nat_eq}

abbrev pub Text : Type 0
Text = List ℕ

abbrev pub codes : String → Text
codes String.[] = []
codes (String.◌∷◌ c s) = code c ∷ codes s

abbrev pub starts_with : Text → Text → Bool
starts_with s [] = true
starts_with [] (p ∷ ps) = false
starts_with (c ∷ s) (p ∷ ps) = c == p && starts_with s ps

-- `s.includes(t)`
abbrev pub includes : Text → Text → Bool
includes [] t = starts_with [] t
includes (c ∷ s) t = starts_with (c ∷ s) t || includes s t

-- `s.indexOf(t)`
abbrev pub index_of : Text → Text → Option ℕ
index_of [] t = if starts_with [] t then some 0 else none
index_of (c ∷ s) t = if starts_with (c ∷ s) t then some 0 else Option.map suc (index_of s t)

-- `parts.join(sep)` for a separator of one code unit
abbrev pub join : ℕ → List Text → Text
join sep [] = []
join sep (x ∷ []) = x
join sep (x ∷ y ∷ rest) = x ++ sep ∷ join sep (y ∷ rest)

-- `s.split(/[...]/)` for separators of one code unit: `cur` is the part being read
abbrev pub split_from : (ℕ → Bool) → Text → Text → List Text
split_from sep cur [] = cur ∷ []
split_from sep cur (c ∷ s) =
    let closed = cur ∷ split_from sep [] s in
    let longer = split_from sep (cur ++ c ∷ []) s in if sep c then closed else longer

abbrev pub split : (ℕ → Bool) → Text → List Text
split sep s = split_from sep [] s

abbrev pub Lacks : ℕ → Text → Type 0
Lacks sep [] = Unit
Lacks sep (c ∷ s) = (c ≢ sep) × Lacks sep s

split_from-append :
    (sep : ℕ) (cur x rest : Text)
    → Lacks sep x
    → split_from (λ c. c == sep) cur (x ++ rest) ≡ split_from (λ c. c == sep) (cur ++ x) rest
split_from-append sep cur [] rest h = ap (λ t. split_from (λ c. c == sep) t rest) (simp append-nil)
split_from-append sep cur (c ∷ x) rest (ne, h) = elim (Bool-cases (c == sep)) [
  | inl same ↦ absurd (ground arith)
  | inr other ↦ rw (other) (
      split_from-append sep (cur ++ c ∷ []) x rest h
      ∙ ap (λ t. split_from (λ c. c == sep) t rest) (append_assoc cur (c ∷ []) x))
]

split_one :
    (sep : ℕ) (cur x : Text) → Lacks sep x → split_from (λ c. c == sep) cur x ≡ (cur ++ x) ∷ []
split_one sep cur [] h = simp append-nil
split_one sep cur (c ∷ x) (ne, h) = elim (Bool-cases (c == sep)) [
  | inl same ↦ absurd (ground arith)
  | inr other ↦ rw (other, split_one sep (cur ++ c ∷ []) x h, append_assoc)
]

nat_beq_refl : (n : ℕ) → (n == n) ≡ true
nat_beq_refl n = ground arith

-- Splitting what was joined gives the parts back, if no part holds the separator.
abbrev pub AllLack : ℕ → List Text → Type 0
AllLack sep [] = Unit
AllLack sep (x ∷ xs) = Lacks sep x × AllLack sep xs

pub split-join :
    (sep : ℕ) (x : Text) (xs : List Text)
    → Lacks sep x
    → AllLack sep xs
    → split (λ c. c == sep) (join sep (x ∷ xs)) ≡ x ∷ xs
split-join sep x [] h hs = split_one sep [] x h
split-join sep x (y ∷ ys) h (hy, hs) =
    split_from-append sep [] x (sep ∷ join sep (y ∷ ys)) h
    ∙ rw (nat_beq_refl sep) (ap (x ∷◌) (split-join sep y ys hy hs))
