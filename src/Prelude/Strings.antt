-- ===== src/Prelude/Strings.antt =====
-- What the program uses of JavaScript's strings: the empty one, white space, and numbers in digits.
use Prim.Native.Nat.{ℕ, zero, suc, ◌+◌, ◌*◌, ◌-◌, ◌/◌, ◌%◌, ◌<◌, ◌≤◌}
use mathlib.Core.Path.{◌≡◌, refl, ap, ◌∙◌}
use mathlib.Core.Bool.{Bool, true, false, ◌&&◌, ◌||◌}
use mathlib.Core.Option.{Option, none, some}
use mathlib.Core.List.{List, [], ◌∷◌, ◌++◌}
use mathlib.Core.Logic.{inl, inr}
use native.Mathlib.Omega.{arith}
use webshark.Prelude.Tests.{leb, ltb, if◌then◌else◌, Bool-cases}
use webshark.Prelude.Eq.{◌==◌, nat_eq}
use webshark.Prelude.Texts.{Text}
use webshark.Prelude.Lists.{length, length-append}

abbrev pub is_empty {ℓ} : {A : Type ℓ} → List A → Bool
is_empty [] = true
is_empty (_ ∷ _) = false

abbrev pub is_none {ℓ} : {A : Type ℓ} → Option A → Bool
is_none none = true
is_none (some _) = false

-- `\s`
unfoldable pub is_space : ℕ → Bool
is_space c =
    leb 9 c && leb c 13
    || c == 32
    || c == 0xa0
    || c == 0x1680
    || leb 0x2000 c && leb c 0x200a
    || c == 0x2028
    || c == 0x2029
    || c == 0x202f
    || c == 0x205f
    || c == 0x3000
    || c == 0xfeff

-- `trim()`
abbrev pub drop_space : Text → Text
drop_space [] = []
drop_space (c ∷ s) = if is_space c then drop_space s else c ∷ s

abbrev pub drop_end : Text → Text
drop_end [] = []
drop_end (c ∷ s) = let rest = drop_end s in if is_empty rest && is_space c then [] else c ∷ rest

abbrev pub trim_space : Text → Text
trim_space s = drop_end (drop_space s)

-- Decimal digits, with a number that is not smaller for fuel.
decimal_from : ℕ → ℕ → Text
decimal_from zero n = []
decimal_from (suc fuel) n =
    let more = decimal_from fuel (n / 10) in
    let last = (b'0' + n % 10) ∷ [] in if ltb n 10 then last else more ++ last

-- `String(n)`
unfoldable pub decimal : ℕ → Text
unfolding decimal_from
decimal n = decimal_from (suc n) n

-- The value of a text of digits, after a value already read.
abbrev pub value_from : ℕ → Text → ℕ
value_from acc [] = acc
value_from acc (c ∷ s) = value_from (acc * 10 + (c - b'0')) s

value_from-append :
    (acc : ℕ) (s t : Text) → value_from acc (s ++ t) ≡ value_from (value_from acc s) t
value_from-append acc [] t = refl
value_from-append acc (c ∷ s) t = value_from-append (acc * 10 + (c - b'0')) s t

value_from-decimal_from : (fuel n : ℕ) → n < fuel → value_from 0 (decimal_from fuel n) ≡ n
unfolding decimal_from
value_from-decimal_from zero n h = absurd (omega arith)
value_from-decimal_from (suc fuel) n h = elim (Bool-cases (ltb n 10)) [
  | inl one ↦ ground arith
  | inr more ↦
      let before = value_from-decimal_from fuel (n / 10) (ground arith) in
      rw more (
        value_from-append 0 (decimal_from fuel (n / 10)) ((b'0' + n % 10) ∷ [])
        ∙ ap (λ v. v * 10 + (b'0' + n % 10 - b'0')) before
        ∙ (omega arith))
]

-- A number in digits is read back as it was.
pub value_from-decimal : (n : ℕ) → value_from 0 (decimal n) ≡ n
unfolding decimal
value_from-decimal n = value_from-decimal_from (suc n) n (omega arith)

decimal_from-longer :
    (f g m n : ℕ) → m ≤ n → m < f → n < g → length (decimal_from f m) ≤ length (decimal_from g n)
unfolding decimal_from
decimal_from-longer zero g m n le lt lt' = absurd (omega arith)
decimal_from-longer (suc f) zero m n le lt lt' = absurd (omega arith)
decimal_from-longer (suc f) (suc g) m n le lt lt' =
    let rest = decimal_from-longer f g (m / 10) (n / 10) in
    elim (Bool-cases (ltb n 10)) [
      | inl one ↦ elim (Bool-cases (ltb m 10)) [
        | inl short ↦ rw (one, short) (omega arith)
        | inr long ↦ absurd (ground (arith, one, long))
      ]
      | inr more ↦
          let after = length-append (decimal_from g (n / 10)) ((b'0' + n % 10) ∷ []) in
          elim (Bool-cases (ltb m 10)) [
            | inl short ↦ rw (more, short, after) (omega arith)
            | inr long ↦
                rw
                  (
                    more,
                    long,
                    after,
                    length-append (decimal_from f (m / 10)) ((b'0' + m % 10) ∷ []),
                  )
                  (omega (arith, rest (omega arith) (ground (arith, long)) (ground (arith, more))))
          ]
    ]

-- A smaller number has no more digits.
pub decimal-longer : (m n : ℕ) → m ≤ n → length (decimal m) ≤ length (decimal n)
unfolding decimal
decimal-longer m n h = decimal_from-longer (suc m) (suc n) m n h (omega arith) (omega arith)
