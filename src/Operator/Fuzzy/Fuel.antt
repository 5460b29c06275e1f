-- ===== src/Operator/Fuzzy/Fuel.antt =====
-- The fuel of the loop of `fuzzy`: the length of the text and one round more is enough.
use webshark.Prelude.{
  ℕ, zero, suc, ◌+◌, ◌<◌, Text, ◌≡◌, refl, ◌∙◌, ap, ◌≢◌, inl, inr, Option, none, List, [], ◌∷◌,
  arith, length, drop_all, Option-cases, Bool-cases, leb, ◌&&◌,
}
use webshark.Operator.Fuzzy.{
  Found, letters_of, index_from, align, better, first_letter, fuzzy_from, fuzzy,
}
use webshark.Operator.Fuzzy.Matching.{index_from_lem}

index_from_past :
    (text letter : Text) (from : ℕ)
    → letter ≢ []
    → length text < from
    → index_from text letter from ≡ none
unfolding index_from
index_from_past text [] from h k = absurd (h refl)
index_from_past text (c ∷ letter) from h k = rw (drop_all from text (omega arith)) refl

fuzzy_from_once :
    (fuel : ℕ) (letters : List Text) (text : Text) (from : ℕ) (best : Option Found)
    → first_letter letters ≢ []
    → length text < from + fuel
    → fuzzy_from (suc fuel) letters text from best ≡ fuzzy_from fuel letters text from best
unfolding fuzzy_from
fuzzy_from_once zero letters text from best h k =
    rw (index_from_past text (first_letter letters) from h (omega arith), fuzzy_from) refl
fuzzy_from_once (suc fuel) letters text from best h k =
    elim (Option-cases (index_from text (first_letter letters) from)) [
      | inl never ↦ rw (never, fuzzy_from) refl
      | inr (at, found) ↦
          let (past, _) = index_from_lem text (first_letter letters) from at found in
          rw (found, fuzzy_from)
            (fuzzy_from_once fuel letters text (suc at) (better best (align letters text at)) h
              (omega arith))
    ]

suc_last : (fuel extra : ℕ) → fuel + suc extra ≡ suc (fuel + extra)
suc_last fuel extra = omega arith

fuzzy_from_more :
    (extra : ℕ) (letters : List Text) (text : Text) (fuel : ℕ)
    → first_letter letters ≢ []
    → length text < fuel
    → fuzzy_from (fuel + extra) letters text 0 none ≡ fuzzy_from fuel letters text 0 none
fuzzy_from_more zero letters text fuel h k =
    ap (λ n. fuzzy_from n letters text 0 none) (omega arith)
fuzzy_from_more (suc extra) letters text fuel h k =
    ap (λ n. fuzzy_from n letters text 0 none) (suc_last fuel extra)
    ∙ fuzzy_from_once (fuel + extra) letters text 0 none h (omega arith)
    ∙ fuzzy_from_more extra letters text fuel h k

letters_of-first : (word : Text) → first_letter (letters_of word) ≢ []
unfolding letters_of
letters_of-first [] = λ e. absurd (omega (arith, ap length e))
letters_of-first (c ∷ []) = λ e. absurd (omega (arith, ap length e))
letters_of-first (c ∷ d ∷ s) =
    elim (Bool-cases (leb 0xd800 c && leb c 0xdbff && (leb 0xdc00 d && leb d 0xdfff))) [
      | inl pair ↦ rw (pair, letters_of) (λ e. absurd (omega (arith, ap length e)))
      | inr single ↦ rw (single, letters_of) (λ e. absurd (omega (arith, ap length e)))
    ]

-- The loop of `fuzzy` has come to its end with the fuel that it is given: more changes nothing.
pub fuzzy_fuel :
    (word text : Text) (extra : ℕ)
    → fuzzy_from (suc (length text) + extra) (letters_of word) text 0 none ≡ fuzzy word text
unfolding fuzzy
fuzzy_fuel word text extra =
    fuzzy_from_more extra (letters_of word) text (suc (length text)) (letters_of-first word)
      (omega arith)
