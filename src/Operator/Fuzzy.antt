-- ===== src/Operator/Fuzzy.antt =====
-- One word of the search against one text, of operator/internal/ui/web/app.js: `fuzzy` tries every
-- place where the word's first letter is, `align` takes every letter after it where it first can be.
pub mod Matching
pub mod Fuel
mod Tests
use mathlib.Core.Option
use webshark.Prelude.{
  ℕ, zero, suc, ◌+◌, ◌-◌, ◌*◌, min, Text, codes, Bool, true, false, ◌&&◌, ◌||◌, Option, none, some,
  List, [], ◌∷◌, ◌++◌, ◌==◌, nat_eq, ltb, leb, if◌then◌else◌, length, get_elem?, drop, index_of, ℤ,
  pos, sub_ℕ, ◌+ℤ◌, ltb_ℤ,
}

-- What `align` returns: the score, and where the letters were.
pub record Found : Type 0 where
  pub score : ℤ
  pub hits : List ℕ

-- `[...word]`: the letters are code points, of one or two code units.
unfoldable pub letters_of : Text → List Text
letters_of [] = []
letters_of (c ∷ []) = (c ∷ []) ∷ []
letters_of (c ∷ d ∷ s) =
    let pair = (c ∷ d ∷ []) ∷ letters_of s in
    let single = (c ∷ []) ∷ letters_of (d ∷ s) in
    if leb 0xd800 c && leb c 0xdbff && (leb 0xdc00 d && leb d 0xdfff) then pair else single

abbrev shift_by : ℕ → Option ℕ → Option ℕ
shift_by n none = none
shift_by n (some i) = some (n + i)

-- `text.indexOf(letter, from)`
unfoldable pub index_from : Text → Text → ℕ → Option ℕ
index_from text letter from = shift_by from (index_of (drop from text) letter)

-- one of "-_./=:" stands there
abbrev is_break : Option ℕ → Bool
is_break none = false
is_break (some c) = c == b'-' || c == b'_' || c == b'.' || c == b'/' || c == b'=' || c == b':'

-- a letter at the start of a word of the text
abbrev starts_word : Text → ℕ → Bool
starts_word text zero = true
starts_word text (suc i) = is_break (get_elem? text i)

-- The loop's variables, and one round that takes its letter at `at`.
pub record Round : Type 0 where
  pub score : ℤ
  pub from : ℕ
  pub run : ℕ
  pub hits : List ℕ

unfoldable pub take_letter : Text → ℕ → Round → Round
take_letter text at r =
    let run = if at == r.from && ltb 0 r.from then r.run + 1 else 0 in
    record {
      score =
          r.score
          +ℤ sub_ℕ (10 + 6 * run) (min (at - r.from) 12)
          +ℤ pos (if starts_word text at then 8 else 0);
      from = at + 1;
      run = run;
      hits = r.hits ++ at ∷ [];
    }

-- The rounds after the first, each letter at the first place it can be.
unfoldable pub align_rest : List Text → Text → Round → Option Found
align_rest [] text r = some (record { score = r.score; hits = r.hits })
align_rest (letter ∷ letters) text r = elim (index_from text letter r.from) [
  | none ↦ none
  | some at ↦ align_rest letters text (take_letter text at r)
]

abbrev fresh : Round
fresh = record { score = pos 0; from = 0; run = 0; hits = [] }

unfoldable pub align : List Text → Text → ℕ → Option Found
unfolding align_rest
align [] text start = some (record { score = pos 0; hits = [] })
align (letter ∷ letters) text start = align_rest letters text (take_letter text start fresh)

-- `if (m && (best === null || m.score > best.score)) best = m`
unfoldable pub better : Option Found → Option Found → Option Found
better best none = best
better none (some m) = some m
better (some b) (some m) = if ltb_ℤ b.score m.score then some m else some b

-- `letters[0]`, which `indexOf` reads as a text where there is none
abbrev pub first_letter : List Text → Text
first_letter [] = codes "undefined"
first_letter (letter ∷ letters) = letter

-- The loop over the places of the first letter; each is past the one before, so a text's length
-- and one round more is fuel enough.
unfoldable pub fuzzy_from : ℕ → List Text → Text → ℕ → Option Found → Option Found
unfolding align
fuzzy_from zero letters text from best = best
fuzzy_from (suc fuel) letters text from best = elim (index_from text (first_letter letters) from) [
  | none ↦ best
  | some at ↦ fuzzy_from fuel letters text (suc at) (better best (align letters text at))
]

unfoldable pub fuzzy : Text → Text → Option Found
unfolding letters_of fuzzy_from
fuzzy word text =
    let letters = letters_of word in fuzzy_from (suc (length text)) letters text 0 none
