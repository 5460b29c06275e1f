-- ===== src/Operator/Fuzzy/Matching.antt =====
-- When a word is found in a text, and where.
use webshark.Prelude.{
  ltb_ℤ, leb, ◌⊎◌, ◌&&◌, ℕ, zero, suc, ◌+◌, ◌-◌, ◌≤◌, Text, ◌≡◌, refl, ◌∙◌, ◌↔◌, inl, inr, true,
  Option, none, some, List, [], ◌∷◌, ◌++◌, append_assoc, append-nil, arith, length, drop, drop-drop,
  index_of, starts_with, Bool-cases, Option-cases,
}
use webshark.Operator.Fuzzy.{
  Found, Round, letters_of, index_from, take_letter, align_rest, align, better, first_letter,
  fuzzy_from, fuzzy, fresh,
}

-- The letters stand at these places of the text, each past the one before.
abbrev pub Placed : Text → ℕ → List Text → List ℕ → Type 0
Placed text from [] [] = Unit
Placed text from [] (at ∷ hits) = ⊥
Placed text from (letter ∷ letters) [] = ⊥
Placed text from (letter ∷ letters) (at ∷ hits) =
    (from ≤ at) × (starts_with (drop at text) letter ≡ true) × Placed text (suc at) letters hits

starts_drop :
    (text letter : Text) (i j : ℕ)
    → i ≡ j
    → starts_with (drop j text) letter ≡ true
    → starts_with (drop i text) letter ≡ true
starts_drop text letter i j e h = rw e h

index_of_lem :
    (text letter : Text) (i : ℕ)
    → index_of text letter ≡ some i
    → starts_with (drop i text) letter ≡ true
index_of_lem [] letter i h = elim (Bool-cases (starts_with [] letter)) [
  | inl here ↦ starts_drop [] letter i 0 (ground arith) here
  | inr never ↦ absurd (ground arith)
]
index_of_lem (c ∷ text) letter i h = elim (Bool-cases (starts_with (c ∷ text) letter)) [
  | inl here ↦ starts_drop (c ∷ text) letter i 0 (ground arith) here
  | inr later ↦ elim (Option-cases (index_of text letter)) [
    | inl none_ ↦ absurd (ground arith)
    | inr (j, found) ↦
        starts_drop (c ∷ text) letter i (suc j) (ground arith) (index_of_lem text letter j found)
  ]
]

-- `index_of` is the first place.
index_of_least :
    (text letter : Text) (at : ℕ)
    → starts_with (drop at text) letter ≡ true
    → (i : ℕ) × (index_of text letter ≡ some i) × (i ≤ at)
index_of_least [] letter zero h = (0, rw h, omega arith)
index_of_least (c ∷ text) letter zero h = (0, rw (h, index_of), omega arith)
index_of_least [] letter (suc at) h = (0, rw h, omega arith)
index_of_least (c ∷ text) letter (suc at) h =
    let (i, found, le) = index_of_least text letter at h in
    elim (Bool-cases (starts_with (c ∷ text) letter)) [
      | inl here ↦ (0, rw (here, index_of), omega arith)
      | inr later ↦ (suc i, rw (later, found), omega arith)
    ]

pub index_from_lem :
    (text letter : Text) (from at : ℕ)
    → index_from text letter from ≡ some at
    → (from ≤ at) × (starts_with (drop at text) letter ≡ true)
unfolding index_from
index_from_lem text letter from at h = elim (Option-cases (index_of (drop from text) letter)) [
  | inl never ↦ absurd (cc (rw never at h))
  | inr (i, found) ↦
      let place : at ≡ from + i = ground arith in
      (
        omega arith,
        starts_drop text letter at (from + i) place
            (rw drop-drop at (index_of_lem (drop from text) letter i found)),
      )
]

index_from_least :
    (text letter : Text) (from at : ℕ)
    → from ≤ at
    → starts_with (drop at text) letter ≡ true
    → (i : ℕ) × (index_from text letter from ≡ some i) × (i ≤ at)
unfolding index_from
index_from_least text letter from at le h =
    let past : from + (at - from) ≡ at = omega arith in
    let there : starts_with (drop (at - from) (drop from text)) letter ≡ true =
      rw (drop-drop, past) h in
    let (i, found, least) = index_of_least (drop from text) letter (at - from) there in
    (from + i, rw found, omega arith)

Placed-weaken :
    (text : Text) (from to : ℕ) (letters : List Text) (hits : List ℕ)
    → from ≤ to
    → Placed text to letters hits
    → Placed text from letters hits
Placed-weaken text from to [] [] h p = tt
Placed-weaken text from to [] (at ∷ hits) h p = p
Placed-weaken text from to (letter ∷ letters) [] h p = p
Placed-weaken text from to (letter ∷ letters) (at ∷ hits) h (le, there, p) = (omega arith, there, p)

-- What the rounds find is a placing of their letters, after the hits they began with.
align_rest-Placed :
    (letters : List Text) (text : Text) (r : Round) (m : Found)
    → align_rest letters text r ≡ some m
    → (hits : List ℕ) × (m.hits ≡ r.hits ++ hits) × Placed text r.from letters hits
unfolding align_rest take_letter
align_rest-Placed [] text r m h = ([], ground (arith, append-nil r.hits), tt)
align_rest-Placed (letter ∷ letters) text r m h =
    elim (Option-cases (index_from text letter r.from)) [
      | inl never ↦ absurd (cc (rw (never, align_rest) at h))
      | inr (at, found) ↦
          let (hits, same, placed) =
            align_rest-Placed letters text (take_letter text at r) m
              (rw (found, align_rest) at h) in
          let (le, there) = index_from_lem text letter r.from at found in
          (
            at ∷ hits,
            same ∙ append_assoc r.hits (at ∷ []) hits,
            (le, there, Placed-weaken text (suc at) (at + 1) letters hits (omega arith) placed),
          )
    ]

-- If the letters can be placed at all, the rounds find a place for each.
align_rest_complete :
    (letters : List Text) (text : Text) (r : Round) (hits : List ℕ)
    → Placed text r.from letters hits
    → (m : Found) × (align_rest letters text r ≡ some m)
unfolding align_rest take_letter
align_rest_complete [] text r hits p = (_, refl)
align_rest_complete (letter ∷ letters) text r [] p = absurd p
align_rest_complete (letter ∷ letters) text r (at ∷ hits) (le, there, p) =
    let (i, found, least) = index_from_least text letter r.from at le there in
    let (m, done) =
      align_rest_complete letters text (take_letter text i r) hits
        (Placed-weaken text (i + 1) (suc at) letters hits (omega arith) p) in
    (m, rw (found, align_rest) done)

align-Placed :
    (letter : Text) (letters : List Text) (text : Text) (at : ℕ) (m : Found)
    → starts_with (drop at text) letter ≡ true
    → align (letter ∷ letters) text at ≡ some m
    → Placed text 0 (letter ∷ letters) m.hits
unfolding align take_letter
align-Placed letter letters text at m there h =
    let (hits, same, placed) = align_rest-Placed letters text (take_letter text at fresh) m h in
    rw same
      (omega arith, there, Placed-weaken text (suc at) (at + 1) letters hits (omega arith) placed)

better_source :
    (best new : Option Found) (b : Found)
    → better best new ≡ some b
    → (best ≡ some b) ⊎ (new ≡ some b)
unfolding better
better_source best none b h = inl h
better_source none (some m) b h = inr h
better_source (some a) (some m) b h = ground arith

better-some : (b : Found) (new : Option Found) → (b' : Found) × (better (some b) new ≡ some b')
unfolding better
better-some b none = (b, refl)
better-some b (some m) = elim (Bool-cases (ltb_ℤ b.score m.score)) [
  | inl up ↦ (m, rw up)
  | inr stay ↦ (b, rw stay)
]

fuzzy_from-Placed :
    (fuel : ℕ) (letter : Text) (letters : List Text) (text : Text) (from : ℕ) (best : Option Found)
    (m : Found)
    → ((b : Found) → best ≡ some b → Placed text 0 (letter ∷ letters) b.hits)
    → fuzzy_from fuel (letter ∷ letters) text from best ≡ some m
    → Placed text 0 (letter ∷ letters) m.hits
unfolding fuzzy_from
fuzzy_from-Placed zero letter letters text from best m good h = good m h
fuzzy_from-Placed (suc fuel) letter letters text from best m good h =
    elim (Option-cases (index_from text letter from)) [
      | inl never ↦ good m (rw (never, fuzzy_from) at h)
      | inr (at, found) ↦
          fuzzy_from-Placed fuel letter letters text (suc at) _ m
            (λ b e. elim (better_source best (align (letter ∷ letters) text at) b e) [
              | inl old ↦ good b old
              | inr new ↦
                  align-Placed letter letters text at b (index_from_lem text letter from at found).1
                    new
            ])
            (rw (found, fuzzy_from) at h)
    ]

fuzzy_from-some :
    (fuel : ℕ) (letters : List Text) (text : Text) (from : ℕ) (b : Found)
    → (m : Found) × (fuzzy_from fuel letters text from (some b) ≡ some m)
unfolding fuzzy_from
fuzzy_from-some zero letters text from b = (b, refl)
fuzzy_from-some (suc fuel) letters text from b =
    elim (Option-cases (index_from text (first_letter letters) from)) [
      | inl never ↦ (b, rw (never, fuzzy_from))
      | inr (at, found) ↦
          let (b', kept) = better-some b (align letters text at) in
          let (m, done) = fuzzy_from-some fuel letters text (suc at) b' in
          (m, rw (found, fuzzy_from) (rw kept done))
    ]

first_round :
    (fuel : ℕ) (letter : Text) (letters : List Text) (text : Text) (hits : List ℕ)
    → Placed text 0 (letter ∷ letters) hits
    → (m : Found) × (fuzzy_from (suc fuel) (letter ∷ letters) text 0 none ≡ some m)
unfolding fuzzy_from align take_letter better
first_round fuel letter letters text [] p = absurd p
first_round fuel letter letters text (at ∷ hits) (le, there, p) =
    let (i, found, least) = index_from_least text letter 0 at le there in
    let (m, aligned) =
      align_rest_complete letters text (take_letter text i fresh) hits
        (Placed-weaken text (i + 1) (suc at) letters hits (omega arith) p) in
    let (m', done) = fuzzy_from-some fuel (letter ∷ letters) text (suc i) m in
    (m', rw (found, fuzzy_from) (rw (aligned) done))

letters_of-cons : (c : ℕ) (s : Text) → (l : Text) × (ls : List Text) × (letters_of (c ∷ s) ≡ l ∷ ls)
unfolding letters_of
letters_of-cons c [] = (c ∷ [], [], refl)
letters_of-cons c (d ∷ s) =
    elim (Bool-cases (leb 0xd800 c && leb c 0xdbff && (leb 0xdc00 d && leb d 0xdfff))) [
      | inl pair ↦ (c ∷ d ∷ [], letters_of s, rw (pair, letters_of))
      | inr single ↦ (c ∷ [], letters_of (d ∷ s), rw (single, letters_of))
    ]

-- Where a word matches, the hits are the places of its letters, in order, one for each letter.
pub fuzzy-Placed :
    (c : ℕ) (s text : Text) (m : Found)
    → fuzzy (c ∷ s) text ≡ some m
    → Placed text 0 (letters_of (c ∷ s)) m.hits
unfolding fuzzy
fuzzy-Placed c s text m h =
    let (l, ls, e) = letters_of-cons c s in
    rw e (
      fuzzy_from-Placed (suc (length text)) l ls text 0 none m (λ b never. absurd (cc)) (rw e at h))

fuzzy_complete :
    (c : ℕ) (s text : Text) (hits : List ℕ)
    → Placed text 0 (letters_of (c ∷ s)) hits
    → (m : Found) × (fuzzy (c ∷ s) text ≡ some m)
unfolding fuzzy
fuzzy_complete c s text hits p =
    let (l, ls, e) = letters_of-cons c s in
    let (m, done) = first_round (length text) l ls text hits (rw e at p) in (m, rw e done)

-- A word matches a text exactly when its letters stand in it in order, gaps allowed.
pub fuzzy_iff :
    (c : ℕ) (s text : Text)
    → ((m : Found) × (fuzzy (c ∷ s) text ≡ some m))
      ↔ ((hits : List ℕ) × Placed text 0 (letters_of (c ∷ s)) hits)
fuzzy_iff c s text =
    ((λ (m, h). (m.hits, fuzzy-Placed c s text m h)), (λ (hits, p). fuzzy_complete c s text hits p))
