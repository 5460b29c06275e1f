-- ===== src/Settings/Grid/Laws.antt =====
-- What the tracks of the list add up to in each of its three layouts.
use webshark.Prelude.{
  ℕ, suc, ◌+◌, ◌≡◌, refl, ap, ◌∙◌, inl, inr, Bool, true, false, List, [], ◌∷◌, ◌==◌, text_eq, arith,
  if◌then◌else◌, length, min, map, Bool-cases, Text, sym, length-map,
}
use webshark.Columns.{ColumnInfo, Shape, Drawn}
use webshark.Settings.{addr_title, wide}
use webshark.Settings.Grid.{
  Track, px, at_least, fr, floor_of, tracks, but_last, fixed, narrow_tracks, head, title_drawn,
}

-- The floors of the tracks together, and how many of them take what is left over.
abbrev pub total : List Track → ℕ
total [] = 0
total (t ∷ ts) = floor_of t + total ts

abbrev gives : Track → ℕ
gives (px n) = 0
gives (at_least n) = 1
gives fr = 1

abbrev pub giving : List Track → ℕ
giving [] = 0
giving (t ∷ ts) = gives t + giving ts

length-tracks : (fits : List (Text × ℕ)) (cs : List Text) → length (tracks fits cs) ≡ length cs
unfolding tracks
length-tracks fits [] = refl
length-tracks fits (c ∷ []) = refl
length-tracks fits (c ∷ d ∷ cs) = ap suc (length-tracks fits (d ∷ cs))

total-tracks :
    (fits : List (Text × ℕ)) (cs : List Text) → total (tracks fits cs) ≡ fixed fits (but_last cs)
unfolding tracks fixed but_last
total-tracks fits [] = refl
total-tracks fits (c ∷ []) = refl
total-tracks fits (c ∷ d ∷ cs) = ap (λ n. wide fits c + n) (total-tracks fits (d ∷ cs))

giving-tracks :
    (fits : List (Text × ℕ)) (cs : List Text) → giving (tracks fits cs) ≡ min 1 (length cs)
unfolding tracks
giving-tracks fits [] = refl
giving-tracks fits (c ∷ []) = refl
giving-tracks fits (c ∷ d ∷ cs) = omega (arith, giving-tracks fits (d ∷ cs))

total-narrow_tracks :
    (fits : List (Text × ℕ)) (given : Bool) (cs : List Text)
    → total (narrow_tracks fits given cs) ≡ fixed fits cs
unfolding narrow_tracks fixed
total-narrow_tracks fits true [] = refl
total-narrow_tracks fits false [] = refl
total-narrow_tracks fits true (c ∷ cs) =
    ap (λ n. wide fits c + n) (total-narrow_tracks fits true cs)
total-narrow_tracks fits false (c ∷ cs) = elim (Bool-cases (c == addr_title)) [
  | inl pair ↦ rw pair (ap (λ n. wide fits c + n) (total-narrow_tracks fits true cs))
  | inr other ↦ rw other (ap (λ n. wide fits c + n) (total-narrow_tracks fits false cs))
]

giving-narrow_tracks :
    (fits : List (Text × ℕ)) (given : Bool) (cs : List Text)
    → giving (narrow_tracks fits given cs) ≡ (if given then 0 else 1)
unfolding narrow_tracks
giving-narrow_tracks fits true [] = refl
giving-narrow_tracks fits false [] = refl
giving-narrow_tracks fits true (c ∷ cs) = omega (arith, giving-narrow_tracks fits true cs)
giving-narrow_tracks fits false (c ∷ cs) = elim (Bool-cases (c == addr_title)) [
  | inl pair ↦ rw pair (ap (λ n. 1 + n) (giving-narrow_tracks fits true cs))
  | inr other ↦ rw other (omega (arith, giving-narrow_tracks fits false cs))
]

-- The list has a track for each of its columns, one of which takes what is left over; the floor of
-- a row is what its tracks add up to, with room for Info besides in the wide layout; and in the
-- other two layouts exactly one track takes what is left over.
pub head_lem :
    (phone : Bool) (fits : List (Text × ℕ)) (t : Shape) (cols : List ColumnInfo) (vis : List Drawn)
    → let h = head phone fits t cols vis in
      (length h.grid ≡ length vis)
      × (giving h.grid ≡ min 1 (length vis))
      × (h.minw ≡ total h.grid + 160)
      × (giving h.gridn ≡ 1)
      × (h.minwn ≡ total h.gridn)
      × (giving h.gridp ≡ 1)
      × (h.minwp ≡ total h.gridp)
unfolding head
head_lem phone fits t cols vis =
    let titles = map (title_drawn cols) vis in
    let narrow = total-narrow_tracks fits false (but_last titles) in
    let same = length-map vis (title_drawn cols) in
    (
      length-tracks fits titles ∙ same,
      giving-tracks fits titles ∙ ap (min 1) same,
      ap (λ n. n + 160) (sym (total-tracks fits titles)),
      giving-narrow_tracks fits false (but_last titles),
      sym narrow,
      refl,
      omega arith,
    )
