-- ===== src/Lanes/Arrow.antt =====
-- The arrow of a frame in the sequence diagram, of src/web/app.js: where it stands, which way it
-- points and what it says (`arrow`, `trim`, `brief`).
mod Tests
use native.Mathlib.Nat.{mul-lt-mul_of_pos_left}
use webshark.Prelude.{
  ℕ, zero, suc, ◌+◌, ◌-◌, ◌*◌, ◌/◌, ◌≤◌, ◌<◌, min, max, Text, codes, ◌≡◌, ◌≢◌, refl, ap, inl, inr,
  Bool, true, false, not, ◌&&◌, ◌||◌, Option, none, some, List, [], ◌∷◌, ◌++◌, arith, ◌==◌, nat_eq,
  if◌then◌else◌, Bool-cases, ltb, ltb→lt, leb, get, text_eq, is_empty, starts_with, drop, take,
  trim_space, drop_end, is_space,
}
use webshark.Pages.{Row}
use webshark.Columns.{Name, time, src, dst, sport, dport, proto, info, cell, inner}
use webshark.Lanes.{Diagram}
use webshark.Lanes.Geometry.{lane_x}

-- The class of the line: text without an arrow, a stub, or an arrow that points back, that is of one
-- lane, or that has the ports at its ends.
pub data Kind : Type 0 where
  plain stub : Kind
  between : Bool → Bool → Bool → Kind

pub record Arrow : Type 0 where
  pub kind : Kind
  pub left : ℕ
  pub width : ℕ
  pub left_text : Text
  pub right_text : Text
  pub proto : Text
  pub text : Text
  pub title : Text

-- What `layout` has left: `GUT`, `S.nodeW`, `S.width`.
pub record Layout : Type 0 where
  pub gutter : ℕ
  pub lane : ℕ
  pub width : ℕ

-- `.replace(/\s*\|\s*$/, '')`, less the blanks that `.trim()` takes off then
abbrev cut_bar : Text → Text
cut_bar [] = []
cut_bar (c ∷ []) = if c == b'|' then [] else c ∷ []
cut_bar (c ∷ d ∷ s) = c ∷ cut_bar (d ∷ s)

abbrev without_kind : Text → Text
without_kind s =
    if starts_with s (codes "Request: ")
    then drop 9 s
    else if starts_with s (codes "Status: ")
    then drop 8 s
    else s

unfoldable pub trim : Text → Text
unfolding is_space
trim s = trim_space (cut_bar (drop_end (without_kind s)))

abbrev is_decimal : ℕ → Bool
is_decimal c = leb b'0' c && leb c b'9'

abbrev four_digits : Text → Bool
four_digits (a ∷ b ∷ c ∷ d ∷ e ∷ s) =
    is_decimal a && is_decimal b && is_decimal c && is_decimal d && e == b'-'
four_digits _ = false

-- `\d*Z?$`
abbrev ends_stamp : Text → Bool
ends_stamp [] = true
ends_stamp (c ∷ []) = is_decimal c || c == b'Z'
ends_stamp (c ∷ d ∷ s) = is_decimal c && ends_stamp (d ∷ s)

-- `.replace(/(\.\d{3})\d*Z?$/, '$1')`
abbrev is_fraction : Text → Bool
is_fraction (p ∷ a ∷ b ∷ c ∷ s) =
    p == b'.' && (is_decimal a && is_decimal b && is_decimal c) && ends_stamp s
is_fraction _ = false

abbrev millis : Text → Text
millis [] = []
millis (c ∷ s) = let rest = millis s in if is_fraction (c ∷ s) then take 4 (c ∷ s) else c ∷ rest

unfoldable pub brief : Text → Text
brief t = if four_digits t then millis (drop 11 t) else t

abbrev named_ends : Text → Text → Text
named_ends [] [] = []
named_ends [] to = to
named_ends from [] = from
named_ends from to = from ++ codes " → " ++ to

abbrev title_of : Text → Text → Text → Text
title_of name says held =
    (if is_empty name then [] else name ++ codes ": ")
    ++ says
    ++ (if is_empty held then [] else 10 ∷ held)

-- `SELF`
abbrev pub stub_width : ℕ
stub_width = 28

-- The line between two lanes, or the stub of a frame from a lane to itself.
unfoldable pub line_between : Layout → ℕ → ℕ → Text → Text → Arrow → Arrow
unfolding lane_x
line_between at from to sp dp el =
    let a = lane_x at.gutter at.lane from in
    let b = lane_x at.gutter at.lane to in
    let self = from == to in
    let back = self || ltb b a in
    record el {
      kind = between back self (not self && (not (is_empty sp) && not (is_empty dp)));
      left = if self then a else min a b;
      width = if self then stub_width else max a b - min a b;
      left_text = if self then [] else if back then dp else sp;
      right_text = if self then [] else if back then sp else dp;
    }

-- The stub of a frame that has one end only.
unfoldable pub line_out : Layout → ℕ → Arrow → Arrow
unfolding lane_x
line_out at from el = record el {
  kind = stub;
  left = lane_x at.gutter at.lane from;
  width = stub_width;
}

unfoldable pub line_in : Layout → ℕ → Arrow → Arrow
unfolding lane_x
line_in at to el = record el {
  kind = stub;
  left = lane_x at.gutter at.lane to - stub_width;
  width = stub_width;
}

abbrev line_at : Layout → Option ℕ → Option ℕ → Text → Text → Text → Arrow → Arrow
line_at at none none ends sp dp el = record el {
  kind = plain;
  left = at.gutter;
  width = max 320 (at.width - at.gutter);
  text = ends ++ codes "   " ++ el.text;
}
line_at at (some from) none ends sp dp el = line_out at from el
line_at at none (some to) ends sp dp el = line_in at to el
line_at at (some from) (some to) ends sp dp el = line_between at from to sp dp el

-- `arrow` of a row, and none where there is no row yet.
unfoldable pub arrow : (Name → Option ℕ) → Layout → Diagram → Option Row → Option Arrow
unfolding cell inner trim line_between line_out line_in
arrow ix at d none = none
arrow ix at d (some row) =
    let from = cell ix row src in
    let to = cell ix row dst in
    some (
      line_at at (get d.node from) (get d.node to) (named_ends from to) (cell ix row sport)
        (cell ix row dport)
        (record {
          kind = plain;
          left = 0;
          width = 0;
          left_text = [];
          right_text = [];
          proto = cell ix row proto;
          text = trim (cell ix row info);
          title = title_of (cell ix row proto) (cell ix row info) (inner ix row);
        }))

lane_x-lt : (gutter lane i j : ℕ) → 0 < lane → i < j → lane_x gutter lane i < lane_x gutter lane j
unfolding lane_x
lane_x-lt gutter lane i j wide h =
    omega (arith, mul-lt-mul_of_pos_left {m = i} {n = j} {k = lane} h wide)

min_left : (i j : ℕ) → i < j → min i j ≡ i
min_left i j h = omega arith

max_right : (i j : ℕ) → i < j → max i j ≡ j
max_right i j h = omega arith

min_right : (i j : ℕ) → j < i → min i j ≡ j
min_right i j h = omega arith

max_left : (i j : ℕ) → j < i → max i j ≡ i
max_left i j h = omega arith

above : (i j : ℕ) → i ≢ j → ltb i j ≡ false → j < i
above i j differ h = ground arith

-- The arrow of a frame from one lane to another runs from the lane on the left to the one on the
-- right, points back exactly when it goes to the left, and has the port of either address at the
-- end where that address stands. Lanes have a width.
pub line_between_lem :
    (at : Layout) (from to : ℕ) (sp dp : Text) (el : Arrow)
    → 0 < at.lane
    → from ≢ to
    → ((line_between at from to sp dp el).left ≡ lane_x at.gutter at.lane (min from to))
      × ((line_between at from to sp dp el).left + (line_between at from to sp dp el).width
          ≡ lane_x at.gutter at.lane (max from to))
      × ((line_between at from to sp dp el).left_text ≡ (if ltb from to then sp else dp))
      × ((line_between at from to sp dp el).right_text ≡ (if ltb from to then dp else sp))
      × ((line_between at from to sp dp el).kind
          ≡ between (ltb to from) false (not (is_empty sp) && not (is_empty dp)))
unfolding line_between
line_between_lem at from to sp dp el wide differ = elim (Bool-cases (ltb from to)) [
  | inl lt ↦
      let right = lane_x-lt at.gutter at.lane from to wide (ltb→lt from to lt) in
      let low = ap (lane_x at.gutter at.lane) (min_left from to (ltb→lt from to lt)) in
      let high = ap (lane_x at.gutter at.lane) (max_right from to (ltb→lt from to lt)) in
      (
        ground (arith, right, low),
        ground (arith, right, high),
        ground (arith, right),
        ground (arith, right),
        ground (arith, right),
      )
  | inr ge ↦
      let under = above from to differ ge in
      let left = lane_x-lt at.gutter at.lane to from wide under in
      let low = ap (lane_x at.gutter at.lane) (min_right from to under) in
      let high = ap (lane_x at.gutter at.lane) (max_left from to under) in
      (
        ground (arith, left, low),
        ground (arith, left, high),
        ground (arith, left),
        ground (arith, left),
        ground (arith, left),
      )
]
