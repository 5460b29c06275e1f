-- ===== src/Settings/Grid.antt =====
-- The gutter of the diagram and the tracks of the list, of src/web/app.js: `gutter`, and what `head`
-- writes to the stylesheet in each of the three layouts.
pub mod Laws
use webshark.Prelude.{
  ℕ, zero, suc, ◌+◌, ◌-◌, ◌≤◌, Text, codes, ◌≡◌, refl, sym, ap, ap₂, ◌∙◌, ◌⊎◌, inl, inr, Bool, true,
  false, not, ◌&&◌, Option, none, some, List, [], ◌∷◌, ◌++◌, map, ◌==◌, text_eq, nat_eq, arith,
  if◌then◌else◌, length, get_elem?, max, min, Bool-cases, length-append, is_none,
}
use webshark.Columns.{
  ColumnInfo, Name, no, time, proto, len, info, Shape, Drawn, addr, col, column_ix, is_at,
}
use webshark.Settings.{addr_title, wide_of, wide}

-- `--numw`, `--timew`, `--fxw`
pub record Gutter : Type 0 where
  pub numw : ℕ
  pub timew : ℕ
  pub fxw : ℕ

unfoldable pub gutter : Bool → List (Text × ℕ) → Shape → Gutter
unfolding wide
gutter phone fits t =
    let w = wide fits (codes t.col) in
    record {
      numw = if phone then 0 else wide_of (codes "No.");
      timew = if phone then min w 104 else w;
      fxw = if phone then 10 else 14;
    }

-- `GUT`
abbrev pub gutter_width : Gutter → ℕ
gutter_width g = g.numw + g.timew

-- The title of a drawn column, `S.cols`.
abbrev title_at : List ColumnInfo → Option ℕ → Text
title_at cols none = []
title_at cols (some i) = elim (get_elem? cols i) [ none ↦ [] | some c ↦ c.title ]

abbrev pub title_drawn : List ColumnInfo → Drawn → Text
title_drawn cols addr = addr_title
title_drawn cols (col i) = title_at cols i

-- `S.ix[k] === i`
abbrev same_column : Option ℕ → Option ℕ → Bool
same_column none none = true
same_column none (some i) = false
same_column (some j) i = is_at i j

-- The class of a drawn column, `S.cls`.
unfoldable pub class_of : List ColumnInfo → Shape → Drawn → Text
unfolding column_ix
class_of cols t addr = codes "addr"
class_of cols t (col i) =
    if same_column (column_ix cols t no) i
    then codes "num"
    else if same_column (column_ix cols t time) i
    then codes "time"
    else if same_column (column_ix cols t proto) i
    then codes "proto"
    else if same_column (column_ix cols t len) i
    then codes "len"
    else if same_column (column_ix cols t info) i
    then codes "info"
    else []

-- A track: so many pixels, what is left over, or so many at least.
pub data Track : Type 0 where
  px at_least : ℕ → Track
  fr : Track

abbrev pub floor_of : Track → ℕ
floor_of (px n) = n
floor_of (at_least n) = n
floor_of fr = 0

-- `--grid`: the last column takes what is left over
unfoldable pub tracks : List (Text × ℕ) → List Text → List Track
tracks fits [] = []
tracks fits (c ∷ []) = fr ∷ []
tracks fits (c ∷ d ∷ cs) = px (wide fits c) ∷ tracks fits (d ∷ cs)

-- `lead`, the columns but the last
unfoldable pub but_last : List Text → List Text
but_last [] = []
but_last (c ∷ []) = []
but_last (c ∷ d ∷ cs) = c ∷ but_last (d ∷ cs)

-- `fixed`
unfoldable pub fixed : List (Text × ℕ) → List Text → ℕ
fixed fits [] = 0
fixed fits (c ∷ cs) = wide fits c + fixed fits cs

-- `--gridn`: the first pair of addresses takes the slack, or a spacer at the end
unfoldable pub narrow_tracks : List (Text × ℕ) → Bool → List Text → List Track
narrow_tracks fits given [] = if given then [] else fr ∷ []
narrow_tracks fits given (c ∷ cs) =
    let gives = not given && c == addr_title in
    (if gives then at_least (wide fits c) else px (wide fits c))
    ∷ narrow_tracks fits (if gives then true else given) cs

abbrev find_class : Text → ℕ → List Text → Option ℕ
find_class c i [] = none
find_class c i (d ∷ ds) = if d == c then some i else find_class c (suc i) ds

abbrev lead_of : List Text → ℕ
lead_of classes = elim (find_class (codes "proto") 0 classes) [
  | some i ↦ i
  | none ↦ elim (find_class (codes "time") 0 classes) [ some i ↦ i | none ↦ 0 ]
]

-- What `head` leaves: the properties of the stylesheet, and `S.lead`.
pub record Head : Type 0 where
  pub titles : List Text
  pub grid : List Track
  pub minw : ℕ
  pub gridn : List Track
  pub minwn : ℕ
  pub gridp : List Track
  pub minwp : ℕ
  pub lead : ℕ

unfoldable pub head : Bool → List (Text × ℕ) → Shape → List ColumnInfo → List Drawn → Head
unfolding tracks but_last fixed narrow_tracks class_of column_ix
head phone fits t cols vis =
    let titles = map (title_drawn cols) vis in
    let first = but_last titles in
    let timew = wide fits (codes t.col) in
    let protow = if is_none (column_ix cols t proto) then 0 else wide_of (codes "Protocol") in
    record {
      titles = titles;
      grid = tracks fits titles;
      minw = fixed fits first + 160;
      gridn = narrow_tracks fits false first;
      minwn = fixed fits first;
      gridp = px protow ∷ px (timew - protow) ∷ fr ∷ [];
      minwp = max timew protow;
      lead = if phone then lead_of (map (class_of cols t) vis) else 0;
    }
