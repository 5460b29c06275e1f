-- ===== src/Settings.antt =====
-- How wide the columns of the list are and what the drawer of src/web/app.js remembers: `wide`, `cw`
-- and `fit`, `gutter`, the tracks that `head` lays out, and `theme` and `retime` with localStorage.
pub mod Fitting
pub mod Grid
pub mod Remembered
mod Tests
use webshark.Prelude.{
  ℕ, zero, suc, ◌+◌, ◌-◌, ◌*◌, ◌/◌, String, Text, codes, Bool, true, false, not, ◌&&◌, ◌||◌, Option,
  none, some, List, [], ◌∷◌, ◌++◌, map, ◌==◌, nat_eq, text_eq, if◌then◌else◌, is_empty, length,
  decimal, get, put, remove, min, max,
}
use webshark.Columns.{Shape, times}

-- `ADDR`, the title of the folded pair
abbrev pub addr_title : Text
addr_title = codes "Source → Destination"

-- `WIDE`; 0 for a title that it does not have
abbrev pub wide_of : Text → ℕ
wide_of title =
    if title == codes "No."
    then 76
    else if title == codes "Time"
    then 104
    else if title == codes "Delta"
    then 80
    else if title == codes "UTC"
    then 208
    else if title == codes "Source"
    then 150
    else if title == codes "SrcPort"
    then 70
    else if title == codes "Destination"
    then 150
    else if title == codes "DstPort"
    then 70
    else if title == codes "Protocol"
    then 76
    else if title == codes "Length"
    then 64
    else if title == addr_title
    then 320
    else 0

-- `cw`: 7.25 pixels for a character, rounded up, and 12 for the padding
unfoldable pub cw : ℕ → ℕ
cw n = (n * 29 + 3) / 4 + 12

abbrev pub or_else_width : ℕ → ℕ → ℕ
or_else_width a b = if a == 0 then b else a

abbrev width_in : Option ℕ → ℕ
width_in none = 0
width_in (some w) = w

-- `wide`, over `FIT`
unfoldable pub wide : List (Text × ℕ) → Text → ℕ
wide fits title = or_else_width (width_in (get fits title)) (or_else_width (wide_of title) 110)

unfoldable pub unfit : List Shape → List (Text × ℕ) → List (Text × ℕ)
unfit [] fits = fits
unfit (t ∷ ts) fits = unfit ts (remove fits (codes t.col))

unfoldable pub fit_all : ℕ → List Shape → List (Text × ℕ) → List (Text × ℕ)
unfolding cw
fit_all chars [] fits = fits
fit_all chars (t ∷ ts) fits =
    fit_all chars ts
      (if t.elapsed then put fits (codes t.col) (min (wide_of (codes t.col)) (cw chars)) else fits)

-- `fit`, of the whole seconds that a capture ran, if the server says
unfoldable pub fit : Option ℕ → List (Text × ℕ) → List (Text × ℕ)
unfolding unfit fit_all decimal
fit none fits = unfit times fits
fit (some secs) fits = fit_all (length (decimal secs) + 7) times (unfit times fits)
