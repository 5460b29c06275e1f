-- ===== src/Window.antt =====
-- The rows that are on the screen, of src/web/app.js: the run of slots that `draw`, `filesDraw` and
-- `layout` fill, and the scrolling of `reveal`. Heights and offsets are whole pixels.
pub mod Laws
mod Tests
use webshark.Prelude.{ℕ, ◌+◌, ◌-◌, ◌*◌, ◌/◌, ◌≤◌, ◌<◌, min, Bool, true, false, if◌then◌else◌, ltb}

-- rows drawn above and below the viewport
abbrev pub over : ℕ
over = 8

-- `Math.ceil(a / b)`
unfoldable pub ceil_div : ℕ → ℕ → ℕ
ceil_div a b = (a + (b - 1)) / b

-- `Math.max(0, Math.floor(top / row) - OVER)`
unfoldable pub first_drawn : ℕ → ℕ → ℕ
first_drawn row top = top / row - over

-- `Math.min(last, first + Math.ceil(view / row) + OVER * 2)`
unfoldable pub upto_drawn : ℕ → ℕ → ℕ → ℕ → ℕ
unfolding first_drawn ceil_div
upto_drawn row view last top = min last (first_drawn row top + ceil_div view row + over * 2)

-- The list's own numbers: its row, its viewport, the height of the canvas, and where it is scrolled.
-- The header owns one row over the canvas.
pub record Viewport : Type 0 where
  pub row : ℕ
  pub view : ℕ
  pub canvas : ℕ
  pub top : ℕ
  pub pinned : Bool

-- What the browser makes of a write to `scrollTop`: it stops at the end of the content.
abbrev pub end_of : Viewport → ℕ
end_of v = v.row + v.canvas - v.view

abbrev scroll_to : ℕ → Viewport → ℕ
scroll_to t v = min t (end_of v)

unfoldable pub scroll_up : ℕ → Viewport → Viewport
scroll_up i v = record v { top = if ltb (i * v.row) v.top then scroll_to (i * v.row) v else v.top }

unfoldable pub scroll_down : ℕ → Viewport → Viewport
scroll_down i v =
    let bottom = v.row + (i + 1) * v.row in
    record v { top = if ltb v.view (bottom - v.top) then scroll_to (bottom - v.view) v else v.top }

-- `reveal`, with the canvas set to the height that the rows are about to have.
unfoldable pub reveal : ℕ → ℕ → Viewport → Viewport
unfolding scroll_up scroll_down
reveal height i v =
    let v' = record v { canvas = height } in
    if v.pinned
    then record v' { top = scroll_to (i * v.row) v' }
    else scroll_down i (scroll_up i v')
