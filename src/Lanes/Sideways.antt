-- ===== src/Lanes/Sideways.antt =====
-- The scrolling of the diagram to an arrow of it: `revealX` of src/web/app.js, in whole pixels.
use webshark.Prelude.{
  ℕ, ◌+◌, ◌-◌, ◌/◌, ◌≤◌, min, max, Option, none, some, arith, ltb, if◌then◌else◌,
}
use webshark.Lanes.Geometry.{lane_x}

-- The ends of the arrow between two lanes; a frame without one of them has none, and starts at the
-- gutter.
abbrev pub arrow_ends : ℕ → ℕ → Option ℕ → Option ℕ → ℕ × ℕ
arrow_ends gutter width none to = (gutter, gutter)
arrow_ends gutter width (some i) none = (gutter, gutter)
arrow_ends gutter width (some i) (some j) = (lane_x gutter width i, lane_x gutter width j)

-- `lo` and `hi`: the arrow with the labels over its ends
unfoldable pub lowest : ℕ → ℕ → Option ℕ → Option ℕ → ℕ
unfolding lane_x
lowest gutter width from to = let (a, b) = arrow_ends gutter width from to in min a b - width / 2

unfoldable pub highest : ℕ → ℕ → Option ℕ → Option ℕ → ℕ
unfolding lane_x
highest gutter width from to = let (a, b) = arrow_ends gutter width from to in max a b + width / 2

-- Where the list is scrolled to: `total` is the width of its content, at the end of which a write
-- to `scrollLeft` stops.
unfoldable pub reveal_x : ℕ → ℕ → Option ℕ → Option ℕ → ℕ → ℕ → ℕ → ℕ
unfolding lowest highest
reveal_x gutter width from to view total left =
    let lo = lowest gutter width from to in
    let hi = highest gutter width from to in
    if ltb (lo - gutter) left
    then min (lo - gutter) (total - view)
    else if ltb view (hi - left)
    then min (min (lo - gutter) (hi - view)) (total - view)
    else left

-- After `revealX` of an arrow inside the content, that fits between the gutter and the edge, its
-- left label is past the gutter and its right one before the edge.
pub reveal_x_lem :
    (gutter width : ℕ) (from to : Option ℕ) (view total left : ℕ)
    → highest gutter width from to ≤ total
    → highest gutter width from to ≤ lowest gutter width from to - gutter + view
    → (reveal_x gutter width from to view total left ≤ lowest gutter width from to - gutter)
      × (highest gutter width from to ≤ reveal_x gutter width from to view total left + view)
unfolding reveal_x
reveal_x_lem gutter width from to view total left inside fits = (ground arith, ground arith)
