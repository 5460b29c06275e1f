-- ===== src/Window/Laws.antt =====
-- What the screen shows of the rows.
use native.Mathlib.Nat.{lt_of_mul-lt-mul_left, mul-le-mul_right}
use webshark.Prelude.{
  ℕ, suc, ◌+◌, ◌-◌, ◌*◌, ◌/◌, ◌≤◌, ◌<◌, min, ◌≡◌, false, arith, ltb, if◌then◌else◌,
}
use webshark.Window.{ceil_div, first_drawn, upto_drawn, Viewport, reveal}

-- A quotient against a row that lies before, and against one that lies behind.
pub div_below : (row top i : ℕ) → 0 < row → top < (i + 1) * row → top / row ≤ i
div_below row top i h k = grind arith

pub lt_next_mul : (row top : ℕ) → 0 < row → top < (top / row + 1) * row
lt_next_mul row top h = grind arith

pub le_ceil_mul : (row view : ℕ) → 0 < row → view ≤ ceil_div view row * row
unfolding ceil_div
le_ceil_mul row view h = omega (arith, lt_next_mul row (view + (row - 1)) h)

pub lt_of_mul_lt : (row i k : ℕ) → i * row < k * row → i < k
lt_of_mul_lt row i k h = lt_of_mul-lt-mul_left row (omega arith)

div_above :
    (row top view i : ℕ) → 0 < row → i * row < top + view → i < top / row + ceil_div view row + 1
div_above row top view i h k =
    lt_of_mul_lt row i _ (omega (arith, lt_next_mul row top h, le_ceil_mul row view h))

-- Every row with a pixel inside the viewport is among those drawn, at any row height, viewport and
-- scroll position; and those drawn are a viewport's worth and sixteen more at most.
pub drawn_lem :
    (row view last top i : ℕ)
    → 0 < row
    → i < last
    → top < (i + 1) * row
    → i * row < top + view
    → (first_drawn row top ≤ i)
      × (i < upto_drawn row view last top)
      × (upto_drawn row view last top ≤ first_drawn row top + ceil_div view row + 16)
unfolding first_drawn upto_drawn
drawn_lem row view last top i h inside below above = (
  omega (arith, div_below row top i h below),
  omega (arith, div_above row top view i h above),
  omega arith,
)

row_fits : (row i n : ℕ) → i < n → i * row + row ≤ n * row
row_fits row i n h = omega (arith, mul-le-mul_right {m = suc i} {n = n} row h)

-- `reveal` in numbers: the row stands at `a` in the canvas, which is `c` tall, and ends at `b`.
abbrev up : (a row top view c : ℕ) → ℕ
up a row top view c = if ltb a top then min a (row + c - view) else top

abbrev down : (b row top view c : ℕ) → ℕ
down b row top view c = if ltb view (b - top) then min (b - view) (row + c - view) else top

revealed :
    (a b row top view c : ℕ)
    → b ≡ row + (a + row)
    → 2 * row ≤ view
    → a + row ≤ c
    → (down b row (up a row top view c) view c ≤ a)
      × (b ≤ down b row (up a row top view c) view c + view)
      × (top ≤ a → b ≤ top + view → down b row (up a row top view c) view c ≡ top)
revealed a b row top view c e h k = (ground arith, ground arith, (λ p q. ground arith))

top-reveal :
    (n i : ℕ) (v : Viewport)
    → v.pinned ≡ false
    → (reveal (n * v.row) i v).top
      ≡ down
          (v.row + (i + 1) * v.row)
          v.row
          (up (i * v.row) v.row v.top v.view (n * v.row))
          v.view
          (n * v.row)
unfolding reveal
top-reveal n i v free = rw (free, reveal)

-- After `reveal` of a row of the canvas, in a viewport of two rows or more whose header is not
-- pinned to one row, the whole row is under the header and above the bottom edge.
pub reveal_lem :
    (n i : ℕ) (v : Viewport)
    → i < n
    → 2 * v.row ≤ v.view
    → v.pinned ≡ false
    → ((reveal (n * v.row) i v).top ≤ i * v.row)
      × (v.row + (i + 1) * v.row ≤ (reveal (n * v.row) i v).top + v.view)
reveal_lem n i v h k free =
    let (above, below, _) =
      revealed (i * v.row) (v.row + (i + 1) * v.row) v.row v.top v.view (n * v.row) (omega arith) k
        (row_fits v.row i n h) in
    rw (top-reveal n i v free) (above, below)

-- A row that is on the screen already is revealed without scrolling.
pub reveal_still :
    (n i : ℕ) (v : Viewport)
    → i < n
    → 2 * v.row ≤ v.view
    → v.pinned ≡ false
    → v.top ≤ i * v.row
    → v.row + (i + 1) * v.row ≤ v.top + v.view
    → (reveal (n * v.row) i v).top ≡ v.top
reveal_still n i v h k free above below =
    let (_, _, still) =
      revealed (i * v.row) (v.row + (i + 1) * v.row) v.row v.top v.view (n * v.row) (omega arith) k
        (row_fits v.row i n h) in
    rw (top-reveal n i v free) (still above below)
