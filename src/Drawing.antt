-- ===== src/Drawing.antt =====
-- The rows of the packet list as they are drawn, of src/web/app.js: `draw` and the elements it
-- recycles (`slot`), over the pages of the list and the run of rows of `Window`. What an element
-- says of its row is in `Columns` and `Lanes.Arrow`.
pub mod Laws
mod Tests
use webshark.Prelude.{
  ℕ, zero, suc, ◌+◌, ◌-◌, ◌*◌, Bool, true, false, Option, none, some, List, [], ◌∷◌, ◌==◌, nat_eq,
  drop, is_none,
}
use webshark.Pages.{Row, World, row_at, rows_drawn}
use webshark.Window.{first_drawn, upto_drawn}

-- An element of the pool: `dataset.i`, `style.top`, `hidden`, its classes `sel` and `gap`, and the
-- row it holds.
pub record Slot : Type 0 where
  pub index : ℕ
  pub top : ℕ
  pub hidden : Bool
  pub sel : Bool
  pub gap : Bool
  pub row : Option Row

abbrev pub is_selected : Option ℕ → ℕ → Bool
is_selected none i = false
is_selected (some j) i = i == j

abbrev pub filled : ℕ → Option ℕ → ℕ → Option Row → Slot
filled height selected i row = record {
  index = i;
  top = i * height;
  hidden = false;
  sel = is_selected selected i;
  gap = is_none row;
  row = row;
}

-- The slots after the run, which are kept.
unfoldable pub hide_all : List Slot → List Slot
hide_all [] = []
hide_all (s ∷ pool) = record s { hidden = true } ∷ hide_all pool

-- The loop of `draw`: the rounds left, the row, and the slots from there on, of which there is made
-- one more where they have run out.
unfoldable pub fill_slots : ℕ → Option ℕ → ℕ → ℕ → List Slot → World → List Slot × World
unfolding row_at hide_all
fill_slots height selected zero i pool w = (hide_all pool, w)
fill_slots height selected (suc k) i pool w =
    let (row, w') = row_at i w in
    let (rest, w'') = fill_slots height selected k (suc i) (drop 1 pool) w' in
    (filled height selected i row ∷ rest, w'')

-- `draw` of a list whose rows are `height` tall, seen through `view` pixels from `top` on.
unfoldable pub draw : ℕ → ℕ → ℕ → Option ℕ → List Slot → World → List Slot × World
unfolding fill_slots first_drawn upto_drawn rows_drawn
draw height view top selected pool w =
    let first = first_drawn height top in
    fill_slots height selected (upto_drawn height view (rows_drawn w) top - first) first pool w
