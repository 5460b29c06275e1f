-- ===== src/Selecting.antt =====
-- The frame that is selected and the one that is dissected, of src/web/app.js: `select`, `deselect`
-- and `move` over the pages of the list, the calls of /api/frame in flight, and what `show` puts
-- into the panes when one is answered.
pub mod Shown
mod Tests
use webshark.Prelude.{
  ℕ, zero, suc, ◌+◌, ◌-◌, ◌/◌, max, min, Text, Bool, true, false, ◌&&◌, Option, none, some, List,
  [], ◌∷◌, ◌++◌, ◌==◌, nat_eq, text_eq, if◌then◌else◌, is_none,
}
use webshark.Pages.{Row, Request, Reply, World, page_size, row_at, row_before, rewind, settle}

-- One call of /api/frame: the capture, the frame, and the frame before it on the list, 0 for none.
pub record Call : Type 0 where
  pub file : Text
  pub num : ℕ
  pub prev : ℕ

-- `S.selIdx` and `S.want`, the pages, the calls that are out, and the frame in the panes, which are
-- open where there is one.
pub record Viewer : Type 0 where
  pub world : World
  pub selected : Option ℕ
  pub want : ℕ
  pub calls : List Call
  pub shown : Option Call

abbrev pub number_of : Option Row → ℕ
number_of none = 0
number_of (some row) = row.n

-- The second half of `select`, for the row that was found.
unfoldable pub ask_frame : ℕ → Option Row → Viewer → Viewer
unfolding row_before
ask_frame i none v = v
ask_frame i (some row) v =
    let (prev, w) = row_before i v.world in
    record v {
      world = w;
      selected = some i;
      want = row.n;
      calls = v.calls ++ record { file = w.file; num = row.n; prev = number_of prev } ∷ [];
    }

module _ (answer : Request → Option Reply) where
  -- The row, or the row after the wait for its page.
  unfoldable pub wait_row : ℕ → World → Option Row × World
  unfolding row_at settle
  wait_row i w =
      let (row, w') = row_at i w in
      elim row [ some r ↦ (some r, w') | none ↦ row_at i (settle answer (i / page_size) w') ]

  unfoldable pub select : ℕ → Viewer → Viewer
  unfolding wait_row ask_frame
  select i v = let (row, w) = wait_row i v.world in ask_frame i row (record v { world = w })

unfoldable pub deselect : Viewer → Viewer
deselect v = record v { selected = none; want = 0; shown = none }

-- `rewind`, with what it does to the panes: `S.want` is left as it was.
unfoldable pub rewind_view : Viewer → Viewer
unfolding rewind
rewind_view v = record v { world = rewind v.world; selected = none; shown = none }

abbrev pub same_call : Call → Call → Bool
same_call a b = a.num == b.num && (a.prev == b.prev && a.file == b.file)

-- A call that has been answered is no longer out.
unfoldable pub forget_call : Call → List Call → List Call
forget_call c [] = []
forget_call c (d ∷ ds) = if same_call d c then ds else d ∷ forget_call c ds

-- An answer: none for a call that failed. One that is for another frame than the one wanted is
-- dropped, "a faster click won".
unfoldable pub arrive : Call → Bool → Viewer → Viewer
unfolding forget_call
arrive c answered v = record v {
  calls = forget_call c v.calls;
  shown = if answered && v.want == c.num then some c else v.shown;
}

pub data Jump : Type 0 where
  down up : ℕ → Jump

abbrev jumped : ℕ → Jump → ℕ
jumped i (down n) = i + n
jumped i (up n) = i - n

abbrev moved_from : Option ℕ → Jump → ℕ
moved_from none jump = 0
moved_from (some i) jump = jumped i jump

-- The row that `move` goes to: with no row at all the first, for a list that has none.
unfoldable pub move_to : Jump → Viewer → ℕ
move_to jump v = min (v.world.count - 1) (moved_from v.selected jump)
