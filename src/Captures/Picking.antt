-- ===== src/Captures/Picking.antt =====
-- The captures picked out of the list to be opened as one, of src/web/app.js: `pickRow`, by a plain
-- click or a click with shift, `pickNone`, and what `pickbar` offers.
pub mod Laws
mod Tests
use webshark.Prelude.{
  decimal, is_empty, ℕ, zero, suc, ◌+◌, ◌-◌, Text, codes, Bool, true, false, not, ◌&&◌, Option,
  none, some, List, [], ◌∷◌, ◌++◌, ◌==◌, nat_eq, text_eq, if◌then◌else◌, ltb, length, get_elem?,
  contains, delete, add, take, drop, sort_by, join,
}
use webshark.Captures.Names.{text_leb}

-- `S.picked` and `anchor`, which is -1 where no row is.
pub record Picks : Type 0 where
  pub picked : List Text
  pub anchor : Option ℕ

unfoldable pub add_all : List Text → List Text → List Text
add_all [] picked = picked
add_all (name ∷ names) picked = add_all names (add name picked)

-- The rows from one index to another, both of them included.
unfoldable pub between : List Text → ℕ → ℕ → List Text
between filed i j =
    let from = if ltb i j then i else j in
    let to = if ltb i j then j else i in take (to + 1 - from) (drop from filed)

abbrev toggle : Text → List Text → List Text
toggle name picked = if contains picked name then delete name picked else add name picked

abbrev picked_at : ℕ → Text → Picks → Picks
picked_at i name s = record { picked = toggle name s.picked; anchor = some i }

-- The run that a click with shift takes, where there is a row to reach back to.
abbrev pub reach : List Text → Bool → Option ℕ → ℕ → Option (List Text)
reach filed through none i = none
reach filed through (some anchor) i =
    if through && ltb anchor (length filed) then some (between filed anchor i) else none

abbrev taken_by : ℕ → Text → Picks → Option (List Text) → Picks
taken_by i name s none = picked_at i name s
taken_by i name s (some names) = record s { picked = add_all names s.picked }

unfoldable pub pick_row : List Text → ℕ → Bool → Picks → Picks
unfolding add_all between
pick_row filed i through s = elim (get_elem? filed i) [
  | none ↦ s
  | some name ↦ taken_by i name s (reach filed through s.anchor i)
]

unfoldable pub pick_none : Picks → Picks
pick_none s = record { picked = []; anchor = none }

-- The footer's offer and its tooltip.
pub record Bar : Type 0 where
  pub hidden : Bool
  pub text : Text
  pub title : Text

abbrev offer : List Text → Text
offer (name ∷ []) = codes "Open " ++ name
offer names = codes "Open " ++ (decimal (length names) ++ codes " captures as one")

unfoldable pub pickbar : Picks → Bar
unfolding decimal text_leb
pickbar s = record {
  hidden = is_empty s.picked;
  text = offer s.picked;
  title =
      if ltb (length s.picked) 2
      then []
      else codes "Read as one capture, their frames in time order:\n"
        ++ join 10 (sort_by text_leb s.picked);
}
