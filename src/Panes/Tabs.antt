-- ===== src/Panes/Tabs.antt =====
-- The choices around the panes, of src/web/app.js: which pane a narrow window shows (`panes`, `hexOn`),
-- the tabs of the byte sources (`tabs`), and the click on the footer.
mod Tests
use webshark.Prelude.{
  ℕ, zero, suc, ◌+◌, Text, codes, Bool, true, false, not, ◌&&◌, ◌||◌, List, [], ◌∷◌, ◌++◌, ◌==◌,
  nat_eq, if◌then◌else◌, is_empty, length, decimal,
}
use webshark.Panes.{Source, Detail}
use webshark.Captures.Names.{ref_of}

pub data Pane : Type 0 where
  tree bytes : Pane

abbrev is_bytes : Pane → Bool
is_bytes tree = false
is_bytes bytes = true

-- `hexOn`
abbrev pub hex_on : Bool → Pane → Bool
hex_on narrow pane = not narrow || is_bytes pane

-- `panes`: the pane, and whether the dump is built for it.
abbrev pub panes : Pane → Pane × Bool
panes pick = (pick, is_bytes pick)

abbrev tabs_from : ℕ → ℕ → List Source → List (Text × Bool)
tabs_from src i [] = []
tabs_from src i (s ∷ sources) =
    (if is_empty s.name then codes "source " ++ decimal i else s.name, i == src)
    ∷ tabs_from src (suc i) sources

-- `tabs`: the text of each, and whether it is on.
unfoldable pub tabs : Detail → List (Text × Bool)
unfolding decimal
tabs d = elim d.sources [
  | [] ↦ []
  | s ∷ [] ↦ []
  | s ∷ t ∷ sources ↦ tabs_from d.src 0 (s ∷ t ∷ sources)
]

-- Where a click on the footer fell, and what it does.
pub data Spot : Type 0 where
  on_unpick on_pick elsewhere : Spot

pub data Click : Type 0 where
  clears asks rests : Click
  opens filters : Text → Click

abbrev chosen : Spot → List Text → Click
chosen on_unpick picked = clears
chosen on_pick [] = rests
chosen on_pick (p ∷ picked) = opens (ref_of (p ∷ picked))
chosen elsewhere [] = asks
chosen elsewhere (p ∷ picked) = opens (ref_of (p ∷ picked))

unfoldable pub footer_click : Bool → Spot → List Text → Text → Click
unfolding ref_of
footer_click files spot picked filter =
    if files then chosen spot picked else if is_empty filter then rests else filters filter
