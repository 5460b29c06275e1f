-- ===== src/Captures/Picking/Tests.antt =====
-- Runs of the picks on a list of three captures.
use webshark.Prelude.{
  Text, codes, ◌≡◌, refl, true, ◌⊎◌, ◌↔◌, text_eq, arith, some, List, [], ◌∷◌, contains,
}
use webshark.Captures.Picking.{Picks, pick_row, between, pickbar}
use webshark.Captures.Picking.Laws.{Stands, pick_row-between}

abbrev a : Text
a = codes "a"

abbrev b : Text
b = codes "b"

abbrev c : Text
c = codes "c"

abbrev filed : List Text
filed = a ∷ b ∷ c ∷ []

abbrev start : Picks
start = record { picked = c ∷ []; anchor = some 2 }

reach_run : (pick_row filed 0 true start).picked ≡ c ∷ a ∷ b ∷ []
unfolding pick_row
reach_run = refl

between_run : between filed 2 0 ≡ filed
unfolding between
between_run = refl

bar_run : (pickbar start).text ≡ codes "Open c"
unfolding pickbar
bar_run = refl

pick_row-between_example :
    ((contains (pick_row filed 0 true start).picked b ≡ true)
      ↔ ((contains start.picked b ≡ true) ⊎ Stands filed 0 2 b))
    × ((pick_row filed 0 true start).anchor ≡ some 2)
pick_row-between_example = pick_row-between filed 2 0 start a b refl (omega arith) refl
