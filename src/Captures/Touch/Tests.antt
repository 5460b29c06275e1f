-- ===== src/Captures/Touch/Tests.antt =====
-- A finger held on the second of two captures.
use webshark.Prelude.{ℕ, Text, codes, ◌≡◌, refl, false, none, some, List, [], ◌∷◌}
use webshark.Captures.Picking.{pick_row}
use webshark.Captures.Touch.{
  row, Finger, Touched, is_scroll, press_down, let_go, press_held, click_row, moves, long_press,
}

abbrev filed : List Text
filed = codes "a.pcap" ∷ codes "b.pcap" ∷ []

abbrev rows : Touched
rows = record {
  press = none;
  held = record { x = 0; y = 0 };
  pressed = false;
  picks = record { picked = []; anchor = none };
  opened = none;
}

abbrev finger : ℕ → Finger
finger y = record { x = 40; y = y }

still : is_scroll (finger 60) (finger 56) ≡ false
unfolding is_scroll
still = refl

tap_run :
    (click_row filed false false
      (row 1)
      (let_go (press_down false (some 1) (finger 56) rows))).opened
    ≡ some (codes "b.pcap")
unfolding click_row let_go press_down
tap_run = refl

long_press_example :
    let held =
      press_held filed
        (moves filed (finger 60 ∷ []) (press_down false (some 1) (finger 56) rows)) in
    let after = click_row filed false false (row 1) (let_go (moves filed (finger 90 ∷ []) held)) in
    (after.picks ≡ pick_row filed 1 false rows.picks)
    × (after.opened ≡ none)
    × (after.pressed ≡ false)
    × (after.press ≡ none)
long_press_example =
    long_press filed 1 (finger 56) (finger 60 ∷ []) (finger 90 ∷ []) false false (row 1) rows
      (still, tt)
