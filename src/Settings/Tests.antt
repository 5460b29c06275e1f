-- ===== src/Settings/Tests.antt =====
-- A capture of nine seconds on a wide window and on a phone, and what the drawer keeps.
use webshark.Prelude.{
  ◌+◌, ◌≡◌, Text, codes, refl, inr, true, false, some, List, [], ◌∷◌, length, map,
}
use webshark.Columns.{ColumnInfo, Drawn, addr, col, relative, utc}
use webshark.Settings.{wide, fit}
use webshark.Settings.Grid.{px, fr, gutter, head}
use webshark.Settings.Grid.Laws.{total, giving, head_lem}
use webshark.Settings.Remembered.{
  Radio, Status, Screen, theme_options, boot, lay_gutter, lay_head, lay_columns, measure,
  switch_view, open_status, retime, pick_theme, close_list, cross, observe, Theme,
}
use webshark.Settings.Remembered.Laid.{IsLaid}
use webshark.Settings.Remembered.Laws.{Step, Reach, started, Reach-IsLaid}

fit_runs :
    (wide (fit (some 9) []) (codes "Time") ≡ 70)
    × (wide (fit (some 123456) []) (codes "Delta") ≡ 80)
unfolding fit wide
fit_runs = (refl, refl)

abbrev column : Text → Text → ColumnInfo
column title format = record { title = title; format = format; visible = true }

abbrev cols : List ColumnInfo
cols =
    column (codes "No.") (codes "%m")
    ∷ column (codes "Time") (codes "%t")
    ∷ column (codes "Source") (codes "%s")
    ∷ column (codes "Destination") (codes "%d")
    ∷ column (codes "Protocol") (codes "%p")
    ∷ column (codes "Info") (codes "%i")
    ∷ []

abbrev drawn : List Drawn
drawn = col (some 0) ∷ col (some 1) ∷ addr ∷ col (some 4) ∷ col (some 5) ∷ []

head_runs :
    ((head true [] utc cols drawn).gridp ≡ px 76 ∷ px 132 ∷ fr ∷ [])
    × ((head true [] utc cols drawn).lead ≡ 3)
    × ((head false [] relative cols drawn).minwn ≡ 576)
unfolding head wide
head_runs = (refl, refl, refl)

head_lem_example :
    let h = head true [] relative cols drawn in
    (length h.grid ≡ 5)
    × (giving h.grid ≡ 1)
    × (h.minw ≡ total h.grid + 160)
    × (giving h.gridn ≡ 1)
    × (h.minwn ≡ total h.gridn)
    × (giving h.gridp ≡ 1)
    × (h.minwp ≡ total h.gridp)
head_lem_example = head_lem true [] relative cols drawn

abbrev capture : Status
capture = record { columns = cols; duration = some 9 }

abbrev page : Screen
page = started [] true

abbrev opened : Screen
opened = retime utc (open_status capture true page)

abbrev crossed : Screen
crossed = observe (cross opened)

abbrev picked : Screen
picked = pick_theme Theme.dark (close_list crossed)

opened_run : Reach page opened
opened_run =
    Reach.next (Reach.next Reach.here (Step.opens capture true page refl))
      (Step.retimes utc (open_status capture true page) (inr (inr refl)))

picked_run : Reach page picked
picked_run =
    Reach.next
      (Reach.next
        (Reach.next (Reach.next opened_run (Step.crosses opened)) (Step.observes (cross opened)))
        (Step.leaves crossed))
      (Step.themes Theme.dark (close_list crossed))

crossed_runs : (opened.gutter_of.fxw ≡ 10) × (picked.gutter_of.fxw ≡ 14) × (picked.phone ≡ false)
unfolding open_status retime pick_theme close_list observe cross measure switch_view lay_gutter
    lay_head lay_columns gutter
crossed_runs = (refl, refl, refl)

Reach-IsLaid_example :
    IsLaid picked
    × ((boot picked.prefs.stored).time ≡ picked.prefs.time)
    × ((boot picked.prefs.stored).data_theme ≡ picked.prefs.data_theme)
Reach-IsLaid_example = Reach-IsLaid [] true picked_run

options_run :
    map (λ (r : Radio). r.checked) (theme_options (codes "dark")) ≡ false ∷ false ∷ true ∷ []
unfolding theme_options
options_run = refl
