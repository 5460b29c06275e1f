-- ===== src/Panes/Tabs/Tests.antt =====
-- The tabs of a frame of two sources, and clicks on the footer.
use webshark.Prelude.{codes, ◌≡◌, refl, true, false, none, [], ◌∷◌}
use webshark.Panes.{Source}
use webshark.Panes.Tabs.{tabs, Spot, Click, footer_click}

abbrev source : Source
source = record { name = codes "Frame"; bytes = [] }

tabs_run :
    tabs (record {
      sources = source ∷ record source { name = [] } ∷ [];
      src = 1;
      mark = none;
      field = [];
      filter = [];
    })
    ≡ (codes "Frame", false) ∷ (codes "source 1", true) ∷ []
unfolding tabs
tabs_run = refl

footer_runs :
    (footer_click true Spot.on_unpick (codes "a" ∷ []) [] ≡ Click.clears)
    × (footer_click true Spot.elsewhere [] [] ≡ Click.asks)
    × (footer_click false Spot.elsewhere [] (codes "sip") ≡ Click.filters (codes "sip"))
unfolding footer_click
footer_runs = (refl, refl, refl)
