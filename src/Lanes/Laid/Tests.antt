-- ===== src/Lanes/Laid/Tests.antt =====
-- Two lanes laid out, exchanged by a drag, and laid out again.
use webshark.Prelude.{codes, ◌≡◌, refl, false, none, [], ◌∷◌, map, text_eq}
use webshark.Lanes.Laid.{Lane, Band, slots_for, sig_of, layout, place_lane}
use webshark.Lanes.Laid.Laws.{Step, Reach, lanes_laid}

abbrev band : Band
band = record {
  diagram = record {
    nodes = codes "10.0.0.1" ∷ codes "10.0.0.2" ∷ [];
    node = (codes "10.0.0.1", 0) ∷ (codes "10.0.0.2", 1) ∷ [];
    order = [];
  };
  gutter = 180;
  phone = false;
  time = codes "Time";
  laid = none;
  lanes = [];
  title = [];
}

abbrev shown : Band
shown = layout 1000 0 band

abbrev dragged : Band
dragged = place_lane (codes "10.0.0.1") 1 shown

drag_runs :
    (map (λ (l : Lane). l.addr) shown.lanes ≡ codes "10.0.0.1" ∷ codes "10.0.0.2" ∷ [])
    × (map (λ (l : Lane). l.life) shown.lanes ≡ 380 ∷ 780 ∷ [])
    × (map (λ (l : Lane). l.addr) (layout 1000 0 dragged).lanes
        ≡ codes "10.0.0.2" ∷ codes "10.0.0.1" ∷ [])
unfolding layout place_lane
drag_runs = (refl, refl, refl)

lanes_laid_example :
    ((layout 1000 0 dragged).lanes ≡ slots_for 180 (sig_of 1000 0 dragged) dragged.diagram.nodes)
    × ((layout 1000 0 dragged).title ≡ codes "Time")
unfolding place_lane layout
lanes_laid_example = lanes_laid 1000 0 {b = band} {c = dragged} refl (
    Reach.next (Reach.next Reach.here (Step.lays 1000 0 band))
      (Step.places (codes "10.0.0.1") 1 shown))
