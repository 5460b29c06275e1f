-- ===== src/Lanes/Dragging/Tests.antt =====
-- A drag of the first of three lanes to the last, and a click on it.
use webshark.Prelude.{
  ℕ, codes, ◌≡◌, refl, false, Option, none, some, List, [], ◌∷◌, get, nat_eq, text_eq,
}
use mathlib.Core.List.{Pairwise}
use mathlib.Core.List.Perm
use webshark.Pages.{Row}
use webshark.Columns.{Name, src, dst, cell}
use webshark.Lanes.{Diagram, nodes, place}
use webshark.Lanes.Geometry.{lane_at}
use webshark.Lanes.Order.{IsIndexed, nodes-IsIndexed}
use webshark.Lanes.Dragging.{
  Canvas, Bounds, Drag, still, lane_under, pointer_down, dragging, scrolling, dropped,
}
use webshark.Lanes.Dragging.Laws.{
  Arranges, presses, moves, scrolls, drops, here, next, Reach-Arranges,
}

abbrev ix : Name → Option ℕ
ix src = some 0
ix dst = some 1
ix _ = none

abbrev call : List Row
call =
    record { n = 1; c = codes "a" ∷ codes "b" ∷ [] }
    ∷ record { n = 2; c = codes "b" ∷ codes "c" ∷ [] }
    ∷ []

abbrev empty : Diagram
empty = record { nodes = []; node = []; order = [] }

abbrev page : Canvas
page = record { diagram = nodes ix call empty; scroll = 0; drag = none; edging = false }

page-IsIndexed : IsIndexed page.diagram
page-IsIndexed = nodes-IsIndexed ix call empty (record {
  lane_of = λ a i e. absurd (cc);
  index_of = λ a i e. absurd (cc);
  distinct = Pairwise.nil;
})

abbrev box : Bounds
box = record { left = 0; right = 600; gutter = 100; width = 160; furthest = 400 }

abbrev pulled : Canvas
pulled = dragging box 590 (pointer_down (codes "a") 180 page)

drag_runs :
    (pulled.diagram.nodes ≡ codes "b" ∷ codes "c" ∷ codes "a" ∷ [])
    × ((scrolling box pulled).scroll ≡ 14)
unfolding dragging pointer_down nodes cell lane_under lane_at place scrolling
drag_runs = (refl, refl)

Reach-Arranges_example : Arranges page.diagram.nodes (dropped (scrolling box pulled)).diagram
Reach-Arranges_example =
    Reach-Arranges page.diagram.nodes box {p = page} {q = dropped (scrolling box pulled)}
      (next (next (next (next here (presses (codes "a") 180 page)) (moves 590 _)) (scrolls pulled))
        (drops (scrolling box pulled)))
      (record { indexed = page-IsIndexed; same = Perm.refl page.diagram.nodes })

abbrev held : Drag
held = record { addr = codes "a"; at = 180; from = 180; on = false; edge = still }

first_runs : get page.diagram.node (codes "a") ≡ some 0
unfolding nodes cell
first_runs = refl
