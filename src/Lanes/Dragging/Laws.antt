-- ===== src/Lanes/Dragging/Laws.antt =====
-- What a drag does to the lanes, however the pointer moves.
use mathlib.Core.List.Perm
use webshark.Prelude.{
  text_eq, ℕ, ◌<◌, Text, ◌≡◌, refl, ap, ◌∙◌, ◌⊎◌, inl, inr, Bool, true, false, not, ◌&&◌, Option,
  none, some, List, [], ◌∷◌, arith, ◌==◌, nat_eq, if◌then◌else◌, if_case, Option-cases, length, get,
  get_elem?, lt-length_of_get_elem?,
}
use mathlib.Core.List.{Perm}
use webshark.Lanes.{Diagram, place}
use webshark.Lanes.Geometry.{lane_at}
use webshark.Lanes.Order.{IsIndexed, place_lem}
use webshark.Lanes.Dragging.{
  drag_over, begun_at, is_still, still, Drag, Canvas, Bounds, Edge, lane_under, pointer_down,
  is_slop, put_under, dragging, stepped, scrolled, scrolling, dropped,
}

-- The lanes are in agreement with their table, and they are these.
pub record Arranges (nodes : List Text) (d : Diagram) : Type 0 where
  pub indexed : IsIndexed d
  pub same : Perm d.nodes nodes

lane_under-lt :
    (box : Bounds) (x : ℕ) (pg : Canvas)
    → 0 < length pg.diagram.nodes
    → lane_under box x pg < length pg.diagram.nodes
unfolding lane_under lane_at
lane_under-lt box x pg h = omega arith

place-Arranges :
    (nodes : List Text) (addr : Text) (to : ℕ) (d : Diagram)
    → (0 < length d.nodes → to < length d.nodes)
    → Arranges nodes d
    → Arranges nodes (place addr to d)
unfolding place
place-Arranges nodes addr to d inside h = elim (Option-cases (get d.node addr)) [
  | inl away ↦ rw (place, away) h
  | inr (at, e) ↦
      let lt = lt-length_of_get_elem? d.nodes at addr (h.indexed.lane_of addr at e) in
      let placed = place_lem addr at to d h.indexed e (inside (omega (arith, lt))) in
      record { indexed = placed.0; same = Perm.trans placed.1 h.same }
]

put_under-Arranges :
    (nodes : List Text) (box : Bounds) (addr : Text) (x : ℕ) (pg : Canvas)
    → Arranges nodes pg.diagram
    → Arranges nodes (put_under box addr x pg).diagram
put_under-Arranges nodes box addr x pg h =
    place-Arranges nodes addr (lane_under box x pg) pg.diagram (lane_under-lt box x pg) h

drag_over-Arranges :
    (nodes : List Text) (box : Bounds) (x : ℕ) (drag : Option Drag) (pg : Canvas)
    → Arranges nodes pg.diagram
    → Arranges nodes (drag_over box x drag pg).diagram
drag_over-Arranges nodes box x none pg h = h
drag_over-Arranges nodes box x (some d) pg h =
    if_case (λ (p : Canvas). Arranges nodes p.diagram) (not d.on && is_slop x d.from) (λ slop. h)
      (λ far. put_under-Arranges nodes box d.addr x pg h)

scrolled-Arranges :
    (nodes : List Text) (box : Bounds) (drag : Option Drag) (pg : Canvas)
    → Arranges nodes pg.diagram
    → Arranges nodes (scrolled box drag pg).diagram
scrolled-Arranges nodes box none pg h = h
scrolled-Arranges nodes box (some d) pg h =
    let Kept = (λ (p : Canvas). Arranges nodes p.diagram) in
    if_case Kept (is_still d.edge) (λ at_rest. h)
      (λ moving.
        if_case Kept (stepped box d.edge pg.scroll == pg.scroll) (λ stuck. h)
          (λ free. put_under-Arranges nodes box d.addr d.at _ h))

-- What a pointer and the frame callback do to the page.
pub data Step (box : Bounds) : Canvas → Canvas → Type 0 where
  presses : (addr : Text) (x : ℕ) (pg : Canvas) → Step box pg (pointer_down addr x pg)
  moves : (x : ℕ) (pg : Canvas) → Step box pg (dragging box x pg)
  scrolls : (pg : Canvas) → Step box pg (scrolling box pg)
  drops : (pg : Canvas) → Step box pg (dropped pg)

pub data Reach (box : Bounds) (pg : Canvas) : Canvas → Type 0 where
  here : Reach box pg pg
  next : {p q : Canvas} → Reach box pg p → Step box p q → Reach box pg q

Step-Arranges :
    (nodes : List Text) (box : Bounds) {p q : Canvas}
    → Step box p q
    → Arranges nodes p.diagram
    → Arranges nodes q.diagram
unfolding pointer_down dragging scrolling dropped
Step-Arranges nodes box (presses addr x pg) h = h
Step-Arranges nodes box (moves x pg) h = drag_over-Arranges nodes box x pg.drag pg h
Step-Arranges nodes box (scrolls pg) h =
    if_case (λ (p : Canvas). Arranges nodes p.diagram) pg.edging
      (λ due. scrolled-Arranges nodes box pg.drag pg h) (λ idle. h)
Step-Arranges nodes box (drops pg) h = h

-- However a pointer is pressed, moved, held at an edge and let go, no column is lost or doubled,
-- and lanes that are in agreement with their table stay so.
pub Reach-Arranges :
    (nodes : List Text) (box : Bounds) {p q : Canvas}
    → Reach box p q
    → Arranges nodes p.diagram
    → Arranges nodes q.diagram
Reach-Arranges nodes box here h = h
Reach-Arranges nodes box (next r st) h = Step-Arranges nodes box st (Reach-Arranges nodes box r h)

past_slop : (on slop : Bool) → (on ≡ true) ⊎ (slop ≡ false) → (not on && slop) ≡ false
past_slop true slop h = refl
past_slop false slop (inl e) = absurd (cc)
past_slop false slop (inr e) = e

-- A drag that has begun keeps its column under the pointer.
pub dragging_lem :
    (box : Bounds) (x at : ℕ) (d : Drag) (pg : Canvas)
    → IsIndexed pg.diagram
    → pg.drag ≡ some d
    → get pg.diagram.node d.addr ≡ some at
    → (d.on ≡ true) ⊎ (is_slop x d.from ≡ false)
    → get_elem? (dragging box x pg).diagram.nodes (lane_under box x pg) ≡ some d.addr
unfolding dragging
dragging_lem box x at d pg indexed held known begun =
    let inside =
      lt-length_of_get_elem? pg.diagram.nodes at d.addr (indexed.lane_of d.addr at known) in
    ap (λ o. get_elem? (drag_over box x o pg).diagram.nodes (lane_under box x pg)) held
    ∙ ap (λ (p : Canvas). get_elem? p.diagram.nodes (lane_under box x pg))
        (ap
          (λ b. if b then record pg { drag = some (record d { at = x }) } else begun_at box x d pg)
          (past_slop d.on (is_slop x d.from) begun))
    ∙ (place_lem d.addr at (lane_under box x pg) pg.diagram indexed known
        (lane_under-lt box x pg (omega (arith, inside)))).2

-- The pointer's places in turn.
unfoldable pub drag_all : Bounds → List ℕ → Canvas → Canvas
unfolding dragging
drag_all box [] pg = pg
drag_all box (x ∷ xs) pg = drag_all box xs (dragging box x pg)

abbrev pub AllSlop : ℕ → List ℕ → Type 0
AllSlop from [] = Unit
AllSlop from (x ∷ xs) = (is_slop x from ≡ true) × AllSlop from xs

drag_all_slop :
    (box : Bounds) (xs : List ℕ) (diagram : Diagram) (scroll at from : ℕ) (addr : Text)
    (edge : Edge) (edging : Bool)
    → AllSlop from xs
    → (drag_all box xs (record {
      diagram = diagram;
      scroll = scroll;
      drag = some (record { addr = addr; at = at; from = from; on = false; edge = edge });
      edging = edging;
    })).diagram
      ≡ diagram
unfolding drag_all dragging
drag_all_slop box [] diagram scroll at from addr edge edging h = refl
drag_all_slop box (x ∷ xs) diagram scroll at from addr edge edging (near, h) =
    rw (drag_all, dragging, near) (drag_all_slop box xs diagram scroll x from addr edge edging h)

-- A click that wobbles by less than four pixels leaves the diagram, and its order, as they were.
pub click_still :
    (box : Bounds) (addr : Text) (x : ℕ) (xs : List ℕ) (pg : Canvas)
    → AllSlop x xs
    → (dropped (drag_all box xs (pointer_down addr x pg))).diagram ≡ pg.diagram
unfolding pointer_down dropped
click_still box addr x xs pg h =
    drag_all_slop box xs pg.diagram pg.scroll x x addr still pg.edging h
