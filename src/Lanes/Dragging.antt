-- ===== src/Lanes/Dragging.antt =====
-- Dragging a lane's label to another lane, of src/web/app.js: the pointer going down on it, moving
-- (`dragging`), held at an edge of the list (`scrolling`), and up again (`dropped`).
pub mod Laws
mod Tests
use webshark.Prelude.{
  ℕ, zero, suc, ◌+◌, ◌-◌, ◌≤◌, ◌<◌, min, max, Text, ◌≡◌, refl, ◌⊎◌, inl, inr, Bool, true, false,
  not, ◌&&◌, ◌||◌, Option, none, some, List, [], ◌∷◌, arith, ◌==◌, nat_eq, if◌then◌else◌, if_case,
  Option-cases, ltb, ltb→lt, length, get, get_elem?,
}
use mathlib.Core.List.{Perm, Mem}
use webshark.Lanes.{Diagram, place}
use webshark.Lanes.Geometry.{lane_at}
use webshark.Lanes.Order.{IsIndexed, place_lem}

pub data Edge : Type 0 where
  still backward forward : Edge

-- `drag`
pub record Drag : Type 0 where
  pub addr : Text
  pub at : ℕ
  pub from : ℕ
  pub on : Bool
  pub edge : Edge

-- The diagram, `list.scrollLeft`, `drag` with none for its null, and whether `edging` is set.
pub record Canvas : Type 0 where
  pub diagram : Diagram
  pub scroll : ℕ
  pub drag : Option Drag
  pub edging : Bool

-- Where the list is: its edges in the window, `GUT`, `S.nodeW`, and how far it scrolls.
pub record Bounds : Type 0 where
  pub left : ℕ
  pub right : ℕ
  pub gutter : ℕ
  pub width : ℕ
  pub furthest : ℕ

-- `lane(cx)`
unfoldable pub lane_under : Bounds → ℕ → Canvas → ℕ
unfolding lane_at
lane_under box x pg =
    lane_at box.gutter box.width (length pg.diagram.nodes) (x - box.left + pg.scroll)

unfoldable pub pointer_down : Text → ℕ → Canvas → Canvas
pointer_down addr x pg = record pg {
  drag = some (record { addr = addr; at = x; from = x; on = false; edge = still });
}

-- Less than four pixels away.
abbrev pub is_slop : ℕ → ℕ → Bool
is_slop a b = ltb (max a b - min a b) 4

abbrev pub edge_at : Bounds → ℕ → Edge
edge_at box x =
    if ltb box.right (x + 40)
    then forward
    else if ltb x (box.left + box.gutter)
    then backward
    else still

abbrev pub is_still : Edge → Bool
is_still still = true
is_still _ = false

abbrev pub put_under : Bounds → Text → ℕ → Canvas → Canvas
put_under box addr x pg = record pg { diagram = place addr (lane_under box x pg) pg.diagram }

-- A drag that is one: the column goes to the lane under the pointer.
abbrev pub begun_at : Bounds → ℕ → Drag → Canvas → Canvas
begun_at box x d pg = record (put_under box d.addr x pg) {
  drag = some (record d { at = x; on = true; edge = edge_at box x });
  edging = pg.edging || not (is_still (edge_at box x));
}

abbrev pub dragged : Bounds → ℕ → Drag → Canvas → Canvas
dragged box x d pg =
    if not d.on && is_slop x d.from
    then record pg { drag = some (record d { at = x }) }
    else begun_at box x d pg

abbrev pub drag_over : Bounds → ℕ → Option Drag → Canvas → Canvas
drag_over box x none pg = pg
drag_over box x (some d) pg = dragged box x d pg

unfoldable pub dragging : Bounds → ℕ → Canvas → Canvas
unfolding lane_under place
dragging box x pg = drag_over box x pg.drag pg

abbrev pub stepped : Bounds → Edge → ℕ → ℕ
stepped box still left = left
stepped box backward left = left - 14
stepped box forward left = min box.furthest (left + 14)

abbrev pub scrolled : Bounds → Option Drag → Canvas → Canvas
scrolled box none pg = record pg { edging = false }
scrolled box (some d) pg =
    let on = record pg { scroll = stepped box d.edge pg.scroll; edging = true } in
    if is_still d.edge
    then record pg { edging = false }
    else if stepped box d.edge pg.scroll == pg.scroll
    then on
    else put_under box d.addr d.at on

-- One call of `scrolling`, where one is due.
unfoldable pub scrolling : Bounds → Canvas → Canvas
unfolding lane_under place
scrolling box pg = if pg.edging then scrolled box pg.drag pg else pg

unfoldable pub dropped : Canvas → Canvas
dropped pg = record pg { drag = none; edging = false }
