-- ===== src/Lanes/Laid.antt =====
-- The lanes that are drawn, of src/web/app.js: `layout` with what it was last laid out for (`laid`),
-- `laneSlot` and `unlane`, and everything that moves the lanes under them. Slots that are hidden
-- are left out, and so is the class of the label that is dragged.
pub mod Laws
mod Tests
use webshark.Prelude.{
  ℕ, zero, suc, ◌+◌, ◌-◌, ◌/◌, Text, Bool, true, false, ◌&&◌, Option, none, some, List, [], ◌∷◌,
  ◌==◌, nat_eq, text_eq, if◌then◌else◌, is_empty, length, get, take, drop,
}
use webshark.Pages.{Row}
use webshark.Columns.{Name}
use webshark.Lanes.{Diagram, see_all, addresses, arrange, nodes, place, forget_nodes}
use webshark.Lanes.Geometry.{lane_width, lane_x, lanes_from, lanes_upto}

-- `laid`, the four numbers of its text
pub record Sig : Type 0 where
  pub n : ℕ
  pub width : ℕ
  pub from : ℕ
  pub upto : ℕ

abbrev pub same_sig : Sig → Sig → Bool
same_sig a b = a.n == b.n && (a.width == b.width && (a.from == b.from && a.upto == b.upto))

abbrev pub is_laid : Option Sig → Sig → Bool
is_laid none sig = false
is_laid (some laid) sig = same_sig laid sig

-- A slot on show: its address, where the label starts and how wide it is, and where the lifeline is.
pub record Lane : Type 0 where
  pub addr : Text
  pub left : ℕ
  pub width : ℕ
  pub life : ℕ

-- The diagram, `GUT`, `PHONE`, `TIME.col`, `laid`, the slots, and the title over the Time column.
pub record Band : Type 0 where
  pub diagram : Diagram
  pub gutter : ℕ
  pub phone : Bool
  pub time : Text
  pub laid : Option Sig
  pub lanes : List Lane
  pub title : Text

-- The loop of `layout`, from a lane on.
unfoldable pub lane_slots : ℕ → ℕ → ℕ → List Text → List Lane
unfolding lane_x
lane_slots gutter width i [] = []
lane_slots gutter width i (addr ∷ addrs) =
    record {
      addr = addr;
      left = lane_x gutter width i - width / 2;
      width = width;
      life = lane_x gutter width i;
    }
    ∷ lane_slots gutter width (suc i) addrs

abbrev pub slots_for : ℕ → Sig → List Text → List Lane
slots_for gutter sig addrs =
    lane_slots gutter sig.width sig.from (take (sig.upto - sig.from) (drop sig.from addrs))

-- The window: `list.clientWidth`, and how far it is scrolled.
unfoldable pub sig_of : ℕ → ℕ → Band → Sig
unfolding lane_width lanes_from lanes_upto
sig_of view scroll b =
    let n = length b.diagram.nodes in
    let width = lane_width b.phone b.diagram.nodes (view - b.gutter - 12) in
    record {
      n = n;
      width = width;
      from = lanes_from b.gutter width scroll;
      upto = lanes_upto b.gutter width n (scroll + view);
    }

unfoldable pub layout : ℕ → ℕ → Band → Band
unfolding sig_of lane_slots
layout view scroll b =
    let sig = sig_of view scroll b in
    if is_laid b.laid sig then b else record b {
      laid = some sig;
      lanes = slots_for b.gutter sig b.diagram.nodes;
      title = b.time;
    }

unfoldable pub unlane : Band → Band
unlane b = record b { laid = none; lanes = [] }

-- `nodes`: `arrange` forgets what was laid out if there is an order.
unfoldable pub fetch_nodes : (Name → Option ℕ) → List Row → Band → Band
unfolding nodes see_all addresses
fetch_nodes ix rows b = record b {
  diagram = nodes ix rows b.diagram;
  laid =
      if (see_all (addresses ix rows) b.diagram).1
      then (if is_empty b.diagram.order then b.laid else none)
      else b.laid;
}

-- `place`, which does nothing for an address that has no lane or stands there.
unfoldable pub place_lane : Text → ℕ → Band → Band
unfolding place
place_lane addr to b = elim (get b.diagram.node addr) [
  | none ↦ b
  | some at ↦ if at == to then b else record b { diagram = place addr to b.diagram; laid = none }
]

-- A drag that begins or ends.
unfoldable pub unlay : Band → Band
unlay b = record b { laid = none }

-- `rewind`
unfoldable pub rewind_lanes : Band → Band
unfolding unlane forget_nodes
rewind_lanes b = unlane (record b { diagram = forget_nodes b.diagram })

-- `retime`, `view`, and a window that becomes a phone's or no longer is.
unfoldable pub regutter : ℕ → Bool → Text → Band → Band
unfolding unlane
regutter gutter phone time b = unlane (record b { gutter = gutter; phone = phone; time = time })
