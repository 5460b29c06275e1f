-- ===== src/Panes/Tree/Tests.antt =====
-- Clicks in the tree of a frame with two protocols, one of which has a field with fields of its own.
use webshark.Prelude.{ℕ, Text, codes, ◌≡◌, ◌≢◌, refl, ap, false, [], ◌∷◌, map, length, arith}
use webshark.Panes.Tree.{
  Label, Nodes, Look, Elements, itself, beside, Tree, show_tree, toggle_at, seen,
}
use webshark.Panes.Tree.Keys.{Without, Apart, IsDistinct}
use webshark.Panes.Tree.Laws.{rows_of, Step, Reach, tree_seen}

abbrev label : Text → Label
label l = record { l = l; fn = []; g = false; s = [] }

abbrev nodes : Nodes
nodes = Nodes.node (label (codes "ip")) (Nodes.leaf (label (codes "ttl")) Nodes.done) (
    Nodes.node (label (codes "sip"))
      (Nodes.node (label (codes "from")) (Nodes.leaf (label (codes "tag")) Nodes.done) Nodes.done)
      Nodes.done)

abbrev before : Tree
before = record { nodes = Nodes.done; elements = Elements.done; opened = codes "from" ∷ [] }

abbrev clicked : Tree
clicked = toggle_at (beside itself) (show_tree nodes before)

longer : (a b : Text) → length a ≢ length b → a ≢ b
longer a b apart e = apart (ap length e)

nodes-IsDistinct : IsDistinct nodes
unfolding IsDistinct Without Apart
nodes-IsDistinct =
    let ip_sip = longer (codes "ip") (codes "sip") (λ e. omega (arith, e)) in
    let ip_from = longer (codes "ip") (codes "from") (λ e. omega (arith, e)) in
    let sip_from = longer (codes "sip") (codes "from") (λ e. omega (arith, e)) in
    (
      tt,
      (ip_sip, (ip_from, tt, tt), tt),
      tt,
      tt,
      ((sip_from, tt, tt), tt, (tt, tt, tt), (tt, tt, tt, tt, tt), tt),
    )

seen_run : map (λ (r : ℕ × Look). r.0) (seen 0 clicked.elements) ≡ 0 ∷ 0 ∷ 1 ∷ 2 ∷ []
unfolding seen toggle_at show_tree
seen_run = refl

tree_seen_example : seen 0 clicked.elements ≡ rows_of 0 clicked.opened clicked.nodes
tree_seen_example =
    tree_seen nodes before nodes-IsDistinct
      (Reach.next Reach.here (Step.toggles (beside itself) (show_tree nodes before)))
