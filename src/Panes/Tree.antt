-- ===== src/Panes/Tree.antt =====
-- The tree of a dissected frame, of src/web/app.js: its elements as `build` makes them, the nodes
-- that are open (`S.open`), and what `toggle` does to both.
pub mod Clicks
pub mod Keys
pub mod Laws
mod Tests
use webshark.Prelude.{
  ℕ, zero, suc, Text, codes, Bool, true, false, not, Option, none, some, List, [], ◌∷◌, ◌++◌, ◌==◌,
  text_eq, if◌then◌else◌, is_empty, contains, add, delete, leb,
}
use webshark.Columns.Severity.{rank_of, marked}

-- What `build` reads of a node: its label, its field, whether it is generated, and its severity.
pub record Label : Type 0 where
  pub l : Text
  pub fn : Text
  pub g : Bool
  pub s : Text

-- A list of nodes, from its first on: a node without `n.n`, or one with it.
pub data Nodes : Type 0 where
  done : Nodes
  leaf : Label → Nodes → Nodes
  node : Label → Nodes → Nodes → Nodes

-- What the label of an element shows: the twisty, the text, the class `g`, and the severity.
pub record Look : Type 0 where
  pub twisty : Text
  pub text : Text
  pub generated : Bool
  pub sev : Option Text

-- The elements of a list of nodes: one of a node with `n.n` has that node, and the `hidden` and the
-- elements of its kids, of which there are none until it is first expanded.
pub data Elements : Type 0 where
  done : Elements
  leaf : Look → Elements → Elements
  node : Label → Nodes → Look → Bool → Elements → Elements → Elements

-- `key`
abbrev pub key : Label → Text
key n = if is_empty n.fn then n.l else n.fn

abbrev pub twisty_of : Bool → Text
twisty_of true = codes "▾"
twisty_of false = codes "▸"

unfoldable pub look : Label → Text → Look
look n twisty = record {
  twisty = twisty;
  text = n.l;
  generated = n.g;
  sev = if leb marked (rank_of n.s) then some n.s else none;
}

unfoldable pub build : List Text → Nodes → Elements
unfolding look
build opened Nodes.done = Elements.done
build opened (Nodes.leaf n rest) = Elements.leaf (look n []) (build opened rest)
build opened (Nodes.node n kids rest) =
    let shown = contains opened (key n) in
    Elements.node n kids (look n (twisty_of shown)) (not shown)
      (if shown then build opened kids else Elements.done) (build opened rest)

-- Where an element stands: the first of a list, one after it, or one among its kids.
pub data Place : Type 0 where
  itself : Place
  beside inside : Place → Place

abbrev pub has_child : Elements → Bool
has_child Elements.done = false
has_child (Elements.leaf k rest) = true
has_child (Elements.node n kids k hidden els rest) = true

-- The kids of an element that is unfolded.
abbrev pub unfolded : List Text → Nodes → Elements → Elements
unfolded opened kids els = if has_child els then els else build opened kids

-- `toggle`, of the element at a path.
unfoldable pub toggle_node : List Text → Place → Elements → Elements × List Text
unfolding build look
toggle_node opened itself Elements.done = (Elements.done, opened)
toggle_node opened (beside p) Elements.done = (Elements.done, opened)
toggle_node opened (inside p) Elements.done = (Elements.done, opened)
toggle_node opened itself (Elements.leaf k rest) = (Elements.leaf k rest, opened)
toggle_node opened (inside p) (Elements.leaf k rest) = (Elements.leaf k rest, opened)
toggle_node opened (beside p) (Elements.leaf k rest) =
    let (rest', opened') = toggle_node opened p rest in (Elements.leaf k rest', opened')
toggle_node opened itself (Elements.node n kids k true els rest) =
    let opened' = add (key n) opened in
    (
      Elements.node n kids (record k { twisty = twisty_of true }) false (unfolded opened' kids els)
          rest,
      opened',
    )
toggle_node opened itself (Elements.node n kids k false els rest) = (
  Elements.node n kids (record k { twisty = twisty_of false }) true els rest,
  delete (key n) opened,
)
toggle_node opened (beside p) (Elements.node n kids k hidden els rest) =
    let (rest', opened') = toggle_node opened p rest in
    (Elements.node n kids k hidden els rest', opened')
toggle_node opened (inside p) (Elements.node n kids k hidden els rest) =
    let (els', opened') = toggle_node opened p els in
    (Elements.node n kids k hidden els' rest, opened')

-- `S.open` and the tree, with the nodes that it was built of.
pub record Tree : Type 0 where
  pub nodes : Nodes
  pub elements : Elements
  pub opened : List Text

unfoldable pub show_tree : Nodes → Tree → Tree
unfolding build
show_tree nodes t = record { nodes = nodes; elements = build t.opened nodes; opened = t.opened }

unfoldable pub toggle_at : Place → Tree → Tree
unfolding toggle_node
toggle_at p t =
    let (elements, opened) = toggle_node t.opened p t.elements in
    record { nodes = t.nodes; elements = elements; opened = opened }

-- What is on screen: the labels of the elements, top down, and how deep each stands.
unfoldable pub seen : ℕ → Elements → List (ℕ × Look)
seen depth Elements.done = []
seen depth (Elements.leaf k rest) = (depth, k) ∷ seen depth rest
seen depth (Elements.node n kids k hidden els rest) =
    (depth, k) ∷ (if hidden then [] else seen (suc depth) els) ++ seen depth rest
