-- ===== src/Panes/Tree/Laws.antt =====
-- What the tree shows, after any frames and clicks, against a reference that knows only the nodes and
-- the keys that are open.
use mathlib.Core.Bool.{true≢false}
use webshark.Prelude.{
  ℕ, suc, Text, ◌≡◌, refl, sym, ap, ap₂, subst, ◌∙◌, inl, inr, true, false, not, List, [], ◌∷◌,
  ◌++◌, text_eq, if◌then◌else◌, contains, Bool-cases,
}
use webshark.Panes.Tree.{
  Nodes, Look, Elements, key, twisty_of, look, Place, toggle_node, Tree, show_tree, toggle_at, seen,
}
use webshark.Panes.Tree.Keys.{IsDistinct}
use webshark.Panes.Tree.Clicks.{Agrees, build-Agrees, Outcome, toggle_node-Outcome}

-- The reference: a node, and below it its kids if its key is open.
pub rows_of : ℕ → List Text → Nodes → List (ℕ × Look)
rows_of depth opened Nodes.done = []
rows_of depth opened (Nodes.leaf n rest) = (depth, look n []) ∷ rows_of depth opened rest
rows_of depth opened (Nodes.node n kids rest) =
    (depth, look n (twisty_of (contains opened (key n))))
      ∷ (if contains opened (key n) then rows_of (suc depth) opened kids else [])
    ++ rows_of depth opened rest

Agrees-seen :
    (depth : ℕ) (opened : List Text) (e : Elements) (f : Nodes)
    → Agrees opened e f
    → seen depth e ≡ rows_of depth opened f
unfolding seen rows_of Agrees
Agrees-seen depth opened Elements.done Nodes.done a = refl
Agrees-seen depth opened Elements.done (Nodes.leaf n f) a = absurd a
Agrees-seen depth opened Elements.done (Nodes.node n kids f) a = absurd a
Agrees-seen depth opened (Elements.leaf k e) Nodes.done a = absurd a
Agrees-seen depth opened (Elements.leaf k e) (Nodes.leaf n f) (i, a) =
    ap₂ (λ (l : Look) (rows : List (ℕ × Look)). (depth, l) ∷ rows) i
      (Agrees-seen depth opened e f a)
Agrees-seen depth opened (Elements.leaf k e) (Nodes.node n kids f) a = absurd a
Agrees-seen depth opened (Elements.node m own k hidden els e) Nodes.done a = absurd a
Agrees-seen depth opened (Elements.node m own k hidden els e) (Nodes.leaf n f) a = absurd a
Agrees-seen depth opened (Elements.node m own k hidden els e) (Nodes.node n kids f)
      (i, o, t, h, inner, a) =
    let rest = Agrees-seen depth opened e f a in
    elim (Bool-cases (contains opened (key n))) [
      | inl shown ↦
          let open_now : hidden ≡ false = h ∙ ap not shown in
          elim inner [
            | inl (unbuilt, hid) ↦ absurd (true≢false (sym hid ∙ open_now))
            | inr built ↦
                rw (open_now, t, rest, shown, Agrees-seen (suc depth) opened els kids built) refl
          ]
      | inr folded ↦ let shut : hidden ≡ true = h ∙ ap not folded in rw (shut, t, rest, folded) refl
    ]

-- A frame is shown, or an element toggled.
pub data Step : Tree → Tree → Type 0 where
  shows : (nodes : Nodes) (t : Tree) → IsDistinct nodes → Step t (show_tree nodes t)
  toggles : (p : Place) (t : Tree) → Step t (toggle_at p t)

pub data Reach (t : Tree) : Tree → Type 0 where
  here : Reach t t
  next : {u v : Tree} → Reach t u → Step u v → Reach t v

abbrev InStep : Tree → Type 0
InStep t = IsDistinct t.nodes × Agrees t.opened t.elements t.nodes

Step-InStep : {t u : Tree} → Step t u → InStep t → InStep u
unfolding show_tree toggle_at Outcome
Step-InStep (Step.shows nodes t d) (old, a) = (d, build-Agrees t.opened nodes)
Step-InStep (Step.toggles p t) (d, a) = (
  d,
  elim (toggle_node-Outcome t.opened p t.elements t.nodes d a) [
    | inl (same, still) ↦
        subst (λ (x : Elements). Agrees (toggle_node t.opened p t.elements).1 x t.nodes) (sym same)
          (subst (λ (o : List Text). Agrees o t.elements t.nodes) (sym still) a)
    | inr c ↦ c.agrees
  ],
)

Reach-InStep : {t u : Tree} → Reach t u → InStep t → InStep u
Reach-InStep Reach.here w = w
Reach-InStep (Reach.next run step) w = Step-InStep step (Reach-InStep run w)

-- Where no two nodes of a frame that can be expanded have one key, the tree shows, after any frames
-- and any clicks on its nodes, the nodes of the frame last shown, in their order and each at its
-- depth, the kids of a node exactly if the key of that node is open.
pub tree_seen :
    (nodes : Nodes) (t : Tree) {u : Tree}
    → IsDistinct nodes
    → Reach (show_tree nodes t) u
    → seen 0 u.elements ≡ rows_of 0 u.opened u.nodes
unfolding show_tree
tree_seen nodes t {u} d run =
    let (distinct, a) = Reach-InStep run (d, build-Agrees t.opened nodes) in
    Agrees-seen 0 u.opened u.elements u.nodes a
