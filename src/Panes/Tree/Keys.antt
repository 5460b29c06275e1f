-- ===== src/Panes/Tree/Keys.antt =====
-- The keys of the nodes of a frame, and a set of open keys of which one is added or taken away.
use mathlib.Core.Bool.{or-true, and-false}
use webshark.Prelude.{
  Text, ◌≡◌, ◌≢◌, refl, sym, ◌∙◌, inl, inr, Bool, true, false, ◌&&◌, List, ◌==◌, text_eq, contains,
  add, delete, contains-add, contains-delete, or_false, Bool-cases,
}
use webshark.Panes.Tree.{Label, Nodes, key}

-- No node that can be expanded has the key, ...
unfoldable pub Without : Text → Nodes → Type 0
Without k Nodes.done = Unit
Without k (Nodes.leaf n rest) = Without k rest
Without k (Nodes.node n kids rest) = (k ≢ key n) × Without k kids × Without k rest

-- ... or one of those of the other list, ...
unfoldable pub Apart : Nodes → Nodes → Type 0
unfolding Without
Apart Nodes.done g = Unit
Apart (Nodes.leaf n rest) g = Apart rest g
Apart (Nodes.node n kids rest) g = Without (key n) g × Apart kids g × Apart rest g

-- ... and no two of them have one key.
unfoldable pub IsDistinct : Nodes → Type 0
unfolding Without Apart
IsDistinct Nodes.done = Unit
IsDistinct (Nodes.leaf n rest) = IsDistinct rest
IsDistinct (Nodes.node n kids rest) =
    Without (key n) kids
    × Without (key n) rest
    × Apart kids rest
    × IsDistinct kids
    × IsDistinct rest

Apart-done : (g : Nodes) → Apart g Nodes.done
unfolding Apart Without
Apart-done Nodes.done = tt
Apart-done (Nodes.leaf n rest) = Apart-done rest
Apart-done (Nodes.node n kids rest) = (tt, Apart-done kids, Apart-done rest)

Apart-leaf : (g : Nodes) (m : Label) (f : Nodes) → Apart g f → Apart g (Nodes.leaf m f)
unfolding Apart Without
Apart-leaf Nodes.done m f a = tt
Apart-leaf (Nodes.leaf n rest) m f a = Apart-leaf rest m f a
Apart-leaf (Nodes.node n kids rest) m f (w, a, b) =
    (w, Apart-leaf kids m f a, Apart-leaf rest m f b)

Apart-node :
    (g : Nodes) (m : Label) (e f : Nodes)
    → Without (key m) g
    → Apart g e
    → Apart g f
    → Apart g (Nodes.node m e f)
unfolding Apart Without
Apart-node Nodes.done m e f w a b = tt
Apart-node (Nodes.leaf n rest) m e f w a b = Apart-node rest m e f w a b
Apart-node (Nodes.node n kids rest) m e f (i, wk, wr) (we, ak, ar) (wf, bk, br) =
    ((λ same. i (sym same), we, wf), Apart-node kids m e f wk ak bk, Apart-node rest m e f wr ar br)

pub Apart-sym : (f g : Nodes) → Apart f g → Apart g f
unfolding Apart
Apart-sym Nodes.done g a = Apart-done g
Apart-sym (Nodes.leaf n rest) g a = Apart-leaf g n rest (Apart-sym rest g a)
Apart-sym (Nodes.node n kids rest) g (w, a, b) =
    Apart-node g n kids rest w (Apart-sym kids g a) (Apart-sym rest g b)

unfoldable pub SameBut : Text → List Text → List Text → Type 0
SameBut k opened after = (j : Text) → k ≢ j → contains after j ≡ contains opened j

pub SameBut-add : (k : Text) (opened : List Text) → SameBut k opened (add k opened)
unfolding SameBut
SameBut-add k opened j apart = contains-add k opened j ∙ elim (Bool-cases (k == j)) [
  | inl same ↦ absurd (apart ((text_eq.decides k j).0 same))
  | inr other ↦ rw other (or_false (contains opened j))
]

and_true : (a : Bool) → (a && true) ≡ a
and_true true = refl
and_true false = refl

pub SameBut-delete : (k : Text) (opened : List Text) → SameBut k opened (delete k opened)
unfolding SameBut
SameBut-delete k opened j apart = contains-delete k opened j ∙ elim (Bool-cases (k == j)) [
  | inl same ↦ absurd (apart ((text_eq.decides k j).0 same))
  | inr other ↦ rw other (and_true (contains opened j))
]

pub contains-add_self : (k : Text) (opened : List Text) → contains (add k opened) k ≡ true
contains-add_self k opened =
    contains-add k opened k ∙ rw ((text_eq.decides k k).1 refl) (or-true (contains opened k))

pub contains-delete_self : (k : Text) (opened : List Text) → contains (delete k opened) k ≡ false
contains-delete_self k opened =
    contains-delete k opened k ∙ rw ((text_eq.decides k k).1 refl) (and-false (contains opened k))
