-- ===== src/Panes/Sources.antt =====
-- The byte source on screen, whatever is picked, is one that the frame has.
use webshark.Prelude.{
  ℕ, ◌<◌, Text, ◌≡◌, Bool, true, false, not, ◌&&◌, some, List, arith, ◌==◌, nat_eq, if_case, ltb,
  ltb→lt, length, get_elem?, get_elem?-some,
}
use webshark.Panes.{Node, Source, Detail, source_of, show, pick, choose_source}

-- A frame is shown, a field of it picked in the tree, or a tab clicked.
pub data Step : Detail → Detail → Type 0 where
  shows : (bytes : Text) (ds : List Source) (d : Detail) → Step d (show bytes ds d)
  picks : (n : Node) (d : Detail) → Step d (pick n d)
  chooses : (i : ℕ) (d : Detail) → Step d (choose_source i d)

pub data Reach (d : Detail) : Detail → Type 0 where
  here : Reach d d
  next : {e f : Detail} → Reach d e → Step e f → Reach d f

and_right : (a b : Bool) → (a && b) ≡ true → b ≡ true
and_right true b h = h
and_right false b h = absurd (cc)

Step-lt : {d e : Detail} → Step d e → d.src < length d.sources → e.src < length e.sources
unfolding show pick choose_source
Step-lt (shows bytes ds d) h = omega arith
Step-lt (picks n d) h =
    if_case (λ i. i < length d.sources)
      (not (source_of n.ds == d.src) && ltb (source_of n.ds) (length d.sources))
      (λ e. ltb→lt (source_of n.ds) (length d.sources) (and_right _ _ e)) (λ e. h)
Step-lt (chooses i d) h =
    if_case (λ j. j < length d.sources) (ltb i (length d.sources)) (ltb→lt i (length d.sources))
      (λ e. h)

Reach-lt : {d e : Detail} → Reach d e → d.src < length d.sources → e.src < length e.sources
Reach-lt here h = h
Reach-lt (next r st) h = Step-lt st (Reach-lt r h)

-- Once a frame has been shown there is a source under the index on screen, after any picks, tabs
-- and further frames.
pub Reach-source :
    (bytes : Text) (ds : List Source) (d : Detail) {e : Detail}
    → Reach (show bytes ds d) e
    → (source : Source) × (get_elem? e.sources e.src ≡ some source)
unfolding show
Reach-source bytes ds d {e} r = get_elem?-some e.sources e.src (Reach-lt r (omega arith))
