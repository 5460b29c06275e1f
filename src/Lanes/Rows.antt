-- ===== src/Lanes/Rows.antt =====
-- The lanes that a page of rows brings, and the order they are put in.
use mathlib.Core.List.{Mem, Mem-prop, not-mem-nil, mem-cons, mem-cons_self, mem-append}
use mathlib.Core.List.Perm
use mathlib.Core.Logic.Or
use webshark.Prelude.{
  is_empty, is_none, ℕ, Text, ◌≡◌, ◌≢◌, refl, inl, inr, false, not, ◌||◌, Option, List, [], ◌∷◌,
  arith, nat_eq, text_eq, get_elem?-mem, get, IsSortedBy, sort_by-IsSortedBy, leb, Bool-cases,
  Option-cases,
}
use webshark.Pages.{Row}
use webshark.Columns.{Name}
use webshark.Lanes.{Diagram, renumber, see, see_all, addresses, rank, arrange, nodes}
use webshark.Lanes.Order.{IsIndexed, see-IsIndexed, arrange-perm}

is_empty_ne {ℓ} : {A : Type ℓ} (l : List A) → l ≢ [] → is_empty l ≡ false
is_empty_ne [] h = absurd (h refl)
is_empty_ne (x ∷ l) h = refl

mem-see_self : (a : Text) (d : Diagram) → IsIndexed d → a ≢ [] → Mem a (see a d).0.nodes
unfolding see
mem-see_self a d v text = elim (Option-cases (get d.node a)) [
  | inl fresh ↦ rw (fresh, is_empty_ne a text, see) (mem-append.1 (Or.inr mem-cons_self))
  | inr (i, old) ↦ rw (old, is_empty_ne a text, see) (get_elem?-mem d.nodes i a (v.lane_of a i old))
]

mem-see : (a b : Text) (d : Diagram) → Mem a d.nodes → Mem a (see b d).0.nodes
unfolding see
mem-see a b d m = elim (Bool-cases (is_empty b || not (is_none (get d.node b)))) [
  | inl kept ↦ rw (kept, see) m
  | inr new ↦ rw (new, see) (mem-append.1 (Or.inl m))
]

mem-see_all :
    (a : Text) (addrs : List Text) (d : Diagram) → Mem a d.nodes → Mem a (see_all addrs d).0.nodes
unfolding see_all
mem-see_all a [] d m = m
mem-see_all a (b ∷ addrs) d m = mem-see_all a addrs (see b d).0 (mem-see a b d m)

see_all-mem :
    (a : Text) (addrs : List Text) (d : Diagram)
    → IsIndexed d
    → a ≢ []
    → Mem a addrs
    → Mem a (see_all addrs d).0.nodes
unfolding see_all
see_all-mem a [] d v text m = absurd (not-mem-nil m)
see_all-mem a (b ∷ addrs) d v text m =
    Or.elim Mem-prop (mem-cons.0 m)
      (λ same. mem-see_all a addrs (see b d).0 (rw (← same) (mem-see_self a d v text)))
      (see_all-mem a addrs (see b d).0 (see-IsIndexed b v) text)

-- Every address that a row of the page has at either end gets a lane of the diagram.
pub nodes-mem :
    (ix : Name → Option ℕ) (rows : List Row) (d : Diagram) (a : Text)
    → IsIndexed d
    → a ≢ []
    → Mem a (addresses ix rows)
    → Mem a (nodes ix rows d).nodes
unfolding nodes
nodes-mem ix rows d a v text m =
    let there = see_all-mem a (addresses ix rows) d v text m in
    elim (Bool-cases (see_all (addresses ix rows) d).1) [
      | inl added ↦ rw (added, nodes) (Perm.subset (Perm.symm (arrange-perm _)) a there)
      | inr same ↦ rw (same, nodes) there
    ]

-- Once columns have been dragged, a diagram built again has its addresses by rank: the place in the
-- remembered order, or the length of that order for one that it has never heard of.
pub arrange-IsSortedBy :
    (d : Diagram)
    → d.order ≢ []
    → IsSortedBy (λ a b. leb (rank d.order a) (rank d.order b)) (arrange d).nodes
unfolding arrange renumber
arrange-IsSortedBy d dragged =
    rw (is_empty_ne d.order dragged, arrange)
      (sort_by-IsSortedBy _ (λ a b. ground arith) (λ a b c h k. ground arith) d.nodes)
