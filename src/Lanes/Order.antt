-- ===== src/Lanes/Order.antt =====
-- The lanes' table against the lanes.
use mathlib.Core.List.{Nodup, Mem, Perm, perm_middle, Nodup-cons, mem-cons, mem-cons_of_mem}
use native.Mathlib.Nat.{zero-add, add-zero}
use mathlib.Core.List.Perm
use mathlib.Core.Logic.Or
use webshark.Prelude.{
  is_empty, is_none, ℕ, zero, suc, ◌+◌, ◌<◌, Text, ◌≡◌, refl, sym, ◌∙◌, ap, ◌≢◌, ◌⊎◌, inl, inr,
  false, Option, none, some, List, [], ◌∷◌, ◌++◌, arith, ◌==◌, nat_eq, text_eq, length, get_elem?,
  take, drop, take-append-drop, get, put, get-put, get-put_cases, get-put_self, sort_by,
  sort_by-perm, append-nil, not-mem_of_get_elem?, get_elem?-append_left, get_elem?-concat,
  get_elem?-append_length, length-take, length-drop, length-append, lt-length_of_get_elem?, ◌≤◌,
  subst, not, ◌||◌, leb, Bool-cases,
}
use webshark.Pages.{Row}
use webshark.Columns.{Name}
use webshark.Lanes.{
  Diagram, number_from, renumber, see, see_all, addresses, rank, arrange, nodes, splice_out,
  splice_in, place,
}

-- `S.node` holds an address exactly under the index of its lane, and no address has two lanes.
pub record IsIndexed (d : Diagram) : Type 0 where
  pub lane_of : (a : Text) (i : ℕ) → get d.node a ≡ some i → get_elem? d.nodes i ≡ some a
  pub index_of : (a : Text) (i : ℕ) → get_elem? d.nodes i ≡ some a → get d.node a ≡ some i
  pub distinct : Nodup d.nodes

number_from-get :
    (i : ℕ) (ls : List Text) (m : List (Text × ℕ)) (a : Text) (k : ℕ)
    → get (number_from i ls m) a ≡ some k
    → ((j : ℕ) × (get_elem? ls j ≡ some a) × (k ≡ i + j)) ⊎ (get m a ≡ some k)
unfolding number_from
number_from-get i [] m a k h = inr h
number_from-get i (b ∷ ls) m a k h = elim (number_from-get (suc i) ls (put m b i) a k h) [
  | inl (j, there, at) ↦ inl (suc j, there, omega arith)
  | inr before ↦ elim (get-put_cases m b a i before) [
    | inl (same, at) ↦ inl (0, ap some same, omega arith)
    | inr old ↦ inr old
  ]
]

beq_ne : (a b : Text) → a ≢ b → (a == b) ≡ false
beq_ne a b h = ground (arith, text_eq.decides a b)

number_from_other :
    (i : ℕ) (ls : List Text) (m : List (Text × ℕ)) (a : Text)
    → ¬ Mem a ls
    → get (number_from i ls m) a ≡ get m a
unfolding number_from
number_from_other i [] m a h = refl
number_from_other i (b ∷ ls) m a h =
    number_from_other (suc i) ls (put m b i) a (λ mem. h (mem-cons_of_mem b mem))
    ∙ rw (get-put, beq_ne b a (λ e. h (mem-cons.1 (Or.inl (sym e)))))

number_from-index :
    (i : ℕ) (ls : List Text) (m : List (Text × ℕ)) (a : Text) (j : ℕ)
    → Nodup ls
    → get_elem? ls j ≡ some a
    → get (number_from i ls m) a ≡ some (i + j)
unfolding number_from
number_from-index i [] m a j h at = absurd (cc)
number_from-index i (b ∷ ls) m a zero h at =
    let same : b ≡ a = cc in
    number_from_other (suc i) ls (put m b i) a (rw same at (Nodup-cons.0 h).0)
    ∙ rw (same, get-put_self, add-zero)
number_from-index i (b ∷ ls) m a (suc j) h at =
    number_from-index (suc i) ls (put m b i) a j (Nodup-cons.0 h).1 at ∙ ap some (omega arith)

from_start :
    (a : Text) (i : ℕ) (ls : List Text)
    → ((j : ℕ) × (get_elem? ls j ≡ some a) × (i ≡ 0 + j)) ⊎ (none ≡ some i)
    → get_elem? ls i ≡ some a
from_start a i ls (inl (j, there, at)) = rw at (rw zero-add there)
from_start a i ls (inr never) = absurd (cc)

renumber-IsIndexed : (d : Diagram) → Nodup d.nodes → IsIndexed (renumber d)
unfolding renumber
renumber-IsIndexed d h = record {
  lane_of = λ a i e. from_start a i d.nodes (number_from-get 0 d.nodes [] a i e);
  index_of = λ a i e. number_from-index 0 d.nodes [] a i h e ∙ ap some (omega arith);
  distinct = h;
}

-- An address that the table does not hold has no lane.
not-mem_of_get : {d : Diagram} (a : Text) → IsIndexed d → get d.node a ≡ none → ¬ Mem a d.nodes
not-mem_of_get {d} a v h = not-mem_of_get_elem? d.nodes a (λ i e. absurd (cc (v.index_of a i e)))

Nodup-concat : (a : Text) (ls : List Text) → ¬ Mem a ls → Nodup ls → Nodup (ls ++ a ∷ [])
Nodup-concat a ls out h =
    Perm.nodup (Perm.symm (perm_middle ls [])) (Nodup-cons.1 (rw append-nil (out, h)))

pub see-IsIndexed : (addr : Text) {d : Diagram} → IsIndexed d → IsIndexed (see addr d).0
unfolding see
see-IsIndexed addr {d} v = elim (Bool-cases (is_empty addr || not (is_none (get d.node addr)))) [
  | inl kept ↦ rw (kept, see) v
  | inr new ↦
      let fresh : get d.node addr ≡ none = ground arith in
      rw (new, see)
        (record {
          lane_of = λ a i e. elim (get-put_cases d.node addr a (length d.nodes) e) [
            | inl (same, at) ↦ rw (← same, ← at) (get_elem?-append_length d.nodes [] addr)
            | inr old ↦ get_elem?-append_left d.nodes (addr ∷ []) i a (v.lane_of a i old)
          ];
          index_of = λ a i e. elim (get_elem?-concat d.nodes addr i a e) [
            | inl old ↦
                get-put d.node addr a (length d.nodes)
                ∙ rw (beq_ne addr a (λ same. absurd (cc (v.index_of a i old)))) (v.index_of a i old)
            | inr (at, same) ↦ rw (at, ← same) (get-put_self d.node addr (length d.nodes))
          ];
          distinct = Nodup-concat addr d.nodes (not-mem_of_get addr v fresh) v.distinct;
        })
]

see_all-IsIndexed : (addrs : List Text) {d : Diagram} → IsIndexed d → IsIndexed (see_all addrs d).0
unfolding see_all
see_all-IsIndexed [] v = v
see_all-IsIndexed (addr ∷ addrs) v = see_all-IsIndexed addrs (see-IsIndexed addr v)

pub arrange-perm : (d : Diagram) → Perm (arrange d).nodes d.nodes
unfolding arrange renumber
arrange-perm d = elim (Bool-cases (is_empty d.order)) [
  | inl never ↦ rw (never, arrange) (Perm.refl _)
  | inr dragged ↦ rw (dragged, arrange) (sort_by-perm _ d.nodes)
]

arrange-IsIndexed : (d : Diagram) → IsIndexed d → IsIndexed (arrange d)
unfolding arrange
arrange-IsIndexed d v = elim (Bool-cases (is_empty d.order)) [
  | inl never ↦ rw (never, arrange) v
  | inr dragged ↦
      rw (dragged, arrange)
        (renumber-IsIndexed
          (record d { nodes = sort_by (λ a b. leb (rank d.order a) (rank d.order b)) d.nodes })
          (Perm.nodup (Perm.symm (sort_by-perm _ d.nodes)) v.distinct))
]

-- Whatever rows a page brings, the table and the lanes agree after `nodes` if they did before.
pub nodes-IsIndexed :
    (ix : Name → Option ℕ) (rows : List Row) (d : Diagram)
    → IsIndexed d
    → IsIndexed (nodes ix rows d)
unfolding nodes
nodes-IsIndexed ix rows d v =
    let v' = see_all-IsIndexed (addresses ix rows) v in
    elim (Bool-cases (see_all (addresses ix rows) d).1) [
      | inl added ↦ rw (added, nodes) (arrange-IsIndexed _ v')
      | inr same ↦ rw (same, nodes) v'
    ]

splice_in-perm : (to : ℕ) (a : Text) (ls : List Text) → Perm (splice_in to a ls) (a ∷ ls)
unfolding splice_in
splice_in-perm to a ls =
    subst (λ l. Perm (take to ls ++ a ∷ drop to ls) (a ∷ l)) (take-append-drop to ls)
      (perm_middle (take to ls) (drop to ls))

splice_out-perm :
    (at : ℕ) (ls : List Text) (a : Text) → get_elem? ls at ≡ some a → Perm ls (a ∷ splice_out at ls)
unfolding splice_out
splice_out-perm at [] a h = absurd (cc)
splice_out-perm zero (b ∷ ls) a h = let same : b ≡ a = cc in rw same (Perm.refl _)
splice_out-perm (suc at) (b ∷ ls) a h =
    Perm.trans (Perm.cons b (splice_out-perm at ls a h)) (Perm.swap _ _ _)

-- The table does not depend on the order that is remembered.
agrees : (d : Diagram) → Nodup d.nodes → IsIndexed (record (renumber d) { order = d.nodes })
unfolding renumber
agrees d h =
    let v = renumber-IsIndexed d h in
    record { lane_of = v.lane_of; index_of = v.index_of; distinct = v.distinct }

splice_in-get :
    (to : ℕ) (a : Text) (ls : List Text)
    → to ≤ length ls
    → get_elem? (splice_in to a ls) to ≡ some a
unfolding splice_in
splice_in-get to a ls h =
    let full : length (take to ls) ≡ to = omega (arith, length-take to ls) in
    ap (get_elem? (take to ls ++ a ∷ drop to ls)) (sym full)
    ∙ get_elem?-append_length (take to ls) (drop to ls) a

length-splice_out :
    (at : ℕ) (ls : List Text) → at < length ls → length (splice_out at ls) + 1 ≡ length ls
unfolding splice_out
length-splice_out at ls h = omega (
  arith,
  length-append (take at ls) (drop (suc at) ls),
  length-take at ls,
  length-drop (suc at) ls,
)

-- Dragging a column to a lane of the diagram puts it there, keeps every other column, and leaves
-- the table in agreement with the lanes; the order that is remembered is then the lanes'.
pub place_lem :
    (addr : Text) (at to : ℕ) (d : Diagram)
    → IsIndexed d
    → get d.node addr ≡ some at
    → to < length d.nodes
    → IsIndexed (place addr to d)
      × Perm (place addr to d).nodes d.nodes
      × (get_elem? (place addr to d).nodes to ≡ some addr)
      × ((at ≡ to) ⊎ ((place addr to d).order ≡ (place addr to d).nodes))
unfolding place
place_lem addr at to d v e h =
    let here = v.lane_of addr at e in
    let inside = lt-length_of_get_elem? d.nodes at addr here in
    let out = splice_out-perm at d.nodes addr here in
    let back = splice_in-perm to addr (splice_out at d.nodes) in
    elim (Bool-cases (at == to)) [
      | inl same ↦
          let stays : at ≡ to = ground arith in
          rw (e, same, place) (v, Perm.refl _, rw stays at here, inl stays)
      | inr other ↦
          rw (e, other, place)
            (
              agrees (record d { nodes = splice_in to addr (splice_out at d.nodes) })
                  (Perm.nodup (Perm.trans out (Perm.symm back)) v.distinct),
              Perm.trans back (Perm.symm out),
              splice_in-get to addr _ (omega (arith, length-splice_out at d.nodes inside)),
              inr refl,
            )
    ]
