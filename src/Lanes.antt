-- ===== src/Lanes.antt =====
-- The node columns of the sequence diagram, of src/web/app.js: one lane per address of the pages
-- fetched so far (`nodes`), the order they are dragged into (`place`, `arrange`), and the numbers
-- that put a lane on the screen (`widest`, `layout`, `x`, `lane`).
pub mod Order
pub mod Rows
pub mod Geometry
pub mod Sideways
pub mod Dragging
pub mod Arrow
pub mod Laid
mod Tests
use webshark.Prelude.{
  is_empty, is_none, ℕ, zero, suc, ◌+◌, ◌-◌, ◌*◌, ◌/◌, min, max, Text, Bool, true, false, not, ◌||◌,
  Option, none, some, List, [], ◌∷◌, ◌++◌, ◌==◌, nat_eq, text_eq, if◌then◌else◌, leb, length, get,
  put, sort_by, take, drop,
}
use webshark.Pages.{Row}
use webshark.Columns.{Name, src, dst, cell}

-- `S.nodes`, `S.node` and `S.order`.
pub record Diagram : Type 0 where
  pub nodes : List Text
  pub node : List (Text × ℕ)
  pub order : List Text

-- Setting each address of a list to its index, from an index on.
unfoldable pub number_from : ℕ → List Text → List (Text × ℕ) → List (Text × ℕ)
number_from i [] m = m
number_from i (a ∷ ls) m = number_from (suc i) ls (put m a i)

-- `renumber`
unfoldable pub renumber : Diagram → Diagram
unfolding number_from
renumber d = record d { node = number_from 0 d.nodes [] }

-- One address of one row in `nodes`, and whether it was added.
unfoldable pub see : Text → Diagram → Diagram × Bool
see addr d =
    if is_empty addr || not (is_none (get d.node addr))
    then (d, false)
    else (record d { nodes = d.nodes ++ addr ∷ []; node = put d.node addr (length d.nodes) }, true)

unfoldable pub see_all : List Text → Diagram → Diagram × Bool
unfolding see
see_all [] d = (d, false)
see_all (addr ∷ addrs) d =
    let (d', added) = see addr d in let (d'', more) = see_all addrs d' in (d'', added || more)

-- The addresses of the rows, in the order that the two loops visit them.
unfoldable pub addresses : (Name → Option ℕ) → List Row → List Text
addresses ix [] = []
addresses ix (row ∷ rows) = cell ix row src ∷ cell ix row dst ∷ addresses ix rows

-- The rank that `arrange` sorts by: an address that the order has never heard of goes last.
unfoldable pub rank : List Text → Text → ℕ
unfolding number_from
rank order a = elim (get (number_from 0 order []) a) [ none ↦ length order | some i ↦ i ]

unfoldable pub arrange : Diagram → Diagram
unfolding rank renumber
arrange d =
    if is_empty d.order
    then d
    else renumber
        (record d { nodes = sort_by (λ a b. leb (rank d.order a) (rank d.order b)) d.nodes })

unfoldable pub nodes : (Name → Option ℕ) → List Row → Diagram → Diagram
unfolding see_all addresses arrange
nodes ix rows d =
    let (d', added) = see_all (addresses ix rows) d in if added then arrange d' else d'

-- `S.nodes.splice(to, 0, S.nodes.splice(at, 1)[0])`
unfoldable pub splice_out : ℕ → List Text → List Text
splice_out at ls = take at ls ++ drop (suc at) ls

unfoldable pub splice_in : ℕ → Text → List Text → List Text
splice_in to a ls = take to ls ++ a ∷ drop to ls

-- `place` for a column that stands at `at`.
abbrev moved : Text → ℕ → ℕ → Diagram → Diagram
moved addr at to d =
    let d' = renumber (record d { nodes = splice_in to addr (splice_out at d.nodes) }) in
    record d' { order = d'.nodes }

unfoldable pub place : Text → ℕ → Diagram → Diagram
unfolding renumber splice_out splice_in
place addr to d = elim (get d.node addr) [
  | none ↦ d
  | some at ↦ if at == to then d else moved addr at to d
]

-- `rewind` throws the node columns away with the pages, and keeps the order.
unfoldable pub forget_nodes : Diagram → Diagram
forget_nodes d = record d { nodes = []; node = [] }
