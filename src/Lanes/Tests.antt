-- ===== src/Lanes/Tests.antt =====
-- Runs of the diagram on a call between three hosts.
use webshark.Prelude.{
  ℕ, ◌<◌, Text, codes, ◌≡◌, ◌⊎◌, refl, Option, none, some, List, [], ◌∷◌, arith, length, get,
  get_elem?, nat_eq, text_eq,
}
use mathlib.Core.List.{Mem, Perm, Pairwise, mem-cons_of_mem, mem-cons_self}
use webshark.Pages.{Row}
use webshark.Columns.{Name, src, dst, cell}
use webshark.Lanes.{Diagram, addresses, arrange, nodes, place}
use webshark.Lanes.Order.{IsIndexed, nodes-IsIndexed, place_lem}
use webshark.Lanes.Sideways.{reveal_x}

abbrev ix : Name → Option ℕ
ix src = some 0
ix dst = some 1
ix _ = none

abbrev a1 : Text
a1 = codes "10.0.0.1"

abbrev a2 : Text
a2 = codes "10.0.0.2"

abbrev a3 : Text
a3 = codes "10.0.0.3"

abbrev call : List Row
call =
    record { n = 1; c = a1 ∷ a2 ∷ [] }
    ∷ record { n = 2; c = a2 ∷ a3 ∷ [] }
    ∷ record { n = 3; c = a3 ∷ a1 ∷ [] }
    ∷ []

abbrev empty : Diagram
empty = record { nodes = []; node = []; order = [] }

empty-IsIndexed : IsIndexed empty
empty-IsIndexed = record {
  lane_of = λ a i e. absurd (cc);
  index_of = λ a i e. absurd (cc);
  distinct = Pairwise.nil;
}

abbrev three : Diagram
three = record { nodes = a1 ∷ a2 ∷ a3 ∷ []; node = (a1, 0) ∷ (a2, 1) ∷ (a3, 2) ∷ []; order = [] }

nodes_runs : nodes ix call empty ≡ three
unfolding nodes cell
nodes_runs = refl

nodes-IsIndexed_example : IsIndexed (nodes ix call empty)
nodes-IsIndexed_example = nodes-IsIndexed ix call empty empty-IsIndexed

get_runs : get (nodes ix call empty).node a3 ≡ some 2
unfolding nodes cell
get_runs = refl

inside_runs : 0 < length (nodes ix call empty).nodes
unfolding nodes cell
inside_runs = omega arith

abbrev third : ℕ
third = 2

place_lem_example :
    IsIndexed (place a3 0 (nodes ix call empty))
    × Perm (place a3 0 (nodes ix call empty)).nodes (nodes ix call empty).nodes
    × (get_elem? (place a3 0 (nodes ix call empty)).nodes 0 ≡ some a3)
    × ((third ≡ 0)
        ⊎ ((place a3 0 (nodes ix call empty)).order ≡ (place a3 0 (nodes ix call empty)).nodes))
place_lem_example =
    place_lem a3 third 0 (nodes ix call empty) nodes-IsIndexed_example get_runs inside_runs

place_runs : (place a3 0 (nodes ix call empty)).nodes ≡ a3 ∷ a1 ∷ a2 ∷ []
unfolding nodes cell place
place_runs = refl

addresses_mem : Mem a3 (addresses ix call)
unfolding addresses cell
addresses_mem = mem-cons_of_mem _ (mem-cons_of_mem _ (mem-cons_of_mem _ mem-cons_self))

abbrev remembered : Diagram
remembered = record { nodes = a1 ∷ a2 ∷ a3 ∷ []; node = []; order = a3 ∷ a1 ∷ [] }

arrange_runs : (arrange remembered).nodes ≡ a3 ∷ a1 ∷ a2 ∷ []
unfolding arrange
arrange_runs = refl

reveal_x_run : reveal_x 100 200 (some 7) (some 5) 900 2100 0 ≡ 800
unfolding reveal_x
reveal_x_run = refl
