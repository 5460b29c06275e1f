-- ===== src/Hide.antt =====
-- A node column taken out of the diagram, of src/web/app.js: the filter that the × over it writes
-- (`hide`, `addrTerm`), from the field of a frame's dissection that holds the address (`using`,
-- `holder`, `shows`), in the spelling that the capture compiles (`ends`, `swap`, `compiles`).
pub mod Laws
mod Tests
use mathlib.Core.Option
use webshark.Prelude.{
  is_empty, is_none, ℕ, zero, suc, ◌+◌, ◌-◌, Text, codes, Bool, true, false, not, ◌&&◌, ◌||◌,
  Option, none, some, List, [], ◌∷◌, ◌++◌, ◌==◌, text_eq, nat_eq, if◌then◌else◌, ltb, leb, length,
  get_elem?, map, contains, index_of, take, drop, split, join,
}
use webshark.Pages.{Row, Page, rows, flying}
use webshark.Columns.{Name, src, dst, cell}

-- A node of the dissection: the filter `f` and the label `l`, empty where it has none, and the
-- nodes under it, in their order.
mutual
  pub data Node : Type 0 where
    node : Text → Text → Forest → Node

  pub data Forest : Type 0 where
    none_left : Forest
    then_node : Node → Forest → Forest

pub record Hit : Type 0 where
  pub name : Text
  pub value : Text

-- `i` of a regular expression, on ASCII letters
abbrev is_hex : ℕ → Bool
is_hex c = leb b'0' c && leb c b'9' || leb b'a' c && leb c b'f' || leb b'A' c && leb c b'F'

abbrev is_decimal : ℕ → Bool
is_decimal c = leb b'0' c && leb c b'9'

abbrev all_of : (ℕ → Bool) → Text → Bool
all_of p [] = true
all_of p (c ∷ s) = p c && all_of p s

abbrev each_of : (Text → Bool) → List Text → Bool
each_of p [] = true
each_of p (s ∷ ss) = p s && each_of p ss

abbrev is_octet : Text → Bool
is_octet s = length s == 2 && all_of is_hex s

-- `/^[0-9a-f]{2}(:[0-9a-f]{2}){5}$/i`: six pairs with colons between them
unfoldable pub is_mac : Text → Bool
is_mac s = let parts = split (λ c. c == b':') s in length parts == 6 && each_of is_octet parts

abbrev is_byte : Text → Bool
is_byte s = ltb 0 (length s) && leb (length s) 3 && all_of is_decimal s

-- `/^\d{1,3}(\.\d{1,3}){3}$/`
unfoldable pub is_v4 : Text → Bool
is_v4 s = let parts = split (λ c. c == b'.') s in length parts == 4 && each_of is_byte parts

-- one of `[0-9a-f:.]`, which is `[0-9a-f:]` and the dot
abbrev is_v6_char : ℕ → Bool
is_v6_char c = is_hex c || c == b':' || c == b'.'

-- `[0-9a-f:]*:[0-9a-f:.]+`: a colon with no dot before it, and something after it
abbrev v6_colon : Text → Bool
v6_colon [] = false
v6_colon (c ∷ []) = false
v6_colon (c ∷ d ∷ s) = c == b':' || not (c == b'.') && v6_colon (d ∷ s)

-- `/^[0-9a-f:]*:[0-9a-f:.]+$/i`
unfoldable pub is_v6 : Text → Bool
is_v6 s = all_of is_v6_char s && v6_colon s

unfoldable pub looks_addr : Text → Bool
unfolding is_mac is_v4 is_v6
looks_addr v = is_mac v || is_v4 v || is_v6 v

-- the text ends there, or one of two characters stands there
abbrev edge : Option ℕ → ℕ → Bool
edge none c = true
edge (some d) c = d == b' ' || d == c

abbrev before : Text → ℕ → Option ℕ
before label zero = none
before label (suc i) = get_elem? label i

unfoldable pub shows : Text → Text → Bool
shows label addr = elim (index_of label addr) [
  | none ↦ false
  | some at ↦ edge (before label at) b'(' && edge (get_elem? label (at + length addr)) b')'
]

-- A node's own field, where it holds the address.
unfoldable pub held : Text → Text → Text → Option Hit
unfolding looks_addr shows
held f label addr = elim (index_of f (codes " == ")) [
  | none ↦ none
  | some zero ↦ none
  | some (suc i) ↦
      let value = drop (suc i + 4) f in
      if looks_addr value && (value == addr || shows label addr)
      then some (record { name = take (suc i) f; value = value })
      else none
]

abbrev first_hit : Option Hit → Option Hit → Option Hit
first_hit none o = o
first_hit (some h) o = some h

unfoldable mutual
  unfolding held

  pub holder_in : Node → Text → Option Hit
  holder_in (node f label kids) addr = first_hit (held f label addr) (holder kids addr)

  pub holder : Forest → Text → Option Hit
  holder none_left addr = none
  holder (then_node n ns) addr = first_hit (holder_in n addr) (holder ns addr)

-- `BOTH` and `OTHER`
unfoldable pub both : Text → Option Text
both p =
    if p == codes "src" || p == codes "dst" || (p == codes "sa" || p == codes "da")
    then some (codes "addr")
    else none

unfoldable pub other : Text → Option Text
other p =
    if p == codes "src"
    then some (codes "dst")
    else if p == codes "dst"
    then some (codes "src")
    else if p == codes "sa"
    then some (codes "da")
    else if p == codes "da"
    then some (codes "sa")
    else none

-- The first part that has a spelling there, replaced; none where no part has.
abbrev swapped : (Text → Option Text) → List Text → Option (List Text)
swapped to [] = none
swapped to (p ∷ ps) = elim (to p) [
  | some q ↦ some (q ∷ ps)
  | none ↦ Option.map (λ qs. p ∷ qs) (swapped to ps)
]

unfoldable pub swap : Text → (Text → Option Text) → Text
swap name to = elim (swapped to (split (λ c. c == b'.') name)) [
  | none ↦ []
  | some ps ↦ join b'.' ps
]

abbrev is_value : Text → Text → Text
is_value name value = name ++ (codes " == " ++ value)

-- The two spellings of both ends, each empty where the field has none.
unfoldable pub addr_term : Hit → Text
unfolding swap both
addr_term hit =
    let name = swap hit.name both in if is_empty name then [] else is_value name hit.value

unfoldable pub either_term : Hit → Text
unfolding swap other
either_term hit =
    let name = swap hit.name other in
    if is_empty name
    then []
    else is_value hit.name hit.value ++ (codes " or " ++ is_value name hit.value)

-- `compiles` asks the server, so it is a parameter.
unfoldable pub ends : (Text → Bool) → Hit → Text
unfolding addr_term either_term
ends compiles hit =
    if not (is_empty (addr_term hit)) && compiles (addr_term hit)
    then addr_term hit
    else if not (is_empty (either_term hit)) && compiles (either_term hit)
    then either_term hit
    else is_value hit.name hit.value

unfoldable pub guess : Text → Text
unfolding is_mac is_v4 is_v6
guess a =
    if is_mac a
    then is_value (codes "eth.addr") a
    else if is_v4 a
    then is_value (codes "ip.addr") a
    else if is_v6 a
    then is_value (codes "ipv6.addr") a
    else []

unfoldable pub link_only : Text → Text
link_only term = b'(' ∷ (term ++ codes ") and not ip and not ipv6")

abbrev drawn_by : (Name → Option ℕ) → Text → List Row → Option Row
drawn_by ix addr [] = none
drawn_by ix addr (row ∷ page) =
    if cell ix row src == addr || cell ix row dst == addr then some row else drawn_by ix addr page

-- A row of the pages that are here, in the order that the `Map` has them.
unfoldable pub using : (Name → Option ℕ) → Text → List (ℕ × Page) → Option Row
using ix addr [] = none
using ix addr ((p, flying) ∷ pages) = using ix addr pages
using ix addr ((p, rows page) ∷ pages) = elim (drawn_by ix addr page) [
  | some row ↦ some row
  | none ↦ using ix addr pages
]

-- The two calls of the server: the dissection of a frame, and whether a filter compiles.
module _ (dissect : Row → Option Forest) (compiles : Text → Bool) where
  abbrev pub of_hit : Text → Option Hit → Text
  of_hit addr none = let term = guess addr in if is_mac addr then link_only term else term
  of_hit addr (some hit) =
      let term = ends compiles hit in if is_mac hit.value then link_only term else term

  unfoldable pub term_for : (Name → Option ℕ) → List (ℕ × Page) → Text → Text
  unfolding ends guess link_only holder using
  term_for ix pages addr = elim (using ix addr pages) [
    | none ↦ of_hit addr none
    | some row ↦ elim (dissect row) [
      | none ↦ of_hit addr none
      | some tree ↦ of_hit addr (holder tree addr)
    ]
  ]

  -- The filter that takes the address out, or none where there is no term for it.
  unfoldable pub hide : (Name → Option ℕ) → List (ℕ × Page) → Text → Text → Option Text
  unfolding term_for
  hide ix pages filter addr =
      let term = term_for ix pages addr in
      if is_empty term
      then none
      else if is_empty filter
      then some (codes "!(" ++ (term ++ codes ")"))
      else some (b'(' ∷ (filter ++ (codes ") and !(" ++ (term ++ codes ")"))))
