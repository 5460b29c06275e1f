-- ===== src/Columns.antt =====
-- The columns of a capture, of src/web/app.js: which of a row's columns the list draws (`columns`),
-- and the text that a view takes out of a row by the name of a column (`raw`, `cell`, `inner`).
pub mod Laws
pub mod Pair
pub mod Severity
mod Tests
use mathlib.Core.Option
use webshark.Prelude.{
  is_empty, is_none, ℕ, suc, String, Text, codes, Bool, true, false, not, ◌&&◌, ◌||◌, Option, none,
  some, List, [], ◌∷◌, ◌++◌, ◌==◌, nat_eq, text_eq, contains, if◌then◌else◌, get_elem?, split, map,
}
use webshark.Pages.{Row}

-- One entry of `status.column_info`.
pub record ColumnInfo : Type 0 where
  pub title : Text
  pub format : Text
  pub visible : Bool

-- The names of `S.ix`.
pub data Name : Type 0 where
  time src dst sport dport proto info no len sev xinfo osrc osport odst odport : Name

-- `findIndex`
pub find_column : (ColumnInfo → Bool) → List ColumnInfo → Option ℕ
find_column p [] = none
find_column p (c ∷ cs) = if p c then some 0 else Option.map suc (find_column p cs)

abbrev pub or_else : Option ℕ → Option ℕ → Option ℕ
or_else none o = o
or_else (some i) o = some i

-- `at`: by format, or else by title
unfoldable pub at : List ColumnInfo → String → String → Option ℕ
unfolding find_column
at cols fmt title =
    or_else (find_column (λ c. c.format == codes fmt) cols)
      (find_column (λ c. c.title == codes title) cols)

-- One of the three shapes of the Time column, `TIMES`.
pub record Shape : Type 0 where
  pub key : String
  pub fmt : String
  pub col : String
  pub elapsed : Bool

abbrev pub relative : Shape
relative = record { key = "rel"; fmt = "%t"; col = "Time"; elapsed = true }

abbrev pub delta : Shape
delta = record { key = "delta"; fmt = "%Gt"; col = "Delta"; elapsed = true }

abbrev pub utc : Shape
utc = record { key = "utc"; fmt = "%Yut"; col = "UTC"; elapsed = false }

abbrev pub times : List Shape
times = relative ∷ delta ∷ utc ∷ []

-- `S.ix`
unfoldable pub column_ix : List ColumnInfo → Shape → Name → Option ℕ
unfolding at
column_ix cols t time = or_else (at cols t.fmt t.col) (at cols "%t" "Time")
column_ix cols t src = at cols "%s" "Source"
column_ix cols t dst = at cols "%d" "Destination"
column_ix cols t sport = at cols "%uS" "SrcPort"
column_ix cols t dport = at cols "%uD" "DstPort"
column_ix cols t proto = at cols "%p" "Protocol"
column_ix cols t info = at cols "%i" "Info"
column_ix cols t no = at cols "%m" "No."
column_ix cols t len = at cols "%L" "Length"
column_ix cols t sev = at cols "%Cus:_ws.expert.severity:0" "Expert"
column_ix cols t xinfo = at cols "%Cus:_ws.expert.message:0" "Expert info"
column_ix cols t osrc = at cols "%Cus:ip.src or ipv6.src:1" "OuterSrc"
column_ix cols t osport = at cols "%Cus:udp.srcport or tcp.srcport or sctp.srcport:1" "OuterSrcPort"
column_ix cols t odst = at cols "%Cus:ip.dst or ipv6.dst:1" "OuterDst"
column_ix cols t odport = at cols "%Cus:udp.dstport or tcp.dstport or sctp.dstport:1" "OuterDstPort"

-- A column of the list: one of the row's, or the folded pair of addresses.
pub data Drawn : Type 0 where
  addr : Drawn
  col : Option ℕ → Drawn

-- `i === S.ix.x`, where an index that was not found is -1 and no column's
abbrev pub is_at : Option ℕ → ℕ → Bool
is_at none i = false
is_at (some j) i = i == j

unfoldable pub shown_from : ℕ → List ColumnInfo → List ℕ
shown_from i [] = []
shown_from i (c ∷ cs) = if c.visible then i ∷ shown_from (suc i) cs else shown_from (suc i) cs

-- `#mode` is hidden: there are no addresses to put in lanes.
unfoldable pub no_diagram : List ColumnInfo → Shape → Bool
unfolding column_ix
no_diagram cols t = is_none (column_ix cols t src) || is_none (column_ix cols t dst)

-- `fold`: what the folded pair takes the place of, but for Source itself
abbrev folded : List ColumnInfo → Shape → ℕ → Bool
folded cols t i =
    is_at (column_ix cols t sport) i
    || is_at (column_ix cols t dst) i
    || is_at (column_ix cols t dport) i

-- `alts`: the Time columns but the one Wireshark has by default
abbrev alternative : List ColumnInfo → ℕ → Bool
alternative cols i =
    not (is_at (at cols "%t" "Time") i)
    && (is_at (at cols relative.fmt relative.col) i
        || is_at (at cols delta.fmt delta.col) i
        || is_at (at cols utc.fmt utc.col) i)

-- One shown column as it goes into `S.vis`: left out, the pair, the Time slot, or itself.
unfoldable pub draw_column : List ColumnInfo → Shape → ℕ → Option Drawn
unfolding column_ix no_diagram
draw_column cols t i =
    if not (no_diagram cols t) && folded cols t i
    then none
    else if not (no_diagram cols t) && is_at (column_ix cols t src) i
    then some addr
    else if alternative cols i
    then none
    else if is_at (at cols "%t" "Time") i
    then some (col (column_ix cols t time))
    else some (col (some i))

abbrev keep : Option Drawn → List Drawn → List Drawn
keep none ds = ds
keep (some d) ds = d ∷ ds

unfoldable pub draw_columns : List ColumnInfo → Shape → List ℕ → List Drawn
unfolding draw_column
draw_columns cols t [] = []
draw_columns cols t (i ∷ is) = keep (draw_column cols t i) (draw_columns cols t is)

-- `S.vis` as `columns` leaves it.
unfoldable pub visible_columns : List ColumnInfo → Shape → List Drawn
unfolding shown_from draw_columns
visible_columns cols t = draw_columns cols t (shown_from 0 cols)

-- `row.c[S.ix[name]] || ''`
abbrev text_at : Row → Option ℕ → Text
text_at row none = []
text_at row (some i) = elim (get_elem? row.c i) [ none ↦ [] | some t ↦ t ]

unfoldable pub raw : (Name → Option ℕ) → Row → Name → Text
raw ix row name = text_at row (ix name)

-- `OUTER`
abbrev pub outer : Name → Option Name
outer src = some osrc
outer dst = some odst
outer sport = some osport
outer dport = some odport
outer _ = none

-- `parts.find(o => o !== v) || v`
unfoldable pub other_part : Text → List Text → Text
other_part v [] = v
other_part v (o ∷ os) = if o == v then other_part v os else if is_empty o then v else o

abbrev outermost : Text → Text → Text
outermost v out = if is_empty out then v else other_part v (split (λ c. c == b',') out)

abbrev cell_of : (Name → Option ℕ) → Row → Name → Option Name → Text
cell_of ix row name none = raw ix row name
cell_of ix row name (some o) = outermost (raw ix row name) (raw ix row o)

-- An address or a port of a row: the outer one where the frame has two.
unfoldable pub cell : (Name → Option ℕ) → Row → Name → Text
unfolding raw other_part
cell ix row name = cell_of ix row name (outer name)

abbrev port_suffix : Text → Text
port_suffix p = if is_empty p then [] else b':' ∷ p

-- The tooltip: the pair inside the tunnel, or nothing for a frame that has none.
unfoldable pub inner : (Name → Option ℕ) → Row → Text
unfolding cell
inner ix row =
    if raw ix row src == cell ix row src && raw ix row dst == cell ix row dst
    then []
    else codes "tunnelled: "
      ++ (raw ix row src
          ++ (port_suffix (raw ix row sport)
              ++ (codes " → " ++ (raw ix row dst ++ port_suffix (raw ix row dport)))))
