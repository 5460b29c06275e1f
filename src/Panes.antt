-- ===== src/Panes.antt =====
-- The panes of a dissected frame, of src/web/app.js: the byte sources of a frame (`show`, `tabs`),
-- the field picked in the tree (`pick`), and the dump of the bytes with that field marked in it
-- (`bytes`), which is HTML.
pub mod Tabs
pub mod Tree
pub mod Sources
pub mod Reading
pub mod Dump
pub mod Shown
mod Tests
use webshark.Prelude.{
  ℕ, zero, suc, ◌+◌, ◌-◌, ◌/◌, ◌%◌, Text, codes, Bool, true, false, not, ◌&&◌, ◌||◌, Option, none,
  some, List, [], ◌∷◌, ◌++◌, ◌==◌, nat_eq, if◌then◌else◌, ltb, leb, length, get_elem?, drop,
  replicate, is_empty,
}

-- A field's range in the bytes of its source, `n.h`: where it starts, and how long it is.
pub record Range : Type 0 where
  pub start : ℕ
  pub size : ℕ

-- A byte source of a frame, its bytes in base64.
pub record Source : Type 0 where
  pub name : Text
  pub bytes : Text

-- The parts of a node of the tree that `pick` reads: its range, its source, the filter that it is,
-- and the name of its field.
pub record Node : Type 0 where
  pub h : Option Range
  pub ds : Option ℕ
  pub f : Text
  pub fn : Text

-- `S.sources`, `S.src`, `S.mark`, and the footer's field with its filter.
pub record Detail : Type 0 where
  pub sources : List Source
  pub src : ℕ
  pub mark : Option Range
  pub field : Text
  pub filter : Text

-- `show`, of a frame with these bytes and further sources.
unfoldable pub show : Text → List Source → Detail → Detail
show bytes ds d = record d {
  sources = record { name = codes "Frame"; bytes = bytes } ∷ ds;
  src = 0;
  mark = none;
  field = [];
}

abbrev pub source_of : Option ℕ → ℕ
source_of none = 0
source_of (some ds) = ds

unfoldable pub pick : Node → Detail → Detail
pick n d =
    let src = source_of n.ds in
    record d {
      mark = n.h;
      src = if not (src == d.src) && ltb src (length d.sources) then src else d.src;
      field = if is_empty n.f then n.fn else n.f;
      filter = n.f;
    }

-- A click on a tab: there is one for each source.
unfoldable pub choose_source : ℕ → Detail → Detail
choose_source i d = record d { src = if ltb i (length d.sources) then i else d.src }

-- `HEX`
abbrev pub hex_digit : ℕ → ℕ
hex_digit n = if ltb n 10 then b'0' + n else 87 + n

abbrev pub hex : ℕ → Text
hex b = hex_digit (b / 16) ∷ hex_digit (b % 16) ∷ []

-- `CHAR`
unfoldable pub char_html : ℕ → Text
char_html b =
    if ltb b 32 || ltb 126 b
    then codes "."
    else if b == 60
    then codes "&lt;"
    else if b == 62
    then codes "&gt;"
    else if b == 38
    then codes "&amp;"
    else b ∷ []

-- `h` and `a` of a line, and whether a mark is open in them.
pub record Line : Type 0 where
  pub h : Text
  pub a : Text
  pub open_mark : Bool

abbrev pub close_mark : Line → Line
close_mark l =
    if l.open_mark
    then record { h = l.h ++ codes "</b>"; a = l.a ++ codes "</b>"; open_mark = false }
    else l

abbrev pub open_at : Line → Line
open_at l =
    if l.open_mark
    then l
    else record { h = l.h ++ codes "<b>"; a = l.a ++ codes "<b>"; open_mark = true }

-- Whether a byte is in the range that is marked.
abbrev pub in_range : Option Range → ℕ → Bool
in_range none p = false
in_range (some r) p = leb r.start p && ltb p (r.start + r.size)

abbrev pub gap : Bool → Text
gap true = codes "  "
gap false = codes " "

-- A round of the inner loop, at a byte and past the last one.
unfoldable pub put_byte : Bool → Bool → ℕ → Line → Line
unfolding char_html
put_byte on middle b l =
    let m = if on then open_at l else close_mark l in
    record m { h = m.h ++ (hex b ++ gap middle); a = m.a ++ char_html b }

unfoldable pub put_blank : Bool → Line → Line
put_blank middle l = let m = close_mark l in record m { h = m.h ++ (codes "  " ++ gap middle) }

module _ (mark : Option Range) (mid : ℕ) where
  -- The inner loop: the rounds left, its `i`, its `p`, and the bytes from there on.
  unfoldable pub line_from : ℕ → ℕ → ℕ → List ℕ → Line → Line
  unfolding put_byte put_blank
  line_from zero i p bs l = l
  line_from (suc k) i p [] l = line_from k (suc i) (suc p) [] (put_blank (i == mid) l)
  line_from (suc k) i p (b ∷ bs) l =
      line_from k (suc i) (suc p) bs (put_byte (in_range mark p) (i == mid) b l)

  unfoldable pub line : ℕ → ℕ → List ℕ → Line
  unfolding line_from
  line wid off bs =
      close_mark (line_from wid 0 off bs (record { h = []; a = []; open_mark = false }))

  -- The outer loop: the offset of each line, and the line. Every round takes a byte at least, so
  -- the number of bytes is fuel enough.
  unfoldable pub lines_from : ℕ → ℕ → ℕ → List ℕ → List (ℕ × Line)
  unfolding line
  lines_from fuel wid off [] = []
  lines_from zero wid off (b ∷ bs) = []
  lines_from (suc fuel) wid off (b ∷ bs) =
      (off, line wid off (b ∷ bs)) ∷ lines_from fuel wid (off + wid) (drop wid (b ∷ bs))

-- `decode`, over the browser's `atob`.
unfoldable pub decode : (Text → List ℕ) → Text → List ℕ
decode atob b64 = if is_empty b64 then [] else atob b64

abbrev bytes_of : Option Source → Text
bytes_of none = []
bytes_of (some source) = source.bytes

-- The bytes of the source that is on screen.
unfoldable pub data_of : (Text → List ℕ) → Detail → List ℕ
unfolding decode
data_of atob d = decode atob (bytes_of (get_elem? d.sources d.src))

-- `bytes`, where the dump is on screen: 8 bytes to a line on a phone, and otherwise 16.
unfoldable pub dump : (Text → List ℕ) → Bool → Detail → List (ℕ × Line)
unfolding lines_from data_of
dump atob phone d =
    let wid = if phone then 8 else 16 in
    let bs = data_of atob d in lines_from d.mark (wid / 2 - 1) (length bs) wid 0 bs

-- `off.toString(16)`, and its padding
hex_text : ℕ → ℕ → Text → Text
hex_text zero n tail = tail
hex_text (suc fuel) n tail =
    let more = hex_text fuel (n / 16) (hex_digit (n % 16) ∷ tail) in
    if ltb n 16 then hex_digit n ∷ tail else more

unfoldable pub offset : ℕ → Text
unfolding hex_text
offset off = let text = hex_text (suc off) off [] in replicate (4 - length text) b'0' ++ text

unfoldable pub line_html : ℕ × Line → Text
unfolding offset
line_html (off, l) = codes "<i>" ++ offset off ++ codes "</i>  " ++ l.h ++ codes " " ++ l.a
