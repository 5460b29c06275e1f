-- ===== src/Panes/Tests.antt =====
-- A frame of nineteen bytes with a second source, and a field of three of them picked.
use webshark.Prelude.{ℕ, Text, codes, ◌≡◌, refl, true, false, none, some, List, [], ◌∷◌, ◌++◌, map}
use webshark.Panes.{
  Node, Detail, Line, show, pick, dump, line_html, char_html, line, lines_from, line_from, put_byte,
  put_blank, data_of, decode, offset,
}

-- "<b>GET /&</b>" and so on, as it came over the wire
abbrev wire : Text
wire = codes "<b>&" ++ 13 ∷ 10 ∷ codes "GET / HTTP/1."

abbrev atob : Text → List ℕ
atob text = text

abbrev blank : Detail
blank = record { sources = []; src = 0; mark = none; field = []; filter = [] }

abbrev node : Node
node = record {
  h = some (record { start = 2; size = 3 });
  ds = none;
  f = codes "http.request";
  fn = [];
}

abbrev frame : Detail
frame = record {
  sources =
      record { name = codes "Frame"; bytes = wire }
      ∷ record { name = codes "TCP"; bytes = codes "ab" }
      ∷ [];
  src = 0;
  mark = some (record { start = 2; size = 3 });
  field = codes "http.request";
  filter = codes "http.request";
}

frame_runs :
    pick node (show wire (record { name = codes "TCP"; bytes = codes "ab" } ∷ []) blank) ≡ frame
unfolding pick show
frame_runs = refl

html_runs :
    map line_html
      (dump atob true (record frame { src = 1; mark = some (record { start = 1; size = 1 }) }))
    ≡ codes "<i>0000</i>  61 <b>62 </b>                    a<b>b</b>" ∷ []
unfolding dump data_of decode lines_from line line_from put_byte put_blank char_html line_html
    offset
html_runs = refl

abbrev second : Line
second = record {
  h = codes "2f 31 2e                                         ";
  a = codes "/1.";
  open_mark = false;
}
