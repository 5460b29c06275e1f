-- ===== src/Captures/Listing/Tests.antt =====
-- The list of three captures, one of them read, narrowed to those with SIP in them.
use webshark.Prelude.{
  ℕ, ◌+◌, ◌*◌, codes, Text, ◌≡◌, refl, Bool, false, Option, none, some, List, [], ◌∷◌, get_elem?,
  if◌then◌else◌, ◌==◌, text_eq,
}
use webshark.Captures.Moments.{Browser, Fields}
use webshark.Captures.Search.{Capture, term, matches, parse_find, captured, overlaps, named}
use webshark.Captures.Listing.{
  Filed, file_rows, Listing, draw_files, Scan, scanned, scan_from, scan_all, human, counter,
}
use webshark.Captures.Listing.RowsDrawn.{names}
use webshark.Captures.Listing.Narrowing.{scan_all-settles}

abbrev fields : Fields
fields = record { year = 2026; month = 7; day = 14; hours = 9; minutes = 5; seconds = 0 }

abbrev browser : Browser
browser = record {
  now = 900000000;
  local = λ ms. fields;
  instant = λ f. f.day * 86400000 + f.hours * 3600000 + f.minutes * 60000 + f.seconds * 1000;
  lower = λ s. s;
  tenths = λ a b. [];
}

abbrev capture : Text → Option (List Text) → Capture
capture name protos = record {
  name = name;
  size = 100;
  first = 899000000;
  last = 0;
  mtime = 899500000;
  protos = protos;
  partial = false;
}

abbrev listing : Listing
listing = record {
  caps =
      capture (codes "a") (some (codes "dns" ∷ []))
      ∷ capture (codes "b") none
      ∷ capture (codes "c") none
      ∷ [];
  find = codes "proto:sip";
  terms = [];
  rows = record { filed = []; waiting = 0 };
  empty = none;
  waited = [];
  message = [];
}

abbrev scan : Text → Option Scan
scan name =
    some (record { protos = if name == codes "c" then codes "sip" ∷ [] else []; partial = false })

abbrev never : ℕ → Bool
never i = false

draw_runs :
    (names (draw_files browser listing).rows.filed ≡ codes "b" ∷ codes "c" ∷ [])
    × ((draw_files browser listing).message ≡ codes "still reading 2 of them")
unfolding draw_files file_rows matches term parse_find captured overlaps named
draw_runs = (refl, refl)

scan_runs :
    (names (scan_all browser scan never never (draw_files browser listing)).rows.filed
      ≡ codes "c" ∷ [])
    × (counter (scan_all browser scan never never (draw_files browser listing))
        ≡ (codes "1 of 3", codes "matching captures"))
unfolding scan_all scan_from scanned draw_files file_rows matches term parse_find captured overlaps
    counter named
scan_runs = (refl, refl)

human_runs :
    (human 1023 ≡ codes "1023 B")
    × (human 1048575 ≡ codes "1024 kB")
    × (human 1153434 ≡ codes "1.1 MB")
unfolding human
human_runs = (refl, refl, refl)

scan_all-settles_example :
    ((scan_all browser scan never never (draw_files browser listing)).rows.waiting ≡ 0)
    × ((j : ℕ) (f : Filed)
        → get_elem? (scan_all browser scan never never (draw_files browser listing)).rows.filed j
          ≡ some f
        → f.tent ≡ false)
scan_all-settles_example =
    scan_all-settles browser scan never never (λ i. refl) (λ i. refl) (λ n. cc) listing
