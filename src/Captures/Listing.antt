-- ===== src/Captures/Listing.antt =====
-- The capture list, of src/web/app.js: the rows that the box leaves (`drawFiles`), the counter
-- beside it, a capture's size (`human`), and the scan that reads the protocols of one capture after
-- the other and draws the list again for each of them (`scanAll`).
pub mod RowsDrawn
pub mod Cells
pub mod Narrowing
mod Tests
use webshark.Prelude.{
  ℕ, zero, suc, ◌+◌, ◌*◌, ◌/◌, ◌%◌, ◌^◌, Text, codes, Bool, true, false, not, ◌&&◌, ◌||◌, Option,
  none, some, List, [], ◌∷◌, ◌++◌, ◌==◌, nat_eq, if◌then◌else◌, ltb, length, set, is_empty, is_none,
  decimal, ◌==◌,
}
use webshark.Captures.Moments.{Browser}
use webshark.Captures.Search.{Capture, Term, Verdict, hit, miss, maybe, matches, parse_find}

-- `S.filed`
pub record Filed : Type 0 where
  pub c : Capture
  pub tent : Bool

-- What the loop of `drawFiles` leaves: the rows, and how many of them wait for their protocols.
pub record Rows : Type 0 where
  pub filed : List Filed
  pub waiting : ℕ

abbrev pub row_for : Verdict → Capture → Rows → Rows
row_for miss c rows = rows
row_for hit c rows = record rows { filed = record { c = c; tent = false } ∷ rows.filed }
row_for maybe c rows = record {
  filed = record { c = c; tent = true } ∷ rows.filed;
  waiting = suc rows.waiting;
}

unfoldable pub file_rows : Browser → List Term → List Capture → Rows
unfolding matches
file_rows b terms [] = record { filed = []; waiting = 0 }
file_rows b terms (c ∷ cs) = row_for (matches b c terms) c (file_rows b terms cs)

-- `S.caps`, `S.find`, `fileTerms`, what `drawFiles` last drew of them, and the footer's message.
pub record Listing : Type 0 where
  pub caps : List Capture
  pub find : Text
  pub terms : List Term
  pub rows : Rows
  pub empty : Option Text
  pub waited : Text
  pub message : Text

-- The text of an empty list; a list with rows hides it.
abbrev empty_text : List Filed → List Capture → Option Text
empty_text (row ∷ rows) caps = none
empty_text [] [] = some (codes "No captures yet.")
empty_text [] (c ∷ cs) = some (codes "No capture matches that.")

abbrev pub say : ℕ → List Term → Text
say zero terms = []
say (suc n) [] = []
say (suc n) (t ∷ ts) = codes "still reading " ++ decimal (suc n) ++ codes " of them"

unfoldable pub draw_files : Browser → Listing → Listing
unfolding file_rows decimal parse_find
draw_files b l =
    let terms = parse_find b l.find in
    let rows = file_rows b terms l.caps in
    let said = say rows.waiting terms in
    record l {
      terms = terms;
      rows = rows;
      empty = empty_text rows.filed l.caps;
      waited = said;
      message = if not (is_empty said) || not (is_empty l.waited) then said else l.message;
    }

-- `find`, less the anchor of the picks that it resets.
unfoldable pub find_in : Browser → Text → Listing → Listing
unfolding draw_files
find_in b text l = draw_files b (record l { find = text })

-- What a scan answers.
pub record Scan : Type 0 where
  pub protos : List Text
  pub partial : Bool

unfoldable pub scanned : Scan → Capture → Capture
scanned res c = record c { protos = some res.protos; partial = res.partial }

module _ (b : Browser) (scan : Text → Option Scan) (busy overtaken : ℕ → Bool) where
  -- What came of the call for the capture at an index of the list.
  abbrev pub scan_landed : ℕ → Capture → Option Scan → Listing → Listing
  scan_landed i c none l = l
  scan_landed i c (some res) l = draw_files b (record l { caps = set l.caps i (scanned res c) })

  -- The loop of `scanAll` from an index on. It ends where a capture has been opened or another
  -- scan has begun: `busy` says so before the call for a capture, `overtaken` after it.
  unfoldable pub scan_from : ℕ → List Capture → Listing → Listing
  unfolding draw_files scanned
  scan_from i [] l = l
  scan_from i (c ∷ cs) l =
      let skipped = scan_from (suc i) cs l in
      let landed = scan_from (suc i) cs (scan_landed i c (scan c.name) l) in
      if busy i
      then l
      else if not (is_none c.protos)
      then skipped
      else if overtaken i
      then l
      else landed

  unfoldable pub scan_all : Listing → Listing
  unfolding scan_from
  scan_all l = scan_from 0 l.caps l

-- `toFixed(0)` of n / 1024, and `toFixed(1)` of n / 2 ^ k, which binary fractions hold exactly:
-- the nearest, and of two the larger.
abbrev kilos : ℕ → ℕ
kilos n = (n + 512) / 1024

abbrev pub tenths : ℕ → ℕ → ℕ
tenths n unit = (n * 20 + unit) / (unit * 2)

abbrev one_place : ℕ → Text
one_place t = decimal (t / 10) ++ codes "." ++ decimal (t % 10)

unfoldable pub human : ℕ → Text
unfolding decimal
human n =
    if ltb n 1024
    then decimal n ++ codes " B"
    else if ltb n 1048576
    then decimal (kilos n) ++ codes " kB"
    else if ltb n 1073741824
    then one_place (tenths n 1048576) ++ codes " MB"
    else one_place (tenths n 1073741824) ++ codes " GB"

-- `counter` on the list of captures: its text and its tooltip.
unfoldable pub counter : Listing → Text × Text
unfolding decimal
counter l =
    let shown = length l.rows.filed in
    let all = length l.caps in
    if all == 0
    then ([], [])
    else if is_empty l.find
    then (decimal all, codes "captures")
    else (decimal shown ++ codes " of " ++ decimal all, codes "matching captures")
