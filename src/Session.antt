-- ===== src/Session.antt =====
-- Where the page is, of src/web/app.js: the capture that is open and the frame that is selected,
-- the drawer and the completion list over them (`pop`, `closeCapture`, `files`, `openCapture`),
-- and the hash that says it all (`sync`, `restore`).
pub mod Levels
pub mod Address
pub mod Keys
mod Tests
use webshark.Prelude.{
  ℕ, zero, suc, ◌+◌, ◌-◌, String, Text, codes, Bool, true, false, not, ◌&&◌, Option, none, some,
  List, [], ◌∷◌, ◌++◌, ◌==◌, nat_eq, text_eq, if◌then◌else◌, get_elem?, get, contains, is_empty,
  is_none, decimal,
}
use webshark.Pages.{Row}
use webshark.Pages.Locate.{find_index}
use webshark.Captures.Names.{names_in}
use webshark.Captures.Picking.{Picks, add_all, pick_none}

-- The fields of `S` that say where the page is, `anchor`, and whether the drawer and the
-- completion list are on the screen.
pub record Session : Type 0 where
  pub file : Option Text
  pub filter : Text
  pub find : Text
  pub picks : Picks
  pub selected : Option ℕ
  pub want : ℕ
  pub flow : Bool
  pub drawer : Bool
  pub completing : Bool

-- `drawer`
unfoldable pub open_drawer : Bool → Session → Session
open_drawer on s = record s { drawer = on }

unfoldable pub close_complete : Session → Session
close_complete s = record s { completing = false }

-- What of `deselect` the page can tell afterwards.
unfoldable pub deselect : Session → Session
deselect s = record s { selected = none; want = 0 }

-- `files`, up to the listing that it asks for.
unfoldable pub files : Session → Session
unfolding close_complete
files s = close_complete (record s { file = none })

abbrev pub still_listed : List Text → List Text → List Text
still_listed caps [] = []
still_listed caps (name ∷ picked) =
    let rest = still_listed caps picked in if contains caps name then name ∷ rest else rest

-- ... and what it does with the listing: a capture that is gone is not picked any more.
unfoldable pub listed : List Text → Session → Session
listed caps s = record s {
  picks = record { picked = still_listed caps s.picks.picked; anchor = s.picks.anchor };
}

-- Back to the list, and the capture that the server is told to close.
unfoldable pub close_capture : Session → Session × Option Text
unfolding files
close_capture s = (files s, s.file)

-- One level back, and whether there was one.
unfoldable pub pop : Session → Session × Bool
unfolding open_drawer close_complete deselect close_capture pick_none
pop s =
    if s.drawer
    then (open_drawer false s, true)
    else if s.completing
    then (close_complete s, true)
    else if not (is_none s.selected)
    then (deselect s, true)
    else if not (is_none s.file)
    then ((close_capture s).0, true)
    else if not (is_empty s.picks.picked)
    then (record s { picks = pick_none s.picks }, true)
    else (s, false)

-- What the server says of a capture: whether it opens, with addresses for a diagram or without, and
-- the frames that match a filter, in their order.
pub record Server : Type 0 where
  pub status : Text → Option Bool
  pub rows : Text → Text → List Row

module _ (server : Server) where
  -- `select` of a row that is there
  abbrev pub selected_at : Session → ℕ → Option Row → Session
  selected_at s i none = s
  selected_at s i (some row) = record s { selected = some i; want = row.n }

  -- The row index of a frame number: its own where nothing is filtered, and else what `locate` finds.
  abbrev pub row_index : Text → Text → ℕ → Option ℕ
  row_index file filter num =
      if is_empty filter then some (num - 1) else find_index num (server.rows file filter)

  abbrev pub gone_to : Text → Text → Session → Option ℕ → Session
  gone_to file filter s none = s
  gone_to file filter s (some i) = selected_at s i (get_elem? (server.rows file filter) i)

  -- `openCapture`, with `as === 'flow'` for its last argument
  unfoldable pub open_capture : Text → Text → ℕ → Bool → Session → Session
  unfolding files
  open_capture file want num as_flow s = elim (server.status file) [
    | none ↦ files s
    | some diagram ↦
        let opened = record s {
          file = some file;
          filter = want;
          selected = none;
          flow = as_flow && diagram;
        } in
        if num == 0 then opened else gone_to file want opened (row_index file want num)
  ]

abbrev pub set_if : Bool → String → Text → List (Text × Text) → List (Text × Text)
set_if on key value rest = if on then (codes key, value) ∷ rest else rest

abbrev pub file_of : Option Text → Text
file_of none = []
file_of (some file) = file

-- The pairs that `sync` sets, in its order.
unfoldable pub address : Session → List (Text × Text)
address s =
    let file = file_of s.file in
    set_if (not (is_empty file)) "f" file (
      set_if (not (is_empty s.find)) "s" s.find (
        set_if (not (is_empty s.filter)) "q" s.filter (
          set_if (not (is_none s.selected) && not (s.want == 0)) "n" (decimal s.want)
            (set_if (not (is_empty file) && s.flow) "v" (codes "flow") []))))

-- `p.get(key) || ''`
abbrev pub field : String → List (Text × Text) → Text
field key pairs = elim (get pairs (codes key)) [ none ↦ [] | some value ↦ value ]

abbrev pub picks_of : Text → Picks → Picks
picks_of f p =
    if contains f b',' then record { picked = add_all (names_in f) []; anchor = p.anchor } else p

-- `restore`, with what it read.
unfoldable pub visit : Server → Text → Text → Text → ℕ → Bool → Session → Session
unfolding open_capture names_in add_all files
visit server f find filter num as_flow s =
    let found = record s { find = find; picks = picks_of f s.picks } in
    if is_empty f then files found else open_capture server f filter num as_flow found

unfoldable pub restore_from : Server → (Text → ℕ) → List (Text × Text) → Session → Session
unfolding visit
restore_from server number p s =
    visit server (field "f" p) (field "s" p) (field "q" p) (number (field "n" p))
      (field "v" p == codes "flow") s

-- `URLSearchParams` writes the pairs as the hash and reads them out of it; `number` is `+text || 0`.
module _ (Hash : Type 0) (write : List (Text × Text) → Hash)
    (read : Hash → List (Text × Text)) where
  -- The hash that `sync` leaves: it is written where it is another than the one that is there.
  unfoldable pub sync : Session → Hash
  unfolding address
  sync s = write (address s)

  unfoldable pub restore : Server → (Text → ℕ) → Hash → Session → Session
  unfolding restore_from
  restore server number hash s = restore_from server number (read hash) s
