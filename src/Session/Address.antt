-- ===== src/Session/Address.antt =====
-- The hash holds the view: what `restore` makes of what `sync` wrote.
use webshark.Prelude.{
  ℕ, ◌≢◌, Text, codes, ◌≡◌, Bool, not, ◌&&◌, Option, none, some, List, [], ◌==◌, nat_eq, text_eq,
  if◌then◌else◌, get_elem?, is_none,
}
use webshark.Pages.{Row}
use webshark.Session.{Session, Server, open_capture, set_if, row_index}

-- The selection is a row of the view: the frame wanted is that row's, and the index the frame's.
abbrev pub Chosen : Server → Text → Text → ℕ → Option ℕ → Type 0
Chosen server file filter want none = Unit
Chosen server file filter want (some i) =
    (want ≢ 0)
    × (row_index server file filter want ≡ some i)
    × ((row : Row) × (get_elem? (server.rows file filter) i ≡ some row) × (row.n ≡ want))

-- A view of a capture that the server still opens, and a diagram only where it has one.
pub record IsShown (server : Server) (s : Session) (file : Text) : Type 0 where
  pub opened : s.file ≡ some file
  pub named : file ≢ []
  pub status :
      (diagram : Bool) × (server.status file ≡ some diagram) × ((s.flow && diagram) ≡ s.flow)
  pub chosen : Chosen server file s.filter s.want s.selected

-- What the hash says of the view.
abbrev pub view_of : Session → Option Text × Text × Text × Option ℕ × Bool
view_of s = (s.file, s.filter, s.find, s.selected, s.flow)

abbrev pairs : Bool → Text → Bool → Text → Bool → Text → Bool → Text → Bool → List (Text × Text)
pairs fb f sb s qb q nb n vb =
    set_if fb "f" f
      (set_if sb "s" s (set_if qb "q" q (set_if nb "n" n (set_if vb "v" (codes "flow") []))))

-- The number that `restore` reads for the frame.
abbrev number_of : Session → ℕ
number_of s = if not (is_none s.selected) && not (s.want == 0) then s.want else 0

module _ (server : Server) (s found : Session) (file : Text) (v : IsShown server s file) where
  abbrev reopened : ℕ → Session
  reopened num = open_capture server file s.filter num s.flow found
