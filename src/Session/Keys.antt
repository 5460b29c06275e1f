-- ===== src/Session/Keys.antt =====
-- The keys that no box keeps for itself, of src/web/app.js: the last `keydown` listener, as what it
-- asks for, given where the page is.
mod Tests
use webshark.Prelude.{
  ℕ, ◌-◌, ◌/◌, Text, Bool, true, false, not, ◌&&◌, ◌||◌, Option, none, some, ◌≡◌, refl, is_none,
  if◌then◌else◌, max,
}
use webshark.Selecting.{Jump, down, up}
use webshark.Session.{Session}

pub data Key : Type 0 where
  escape slash f v arrow_down arrow_up page_down page_up home end other : Key

-- The key, with ctrl or cmd, and whether an input has the focus.
pub record Press : Type 0 where
  pub key : Key
  pub ctrl : Bool
  pub in_box : Bool

-- What the page is asked for.
pub data Ask : Type 0 where
  nothing pops clears_filter clears_find focuses first_row last_row : Ask
  switches : Bool → Ask
  moves : Jump → Ask

-- `rows`, of `list.clientHeight`
abbrev pub page_rows : ℕ → ℕ → ℕ
page_rows view row = max 1 (view / row - 1)

-- In the viewer: whether the diagram is there to switch to, whether the count is final, and the
-- rows of a page.
abbrev in_viewer : Session → Bool → Bool → ℕ → Key → Bool → Ask
in_viewer s diagram ended rows v ctrl =
    if not ctrl && diagram then switches (not s.flow) else nothing
in_viewer s diagram ended rows arrow_down ctrl = moves (down 1)
in_viewer s diagram ended rows arrow_up ctrl = moves (up 1)
in_viewer s diagram ended rows page_down ctrl = moves (down rows)
in_viewer s diagram ended rows page_up ctrl = moves (up rows)
in_viewer s diagram ended rows home ctrl = first_row
in_viewer s diagram ended rows end ctrl = if ended then last_row else nothing
in_viewer s diagram ended rows escape ctrl = nothing
in_viewer s diagram ended rows slash ctrl = nothing
in_viewer s diagram ended rows f ctrl = nothing
in_viewer s diagram ended rows other ctrl = nothing

abbrev in_page : Session → Bool → Bool → ℕ → Key → Bool → Ask
in_page s diagram ended rows key ctrl =
    if is_none s.file then nothing else in_viewer s diagram ended rows key ctrl

abbrev in_box_key : Session → Key → Ask
in_box_key s escape = if is_none s.file then clears_find else clears_filter
in_box_key s key = nothing

abbrev page_key : Session → Bool → Bool → ℕ → Key → Bool → Ask
page_key s diagram ended rows escape ctrl = pops
page_key s diagram ended rows slash ctrl = focuses
page_key s diagram ended rows f ctrl = if ctrl then focuses else in_page s diagram ended rows f ctrl
page_key s diagram ended rows key ctrl = in_page s diagram ended rows key ctrl

abbrev is_escape : Key → Bool
is_escape escape = true
is_escape key = false

unfoldable pub key_down : Session → Bool → Bool → ℕ → Press → Ask
key_down s diagram ended rows p =
    if is_escape p.key && s.drawer
    then pops
    else if p.in_box
    then in_box_key s p.key
    else page_key s diagram ended rows p.key p.ctrl
