-- ===== src/Settings/Remembered.antt =====
-- What the drawer of src/web/app.js picks and keeps: `theme`, `retime` and what the page starts with,
-- over localStorage, and what is laid out again when a capture is opened (`openCapture`) or left
-- (`files`), the Time column picked, the view switched (`view`), or the window crosses the phone's
-- breakpoint, which `measure` reads off the stylesheet.
pub mod Kept
pub mod Laid
pub mod Laws
use webshark.Prelude.{
  ℕ, Text, codes, Bool, true, false, not, ◌&&◌, ◌||◌, Option, none, some, List, [], ◌∷◌, ◌==◌,
  text_eq, if◌then◌else◌, get, put, remove,
}
use webshark.Columns.{ColumnInfo, Shape, Drawn, relative, times, visible_columns, no_diagram}
use webshark.Settings.{fit}
use webshark.Settings.Grid.{Gutter, gutter, Head, head}

-- The keys of `THEMES`.
pub data Theme : Type 0 where
  system light dark : Theme

abbrev pub theme_key : Theme → Text
theme_key system = codes "system"
theme_key light = codes "light"
theme_key dark = codes "dark"

-- `TIMES.find(t => t.key === stored) || TIMES[0]`
unfoldable pub shape_in : List Shape → Option Text → Shape
shape_in ts none = relative
shape_in [] (some key) = relative
shape_in (t ∷ ts) (some key) = if codes t.key == key then t else shape_in ts (some key)

-- `THEMES.find(t => t.key === stored) || THEMES[0]`
unfoldable pub themed : Option Text → Theme
themed none = system
themed (some key) =
    if codes "light" == key then light else if codes "dark" == key then dark else system

-- `TIME`, `data-theme`, and localStorage.
pub record Prefs : Type 0 where
  pub time : Shape
  pub data_theme : Option Text
  pub stored : List (Text × Text)

unfoldable pub theme : Theme → Prefs → Prefs
theme system p = record p { data_theme = none; stored = remove p.stored (codes "theme") }
theme light p = record p {
  data_theme = some (codes "light");
  stored = put p.stored (codes "theme") (codes "light");
}
theme dark p = record p {
  data_theme = some (codes "dark");
  stored = put p.stored (codes "theme") (codes "dark");
}

-- The first lines of `retime`.
unfoldable pub keep_time : Shape → Prefs → Prefs
keep_time t p = record p { time = t; stored = put p.stored (codes "time") (codes t.key) }

-- The page as it loads.
unfoldable pub boot : List (Text × Text) → Prefs
unfolding shape_in themed theme
boot stored = theme (themed (get stored (codes "theme"))) (record {
  time = shape_in times (get stored (codes "time"));
  data_theme = none;
  stored = stored;
})

-- `S.st`: the columns, and the whole seconds that the capture ran, if the server says.
pub record Status : Type 0 where
  pub columns : List ColumnInfo
  pub duration : Option ℕ

-- What is laid out: `PHONE`, `S.view`, `S.st`, `FIT`, `S.vis`, the gutter, and what `head` wrote; and
-- `--phone` of the stylesheet, which is the window's and which `PHONE` is read off.
pub record Screen : Type 0 where
  pub prefs : Prefs
  pub css_phone : Bool
  pub phone : Bool
  pub flow : Bool
  pub st : Option Status
  pub fits : List (Text × ℕ)
  pub vis : List Drawn
  pub gutter_of : Gutter
  pub head_of : Option Head

unfoldable pub lay_gutter : Screen → Screen
unfolding gutter
lay_gutter s = record s { gutter_of = gutter s.phone s.fits s.prefs.time }

-- `columns`: without a diagram to offer the view is the list.
unfoldable pub lay_columns : Status → Screen → Screen
unfolding visible_columns no_diagram
lay_columns st s = record s {
  st = some st;
  flow = if no_diagram st.columns s.prefs.time then false else s.flow;
  vis = visible_columns st.columns s.prefs.time;
}

abbrev pub columns_in : Option Status → List ColumnInfo
columns_in none = []
columns_in (some st) = st.columns

-- `head`, which in the diagram leaves the list's as it is; without a capture there are no columns.
unfoldable pub lay_head : Screen → Screen
unfolding head
lay_head s = record s {
  head_of =
      if s.flow then s.head_of else some (head s.phone s.fits s.prefs.time (columns_in s.st) s.vis);
}

-- What `measure` does to `PHONE`.
unfoldable pub measure : Screen → Screen
measure s = record s { phone = s.css_phone }

-- `view`
unfoldable pub switch_view : Bool → Screen → Screen
unfolding measure lay_head
switch_view flow s = lay_head (measure (record s { flow = flow }))

-- `openCapture`, once the status is there; `want` is whether the address asks for the diagram.
unfoldable pub open_status : Status → Bool → Screen → Screen
unfolding fit lay_columns lay_gutter switch_view
open_status st want s =
    let laid = lay_gutter (lay_columns st (record s { fits = fit st.duration s.fits })) in
    switch_view (want && not (no_diagram st.columns laid.prefs.time)) laid

abbrev pub retimed : Option Status → Screen → Screen
retimed none picked = picked
retimed (some st) picked = lay_head (lay_columns st picked)

unfoldable pub retime : Shape → Screen → Screen
unfolding keep_time lay_gutter lay_columns lay_head
retime t s = retimed s.st (lay_gutter (record s { prefs = keep_time t s.prefs }))

-- The button of the view.
unfoldable pub toggle_view : Screen → Screen
unfolding switch_view
toggle_view s = switch_view (not s.flow) s

-- What `files` does to the status; the viewer is hidden.
unfoldable pub close_list : Screen → Screen
close_list s = record s { st = none }

-- The window crosses the phone's breakpoint: the stylesheet says so at once, and nothing else does.
unfoldable pub cross : Screen → Screen
cross s = record s { css_phone = not s.css_phone }

-- The callback of the `ResizeObserver`: `was` is `PHONE` before it measures.
abbrev pub observed : Bool → Screen → Screen
observed true s = if s.phone then s else lay_head (lay_gutter s)
observed false s = if s.phone then lay_head (lay_gutter s) else s

unfoldable pub observe : Screen → Screen
unfolding measure lay_gutter lay_head
observe s = observed s.phone (measure s)

unfoldable pub pick_theme : Theme → Screen → Screen
unfolding theme
pick_theme t s = record s { prefs = theme t s.prefs }

-- A line of the drawer: its radio, the option's own text, and a sample where it has one.
pub record Radio : Type 0 where
  pub key : Text
  pub checked : Bool
  pub what : Text
  pub eg : Option Text

-- `options`, of the keys, the texts and the samples
unfoldable pub options : List (Text × Text × Option Text) → Text → List Radio
options [] on = []
options ((key, what, eg) ∷ opts) on =
    record { key = key; checked = key == on; what = what; eg = eg } ∷ options opts on

-- The two groups of the drawer.
unfoldable pub theme_options : Text → List Radio
unfolding options
theme_options on =
    options
      ((codes "system", codes "Follow the system", none)
        ∷ (codes "light", codes "Light", none)
        ∷ (codes "dark", codes "Dark", none)
        ∷ [])
      on

unfoldable pub time_options : Text → List Radio
unfolding options
time_options on =
    options
      ((codes "rel", codes "Since the capture began", some (codes "9.712970"))
        ∷ (codes "delta", codes "Since the previous displayed frame", some (codes "0.000840"))
        ∷ (codes "utc", codes "Absolute, in UTC", some (codes "2026-07-24 15:00:48.910089Z"))
        ∷ [])
      on
