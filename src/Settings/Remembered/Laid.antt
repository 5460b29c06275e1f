-- ===== src/Settings/Remembered/Laid.antt =====
-- What is laid out for the window, the capture and the Time column, and that each operation of the
-- page leaves it so.
use mathlib.Core.Option.{some-injective}
use webshark.Prelude.{
  ℕ, ◌≡◌, refl, sym, ap, subst, ◌∙◌, inl, inr, Bool, true, false, not, ◌&&◌, Option, none, some, [],
  if_case, Bool-cases, Option-cases,
}
use webshark.Columns.{Shape, visible_columns, no_diagram}
use webshark.Settings.{fit, unfit, fit_all}
use webshark.Settings.Grid.{gutter, head}
use webshark.Settings.Remembered.{
  Theme, keep_time, Status, Screen, lay_gutter, lay_columns, lay_head, measure, switch_view,
  open_status, retimed, retime, toggle_view, close_list, cross, observed, observe, pick_theme,
}
use webshark.Settings.Remembered.Kept.{theme-time}

-- The gutter is that of the window, the capture and the Time column picked; so are the columns and,
-- while the list is on screen, its tracks.
pub record IsLaid (s : Screen) : Type 0 where
  pub gutter_now : s.gutter_of ≡ gutter s.phone s.fits s.prefs.time
  pub fits_now : (st : Status) → s.st ≡ some st → s.fits ≡ fit st.duration []
  pub columns_now : (st : Status) → s.st ≡ some st → s.vis ≡ visible_columns st.columns s.prefs.time
  pub head_now :
      (st : Status)
      → s.st ≡ some st
      → s.flow ≡ false
      → s.head_of ≡ some (head s.phone s.fits s.prefs.time st.columns s.vis)

-- `fit` forgets the capture before.
pub fit-fit : (d e : Option ℕ) → fit e (fit d []) ≡ fit e []
unfolding fit unfit fit_all
fit-fit none none = refl
fit-fit none (some secs) = refl
fit-fit (some s) none = refl
fit-fit (some s) (some secs) = refl

pub fit_nothing : [] ≡ fit none []
unfolding fit unfit
fit_nothing = refl

-- `head` lays the list out if it is on screen.
lay_head-IsLaid :
    (s : Screen)
    → s.gutter_of ≡ gutter s.phone s.fits s.prefs.time
    → ((st : Status) → s.st ≡ some st → s.fits ≡ fit st.duration [])
    → ((st : Status) → s.st ≡ some st → s.vis ≡ visible_columns st.columns s.prefs.time)
    → IsLaid (lay_head s)
unfolding lay_head
lay_head-IsLaid s g f c = record {
  gutter_now = g;
  fits_now = f;
  columns_now = c;
  head_now = λ st e list. rw (list, e) refl;
}

lay_columns-IsLaid :
    (st : Status) (s : Screen)
    → s.gutter_of ≡ gutter s.phone s.fits s.prefs.time
    → s.fits ≡ fit st.duration []
    → IsLaid (lay_head (lay_columns st s))
unfolding lay_columns
lay_columns-IsLaid st s g f =
    lay_head-IsLaid (lay_columns st s) g
      (λ st' e. f ∙ ap (λ (o : Status). fit o.duration []) (some-injective st st' e))
      (λ st' e.
        ap (λ (o : Status). visible_columns o.columns s.prefs.time) (some-injective st st' e))

pub opens-IsLaid :
    (st : Status) (want : Bool) (s : Screen)
    → s.css_phone ≡ s.phone
    → (d : Option ℕ) × (s.fits ≡ fit d [])
    → IsLaid (open_status st want s)
unfolding open_status switch_view measure lay_columns lay_gutter
opens-IsLaid st want s seen (d, e) =
    let shown = lay_gutter (lay_columns st (record s { fits = fit st.duration s.fits })) in
    lay_head-IsLaid
      (measure (record shown { flow = want && not (no_diagram st.columns s.prefs.time) }))
      (ap (λ (b : Bool). gutter b (fit st.duration s.fits) s.prefs.time) (sym seen))
      (λ st' same.
        ap (fit st.duration) e
        ∙ fit-fit d st.duration
        ∙ ap (λ (o : Status). fit o.duration []) (some-injective st st' same))
      (λ st' same.
        ap (λ (o : Status). visible_columns o.columns s.prefs.time) (some-injective st st' same))

pub retime-IsLaid : (t : Shape) (s : Screen) → IsLaid s → IsLaid (retime t s)
unfolding retime lay_gutter
retime-IsLaid t s laid =
    let picked = lay_gutter (record s { prefs = keep_time t s.prefs }) in
    elim (Option-cases s.st) [
      | inl none_yet ↦
          subst (λ (o : Option Status). IsLaid (retimed o picked)) (sym none_yet)
            (record {
              gutter_now = refl;
              fits_now = laid.fits_now;
              columns_now = λ st is. absurd (cc);
              head_now = λ st is. absurd (cc);
            })
      | inr (st, is) ↦
          subst (λ (o : Option Status). IsLaid (retimed o picked)) (sym is)
            (lay_columns-IsLaid st picked refl (laid.fits_now st is))
    ]

pub toggle-IsLaid : (s : Screen) → s.css_phone ≡ s.phone → IsLaid s → IsLaid (toggle_view s)
unfolding toggle_view switch_view measure
toggle-IsLaid s seen laid =
    lay_head-IsLaid (measure (record s { flow = not s.flow }))
      (laid.gutter_now ∙ ap (λ (b : Bool). gutter b s.fits s.prefs.time) (sym seen)) laid.fits_now
      laid.columns_now

pub leave-IsLaid : (s : Screen) → IsLaid s → IsLaid (close_list s)
unfolding close_list
leave-IsLaid s laid = record {
  gutter_now = laid.gutter_now;
  fits_now = λ st is. absurd (cc);
  columns_now = λ st is. absurd (cc);
  head_now = λ st is. absurd (cc);
}

pub cross-IsLaid : (s : Screen) → IsLaid s → IsLaid (cross s)
unfolding cross
cross-IsLaid s laid = record {
  gutter_now = laid.gutter_now;
  fits_now = laid.fits_now;
  columns_now = laid.columns_now;
  head_now = laid.head_now;
}

relaid : (s : Screen) → IsLaid s → IsLaid (lay_head (lay_gutter (measure s)))
unfolding lay_gutter measure
relaid s laid = lay_head-IsLaid (lay_gutter (measure s)) refl laid.fits_now laid.columns_now

unmoved : (s : Screen) → s.css_phone ≡ s.phone → IsLaid s → IsLaid (measure s)
unfolding measure
unmoved s same laid = subst (λ (b : Bool). IsLaid (record s { phone = b })) (sym same) laid

pub observe-IsLaid : (s : Screen) → IsLaid s → IsLaid (observe s)
unfolding observe measure
observe-IsLaid s laid = elim (Bool-cases s.phone) [
  | inl was ↦
      subst (λ (b : Bool). IsLaid (observed b (measure s))) (sym was)
        (if_case IsLaid s.css_phone (λ e. unmoved s (e ∙ sym was) laid) (λ e. relaid s laid))
  | inr wide ↦
      subst (λ (b : Bool). IsLaid (observed b (measure s))) (sym wide)
        (if_case IsLaid s.css_phone (λ e. relaid s laid) (λ e. unmoved s (e ∙ sym wide) laid))
]

retimed-same :
    (o : Option Status) (s : Screen)
    → ((retimed o s).prefs ≡ s.prefs) × ((retimed o s).fits ≡ s.fits)
unfolding lay_columns lay_head
retimed-same none s = (refl, refl)
retimed-same (some st) s = (refl, refl)

pub retime-same :
    (t : Shape) (s : Screen)
    → ((retime t s).prefs ≡ keep_time t s.prefs) × ((retime t s).fits ≡ s.fits)
unfolding retime lay_gutter
retime-same t s = retimed-same s.st (lay_gutter (record s { prefs = keep_time t s.prefs }))

observed-same :
    (was : Bool) (s : Screen)
    → ((observed was s).prefs ≡ s.prefs) × ((observed was s).fits ≡ s.fits)
unfolding lay_gutter lay_head
observed-same true s =
    if_case (λ (t : Screen). (t.prefs ≡ s.prefs) × (t.fits ≡ s.fits)) s.phone (λ e. (refl, refl))
      (λ e. (refl, refl))
observed-same false s =
    if_case (λ (t : Screen). (t.prefs ≡ s.prefs) × (t.fits ≡ s.fits)) s.phone (λ e. (refl, refl))
      (λ e. (refl, refl))

pub observe-same : (s : Screen) → ((observe s).prefs ≡ s.prefs) × ((observe s).fits ≡ s.fits)
unfolding observe measure
observe-same s = observed-same s.phone (measure s)

pub theme-IsLaid : (t : Theme) (s : Screen) → IsLaid s → IsLaid (pick_theme t s)
unfolding pick_theme
theme-IsLaid t s laid =
    let e = sym (theme-time t s.prefs).1 in
    record {
      gutter_now = laid.gutter_now ∙ ap (gutter s.phone s.fits) e;
      fits_now = laid.fits_now;
      columns_now = λ st is. laid.columns_now st is ∙ ap (visible_columns st.columns) e;
      head_now = λ st is list.
          laid.head_now st is list
          ∙ ap (λ (x : Shape). some (head s.phone s.fits x st.columns s.vis)) e;
    }
