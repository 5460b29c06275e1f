-- ===== src/Settings/Remembered/Laws.antt =====
-- What is laid out and remembered after any captures opened and left, Time columns and themes
-- picked, views switched and breakpoints crossed.
use webshark.Prelude.{
  ℕ, Text, ◌≡◌, ◌≢◌, refl, sym, ap, subst, ◌∙◌, Bool, true, false, not, Option, none, some, List,
  [], arith,
}
use webshark.Columns.{Shape}
use webshark.Settings.{fit}
use webshark.Settings.Grid.{Gutter, gutter}
use webshark.Settings.Remembered.{
  Theme, boot, Status, Screen, lay_gutter, lay_columns, lay_head, measure, switch_view, open_status,
  retime, toggle_view, close_list, cross, observed, observe, pick_theme,
}
use webshark.Settings.Remembered.Kept.{
  IsOffered, IsKept, theme-IsKept, keep_time-IsKept, boot-time, boot-IsKept,
}
use webshark.Settings.Remembered.Laid.{
  IsLaid, fit-fit, fit_nothing, opens-IsLaid, retime-IsLaid, toggle-IsLaid, leave-IsLaid,
  cross-IsLaid, observe-IsLaid, retime-same, observe-same, theme-IsLaid,
}

-- A view is built, by `openCapture` or by its button, only in a window whose last crossing of the
-- breakpoint the page has measured. The button is there only where the capture has a diagram. The
-- browser calls the observer where the list's box has changed, so less often than the steps do: a
-- list that is hidden has no box to change.
pub data Step : Screen → Screen → Type 0 where
  opens :
      (st : Status) (want : Bool) (s : Screen)
      → s.css_phone ≡ s.phone
      → Step s (open_status st want s)
  retimes : (t : Shape) (s : Screen) → IsOffered t → Step s (retime t s)
  toggles :
      (st : Status) (s : Screen) → s.st ≡ some st → s.css_phone ≡ s.phone → Step s (toggle_view s)
  leaves : (s : Screen) → Step s (close_list s)
  crosses : (s : Screen) → Step s (cross s)
  observes : (s : Screen) → Step s (observe s)
  themes : (t : Theme) (s : Screen) → Step s (pick_theme t s)

pub data Reach (s : Screen) : Screen → Type 0 where
  here : Reach s s
  next : {t u : Screen} → Reach s t → Step t u → Reach s u

-- The page as it is before a capture is opened, in a window that is a phone's or not.
abbrev pub started : List (Text × Text) → Bool → Screen
started stored phone = record {
  prefs = boot stored;
  css_phone = phone;
  phone = phone;
  flow = false;
  st = none;
  fits = [];
  vis = [];
  gutter_of = gutter phone [] (boot stored).time;
  head_of = none;
}

record InStep (s : Screen) : Type 0 where
  laid : IsLaid s
  kept : IsKept s.prefs
  fitted : (d : Option ℕ) × (s.fits ≡ fit d [])

Step-InStep : {s t : Screen} → Step s t → InStep s → InStep t
unfolding open_status retime close_list cross observe toggle_view pick_theme switch_view measure
    lay_head lay_columns lay_gutter
Step-InStep (Step.opens st want s seen) i = record {
  laid = opens-IsLaid st want s seen i.fitted;
  kept = i.kept;
  fitted = (st.duration, ap (fit st.duration) i.fitted.1 ∙ fit-fit i.fitted.0 st.duration);
}
Step-InStep (Step.retimes t s offered) i = record {
  laid = retime-IsLaid t s i.laid;
  kept = subst IsKept (sym (retime-same t s).0) (keep_time-IsKept t s.prefs offered i.kept);
  fitted = (i.fitted.0, (retime-same t s).1 ∙ i.fitted.1);
}
Step-InStep (Step.toggles st s is seen) i = record {
  laid = toggle-IsLaid s seen i.laid;
  kept = i.kept;
  fitted = i.fitted;
}
Step-InStep (Step.leaves s) i = record {
  laid = leave-IsLaid s i.laid;
  kept = i.kept;
  fitted = i.fitted;
}
Step-InStep (Step.crosses s) i = record {
  laid = cross-IsLaid s i.laid;
  kept = i.kept;
  fitted = i.fitted;
}
Step-InStep (Step.observes s) i = record {
  laid = observe-IsLaid s i.laid;
  kept = subst IsKept (sym (observe-same s).0) i.kept;
  fitted = (i.fitted.0, (observe-same s).1 ∙ i.fitted.1);
}
Step-InStep (Step.themes t s) i = record {
  laid = theme-IsLaid t s i.laid;
  kept = theme-IsKept t s.prefs i.kept.time_kept;
  fitted = i.fitted;
}

Reach-InStep : {s t : Screen} → Reach s t → InStep s → InStep t
Reach-InStep Reach.here i = i
Reach-InStep (Reach.next run step) i = Step-InStep step (Reach-InStep run i)

-- Whatever was stored, and whatever captures are opened and left, Time columns and themes picked,
-- views switched and breakpoints crossed since the page was loaded, where every crossing is measured
-- before a view is built: the gutter is that of the window as it was last measured, the capture and
-- the Time column picked, and so are the columns and, in the list, its tracks; and a reload has the
-- Time column and the theme that are in force.
pub Reach-IsLaid :
    (stored : List (Text × Text)) (phone : Bool) {s : Screen}
    → Reach (started stored phone) s
    → IsLaid s
      × ((boot s.prefs.stored).time ≡ s.prefs.time)
      × ((boot s.prefs.stored).data_theme ≡ s.prefs.data_theme)
Reach-IsLaid stored phone {s} run =
    let i = Reach-InStep run (record {
      laid = record {
        gutter_now = refl;
        fits_now = λ st is. absurd (cc);
        columns_now = λ st is. absurd (cc);
        head_now = λ st is. absurd (cc);
      };
      kept = boot-IsKept stored;
      fitted = (none, fit_nothing);
    }) in
    (i.laid, boot-time s.prefs.stored ∙ i.kept.time_kept, i.kept.theme_kept)

two_gutters :
    (b c : Bool) (fits : List (Text × ℕ)) (t : Shape)
    → c ≡ not b
    → gutter b fits t ≢ gutter c fits t
unfolding gutter
two_gutters true c fits t e same =
    let widths : 10 ≡ (gutter c fits t).fxw = ap (λ (g : Gutter). g.fxw) same in
    omega (arith, widths ∙ ap (λ (d : Bool). (gutter d fits t).fxw) e)
two_gutters false c fits t e same =
    let widths : 14 ≡ (gutter c fits t).fxw = ap (λ (g : Gutter). g.fxw) same in
    omega (arith, widths ∙ ap (λ (d : Bool). (gutter d fits t).fxw) e)

observed_twice : (b : Bool) (s : Screen) → s.phone ≡ b → observed b s ≡ s
observed_twice true s e = rw e refl
observed_twice false s e = rw e refl

-- A crossing that is not measured before a capture is opened is lost on the gutter: opening measures
-- it after the gutter is laid out, the observer then sees none, and the gutter is another than the
-- window's.
pub open_status-cross :
    (st : Status) (want : Bool) (s : Screen)
    → s.css_phone ≡ not s.phone
    → (let t = observe (open_status st want s) in
        (t.phone ≡ s.css_phone) × (t.gutter_of ≢ gutter t.phone t.fits t.prefs.time))
unfolding observe open_status switch_view measure lay_head lay_gutter lay_columns
open_status-cross st want s crossed =
    subst
      (λ (t : Screen). (t.phone ≡ s.css_phone) × (t.gutter_of ≢ gutter t.phone t.fits t.prefs.time))
      (sym (observed_twice s.css_phone (open_status st want s) refl))
      (refl, two_gutters s.phone s.css_phone (fit st.duration s.fits) s.prefs.time crossed)
