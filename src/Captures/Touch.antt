-- ===== src/Captures/Touch.antt =====
-- A finger or a pointer on the rows of the capture list, of src/web/app.js: the press that picks a
-- row if it is held, `letgo`, and the click on a row. One pointer is down at a time.
mod Tests
use webshark.Prelude.{
  ℕ, ◌+◌, ◌-◌, ◌*◌, ◌≡◌, refl, ap, ◌∙◌, sym, subst, Text, Bool, true, false, not, ◌&&◌, ◌||◌,
  Option, none, some, List, [], ◌∷◌, if◌then◌else◌, is_empty, ltb, max, min, get_elem?,
}
use webshark.Captures.Picking.{Picks, pick_row}

-- Where a finger is.
pub record Finger : Type 0 where
  pub x : ℕ
  pub y : ℕ

-- `press` with the row its timer would pick, `held`, `pressed`, the picks, and the capture that a
-- click opened.
pub record Touched : Type 0 where
  pub press : Option ℕ
  pub held : Finger
  pub pressed : Bool
  pub picks : Picks
  pub opened : Option Text

abbrev apart : ℕ → ℕ → ℕ
apart a b = max a b - min a b

-- `Math.hypot(…) > 10`
unfoldable pub is_scroll : Finger → Finger → Bool
is_scroll a b = ltb 100 (apart a.x b.x * apart a.x b.x + apart a.y b.y * apart a.y b.y)

-- The pointer goes down: of a mouse or on the link of a download, or on a row, or beside them.
unfoldable pub press_down : Bool → Option ℕ → Finger → Touched → Touched
press_down mouse_or_link none at r = record r { pressed = false }
press_down true (some i) at r = record r { pressed = false }
press_down false (some i) at r = record r { pressed = false; held = at; press = some i }

-- `letgo`, of the pointer coming up or leaving too
unfoldable pub let_go : Touched → Touched
let_go r = record r { press = none }

abbrev moved_press : Bool → Option ℕ → Option ℕ
moved_press scrolled none = none
moved_press scrolled (some i) = if scrolled then none else some i

unfoldable pub press_move : Finger → Touched → Touched
unfolding is_scroll
press_move at r = record r { press = moved_press (is_scroll at r.held) r.press }

-- Where a click falls.
pub data Clicked : Type 0 where
  link beside : Clicked
  row : ℕ → Clicked

abbrev pub is_row : Clicked → Bool
is_row link = false
is_row beside = false
is_row (row i) = true

module _ (filed : List Text) where
  -- The timer, which was stopped if `press` is none.
  unfoldable pub press_held : Touched → Touched
  unfolding pick_row
  press_held r = elim r.press [
    | none ↦ r
    | some i ↦ record r { press = none; pressed = true; picks = pick_row filed i false r.picks }
  ]

  abbrev opened_at : ℕ → Touched → Touched
  opened_at i r = record r { opened = get_elem? filed i }

  -- A click, with shift, or with ctrl or cmd: on the link of a download, which is left to the
  -- browser, beside the rows, or on a row.
  unfoldable pub click_row : Bool → Bool → Clicked → Touched → Touched
  unfolding pick_row
  click_row shift ctrl link r = r
  click_row shift ctrl beside r = r
  click_row shift ctrl (row i) r =
      if r.pressed
      then record r { pressed = false }
      else if shift
      then record r { picks = pick_row filed i true r.picks }
      else if ctrl || not (is_empty r.picks.picked)
      then record r { picks = pick_row filed i false r.picks }
      else opened_at i r

  -- The moves of a finger, one after the other.
  unfoldable pub moves : List Finger → Touched → Touched
  unfolding press_move
  moves [] r = r
  moves (at ∷ path) r = moves path (press_move at r)

  -- No move of the path is a scroll.
  abbrev pub Still : Finger → List Finger → Type 0
  Still held [] = Unit
  Still held (at ∷ path) = (is_scroll at held ≡ false) × Still held path

  moved_false : (o : Option ℕ) → moved_press false o ≡ o
  moved_false none = refl
  moved_false (some i) = refl

  moves-Still : (path : List Finger) (r : Touched) → Still r.held path → moves path r ≡ r
  unfolding moves press_move
  moves-Still [] r still = refl
  moves-Still (at ∷ path) r (one, still) =
      ap (moves path) (
        ap (λ (b : Bool). record r { press = moved_press b r.press }) one
        ∙ ap (λ (o : Option ℕ). record r { press = o }) (moved_false r.press))
      ∙ moves-Still path r still

  moves_released : (path : List Finger) (r : Touched) → r.press ≡ none → moves path r ≡ r
  unfolding moves press_move
  moves_released [] r up = refl
  moves_released (at ∷ path) r up =
      ap (moves path) (
        ap (λ (o : Option ℕ). record r { press = moved_press (is_scroll at r.held) o }) up
        ∙ ap (λ (o : Option ℕ). record r { press = o }) (sym up))
      ∙ moves_released path r up

  Swallowed : ℕ → Touched → Clicked → Touched → Type 0
  Swallowed i r t after =
      (after.picks ≡ pick_row filed i false r.picks)
      × (after.opened ≡ r.opened)
      × (after.pressed ≡ not (is_row t))
      × (after.press ≡ none)

  click-Swallowed :
      (shift ctrl : Bool) (t : Clicked) (i : ℕ) (at : Finger) (r : Touched)
      → Swallowed i r t (
          click_row shift ctrl t (record r {
            press = none;
            held = at;
            pressed = true;
            picks = pick_row filed i false r.picks;
          }))
  unfolding click_row Swallowed
  click-Swallowed shift ctrl link i at r = (refl, refl, refl, refl)
  click-Swallowed shift ctrl beside i at r = (refl, refl, refl, refl)
  click-Swallowed shift ctrl (row j) i at r = (refl, refl, refl, refl)

  -- A finger that is held on a row, that moves no further than a scroll starts at until the timer
  -- fires, and that is let go after any further moves, with the click that follows, wherever it
  -- falls: it picks or unpicks the row, once, and opens nothing. If the click is on a row, `pressed`
  -- is taken back; if it is on the link of a download or beside the rows, it is still set.
  pub long_press :
      (i : ℕ) (at : Finger) (path later : List Finger) (shift ctrl : Bool) (t : Clicked)
      (r : Touched)
      → Still at path
      → let held = press_held (moves path (press_down false (some i) at r)) in
        let after = click_row shift ctrl t (let_go (moves later held)) in
        (after.picks ≡ pick_row filed i false r.picks)
        × (after.opened ≡ r.opened)
        × (after.pressed ≡ not (is_row t))
        × (after.press ≡ none)
  unfolding press_held press_down let_go Swallowed
  long_press i at path later shift ctrl t r still =
      let down = record r { pressed = false; held = at; press = some i } in
      let picked = record down {
        press = none;
        pressed = true;
        picks = pick_row filed i false r.picks;
      } in
      subst
        (λ (u : Touched).
          Swallowed i r t (click_row shift ctrl t (let_go (moves later (press_held u)))))
        (sym (moves-Still path down still))
        (subst (λ (u : Touched). Swallowed i r t (click_row shift ctrl t (let_go u)))
          (sym (moves_released later picked refl)) (click-Swallowed shift ctrl t i at r))

  -- A finger that scrolls before the timer fires picks nothing.
  pub press_scrolled :
      (i : ℕ) (at to : Finger) (path later : List Finger) (r : Touched)
      → Still at path
      → is_scroll to at ≡ true
      → let held =
          press_held (moves later (press_move to (moves path (press_down false (some i) at r)))) in
        (held.picks ≡ r.picks) × (held.pressed ≡ false)
  unfolding press_held press_down press_move
  press_scrolled i at to path later r still scrolls =
      let down = record r { pressed = false; held = at; press = some i } in
      let Unpicked = (λ (t : Touched). (t.picks ≡ r.picks) × (t.pressed ≡ false)) in
      subst (λ (t : Touched). Unpicked (press_held (moves later (press_move to t))))
        (sym (moves-Still path down still))
        (subst
          (λ (b : Bool).
            Unpicked (press_held (moves later (record down { press = moved_press b (some i) }))))
          (sym scrolls)
          (subst (λ (t : Touched). Unpicked (press_held t))
            (sym (moves_released later (record down { press = none }) refl)) (refl, refl)))
