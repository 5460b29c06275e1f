-- ===== src/Session/Levels.antt =====
-- What `pop` closes, after the button back to the list, and what the hash says until then.
use webshark.Prelude.{
  ℕ, String, Text, codes, ◌≡◌, refl, ◌∙◌, inl, inr, Bool-cases, Bool, true, false, not, ◌&&◌, none,
  some, List, [], ◌∷◌, ◌==◌, nat_eq, text_eq, if◌then◌else◌, get, is_empty, is_none, decimal,
}
use webshark.Captures.Picking.{pick_none}
use webshark.Session.{Session, pop, close_capture, address, set_if}

get-set_if :
    (on : Bool) (key : String) (value : Text) (rest : List (Text × Text)) (k : Text)
    → (codes key == k) ≡ false
    → get (set_if on key value rest) k ≡ get rest k
get-set_if true key value rest k apart = rw apart refl
get-set_if false key value rest k apart = refl

-- Without a capture, the hash names a frame where one is selected.
frame_named :
    (s : Session) (on : Bool)
    → s.file ≡ none
    → (not (is_none s.selected) && not (s.want == 0)) ≡ on
    → get (address s) (codes "n") ≡ (if on then some (decimal s.want) else none)
unfolding address
frame_named s true shut h =
    rw (shut, h)
      (get-set_if (not (is_empty s.find)) "s" s.find
          (set_if (not (is_empty s.filter)) "q" s.filter ((codes "n", decimal s.want) ∷ []))
          (codes "n") refl
        ∙ get-set_if (not (is_empty s.filter)) "q" s.filter ((codes "n", decimal s.want) ∷ [])
            (codes "n") refl)
frame_named s false shut h =
    rw (shut, h)
      (get-set_if (not (is_empty s.find)) "s" s.find
          (set_if (not (is_empty s.filter)) "q" s.filter []) (codes "n") refl
        ∙ get-set_if (not (is_empty s.filter)) "q" s.filter [] (codes "n") refl)

-- Going back to the list by the button keeps the selection: where a frame, whose number is not 0,
-- was selected and the drawer is shut, no capture is open then and the hash still names the frame.
-- The first press of back takes the selection away and nothing else, answers that it closed
-- something, and the hash names no frame any more; only the next press lets go of what is picked,
-- if anything is.
pub pop-close_capture :
    (s : Session) (i : ℕ)
    → s.selected ≡ some i
    → (s.want == 0) ≡ false
    → s.drawer ≡ false
    → let list = (close_capture s).0 in
      let pressed = record list { selected = none; want = 0 } in
      (list.file ≡ none)
      × (get (address list) (codes "n") ≡ some (decimal s.want))
      × (pop list ≡ (pressed, true))
      × (get (address pressed) (codes "n") ≡ none)
      × (pop pressed ≡ (
          if is_empty s.picks.picked
          then (pressed, false)
          else (record pressed { picks = pick_none s.picks }, true)))
unfolding pop close_capture
pop-close_capture s i on named shut =
    let list = (close_capture s).0 in
    (
      refl,
      frame_named list true refl (rw (on, named) refl),
      rw (shut, on) refl,
      frame_named (record list { selected = none; want = 0 }) false refl refl,
      rw shut (elim (Bool-cases (is_empty s.picks.picked)) [
        | inl bare ↦ rw bare refl
        | inr some_picked ↦ rw some_picked refl
      ]),
    )
