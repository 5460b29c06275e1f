-- ===== src/Selecting/Tests.antt =====
-- A selection of two frames whose calls are answered out of order, and one that a change of filter
-- overtakes.
use webshark.Prelude.{◌≡◌, refl, inl, inr, true, none, some, [], ◌∷◌, arith}
use webshark.Pages.{Row, World, rows, row_at, row_before}
use webshark.Selecting.{
  Call, Viewer, ask_frame, rewind_view, forget_call, arrive, move_to, down, select,
}
use webshark.Selecting.Shown.{
  Holds, IsShowing, asks, arrives, Reach, here, next, settled, late_frame,
}

abbrev first : Row
first = record { n = 1; c = [] }

abbrev second : Row
second = record { n = 5; c = [] }

abbrev world : World
world = record {
  file = 97 ∷ [];
  filter = [];
  total = 9;
  count = 9;
  ended = true;
  pages = (0, rows (first ∷ second ∷ [])) ∷ [];
  asked = [];
}

abbrev start : Viewer
start = record { world = world; selected = none; want = 0; calls = []; shown = none }

abbrev call_first : Call
call_first = record { file = 97 ∷ []; num = 1; prev = 0 }

abbrev call_second : Call
call_second = record { file = 97 ∷ []; num = 5; prev = 1 }

abbrev one : Viewer
one = ask_frame 0 (some first) start

abbrev two : Viewer
two = ask_frame 1 (some second) one

abbrev late : Viewer
late = arrive call_second true two

abbrev done : Viewer
done = arrive call_first true late

start-IsShowing : IsShowing start
start-IsShowing = record { out = tt; of = tt; shows = (refl, λ w. w) }

run : Reach start done
unfolding ask_frame arrive forget_call row_before row_at
run =
    next
      (next (next (next here (asks start 0 first (omega arith))) (asks one 1 second (omega arith)))
        (arrives two call_second (inr (inl refl))))
      (arrives late call_first (inl refl))

settled_example : Holds (some 1) 5 (97 ∷ []) (some call_second)
unfolding ask_frame arrive forget_call row_before row_at
settled_example = settled {u = start} {v = done} start-IsShowing run refl

late_frame_example :
    ((arrive call_first true (rewind_view one)).shown ≡ some call_first)
    × ((arrive call_first true (rewind_view one)).selected ≡ none)
unfolding ask_frame
late_frame_example = late_frame one call_first refl

select_runs : (select (λ r. none) 1 start).calls ≡ call_second ∷ []
unfolding select ask_frame row_before row_at
select_runs = refl

moves : (move_to (down 20) start ≡ 0) × (move_to (down 20) done ≡ 8)
unfolding move_to ask_frame arrive forget_call row_before row_at
moves = (refl, refl)
