-- ===== src/Window/Tests.antt =====
-- Runs of the viewport: rows of 28 pixels, ten of them on the screen.
use webshark.Prelude.{ℕ, false, ◌≡◌, refl}
use webshark.Window.{Viewport, first_drawn, upto_drawn, reveal}

abbrev ten_rows : ℕ → Viewport
ten_rows top = record { row = 28; view = 280; canvas = 2800; top = top; pinned = false }

first_runs : first_drawn 28 560 ≡ 12
unfolding first_drawn
first_runs = refl

upto_runs : upto_drawn 28 280 100 560 ≡ 38
unfolding upto_drawn
upto_runs = refl

-- Row 50 is below the edge: it is scrolled to where it is the last one whole.
reveal_runs : (reveal 2800 50 (ten_rows 0)).top ≡ 1176
unfolding reveal
reveal_runs = refl
