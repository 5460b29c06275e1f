-- ===== src/Settings/Fitting.antt =====
-- What `fit` makes of the Time columns of a capture: wide enough for every stamp that is not longer
-- than the capture, or at the ceiling.
use webshark.Prelude.{ℕ, ◌≤◌, ◌≡◌, ◌⊎◌, text_eq}
use webshark.Settings.{cw}

-- A column of this width holds that many characters, or is at its ceiling, and it is not over it.
abbrev pub Holds : ℕ → ℕ → ℕ → Type 0
Holds width ceiling chars = (width ≤ ceiling) × ((cw chars ≤ width) ⊎ (width ≡ ceiling))
