-- ===== src/Operator/Marks/Tests.antt =====
-- Runs of the marks on a name.
use webshark.Prelude.{codes, ◌≡◌, refl, true, false, [], ◌∷◌}
use webshark.Operator.Marks.{mark, spread, shaded, spread-mark}

mark_runs :
    mark (codes "pcscf") (1 ∷ 2 ∷ [])
    ≡ record { lit = false; run = codes "p" }
      ∷ record { lit = true; run = codes "cs" }
      ∷ record { lit = false; run = codes "cf" }
      ∷ []
unfolding mark
mark_runs = refl

spread-mark_example :
    spread (mark (codes "pcscf") (1 ∷ 2 ∷ [])) ≡ shaded (1 ∷ 2 ∷ []) 0 (codes "pcscf")
spread-mark_example = spread-mark (codes "pcscf") (1 ∷ 2 ∷ [])
