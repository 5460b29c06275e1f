-- ===== src/Operator/Fuzzy/Tests.antt =====
-- Runs of the search on the name of a pod.
use webshark.Prelude.{ℕ, codes, Text, ◌≡◌, ◌↔◌, refl, none, some, List, [], ◌∷◌, pos, ◌+ℤ◌}
use webshark.Operator.Fuzzy.{Found, letters_of, fuzzy, index_from, better, take_letter}
use webshark.Operator.Fuzzy.Matching.{Placed, fuzzy_iff}

abbrev pod : Text
pod = codes "sip-pcscf-0"

-- The letters are marked in "pcscf", not from the first "p" on.
fuzzy_runs : fuzzy (codes "pcs0") pod ≡ some (record { score = pos 67; hits = 4 ∷ 5 ∷ 6 ∷ 10 ∷ [] })
unfolding fuzzy index_from better take_letter ◌+ℤ◌
fuzzy_runs = refl

fuzzy_misses : fuzzy (codes "z") pod ≡ none
unfolding fuzzy index_from better take_letter ◌+ℤ◌
fuzzy_misses = refl

fuzzy_iff_example :
    ((m : Found) × (fuzzy (codes "pcs0") pod ≡ some m))
    ↔ ((hits : List ℕ) × Placed pod 0 (letters_of (codes "pcs0")) hits)
fuzzy_iff_example = fuzzy_iff b'p' (codes "cs0") pod
