-- ===== src/Columns/Severity/Tests.antt =====
-- The severities of a frame with two items, and of a handshake.
use webshark.Prelude.{ℕ, codes, ◌≡◌, refl, Option, none, some, [], ◌∷◌}
use webshark.Columns.Severity.{worst, marks, rank_of, expert, Tells, marks_lem}
use webshark.Columns.{Name, sev, xinfo, cell}

abbrev ix : Name → Option ℕ
ix sev = some 0
ix xinfo = some 1
ix _ = none

expert_runs :
    expert ix (some (record { n = 1; c = codes "Chat,Warning,Note" ∷ codes "Unknown AVP" ∷ [] }))
    ≡ some (codes "Warning", codes "Unknown AVP")
unfolding expert cell marks worst rank_of
expert_runs = refl

quiet_runs : expert ix (some (record { n = 2; c = codes "Chat" ∷ [] ∷ [] })) ≡ none
unfolding expert cell marks worst rank_of
quiet_runs = refl

marks_lem_example :
    Tells (codes "Chat" ∷ codes "Warning" ∷ []) (marks (codes "Chat" ∷ codes "Warning" ∷ []))
marks_lem_example = marks_lem (codes "Chat" ∷ codes "Warning" ∷ [])
