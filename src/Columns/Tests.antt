-- ===== src/Columns/Tests.antt =====
-- Runs of the columns on a capture that has Wireshark's own, two of them not drawn.
use webshark.Prelude.{
  ℕ, Text, codes, Bool, true, false, Option, none, some, ◌≡◌, refl, List, [], ◌∷◌,
}
use webshark.Pages.{Row}
use webshark.Columns.{ColumnInfo, Name, src, osrc, addr, col, utc, relative, visible_columns, cell}

abbrev info : Text → Text → Bool → ColumnInfo
info title format visible = record { title = title; format = format; visible = visible }

abbrev cols : List ColumnInfo
cols =
    info (codes "No.") (codes "%m") true
    ∷ info (codes "Time") (codes "%t") true
    ∷ info (codes "UTC") (codes "%Yut") true
    ∷ info (codes "Source") (codes "%s") true
    ∷ info (codes "Destination") (codes "%d") true
    ∷ info (codes "Expert") (codes "%Cus:_ws.expert.severity:0") false
    ∷ []

abbrev plain : Row
plain = record {
  n = 1;
  c = codes "1" ∷ codes "0.0" ∷ codes "12:00" ∷ codes "10.0.0.1" ∷ codes "10.0.0.2" ∷ [] ∷ [];
}

-- Time and its UTC shape share a slot, the pair is folded, and the severity is not drawn.
visible_relative : visible_columns cols relative ≡ col (some 0) ∷ col (some 1) ∷ addr ∷ []
unfolding visible_columns
visible_relative = refl

visible_utc : visible_columns cols utc ≡ col (some 0) ∷ col (some 2) ∷ addr ∷ []
unfolding visible_columns
visible_utc = refl

abbrev tunnel : Name → Option ℕ
tunnel src = some 0
tunnel osrc = some 1
tunnel _ = none

abbrev wrapped : Row
wrapped = record { n = 2; c = codes "10.9.0.7" ∷ codes "10.0.0.1,10.9.0.7" ∷ [] }

cell-wrapped : cell tunnel wrapped src ≡ codes "10.0.0.1"
unfolding cell
cell-wrapped = refl
