-- ===== src/Lanes/Arrow/Tests.antt =====
-- Arrows between three lanes.
use webshark.Prelude.{
  ℕ, ◌+◌, codes, ◌≡◌, refl, true, false, Option, none, some, [], ◌∷◌, arith, is_space,
}
use webshark.Columns.{Name, src, dst, info, cell, inner}
use webshark.Lanes.{Diagram}
use webshark.Lanes.Geometry.{lane_x}
use webshark.Lanes.Arrow.{
  between, stub, plain, Arrow, Layout, trim, brief, line_between, line_out, arrow, line_between_lem,
}

abbrev layout : Layout
layout = record { gutter = 100; lane = 160; width = 600 }

abbrev blank : Arrow
blank = record {
  kind = plain;
  left = 0;
  width = 0;
  left_text = [];
  right_text = [];
  proto = [];
  text = [];
  title = [];
}

trim_runs : trim (codes "Request: INVITE sip:a@b | ") ≡ codes "INVITE sip:a@b"
unfolding trim is_space
trim_runs = refl

brief_runs : brief (codes "2026-08-14 09:05:00.123456Z") ≡ codes "09:05:00.123"
unfolding brief
brief_runs = refl

line_between_lem_example :
    ((line_between layout 2 0 (codes "5060") (codes "5061") blank).left ≡ lane_x 100 160 0)
    × ((line_between layout 2 0 (codes "5060") (codes "5061") blank).left
          + (line_between layout 2 0 (codes "5060") (codes "5061") blank).width
        ≡ lane_x 100 160 2)
    × ((line_between layout 2 0 (codes "5060") (codes "5061") blank).left_text ≡ codes "5061")
    × ((line_between layout 2 0 (codes "5060") (codes "5061") blank).right_text ≡ codes "5060")
    × ((line_between layout 2 0 (codes "5060") (codes "5061") blank).kind ≡ between true false true)
line_between_lem_example =
    line_between_lem layout 2 0 (codes "5060") (codes "5061") blank (omega arith) (cc)

abbrev ix : Name → Option ℕ
ix src = some 0
ix dst = some 1
ix info = some 2
ix _ = none

abbrev diagram : Diagram
diagram = record { nodes = codes "a" ∷ []; node = (codes "a", 0) ∷ []; order = [] }

arp_runs :
    arrow ix layout diagram (some (record { n = 1; c = codes "a" ∷ [] ∷ codes "Who has b?" ∷ [] }))
    ≡ some (record blank {
      kind = stub;
      left = 180;
      width = 28;
      text = codes "Who has b?";
      title = codes "Who has b?";
    })
unfolding arrow cell inner trim is_space line_out lane_x
arp_runs = refl
