-- ===== src/Captures/Search/Tests.antt =====
-- Runs of the box over a capture whose protocols are not read yet, with a clock and a calendar
-- that count from the same day.
use webshark.Prelude.{◌+◌, ◌*◌, codes, Text, ◌≡◌, refl, false, none, some, List, [], ◌∷◌}
use webshark.Captures.Moments.{Browser, Fields, moment}
use webshark.Captures.Search.{
  Capture, hit, miss, maybe, term, overlaps, captured, matches, parse_find,
}
use webshark.Captures.Search.Verdicts.{read, matches_stable}

abbrev fields : Fields
fields = record { year = 2026; month = 7; day = 14; hours = 9; minutes = 5; seconds = 0 }

abbrev browser : Browser
browser = record {
  now = 900000000;
  local = λ ms. fields;
  instant = λ f. f.day * 86400000 + f.hours * 3600000 + f.minutes * 60000 + f.seconds * 1000;
  lower = λ s. s;
  tenths = λ a b. [];
}

abbrev trace : Capture
trace = record {
  name = codes "node-3.pcap";
  size = 100;
  first = 899000000;
  last = 0;
  mtime = 899500000;
  protos = none;
  partial = false;
}

abbrev sip : List Text
sip = codes "sip" ∷ []

-- an hour of the clock, and the last hour and a half
clock_runs : moment browser (codes "9:05") ≡ some (record { from = 1242300000; to = 1242359999 })
unfolding moment
clock_runs = refl

age_runs : moment browser (codes "1.5h") ≡ some (record { from = 894600000; to = 900000000 })
unfolding moment
age_runs = refl

named_runs : matches browser trace (parse_find browser (codes "node >1h")) ≡ hit
unfolding term matches parse_find overlaps captured
named_runs = refl

missed_runs : matches browser trace (parse_find browser (codes "-name:node sip")) ≡ miss
unfolding term matches parse_find overlaps captured
missed_runs = refl

unsure_runs : matches browser trace (parse_find browser (codes "node sip")) ≡ maybe
unfolding term matches parse_find overlaps captured
unsure_runs = refl

matches_stable_example :
    matches browser (read browser trace sip refl) (parse_find browser (codes "node >1h")) ≡ hit
matches_stable_example =
    matches_stable browser trace sip refl (parse_find browser (codes "node >1h")) hit
      (λ e. absurd (cc)) named_runs
