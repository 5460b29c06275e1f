-- ===== src/Session/Tests.antt =====
-- Runs of the page: a frame selected under a filter, with the drawer open, and the way back out.
use webshark.Prelude.{
  ℕ, Text, codes, ◌≡◌, refl, true, false, none, some, [], ◌∷◌, value_from, decimal, get, text_eq,
}
use webshark.Captures.Picking.{pick_none}
use webshark.Session.{Session, Server, pop, close_capture, address}
use webshark.Session.Levels.{pop-close_capture}

abbrev viewing : Session
viewing = record {
  file = some (codes "a.pcap");
  filter = codes "sip";
  find = codes "node";
  picks = record { picked = codes "b.pcap" ∷ []; anchor = none };
  selected = some 1;
  want = 7;
  flow = true;
  drawer = true;
  completing = false;
}

abbrev shut : Session
shut = record viewing { drawer = false }

abbrev server : Server
server = record {
  status = λ file. some true;
  rows = λ file filter. record { n = 4; c = [] } ∷ record { n = 7; c = [] } ∷ [];
}

pop-close_capture_example :
    let list = (close_capture shut).0 in
    let pressed = record list { selected = none; want = 0 } in
    (list.file ≡ none)
    × (get (address list) (codes "n") ≡ some (decimal 7))
    × (pop list ≡ (pressed, true))
    × (get (address pressed) (codes "n") ≡ none)
    × (pop pressed ≡ (record pressed { picks = pick_none shut.picks }, true))
pop-close_capture_example = pop-close_capture shut 1 refl refl refl

abbrev number : Text → ℕ
number t = value_from 0 t

address_run :
    address viewing
    ≡ (codes "f", codes "a.pcap")
      ∷ (codes "s", codes "node")
      ∷ (codes "q", codes "sip")
      ∷ (codes "n", codes "7")
      ∷ (codes "v", codes "flow")
      ∷ []
unfolding address decimal
address_run = refl
