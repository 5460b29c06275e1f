-- ===== src/Session/Keys/Tests.antt =====
-- Keys on the capture list and in a capture, with the drawer open and with the focus in a box.
use webshark.Prelude.{codes, ◌≡◌, refl, true, false, none, some, []}
use webshark.Selecting.{up}
use webshark.Session.{Session}
use webshark.Session.Keys.{Key, Press, Ask, page_rows, key_down}

abbrev viewing : Session
viewing = record {
  file = some (codes "a.pcap");
  filter = [];
  find = [];
  picks = record { picked = []; anchor = none };
  selected = none;
  want = 0;
  flow = false;
  drawer = false;
  completing = false;
}

abbrev press : Key → Press
press key = record { key = key; ctrl = false; in_box = false }

key_runs :
    (key_down viewing true true 10 (press Key.v) ≡ Ask.switches true)
    × (key_down viewing true false 10 (press Key.end) ≡ Ask.nothing)
    × (key_down viewing true true (page_rows 300 28) (press Key.page_up) ≡ Ask.moves (up 9))
    × (key_down
          (record viewing { drawer = true })
          true
          true
          10
          (record (press Key.escape) { in_box = true })
        ≡ Ask.pops)
    × (key_down
          (record viewing { file = none })
          true
          true
          10
          (record (press Key.escape) { in_box = true })
        ≡ Ask.clears_find)
    × (key_down (record viewing { file = none }) true true 10 (press Key.home) ≡ Ask.nothing)
unfolding key_down
key_runs = (refl, refl, refl, refl, refl, refl)
