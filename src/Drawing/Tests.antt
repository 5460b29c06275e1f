-- ===== src/Drawing/Tests.antt =====
-- A draw of a list of three rows, of ten pixels each, of which the viewport shows the last two.
use webshark.Prelude.{
  ℕ, codes, ◌≡◌, ◌-◌, inl, refl, true, false, some, [], ◌∷◌, arith, take, drop, get_elem?,
}
use webshark.Pages.{Row, Request, World, fetch_page, land, rows_drawn}
use webshark.Pages.Server.{Sharkd, reply}
use webshark.Pages.Faithful.{Faithful, Step, Reach, matches}
use webshark.Window.{first_drawn}
use webshark.Drawing.{Slot, draw}
use webshark.Drawing.Laws.{draw_lem}

abbrev row : ℕ → Row
row n = record { n = n; c = [] }

abbrev sharkd : Sharkd
sharkd = record {
  matching = λ file filter. row 1 ∷ row 2 ∷ row 3 ∷ [];
  frames = λ file filter skip limit. take limit (drop skip (row 1 ∷ row 2 ∷ row 3 ∷ []));
  frames_window = λ file filter skip limit. refl;
}

abbrev opened : World
opened = record {
  file = codes "a.pcap";
  filter = [];
  total = 3;
  count = 3;
  ended = true;
  pages = [];
  asked = [];
}

opened-Faithful : Faithful sharkd opened
opened-Faithful = record {
  shown = λ p page e. absurd (cc);
  bounded = omega arith;
  complete = λ e. refl;
  whole = λ e. absurd (cc);
  current = tt;
  measured = refl;
}

abbrev page_0 : Request
page_0 = record { file = codes "a.pcap"; filter = []; page = 0 }

abbrev loaded : World
loaded = land page_0 (reply sharkd page_0) (fetch_page 0 opened)

loaded_run : Reach sharkd opened loaded
unfolding fetch_page
loaded_run =
    Reach.next (Reach.next Reach.here (Step.first opened))
      (Step.lands (fetch_page 0 opened) page_0 (inl refl))

shown_rows : rows_drawn loaded ≡ 3
unfolding rows_drawn land fetch_page reply
shown_rows = refl

draw_lem_example :
    (slot : Slot) × (get_elem? (draw 10 20 12 (some 1) [] loaded).0 (2 - first_drawn 10 12)
      ≡ some slot)
    × (slot.index ≡ 2)
    × (slot.top ≡ 20)
    × (slot.hidden ≡ false)
    × (slot.sel ≡ false)
    × ((r : Row) → slot.row ≡ some r → get_elem? (matches sharkd loaded) 2 ≡ some r)
draw_lem_example =
    draw_lem sharkd 10 20 12 (some 1) [] 2 opened-Faithful loaded_run (omega arith)
      (omega (arith, shown_rows)) (omega arith) (omega arith)
