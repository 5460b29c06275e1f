-- ===== src/Pages/Tests.antt =====
-- Runs of the packet list's pages on a capture of three frames, one of which the filter leaves.
use webshark.Prelude.{
  ℕ, Text, codes, ◌≡◌, refl, ap, inl, true, some, List, [], ◌∷◌, arith, length, take, drop,
  get_elem?,
}
use webshark.Pages.{Row, Request, World, fetch_page, land, row_at, refilter}
use webshark.Pages.Server.{Sharkd, reply}
use webshark.Pages.Faithful.{
  Faithful, Step, Reach, matches, Reach-Faithful, row_at-frame, stale_reply,
}
use webshark.Pages.Locate.{at, missing, find_index, locate}
use webshark.Pages.Locate.Laws.{always, answer_of, locate_lem}

abbrev row : ℕ → Row
row n = record { n = n; c = [] }

abbrev hits : Text → List Row
hits [] = row 1 ∷ row 2 ∷ row 3 ∷ []
hits (c ∷ text) = row 2 ∷ []

abbrev sharkd : Sharkd
sharkd = record {
  matching = λ file filter. hits filter;
  frames = λ file filter skip limit. take limit (drop skip (hits filter));
  frames_window = λ file filter skip limit. refl;
}

abbrev opened : World
opened = record {
  file = codes "a.pcap";
  filter = [];
  total = 3;
  count = 3;
  ended = true;
  pages = [];
  asked = [];
}

opened-Faithful : Faithful sharkd opened
opened-Faithful = record {
  shown = λ p page e. absurd (cc);
  bounded = omega arith;
  complete = λ e. refl;
  whole = λ e. absurd (cc);
  current = tt;
  measured = refl;
}

abbrev unfiltered : Request
unfiltered = record { file = codes "a.pcap"; filter = []; page = 0 }

abbrev asking : World
asking = fetch_page 0 opened

abbrev loaded : World
loaded = land unfiltered (reply sharkd unfiltered) asking

abbrev sip : Text
sip = codes "sip"

loaded_run : Reach sharkd opened loaded
unfolding fetch_page
loaded_run =
    Reach.next (Reach.next Reach.here (Step.first opened)) (Step.lands asking unfiltered (inl refl))

row_at-loaded : (row_at 1 loaded).0 ≡ some (row 2)
unfolding row_at land fetch_page reply
row_at-loaded = refl

filtered_run : (refilter sip loaded).count ≡ 0
unfolding refilter
filtered_run = refl

Reach-Faithful_example : Faithful sharkd loaded
Reach-Faithful_example = Reach-Faithful sharkd opened-Faithful loaded_run

row_at-frame_example : get_elem? (matches sharkd loaded) 1 ≡ some (row 2)
row_at-frame_example = row_at-frame sharkd opened-Faithful loaded_run 1 (row 2) row_at-loaded

stale_reply_example :
    ¬ Faithful sharkd (land unfiltered (reply sharkd unfiltered) (refilter sip asking))
unfolding fetch_page reply refilter
stale_reply_example =
    stale_reply sharkd asking unfiltered sip (inl refl) (λ e. absurd (omega (arith, ap length e)))

locate_lem_example :
    (locate (always sharkd) 1 3 0 opened).0 ≡ answer_of (find_index 3 (matches sharkd opened))
locate_lem_example = locate_lem sharkd 1 3 opened opened-Faithful (omega arith) (omega arith)

locate_runs : (locate (always sharkd) 1 3 0 opened).0 ≡ at 2
unfolding locate land fetch_page reply
locate_runs = refl

locate_misses : (locate (always sharkd) 1 9 0 opened).0 ≡ missing
unfolding locate land fetch_page reply
locate_misses = refl
