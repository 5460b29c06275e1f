-- ===== src/Operator/Polling/Tests.antt =====
-- Runs of the operator's page: a capture whose card is closed while it runs, and a selector that is
-- typed and taken back.
use webshark.Prelude.{
  Text, codes, ◌≡◌, ◌≢◌, refl, ap, true, false, none, some, List, [], ◌∷◌, is_empty, if◌then◌else◌,
  text_eq, map, get, contains, is_space, trim_space, length, arith,
}
use webshark.Operator.Pods.{Pod, Locale, selector, search}
use webshark.Operator.Cards.Painted.{PacketCapture, Target, Card, capture_key, paint_captures}
use webshark.Operator.Polling.{
  Asked, Lists, Board, Frame, asked_now, refresh, landed, typed, load, fold, view, unview,
}
use webshark.Operator.Polling.Folds.{Spared, Sparing, Shows, fold_kept, fold_inherited}
use webshark.Operator.Polling.Settled.{Step, Reach, lists_settled, selector_restored}

abbrev locale : Locale
locale = record { lower = λ s. s; leq = λ a b. true }

abbrev encode : Text → Text
encode s = s

abbrev target : Text → Target
target phase = record {
  namespace = codes "ims";
  pod = codes "pcscf-0";
  phase = phase;
  capturer = [];
  file = codes "a.pcap";
  message = [];
  started_at = some 0;
}

abbrev trace : Text → PacketCapture
trace name = record {
  namespace = codes "ims";
  name = name;
  paused = false;
  spec = record { labels = none; pod_names = []; filter = []; duration = [] };
  status = record {
    targets = target (codes "Capturing") ∷ [];
    capturing = 1;
    completed = 0;
    failed = 0;
    conditions = [];
    webshark_url = none;
  };
}

abbrev pod : Text → Pod
pod name = record { namespace = codes "ims"; name = name; phase = codes "Running"; labels = [] }

abbrev pods_of : Text → Text → List Pod
pods_of ns sel =
    if is_empty sel
    then pod (codes "pcscf-0") ∷ pod (codes "scscf-0") ∷ []
    else pod (codes "pcscf-0") ∷ []

abbrev lists : Text → Text → Lists
lists ns sel = record { pods = pods_of ns sel; captures = trace (codes "t") ∷ []; websharks = [] }

abbrev blank : Board
blank = record {
  desk = record {
    ns = codes "ims";
    query = [];
    picked = [];
    pods = [];
    shown = [];
    capname = [];
    mode_hidden = true;
    toast = none;
  };
  listed = [];
  captures = [];
  websharks = [];
  webshark = [];
  folds = [];
  cards = [];
  out = [];
  typing = false;
}

abbrev asked : Text → Asked
asked sel = record { namespace = codes "ims"; selector = sel }

abbrev loaded : Board
loaded =
    landed locale encode 5000 (asked []) (lists (codes "ims") []) (load (codes "ims" ∷ []) blank)

abbrev closed : Board
closed = fold (codes "ims/t") false loaded

abbrev polled : Board
polled = landed locale encode 9000 (asked []) (lists (codes "ims") []) (refresh closed)

card_runs :
    (map (λ (c : Card). c.opened) loaded.cards ≡ true ∷ [])
    × (map (λ (c : Card). c.opened) polled.cards ≡ false ∷ [])
unfolding landed fold load
card_runs = (refl, refl)

polled_run : Sparing locale encode (codes "ims/t") false closed polled
unfolding capture_key
polled_run =
    Sparing.next (Sparing.next Sparing.here (Spared.asks closed))
      (Spared.lands 9000 (asked []) (lists (codes "ims") []) (refresh closed) refl)

fold_kept_example :
    (get polled.folds (codes "ims/t") ≡ some false) × Shows (codes "ims/t") false polled.cards
fold_kept_example = fold_kept locale encode (codes "ims/t") false loaded polled_run

trace_key : capture_key (trace (codes "t")) ≡ codes "ims/t"
unfolding capture_key
trace_key = refl

other_listed :
    contains (map capture_key (trace (codes "u") ∷ [])) (capture_key (trace (codes "t"))) ≡ false
unfolding capture_key
other_listed = refl

said_before : get ((codes "ims/t", false) ∷ []) (capture_key (trace (codes "t"))) ≡ some false
unfolding capture_key
said_before = refl

fold_inherited_example :
    (get
        (paint_captures encode [] 0 ((codes "ims/t", false) ∷ []) (trace (codes "u") ∷ [])).0
        (capture_key (trace (codes "t")))
      ≡ none)
    × Shows
        (capture_key (trace (codes "t")))
        false
        (paint_captures encode [] 9
          (paint_captures encode [] 0 ((codes "ims/t", false) ∷ []) []).0
          (trace (codes "t") ∷ [])).1
fold_inherited_example =
    fold_inherited encode [] 0 9 ((codes "ims/t", false) ∷ []) (trace (codes "u")) []
      (trace (codes "t")) [] false other_listed said_before

load_out : (load (codes "ims" ∷ []) blank).out ≡ asked [] ∷ []
unfolding load refresh asked_now selector
load_out = refl

loaded_out : loaded.out ≡ []
unfolding landed load refresh asked_now selector
loaded_out = refl

loaded_still : loaded.typing ≡ false
unfolding landed load
loaded_still = refl

lists_settled_example :
    (loaded.desk.pods ≡ pods_of loaded.desk.ns (selector loaded.desk.query))
    × (loaded.desk.shown ≡ search locale loaded.desk.query loaded.desk.ns loaded.desk.pods)
lists_settled_example =
    lists_settled locale encode pods_of (codes "ims" ∷ []) blank
      (Reach.next Reach.here (
        Step.lands 5000 (asked []) [] (lists (codes "ims") []) (load (codes "ims" ∷ []) blank)
          load_out refl))
      loaded_out loaded_still

-- "app=x" was typed, and its refresh is out.
abbrev narrowing : Board
narrowing = record loaded { out = asked (codes "app=x") ∷ [] }

narrowing_listed : codes "app=x" ≢ narrowing.listed
unfolding landed
narrowing_listed e = omega (arith, ap length e)

cleared : selector (trim_space []) ≡ narrowing.listed
unfolding landed selector is_space
cleared = refl

selector_restored_example :
    let c =
      landed locale encode 9
        (asked (codes "app=x"))
        (lists (codes "ims") (codes "app=x"))
        (typed locale encode [] narrowing) in
    (c.out ≡ [])
    × (c.typing ≡ false)
    × (selector c.desk.query ≢ codes "app=x")
    × (c.desk.pods ≡ pods_of (codes "ims") (codes "app=x"))
selector_restored_example =
    selector_restored locale encode pods_of 9 [] (asked (codes "app=x"))
      (lists (codes "ims") (codes "app=x")) narrowing refl loaded_still narrowing_listed cleared
      refl

-- A frame that shows a capture is left as it is when it is opened again.
abbrev frame : Frame
frame = record {
  src = codes "/w/";
  href = some (codes "/w/#f=a");
  label = codes "a";
  hidden = true;
}

view_runs :
    (view (λ url. some url) (codes "/w/#f=a") (codes "b") frame
      ≡ record frame { label = codes "b"; hidden = false })
    × ((unview (view (λ url. some url) (codes "/w/") (codes "w") frame)).href ≡ some (codes "/w/"))
unfolding view unview
view_runs = (refl, refl)
