-- ===== src/Operator/Pods/Ticks/Tests.antt =====
-- Ticking all of a search over three pods, one of them stopped.
use webshark.Prelude.{
  codes, Text, ◌≡◌, refl, true, false, none, List, [], ◌∷◌, map, text_eq, pos, is_space, ◌+ℤ◌,
}
use webshark.Operator.Fuzzy.{fuzzy, index_from, better, take_letter}
use webshark.Operator.Pods.{pod_name, Locale, Shown, search, is_running, is_selector, pod_key}
use webshark.Operator.Pods.Start.{Form, drop_stopped, start, running_keys}
use webshark.Operator.Pods.Ticks.{
  Desk, paint_pods, change_all, tick_pod, tick_all, change_namespace, type_query, made, started,
  Fresh, NoneStopped, start-change_all,
}

abbrev row : Text → Text → Text → Shown
row ns name phase = record {
  pod = record { namespace = ns; name = name; phase = phase; labels = [] };
  score = pos 0;
  hits = [];
  via = none;
}

abbrev shown : List Shown
shown =
    row (codes "ims") (codes "pcscf-0") (codes "Running")
    ∷ row (codes "ims") (codes "pcscf-1") (codes "Succeeded")
    ∷ row (codes "lab") (codes "pcscf-2") (codes "Running")
    ∷ []

abbrev form : Form
form = record { capname = []; filter = []; iface = []; duration = []; snaplen = 0 }

words_run : is_selector (codes "pcscf") ≡ false
unfolding is_selector
words_run = refl

abbrev locale : Locale
locale = record { lower = λ s. s; leq = λ a b. true }

abbrev searched : Desk
searched = record {
  ns = codes "";
  query = codes "pcscf";
  picked = [];
  pods = map (λ (s : Shown). s.pod) shown;
  shown = search locale (codes "pcscf") (codes "") (map (λ (s : Shown). s.pod) shown);
  capname = [];
  mode_hidden = true;
  toast = none;
}

searched-Fresh : Fresh [] (running_keys searched.shown)
unfolding search is_running pod_key is_space is_selector fuzzy index_from pod_name better
    take_letter ◌+ℤ◌
searched-Fresh = (refl, (refl, tt))

searched-NoneStopped : NoneStopped searched.pods (running_keys searched.shown)
unfolding search is_running pod_key is_space is_selector fuzzy index_from pod_name better
    take_letter ◌+ℤ◌
searched-NoneStopped = (λ stopped. absurd (cc), (λ stopped. refl, (λ stopped. absurd (cc), tt)))

start-change_all_example :
    (let e = change_all locale true searched in start e.ns e.query [] none form e.picked e.shown)
    ≡ start [] (codes "pcscf") [] none form [] searched.shown
start-change_all_example =
    start-change_all locale [] none form searched refl refl refl words_run searched-Fresh
      searched-NoneStopped

ticked_run :
    (change_all locale true searched).picked ≡ codes "ims/pcscf-0" ∷ codes "lab/pcscf-2" ∷ []
unfolding change_all tick_all paint_pods drop_stopped search is_running pod_key is_space is_selector
    fuzzy index_from pod_name better take_letter ◌+ℤ◌
ticked_run = refl

abbrev desk : Desk
desk = record {
  ns = codes "lab";
  query = [];
  picked = codes "lab/pcscf-2" ∷ codes "ims/pcscf-1" ∷ [];
  pods = map (λ (s : Shown). s.pod) shown;
  shown = shown;
  capname = codes "trace";
  mode_hidden = true;
  toast = none;
}

all_runs :
    ((change_all locale true desk).picked ≡ codes "lab/pcscf-2" ∷ codes "ims/pcscf-0" ∷ [])
    × ((change_all locale false desk).picked ≡ [])
unfolding change_all tick_all paint_pods drop_stopped is_running pod_key
all_runs = (refl, refl)

desk_runs :
    (started
      (made (codes "trace-1"))
      (tick_pod (codes "ims/a") true (change_namespace (codes "ims") desk))).picked
    ≡ []
unfolding started tick_pod change_namespace
desk_runs = refl

query_runs : (type_query locale (codes " tier=core ") desk).mode_hidden ≡ false
unfolding type_query paint_pods is_selector is_space
query_runs = refl
