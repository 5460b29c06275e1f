-- ===== src/Operator/Pods/Ticks.antt =====
-- The ticks of the pods, of operator/internal/ui/web/app.js: the box of a row and the one of them
-- all, and what changing the namespace, the search box and a started capture do to them.
mod Tests
use webshark.Prelude.{
  is_empty, trim_space, is_space, add, delete, contains-add, contains-delete, Text, codes, ◌≡◌,
  or_false, or_assoc, refl, sym, subst, ap, ap₂, ◌∙◌, ◌⊎◌, inl, inr, Bool, true, false, not, ◌&&◌,
  ◌||◌, Option, none, some, List, [], ◌∷◌, ◌++◌, append-nil, append_assoc, ◌==◌, text_eq,
  if◌then◌else◌, contains, Bool-cases,
}
use webshark.Operator.Pods.{Pod, Locale, search, Shown, is_running, is_selector, pod_key}
use webshark.Operator.Pods.Start.{
  drop_stopped, Form, Body, running_keys, matched, sent, placed_in, spaces, start,
}

-- `S.ns`, `S.query`, `S.picked`, `S.pods`, `S.shown`, the box of the capture's name, whether the mode
-- is hidden, and the toast.
pub record Desk : Type 0 where
  pub ns : Text
  pub query : Text
  pub picked : List Text
  pub pods : List Pod
  pub shown : List Shown
  pub capname : Text
  pub mode_hidden : Bool
  pub toast : Option Text

-- What `paintPods` changes of it.
unfoldable pub paint_pods : Locale → Desk → Desk
unfolding drop_stopped search
paint_pods locale d = record d {
  picked = drop_stopped d.pods d.picked;
  shown = search locale d.query d.ns d.pods;
}

unfoldable pub tick_pod : Text → Bool → Desk → Desk
tick_pod key checked d = record d {
  picked = if checked then add key d.picked else delete key d.picked;
}

-- The box over the list: it ticks the running pods that are shown, or takes their ticks away.
unfoldable pub tick_all : Bool → List Shown → List Text → List Text
tick_all checked [] picked = picked
tick_all checked (s ∷ shown) picked =
    let key = pod_key s.pod in
    let ticked = if checked then add key picked else delete key picked in
    tick_all checked shown (if is_running s.pod then ticked else picked)

unfoldable pub change_all : Locale → Bool → Desk → Desk
unfolding tick_all paint_pods
change_all locale checked d =
    paint_pods locale (record d { picked = tick_all checked d.shown d.picked })

-- The list for the new namespace is asked for, and painted when it comes.
unfoldable pub change_namespace : Text → Desk → Desk
change_namespace ns d = record d { ns = ns; picked = [] }

unfoldable pub type_query : Locale → Text → Desk → Desk
unfolding is_space paint_pods
type_query locale text d =
    let query = trim_space text in
    paint_pods locale (record d { query = query; mode_hidden = not (is_selector query) })

-- What came of the call that starts a capture: its name, or an error.
pub data Made : Type 0 where
  made failed : Text → Made

unfoldable pub started : Made → Desk → Desk
started (made name) d = record d {
  picked = [];
  capname = [];
  toast = some (codes "started " ++ name);
}
started (failed message) d = record d { toast = some message }

-- What the box leaves of the ticks, by whether a key was ticked and whether it is of a running pod.
abbrev pub ticked_after : Bool → Bool → Bool → Bool
ticked_after true was running = was || running
ticked_after false was running = was && not running

and_true : (a : Bool) → a ≡ (a && true)
and_true true = refl
and_true false = refl

neither : (a b c : Bool) → ((a && not b) && not c) ≡ (a && not (b || c))
neither true true c = refl
neither true false c = refl
neither false b c = refl

-- Ticking the box ticks the running pods that are shown and keeps every other tick; unticking it
-- takes away those ticks and no others.
pub contains-tick_all :
    (checked : Bool) (shown : List Shown) (picked : List Text) (key : Text)
    → contains (tick_all checked shown picked) key
      ≡ ticked_after checked (contains picked key) (contains (running_keys shown) key)
unfolding tick_all
contains-tick_all true [] picked key = sym (or_false (contains picked key))
contains-tick_all false [] picked key = and_true (contains picked key)
contains-tick_all true (s ∷ shown) picked key = elim (Bool-cases (is_running s.pod)) [
  | inl runs ↦ rw runs (
      contains-tick_all true shown (add (pod_key s.pod) picked) key
      ∙ ap (λ b. b || contains (running_keys shown) key) (contains-add (pod_key s.pod) picked key)
      ∙ sym (
          or_assoc (contains picked key) (pod_key s.pod == key)
            (contains (running_keys shown) key)))
  | inr stopped ↦ rw stopped (contains-tick_all true shown picked key)
]
contains-tick_all false (s ∷ shown) picked key = elim (Bool-cases (is_running s.pod)) [
  | inl runs ↦ rw runs (
      contains-tick_all false shown (delete (pod_key s.pod) picked) key
      ∙ ap (λ b. b && not (contains (running_keys shown) key))
          (contains-delete (pod_key s.pod) picked key)
      ∙ neither (contains picked key) (pod_key s.pod == key) (contains (running_keys shown) key))
  | inr stopped ↦ rw stopped (contains-tick_all false shown picked key)
]

-- No key stands twice, nor is one ticked.
abbrev pub Fresh : List Text → List Text → Type 0
Fresh picked [] = Unit
Fresh picked (k ∷ ks) = (contains picked k ≡ false) × Fresh (picked ++ k ∷ []) ks

tick_all-running_keys :
    (shown : List Shown) (picked : List Text)
    → Fresh picked (running_keys shown)
    → tick_all true shown picked ≡ picked ++ running_keys shown
unfolding tick_all
tick_all-running_keys [] picked h = sym (append-nil picked)
tick_all-running_keys (s ∷ shown) picked h = elim (Bool-cases (is_running s.pod)) [
  | inl runs ↦
      let (new, rest) =
        subst
          (λ b. Fresh picked (if b then pod_key s.pod ∷ running_keys shown else running_keys shown))
          runs h in
      rw (runs, new)
        (tick_all-running_keys shown (picked ++ pod_key s.pod ∷ []) rest
          ∙ append_assoc picked (pod_key s.pod ∷ []) (running_keys shown))
  | inr stopped ↦ rw stopped (
      tick_all-running_keys shown picked (
        subst
          (λ b. Fresh picked (if b then pod_key s.pod ∷ running_keys shown else running_keys shown))
          stopped h))
]

or_those :
    (keys some_keys : List Text)
    → some_keys ≡ keys
    → (if is_empty keys then some_keys else keys) ≡ keys
or_those [] some_keys e = e
or_those (k ∷ keys) some_keys e = refl

delete-fresh : (k : Text) (l : List Text) → contains l k ≡ false → delete k l ≡ l
delete-fresh k [] h = refl
delete-fresh k (p ∷ ps) h = elim (Bool-cases (p == k)) [
  | inl here ↦ absurd (cc)
  | inr apart ↦ rw apart (ap (λ l. p ∷ l) (delete-fresh k ps (rw apart at h)))
]

-- No pod of the list that does not run has one of the keys.
abbrev pub NoneStopped : List Pod → List Text → Type 0
NoneStopped [] keys = Unit
NoneStopped (pod ∷ pods) keys =
    (is_running pod ≡ false → contains keys (pod_key pod) ≡ false) × NoneStopped pods keys

drop_stopped-NoneStopped :
    (pods : List Pod) (picked : List Text)
    → NoneStopped pods picked
    → drop_stopped pods picked ≡ picked
unfolding drop_stopped
drop_stopped-NoneStopped [] picked h = refl
drop_stopped-NoneStopped (pod ∷ pods) picked (here, rest) = elim (Bool-cases (is_running pod)) [
  | inl runs ↦ rw (runs, drop_stopped) (drop_stopped-NoneStopped pods picked rest)
  | inr stopped ↦
      rw (stopped, drop_stopped, delete-fresh (pod_key pod) picked (here stopped))
        (drop_stopped-NoneStopped pods picked rest)
]

-- What the box over the list leaves ticked, the list painted again: all of the pods shown that run.
change_all-running_keys :
    (locale : Locale) (d : Desk)
    → d.picked ≡ []
    → Fresh [] (running_keys d.shown)
    → NoneStopped d.pods (running_keys d.shown)
    → (change_all locale true d).picked ≡ running_keys d.shown
unfolding change_all paint_pods
change_all-running_keys locale d none_yet fresh running =
    let all = ap (tick_all true d.shown) none_yet ∙ tick_all-running_keys d.shown [] fresh in
    ap (drop_stopped d.pods) all ∙ drop_stopped-NoneStopped d.pods (running_keys d.shown) running

-- With nothing ticked before and the list painted for the search in the box, ticking the box over
-- the list and starting a capture sends the request that starting one with nothing ticked sends,
-- where no two of the running pods shown have one key and no pod that does not run has theirs.
pub start-change_all :
    (locale : Locale) (webshark : Text) (chosen : Option Text) (form : Form) (d : Desk)
    → d.picked ≡ []
    → d.shown ≡ search locale d.query d.ns d.pods
    → is_empty d.query ≡ false
    → is_selector d.query ≡ false
    → Fresh [] (running_keys d.shown)
    → NoneStopped d.pods (running_keys d.shown)
    → (let e = change_all locale true d in start e.ns e.query webshark chosen form e.picked e.shown)
      ≡ start d.ns d.query webshark chosen form d.picked d.shown
unfolding start matched change_all paint_pods
start-change_all locale webshark chosen form d none_yet painted searching words fresh running =
    let Request = (λ (p : List Text).
      sent d.ns d.query webshark chosen form p (placed_in d.ns chosen (spaces p))) in
    let ticks = change_all-running_keys locale d none_yet fresh running in
    let found : matched d.query d.shown ≡ running_keys d.shown = rw (searching, words) refl in
    let again : matched d.query (search locale d.query d.ns d.pods) ≡ running_keys d.shown =
      ap (matched d.query) (sym painted) ∙ found in
    ap₂ (λ (p q : List Text). Request (if is_empty p then q else p)) ticks again
    ∙ ap Request (or_those (running_keys d.shown) (running_keys d.shown) refl ∙ sym found)
    ∙ ap (λ (p : List Text). Request (if is_empty p then matched d.query d.shown else p))
        (sym none_yet)
