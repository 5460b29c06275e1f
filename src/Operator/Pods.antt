-- ===== src/Operator/Pods.antt =====
-- The pods of operator/internal/ui/web/app.js: the search over their names and labels (`search`),
-- the ticks that `paintPods` drops, what an unticked capture takes (`matched`), the words of the
-- button (`count`), and the request that starts a capture.
pub mod Search
pub mod Start
pub mod Ticks
mod Tests
use mathlib.Core.Option
use webshark.Prelude.{
  decimal, is_empty, is_space, ℕ, zero, suc, ◌+◌, Text, codes, Bool, true, false, not, ◌&&◌, ◌||◌,
  Option, none, some, List, [], ◌∷◌, ◌++◌, ◌==◌, text_eq, nat_eq, if◌then◌else◌, ltb, leb, length,
  map, contains, includes, starts_with, split, drop, ℤ, pos, ◌+ℤ◌, ltb_ℤ, sort_by, max, get_elem?,
}
use webshark.Captures.Search.{non_empty}
use webshark.Operator.Fuzzy.{Found, fuzzy}

-- A pod as the API lists it, with the labels in their order; a pod without labels has none.
pub record Pod : Type 0 where
  pub namespace : Text
  pub name : Text
  pub phase : Text
  pub labels : List (Text × Text)

-- What the page asks of the browser: `toLowerCase`, and `a.localeCompare(b) <= 0`.
pub record Locale : Type 0 where
  pub lower : Text → Text
  pub leq : Text → Text → Bool

pub record Via : Type 0 where
  pub label : Text
  pub hits : List ℕ

pub record Shown : Type 0 where
  pub pod : Pod
  pub score : ℤ
  pub hits : List ℕ
  pub via : Option Via

-- one of "=!<>("
abbrev is_mark : ℕ → Bool
is_mark c = c == b'=' || c == b'!' || c == b'<' || c == b'>' || c == b'('

abbrev then_space : ℕ → Text → Bool
then_space n s = elim (get_elem? s n) [ none ↦ false | some c ↦ is_space c ]

-- `\s(in|notin)\s`, from the second character on
abbrev is_word : Text → Bool
is_word s =
    starts_with s (codes "in") && then_space 2 s || starts_with s (codes "notin") && then_space 5 s

unfoldable pub is_selector : Text → Bool
unfolding is_space
is_selector [] = false
is_selector (c ∷ q) = is_mark c || is_space c && is_word q || is_selector q

-- `selector()`, of the query
unfoldable pub selector : Text → Text
unfolding is_selector
selector q = if is_selector q then q else []

unfoldable pub pod_key : Pod → Text
pod_key pod = pod.namespace ++ b'/' ∷ pod.name

unfoldable pub is_running : Pod → Bool
is_running pod = pod.phase == codes "Running"

-- `podName`, under the namespace chosen
unfoldable pub pod_name : Text → Pod → Text
unfolding pod_key
pod_name ns pod = if is_empty ns then pod_key pod else pod.name

abbrev pub label_texts : List (Text × Text) → List Text
label_texts [] = []
label_texts ((k, v) ∷ labels) = (k ++ b'=' ∷ v) ∷ label_texts labels

-- The best match of one word so far.
pub record Best : Type 0 where
  pub score : ℤ
  pub hits : List ℕ
  pub via : Option Via

abbrev pub in_name : Option Found → Option Best
in_name none = none
in_name (some m) = some (record { score = m.score +ℤ m.score; hits = m.hits; via = none })

abbrev via_label : Text → Found → Best
via_label label m = record {
  score = m.score;
  hits = [];
  via = some (record { label = label; hits = m.hits });
}

abbrev pub in_label : Text → Option Found → Option Best → Option Best
in_label label none best = best
in_label label (some m) none = some (via_label label m)
in_label label (some m) (some best) =
    if ltb_ℤ best.score m.score then some (via_label label m) else some best

-- What the words add up to: `score`, `hits` and `via` of the loop over the words.
pub record Tally : Type 0 where
  pub score : ℤ
  pub hits : List ℕ
  pub via : Option Via

abbrev nothing : Tally
nothing = record { score = pos 0; hits = []; via = none }

abbrev first_via : Option Via → Option Via → Option Via
first_via none via = via
first_via (some v) via = some v

abbrev pub counted : Best → Tally → Tally
counted best t = record {
  score = t.score +ℤ best.score;
  hits = t.hits ++ best.hits;
  via = first_via t.via best.via;
}

module _ (l : Locale) where
  unfoldable pub in_labels : Text → List Text → Option Best → Option Best
  in_labels word [] best = best
  in_labels word (label ∷ labels) best =
      in_labels word labels (in_label label (fuzzy word (l.lower label)) best)

  unfoldable pub best_of : Text → List Text → Text → Option Best
  unfolding in_labels
  best_of name labels word = in_labels word labels (in_name (fuzzy word name))

  -- The loop over the words: the first that is nowhere ends it.
  unfoldable pub tally : Text → List Text → List Text → Tally → Option Tally
  unfolding best_of
  tally name labels [] t = some t
  tally name labels (word ∷ words) t = elim (best_of name labels word) [
    | none ↦ none
    | some best ↦ tally name labels words (counted best t)
  ]

  unfoldable pub words_of : Text → List Text
  words_of query = non_empty (split is_space (l.lower query))

  abbrev pub shown_as : Pod → Option Tally → List Shown → List Shown
  shown_as pod none shown = shown
  shown_as pod (some t) shown =
      record { pod = pod; score = t.score; hits = t.hits; via = t.via } ∷ shown

  unfoldable pub found : Text → List Text → List Pod → List Shown
  unfolding tally
  found ns words [] = []
  found ns words (pod ∷ pods) =
      shown_as pod (tally (l.lower (pod_name ns pod)) (label_texts pod.labels) words nothing)
        (found ns words pods)

  -- The comparison of the sort: running pods, then the better score, then the name.
  unfoldable pub comes_first : Text → Shown → Shown → Bool
  comes_first ns a b =
      if is_running a.pod && not (is_running b.pod)
      then true
      else if is_running b.pod && not (is_running a.pod)
      then false
      else if ltb_ℤ b.score a.score
      then true
      else if ltb_ℤ a.score b.score
      then false
      else l.leq (pod_name ns a.pod) (pod_name ns b.pod)

  abbrev pub unsearched : Pod → Shown
  unsearched pod = record { pod = pod; score = pos 0; hits = []; via = none }

  unfoldable pub search : Text → Text → List Pod → List Shown
  unfolding words_of found comes_first
  search query ns pods =
      if is_empty (words_of query) || is_selector query
      then map unsearched pods
      else sort_by (comes_first ns) (found ns (words_of query) pods)
