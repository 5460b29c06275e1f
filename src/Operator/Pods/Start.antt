-- ===== src/Operator/Pods/Start.antt =====
-- What is captured: the ticks that `paintPods` drops, the pods of an unticked capture (`matched`),
-- the words of the button (`count`), and the request that the form's `submit` sends.
pub mod Laws
use webshark.Prelude.{
  decimal, is_empty, is_space, trim_space, delete, ℕ, zero, suc, ◌+◌, Text, codes, ◌≡◌, ◌≢◌, refl,
  ◌⊎◌, inl, inr, Bool, true, false, not, ◌&&◌, ◌||◌, Option, none, some, List, [], ◌∷◌, ◌++◌, map,
  arith, ◌==◌, text_eq, nat_eq, if◌then◌else◌, ltb, length, max, contains, split, split-join, Lacks,
  Bool-cases, ap, ap₂, ◌∙◌, sym,
}
use webshark.Operator.Pods.{Pod, Shown, is_running, is_selector, selector, pod_key}

-- The first lines of `paintPods`.
unfoldable pub drop_stopped : List Pod → List Text → List Text
drop_stopped [] picked = picked
drop_stopped (pod ∷ pods) picked =
    drop_stopped pods (if is_running pod then picked else delete (pod_key pod) picked)

abbrev pub running_keys : List Shown → List Text
running_keys [] = []
running_keys (s ∷ shown) =
    if is_running s.pod then pod_key s.pod ∷ running_keys shown else running_keys shown

unfoldable pub matched : Text → List Shown → List Text
matched query shown = if is_empty query || is_selector query then [] else running_keys shown

abbrev running_count : List Pod → ℕ
running_count [] = 0
running_count (pod ∷ pods) = let n = running_count pods in if is_running pod then 1 + n else n

-- What `count` writes: the line over the list, the button's words, and whether it is disabled.
pub record Offer : Type 0 where
  pub podcount : Text
  pub go : Text
  pub disabled : Bool

unfoldable pub count : Text → ℕ → List Pod → List Shown → List Text → Offer
unfolding matched
count query websharks pods shown picked_keys =
    let picked = length picked_keys in
    let running = running_count pods in
    let hits = length (matched query shown) in
    let searching = not (is_empty query) && not (is_selector query) in
    let take = if picked == 0 then hits else picked in
    record {
      podcount =
          if not (picked == 0)
          then decimal picked ++ (codes " of " ++ (decimal running ++ codes " selected"))
          else if searching
          then decimal hits ++ (codes " of " ++ (decimal running ++ codes " matched"))
          else decimal running ++ codes " running";
      go =
          if not (take == 0)
          then codes "Capture "
            ++ (decimal take ++ (codes " pod" ++ (if ltb 1 take then codes "s" else [])))
          else if is_selector query
          then codes "Capture what matches"
          else if searching
          then codes "Capture"
          else codes "Capture everything here";
      disabled = websharks == 0 || searching && take == 0;
    }

abbrev or_default : Text → Text → Text
or_default s default = if is_empty s then default else s

-- The fields of the form, the length of a snapshot as the number that it is read as, 0 for none.
pub record Form : Type 0 where
  pub capname : Text
  pub filter : Text
  pub iface : Text
  pub duration : Text
  pub snaplen : ℕ

-- The body of the request; a namespace selector that is not set is left out of it.
pub record Body : Type 0 where
  pub namespace : Text
  pub name : Text
  pub namespace_selector : Option Text
  pub pod_names : List Text
  pub pod_selector : Text
  pub filter : Text
  pub interface : Text
  pub duration : Text
  pub snaplen : ℕ
  pub max_targets : ℕ
  pub webshark : Text

-- `key.split('/')[0]` and `[1]`
abbrev pub part : ℕ → List Text → Text
part n [] = []
part zero (p ∷ ps) = p
part (suc n) (p ∷ ps) = part n ps

abbrev key_part : ℕ → Text → Text
key_part n key = part n (split (λ c. c == b'/') key)

-- `new Set(…)`, in the order of insertion
abbrev pub distinct : List Text → List Text → List Text
distinct seen [] = []
distinct seen (s ∷ spaces) =
    if contains seen s then distinct seen spaces else s ∷ distinct (s ∷ seen) spaces

unfoldable pub spaces : List Text → List Text
spaces picked = distinct [] (map (key_part 0) picked)

abbrev the_namespace : Option Text → List Text → Text
the_namespace none [] = []
the_namespace none (s ∷ ss) = s
the_namespace (some chosen) ss = chosen

-- Where the object goes, and its namespace selector: `chosen` is the namespace of the webshark.
abbrev pub placed_in : Text → Option Text → List Text → Text × Option Text
placed_in ns chosen [] = if is_empty ns then (the_namespace chosen [], some []) else (ns, none)
placed_in ns chosen (s ∷ []) = (s, none)
placed_in ns chosen (s ∷ t ∷ ss) = (the_namespace chosen (s ∷ t ∷ ss), some [])

module _ (ns query webshark : Text) (chosen : Option Text) (form : Form) where
  abbrev pub body : List Text → Text × Option Text → Body
  body picked (namespace, wanted) = record {
    namespace = namespace;
    name = trim_space form.capname;
    namespace_selector = wanted;
    pod_names = map (key_part 1) picked;
    pod_selector = selector query;
    filter = trim_space form.filter;
    interface = or_default (trim_space form.iface) (codes "any");
    duration = or_default (trim_space form.duration) (codes "5m");
    snaplen = form.snaplen;
    max_targets = max 10 (length picked);
    webshark = webshark;
  }

  abbrev pub sent : List Text → Text × Option Text → Option Body
  sent picked (namespace, wanted) =
      if is_empty namespace then none else some (body picked (namespace, wanted))

  -- The request, or none where the page asks for a namespace.
  unfoldable pub start : List Text → List Shown → Option Body
  unfolding matched spaces
  start picked_keys shown =
      let picked = if is_empty picked_keys then matched query shown else picked_keys in
      sent picked (placed_in ns chosen (spaces picked))
