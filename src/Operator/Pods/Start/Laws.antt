-- ===== src/Operator/Pods/Start/Laws.antt =====
-- What the request that starts a capture says, and which ticks outlive a refresh.
use webshark.Prelude.{
  is_empty, delete, contains-delete, Text, ◌≡◌, ◌≢◌, refl, inl, inr, Bool, true, false, not, ◌&&◌,
  ◌||◌, Option, none, some, List, [], ◌∷◌, ◌++◌, map, ◌==◌, text_eq, nat_eq, contains, split,
  split-join, Lacks, AllLack, Bool-cases, ap, ◌∙◌, sym, beq_refl,
}
use webshark.Operator.Pods.{Pod, Shown, is_running, pod_key}
use webshark.Operator.Pods.Start.{
  drop_stopped, key_part, distinct, spaces, placed_in, Form, Body, body, sent, start,
}

-- A pod that is listed under the key, and does not run.
abbrev pub has_stopped : List Pod → Text → Bool
has_stopped [] key = false
has_stopped (pod ∷ pods) key = not (is_running pod) && pod_key pod == key || has_stopped pods key

and_true : (a : Bool) → a ≡ (a && true)
and_true true = refl
and_true false = refl

and_and_not : (c a s : Bool) → ((c && not a) && not s) ≡ (c && not (a || s))
and_and_not true true s = refl
and_and_not true false s = refl
and_and_not false a s = refl

-- After a refresh a pod stays ticked exactly if it was, and is not listed as one that does not run.
pub contains-drop_stopped :
    (pods : List Pod) (picked : List Text) (key : Text)
    → contains (drop_stopped pods picked) key ≡ (contains picked key && not (has_stopped pods key))
unfolding drop_stopped
contains-drop_stopped [] picked key = and_true (contains picked key)
contains-drop_stopped (pod ∷ pods) picked key = elim (Bool-cases (is_running pod)) [
  | inl runs ↦ rw (runs, drop_stopped) (contains-drop_stopped pods picked key)
  | inr stopped ↦
      rw (stopped, drop_stopped)
        (contains-drop_stopped pods (delete (pod_key pod) picked) key
          ∙ ap (λ c. c && not (has_stopped pods key)) (contains-delete (pod_key pod) picked key)
          ∙ and_and_not (contains picked key) (pod_key pod == key) (has_stopped pods key))
]

-- The key of a pod of a namespace.
abbrev pub key_of : Text → Text → Text
key_of ns name = ns ++ b'/' ∷ name

split-key_of :
    (ns name : Text)
    → Lacks b'/' ns
    → Lacks b'/' name
    → split (λ c. c == b'/') (key_of ns name) ≡ ns ∷ name ∷ []
split-key_of ns name h k = split-join b'/' ns (name ∷ []) h (k, tt)

namespaces-key_of :
    (ns : Text) (names : List Text)
    → Lacks b'/' ns
    → AllLack b'/' names
    → (map (key_part 0) (map (key_of ns) names) ≡ map (λ _. ns) names)
      × (map (key_part 1) (map (key_of ns) names) ≡ names)
namespaces-key_of ns [] h k = (refl, refl)
namespaces-key_of ns (name ∷ names) h (k, ks) =
    let (spaces_, names_) = namespaces-key_of ns names h ks in
    rw (split-key_of ns name h k) (ap (λ l. ns ∷ l) spaces_, ap (λ l. name ∷ l) names_)

distinct-same : (ns : Text) (names : List Text) → distinct (ns ∷ []) (map (λ _. ns) names) ≡ []
distinct-same ns [] = refl
distinct-same ns (name ∷ names) = rw (beq_refl ns) (distinct-same ns names)

spaces-key_of :
    (ns name : Text) (names : List Text)
    → Lacks b'/' ns
    → AllLack b'/' (name ∷ names)
    → spaces (map (key_of ns) (name ∷ names)) ≡ ns ∷ []
unfolding spaces
spaces-key_of ns name names h ks =
    ap (λ l. distinct [] l) (namespaces-key_of ns (name ∷ names) h ks).0
    ∙ ap (λ l. ns ∷ l) (distinct-same ns names)

spaces_two :
    (a b x y : Text)
    → a ≢ b
    → Lacks b'/' a
    → Lacks b'/' b
    → Lacks b'/' x
    → Lacks b'/' y
    → spaces (key_of a x ∷ key_of b y ∷ []) ≡ a ∷ b ∷ []
unfolding spaces
spaces_two a b x y apart ha hb hx hy =
    let two = split-key_of a x ha hx in
    let other = split-key_of b y hb hy in
    elim (Bool-cases (a == b)) [
      | inl same ↦ absurd (apart ((text_eq.decides a b).0 same))
      | inr differ ↦ rw (two, other, differ) refl
    ]

is_empty_text : (s : Text) → s ≢ [] → is_empty s ≡ false
is_empty_text [] h = absurd (h refl)
is_empty_text (c ∷ s) h = refl

sent-some :
    (ns query webshark : Text) (chosen : Option Text) (form : Form) (picked : List Text)
    (space : Text)
    → space ≢ []
    → sent ns query webshark chosen form picked (space, none)
      ≡ some (body ns query webshark chosen form picked (space, none))
sent-some ns query webshark chosen form picked space h = rw (is_empty_text space h) refl

-- Pods ticked in one namespace are captured there, by their names: the request goes to that
-- namespace, sets no namespace selector, and allows for all of them.
pub start-key_of :
    (ns query webshark : Text) (chosen : Option Text) (form : Form) (space name : Text)
    (names : List Text) (shown : List Shown)
    → space ≢ []
    → Lacks b'/' space
    → AllLack b'/' (name ∷ names)
    → (b : Body) × (start ns query webshark chosen form (map (key_of space) (name ∷ names)) shown
        ≡ some b)
      × (b.namespace ≡ space)
      × (b.namespace_selector ≡ none)
      × (b.pod_names ≡ name ∷ names)
unfolding start
start-key_of ns query webshark chosen form space name names shown some_space h ks =
    let picked = map (key_of space) (name ∷ names) in
    let one : spaces (key_of space name ∷ map (key_of space) names) ≡ space ∷ [] =
      spaces-key_of space name names h ks in
    (
      body ns query webshark chosen form picked (space, none),
      ap (λ ss. sent ns query webshark chosen form picked (placed_in ns chosen ss)) one
          ∙ sent-some ns query webshark chosen form picked space some_space,
      refl,
      refl,
      (namespaces-key_of space (name ∷ names) h ks).1,
    )

-- A request for two pods of two namespaces is the same as one for pods of the same names with the
-- namespaces exchanged: which pod was ticked where is not part of it.
pub start-exchange :
    (ns query webshark chosen : Text) (form : Form) (a b x y : Text) (shown : List Shown)
    → a ≢ b
    → Lacks b'/' a
    → Lacks b'/' b
    → Lacks b'/' x
    → Lacks b'/' y
    → start ns query webshark (some chosen) form (key_of a x ∷ key_of b y ∷ []) shown
      ≡ start ns query webshark (some chosen) form (key_of b x ∷ key_of a y ∷ []) shown
unfolding start
start-exchange ns query webshark chosen form a b x y shown apart ha hb hx hy =
    let one = spaces_two a b x y apart ha hb hx hy in
    let other = spaces_two b a x y (λ e. apart (sym e)) hb ha hx hy in
    rw
      (
        one,
        other,
        split-key_of a x ha hx,
        split-key_of b x hb hx,
        split-key_of a y ha hy,
        split-key_of b y hb hy,
      )
      refl
