-- ===== src/Operator/Pods/Search.antt =====
-- Which pods a search leaves, and in which order.
use mathlib.Core.List.{Perm}
use mathlib.Core.List.Perm
use webshark.Prelude.{
  is_empty, or_false, or_assoc, Text, ◌≡◌, refl, ◌⊎◌, inl, inr, Bool, true, false, ◌&&◌, ◌||◌,
  Option, none, some, List, [], ◌∷◌, map, arith, if◌then◌else◌, ltb_ℤ, sort_by-perm,
  sort_by-IsSortedBy, IsSortedBy, Bool-cases, Option-cases, ap, ◌∙◌, sym, subst, sort_by,
}
use webshark.Operator.Fuzzy.{Found, fuzzy}
use webshark.Operator.Pods.{
  Pod, Locale, Shown, Best, Tally, is_selector, pod_name, label_texts, in_name, in_label, in_labels,
  best_of, counted, tally, words_of, found, comes_first, search, nothing,
}

abbrev pub is_some {ℓ} : {A : Type ℓ} → Option A → Bool
is_some none = false
is_some (some _) = true

-- A word is in a pod: in its name, or in one of its labels.
abbrev pub in_any : Locale → Text → List Text → Bool
in_any l word [] = false
in_any l word (label ∷ labels) = is_some (fuzzy word (l.lower label)) || in_any l word labels

abbrev pub all_in : Locale → Text → List Text → List Text → Bool
all_in l name labels [] = true
all_in l name labels (word ∷ words) =
    (is_some (fuzzy word name) || in_any l word labels) && all_in l name labels words

abbrev pub keeps : Locale → Text → List Text → Pod → Bool
keeps l ns words pod = all_in l (l.lower (pod_name ns pod)) (label_texts pod.labels) words

abbrev pub kept : Locale → Text → List Text → List Pod → List Pod
kept l ns words [] = []
kept l ns words (pod ∷ pods) =
    if keeps l ns words pod then pod ∷ kept l ns words pods else kept l ns words pods

module _ (l : Locale) where
  in_label-some :
      (label : Text) (m : Option Found) (best : Option Best)
      → is_some (in_label label m best) ≡ (is_some best || is_some m)
  in_label-some label none none = refl
  in_label-some label none (some b) = refl
  in_label-some label (some m) none = refl
  in_label-some label (some m) (some b) = elim (Bool-cases (ltb_ℤ b.score m.score)) [
    | inl up ↦ rw up refl
    | inr stay ↦ rw stay refl
  ]

  in_labels-some :
      (word : Text) (labels : List Text) (best : Option Best)
      → is_some (in_labels l word labels best) ≡ (is_some best || in_any l word labels)
  unfolding in_labels
  in_labels-some word [] best = sym (or_false (is_some best))
  in_labels-some word (label ∷ labels) best =
      in_labels-some word labels (in_label label (fuzzy word (l.lower label)) best)
      ∙ ap (λ b. b || in_any l word labels) (in_label-some label (fuzzy word (l.lower label)) best)
      ∙ sym (or_assoc (is_some best) (is_some (fuzzy word (l.lower label))) (in_any l word labels))

  in_name-some : (m : Option Found) → is_some (in_name m) ≡ is_some m
  in_name-some none = refl
  in_name-some (some m) = refl

  best_of-some :
      (name : Text) (labels : List Text) (word : Text)
      → is_some (best_of l name labels word) ≡ (is_some (fuzzy word name) || in_any l word labels)
  unfolding best_of
  best_of-some name labels word =
      in_labels-some word labels (in_name (fuzzy word name))
      ∙ ap (λ b. b || in_any l word labels) (in_name-some (fuzzy word name))

  tally-some :
      (name : Text) (labels words : List Text) (t : Tally)
      → is_some (tally l name labels words t) ≡ all_in l name labels words
  unfolding tally
  tally-some name labels [] t = refl
  tally-some name labels (word ∷ words) t = elim (Option-cases (best_of l name labels word)) [
    | inl never ↦
        let out : (is_some (fuzzy word name) || in_any l word labels) ≡ false =
          sym (rw never at (best_of-some name labels word)) in
        rw (never, tally, out) refl
    | inr (best, here) ↦
        let there : (is_some (fuzzy word name) || in_any l word labels) ≡ true =
          sym (rw here at (best_of-some name labels word)) in
        rw (here, tally, there) (tally-some name labels words (counted best t))
  ]

  map-found :
      (ns : Text) (words : List Text) (pods : List Pod)
      → map (λ s. s.pod) (found l ns words pods) ≡ kept l ns words pods
  unfolding found
  map-found ns words [] = refl
  map-found ns words (pod ∷ pods) =
      let name = l.lower (pod_name ns pod) in
      let labels = label_texts pod.labels in
      let kept_or = tally-some name labels words nothing in
      elim (Option-cases (tally l name labels words nothing)) [
        | inl never ↦
            let out : keeps l ns words pod ≡ false = sym (rw never at kept_or) in
            rw (never, out) (map-found ns words pods)
        | inr (t, here) ↦
            let there : keeps l ns words pod ≡ true = sym (rw here at kept_or) in
            rw (here, there) (ap (λ ps. pod ∷ ps) (map-found ns words pods))
      ]

  -- What is left of the pods by a search is exactly those in which every word is found, in the name
  -- the row shows or in a label, each as often as it was listed.
  pub search-perm :
      (query ns : Text) (pods : List Pod)
      → is_empty (words_of l query) ≡ false
      → is_selector query ≡ false
      → Perm (map (λ s. s.pod) (search l query ns pods)) (kept l ns (words_of l query) pods)
  unfolding search
  search-perm query ns pods words plain =
      rw (words, plain)
        (subst
          (λ ps.
            Perm
              (map (λ s. s.pod) (sort_by (comes_first l ns) (found l ns (words_of l query) pods)))
              ps)
          (map-found ns (words_of l query) pods)
          (Perm.map (λ s. s.pod)
            (sort_by-perm (comes_first l ns) (found l ns (words_of l query) pods))))

module _ (l : Locale) (total : (s t : Text) → (l.leq s t ≡ true) ⊎ (l.leq t s ≡ true))
    (transitive : (s t u : Text) → l.leq s t ≡ true → l.leq t u ≡ true → l.leq s u ≡ true)
    (ns : Text) where
  comes_first-total : (a b : Shown) → (comes_first l ns a b ≡ true) ⊎ (comes_first l ns b a ≡ true)
  unfolding comes_first
  comes_first-total a b = elim (total (pod_name ns a.pod) (pod_name ns b.pod)) [
    | inl h ↦ ground arith
    | inr h ↦ ground arith
  ]

  comes_first-transitive :
      (a b c : Shown)
      → comes_first l ns a b ≡ true
      → comes_first l ns b c ≡ true
      → comes_first l ns a c ≡ true
  unfolding comes_first
  comes_first-transitive a b c h k =
      let names = transitive (pod_name ns a.pod) (pod_name ns b.pod) (pod_name ns c.pod) in
      ground (arith, names)

  -- The pods that a search leaves stand in its order: those that run before those that do not, then
  -- by score, the best first, then by the name, where the locale's order is total and transitive.
  pub search-IsSortedBy :
      (query : Text) (pods : List Pod)
      → is_empty (words_of l query) ≡ false
      → is_selector query ≡ false
      → IsSortedBy (comes_first l ns) (search l query ns pods)
  unfolding search
  search-IsSortedBy query pods words plain =
      rw (words, plain)
        (sort_by-IsSortedBy (comes_first l ns) comes_first-total comes_first-transitive
          (found l ns (words_of l query) pods))
