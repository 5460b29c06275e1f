-- ===== src/Operator/Cards.antt =====
-- The websharks and the cards of captures of operator/internal/ui/web/app.js: which webshark is
-- chosen (`paintWebsharks`, `current`), where its files are linked (`websharkURL`), and the words of
-- a card (`what`, `ago`).
pub mod Painted
mod Tests
use webshark.Prelude.{
  decimal, is_empty, ℕ, ◌+◌, ◌-◌, ◌/◌, Text, codes, ◌≡◌, refl, ◌∙◌, inl, inr, Bool, true, false,
  not, ◌&&◌, ◌||◌, Option, none, some, List, [], ◌∷◌, ◌++◌, map, ◌==◌, text_eq, nat_eq,
  if◌then◌else◌, ltb, length, join, contains, arith, Bool-cases, beq_refl,
}
use webshark.Operator.Pods.{label_texts}

pub record Webshark : Type 0 where
  pub namespace : Text
  pub name : Text
  pub service_url : Option Text
  pub path : Text

unfoldable pub webshark_key : Webshark → Text
webshark_key w = w.namespace ++ b'/' ∷ w.name

-- `current`, of `S.webshark`
unfoldable pub current : List Webshark → Text → Option Webshark
unfolding webshark_key
current [] chosen = none
current (w ∷ ws) chosen = if webshark_key w == chosen then some w else current ws chosen

abbrev first_key : List Webshark → Text
first_key [] = []
first_key (w ∷ ws) = webshark_key w

-- What `paintWebsharks` leaves in `S.webshark`.
unfoldable pub choose : List Webshark → Text → Text
choose ws chosen = if contains (map webshark_key ws) chosen then chosen else first_key ws

abbrev same_url : Option Text → Option Text → Bool
same_url none none = true
same_url none (some b) = false
same_url (some a) none = false
same_url (some a) (some b) = a == b

abbrev linked : Option Text → Text
linked none = []
linked (some url) = url

-- `endsWith('/')`
abbrev ends_slash : Text → Bool
ends_slash [] = false
ends_slash (c ∷ []) = c == b'/'
ends_slash (c ∷ d ∷ s) = ends_slash (d ∷ s)

unfoldable pub webshark_url : List Webshark → Option Text → Text
webshark_url [] url =
    let raw = linked url in
    if not (is_empty raw) && not (ends_slash raw) then raw ++ b'/' ∷ [] else raw
webshark_url (w ∷ ws) url =
    let later = webshark_url ws url in if same_url w.service_url url then w.path else later

-- What a capture was asked for; empty where the field is not set.
pub record Spec : Type 0 where
  pub labels : Option (List (Text × Text))
  pub pod_names : List Text
  pub filter : Text
  pub duration : Text

abbrev comma_for : ℕ → ℕ
comma_for c = if c == 10 then b',' else c

abbrev label_bit : Option (List (Text × Text)) → List Text
label_bit none = []
label_bit (some labels) = map comma_for (join 10 (label_texts labels)) ∷ []

abbrev pods_bit : ℕ → List Text
pods_bit n =
    if n == 0 then [] else (decimal n ++ (codes " pod" ++ (if ltb 1 n then codes "s" else []))) ∷ []

abbrev dotted : List Text → Text
dotted [] = []
dotted (s ∷ []) = s
dotted (s ∷ t ∷ bits) = s ++ (codes " · " ++ dotted (t ∷ bits))

unfoldable pub what : Spec → Text
unfolding decimal
what spec = dotted (
    label_bit spec.labels
    ++ (pods_bit (length spec.pod_names)
        ++ (if is_empty spec.filter then codes "all traffic" else spec.filter)
          ∷ (if is_empty spec.duration then codes "5m" else spec.duration)
          ∷ []))

-- `ago`, of the milliseconds of the clock and of the time, if there is one.
unfoldable pub ago : ℕ → Option ℕ → Text
unfolding decimal
ago now none = []
ago now (some at) =
    let ms = now - at in
    if ltb ms 90000
    then decimal ((ms + 500) / 1000) ++ codes "s"
    else if ltb ms 5400000
    then decimal ((ms + 30000) / 60000) ++ codes "m"
    else decimal ((ms + 1800000) / 3600000) ++ codes "h"

current-contains :
    (ws : List Webshark) (chosen : Text)
    → contains (map webshark_key ws) chosen ≡ true
    → (w : Webshark) × (current ws chosen ≡ some w)
unfolding current
current-contains [] chosen h = absurd (cc)
current-contains (w ∷ ws) chosen h = elim (Bool-cases (webshark_key w == chosen)) [
  | inl here ↦ (w, rw (here, current) refl)
  | inr other ↦
      let (found, is) = current-contains ws chosen (rw other at h) in
      (found, rw (other, current) is)
]

current_first : (w : Webshark) (ws : List Webshark) → current (w ∷ ws) (webshark_key w) ≡ some w
unfolding current
current_first w ws = rw (beq_refl (webshark_key w)) refl

-- While there is a webshark there is a chosen one, whatever was chosen before the list was read.
pub current-choose :
    (w : Webshark) (ws : List Webshark) (chosen : Text)
    → (v : Webshark) × (current (w ∷ ws) (choose (w ∷ ws) chosen) ≡ some v)
unfolding choose
current-choose w ws chosen = elim (Bool-cases (contains (map webshark_key (w ∷ ws)) chosen)) [
  | inl kept ↦ let (v, is) = current-contains (w ∷ ws) chosen kept in (v, rw (kept, choose) is)
  | inr gone ↦ (w, rw (gone, choose) (current_first w ws))
]
