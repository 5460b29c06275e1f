-- ===== src/Operator/Cards/Painted.antt =====
-- The cards of captures as `paintCaptures` of operator/internal/ui/web/app.js builds them: whether
-- a card is open, the badges of `counts`, the rows of its targets, and the line that stands for
-- them where there are none.
use webshark.Prelude.{
  ℕ, Text, codes, Bool, false, not, ◌&&◌, ◌||◌, Option, none, some, List, [], ◌∷◌, ◌++◌, map, ◌==◌,
  text_eq, nat_eq, if◌then◌else◌, decimal, is_empty, contains, get,
}
use webshark.Operator.Cards.{Webshark, Spec, webshark_url, what, ago}

-- A field that is not set is empty, 0 or none; `started_at` is in milliseconds.
pub record Target : Type 0 where
  pub namespace : Text
  pub pod : Text
  pub phase : Text
  pub capturer : Text
  pub file : Text
  pub message : Text
  pub started_at : Option ℕ

pub record Status : Type 0 where
  pub targets : List Target
  pub capturing : ℕ
  pub completed : ℕ
  pub failed : ℕ
  pub conditions : List (Text × Option Text)
  pub webshark_url : Option Text

pub record PacketCapture : Type 0 where
  pub namespace : Text
  pub name : Text
  pub paused : Bool
  pub spec : Spec
  pub status : Status

-- A row of a card: its link is the address and the name of the file, and `why` is the line under it.
pub record TargetRow : Type 0 where
  pub pod : Text
  pub title : Text
  pub phase : Text
  pub link : Option (Text × Text)
  pub since : Text
  pub is_msg : Bool
  pub why : Option Text

-- The body of a card is its rows, or a line.
pub data CardBody : Type 0 where
  rows : List TargetRow → CardBody
  quiet : Text → CardBody

pub record Card : Type 0 where
  pub key : Text
  pub opened : Bool
  pub pause : Text
  pub asked_for : Text
  pub badges : List (Text × Text)
  pub body : CardBody

unfoldable pub capture_key : PacketCapture → Text
capture_key c = c.namespace ++ b'/' ∷ c.name

-- the class of a badge and its text
abbrev counted_as : Text → Text → ℕ → List (Text × Text)
counted_as phase word n = if n == 0 then [] else (phase, decimal n ++ b' ' ∷ word) ∷ []

unfoldable pub counts : Status → List (Text × Text)
unfolding decimal
counts s =
    counted_as (codes "Capturing") (codes "capturing") s.capturing
    ++ (counted_as (codes "Completed") (codes "completed") s.completed
        ++ counted_as (codes "Failed") (codes "failed") s.failed)

-- `find(…)?.message ?? 'no pods yet'`
unfoldable pub message : List (Text × Option Text) → Text
message [] = codes "no pods yet"
message ((kind, none) ∷ conditions) =
    if kind == codes "Ready" then codes "no pods yet" else message conditions
message ((kind, some text) ∷ conditions) =
    if kind == codes "Ready" then text else message conditions

abbrev is_capturing : List Target → Bool
is_capturing [] = false
is_capturing (t ∷ ts) = t.phase == codes "Capturing" || is_capturing ts

abbrev pub said_or : Option Bool → Bool → Bool
said_or none b = b
said_or (some said) b = said

-- `encodeURIComponent` is the browser's, and `now` its clock.
module _ (encode : Text → Text) where
  unfoldable pub target_row : Text → ℕ → Target → TargetRow
  unfolding ago
  target_row base now t =
      let brief = t.phase == codes "Completed" || t.phase == codes "Capturing" in
      let told = brief && not (is_empty t.message) in
      record {
        pod = t.namespace ++ b'/' ∷ t.pod;
        title = if is_empty t.capturer then [] else codes "captured by " ++ t.capturer;
        phase = t.phase;
        link =
            if is_empty t.file then none else some (base ++ (codes "#f=" ++ encode t.file), t.file);
        since = if told then t.message else ago now t.started_at;
        is_msg = told;
        why = if brief || is_empty t.message then none else some t.message;
      }

  abbrev body_of : Text → ℕ → Status → List Target → CardBody
  body_of base now status [] = quiet (message status.conditions)
  body_of base now status (t ∷ ts) = rows (map (target_row base now) (t ∷ ts))

  unfoldable pub card : List Webshark → ℕ → List (Text × Bool) → PacketCapture → Card
  unfolding capture_key counts message target_row webshark_url what
  card websharks now folds c = record {
    key = capture_key c;
    opened = said_or (get folds (capture_key c)) (is_capturing c.status.targets);
    pause = if c.paused then codes "resume" else codes "pause";
    asked_for = what c.spec;
    badges = counts c.status;
    body = body_of (webshark_url websharks c.status.webshark_url) now c.status c.status.targets;
  }

-- A capture that has gone takes its fold with it: the loop over the keys of `S.folds`.
unfoldable pub drop_gone : List Text → List (Text × Bool) → List (Text × Bool)
drop_gone live [] = []
drop_gone live ((key, said) ∷ folds) =
    if contains live key then (key, said) ∷ drop_gone live folds else drop_gone live folds

-- `paintCaptures`: what it leaves in `S.folds`, and the cards.
unfoldable pub paint_captures :
    (Text → Text)
    → List Webshark
    → ℕ
    → List (Text × Bool)
    → List PacketCapture
    → List (Text × Bool) × List Card
unfolding drop_gone card capture_key
paint_captures encode websharks now folds [] = (folds, [])
paint_captures encode websharks now folds (c ∷ cs) =
    let kept = drop_gone (map capture_key (c ∷ cs)) folds in
    (kept, map (card encode websharks now kept) (c ∷ cs))
