-- ===== src/Captures/Search.antt =====
-- The box over the capture list, of src/web/app.js: its words as terms (`parseFind`), and what a
-- capture answers to them (`matches`, `term`, `overlaps`, `captured`).
pub mod Verdicts
mod Tests
use webshark.Prelude.{
  is_empty, is_none, is_space, ℕ, suc, ◌+◌, ◌-◌, ◌≤◌, String, Text, codes, Bool, true, false, not,
  ◌&&◌, ◌||◌, Option, none, some, List, [], ◌∷◌, ◌++◌, ◌==◌, nat_eq, text_eq, ltb, leb,
  if◌then◌else◌, length, split, includes, starts_with, drop, take, map,
}
use webshark.Captures.Moments.{Browser, Span, moment, stamp, lasted}

-- One entry of the listing. A time that the listing leaves out is 0.
pub record Capture : Type 0 where
  pub name : Text
  pub size : ℕ
  pub first : ℕ
  pub last : ℕ
  pub mtime : ℕ
  pub protos : Option (List Text)
  pub partial : Bool

pub data Facet : Type 0 where
  any name proto time : Facet

pub data Op : Type 0 where
  bare gt ge lt le : Op

pub record Term : Type 0 where
  pub neg : Bool
  pub facet : Facet
  pub op : Op
  pub word : Text
  pub at : Option Span

abbrev pub non_empty : List Text → List Text
non_empty [] = []
non_empty (w ∷ ws) = if is_empty w then non_empty ws else w ∷ non_empty ws

-- The word less its sign.
abbrev unsigned : Text → Bool × Text
unsigned [] = (false, [])
unsigned (c ∷ []) = (false, c ∷ [])
unsigned (c ∷ d ∷ s) = if c == b'-' then (true, d ∷ s) else (false, c ∷ d ∷ s)

-- `/i` on the letters of a facet
lower_ascii : ℕ → ℕ
lower_ascii c = if leb b'A' c && leb c b'Z' then c + 32 else c

abbrev prefixed : String → Text → Bool
prefixed p w = starts_with (map lower_ascii w) (codes p)

-- The facet, the operator that two of them stand for, and the rest of the word.
faceted : Text → Facet × Op × Text
unfolding lower_ascii
faceted w =
    if prefixed "name:" w
    then (name, bare, drop 5 w)
    else if prefixed "proto:" w
    then (proto, bare, drop 6 w)
    else if prefixed "time:" w
    then (time, bare, drop 5 w)
    else if prefixed "after:" w
    then (time, gt, drop 6 w)
    else if prefixed "before:" w
    then (time, lt, drop 7 w)
    else (any, bare, w)

operated : Op → Text → Op × Text
operated op w =
    if starts_with w (codes ">=")
    then (ge, drop 2 w)
    else if starts_with w (codes "<=")
    then (le, drop 2 w)
    else if starts_with w (codes ">")
    then (gt, drop 1 w)
    else if starts_with w (codes "<")
    then (lt, drop 1 w)
    else (op, w)

module _ (b : Browser) where
  unfoldable pub parse_word : Text → Term
  unfolding faceted operated moment
  parse_word w =
      let (neg, w1) = unsigned w in
      let (facet, op, w2) = faceted w1 in
      let (op', w3) = operated op w2 in
      record { neg = neg; facet = facet; op = op'; word = b.lower w3; at = moment b w3 }

  -- Trimming, splitting at runs of white space and dropping what is empty come to the same as
  -- splitting at each one and dropping what is empty.
  unfoldable pub parse_find : Text → List Term
  unfolding is_space parse_word
  parse_find text = map parse_word (non_empty (split is_space text))

-- `taken`: when the frames were, or the file's own time where the capture says nothing
unfoldable pub taken : Capture → Span
taken c =
    if c.first == 0
    then record { from = c.mtime; to = c.mtime }
    else record { from = c.first; to = if c.last == 0 then c.first else c.last }

unfoldable pub overlaps : Capture → Op → Span → Bool
unfolding taken
overlaps c op at =
    let t = taken c in
    if t.from == 0 then false else elim op [
      | gt ↦ leb at.from t.to
      | ge ↦ leb at.from t.to
      | lt ↦ leb t.from at.to
      | le ↦ leb t.from at.to
      | bare ↦ leb t.from at.to && leb at.from t.to
    ]

unfoldable pub captured : Browser → Capture → Text
unfolding taken stamp lasted
captured b c =
    let t = taken c in
    let mark = if c.first == 0 then codes "~" else [] in
    let run =
      if not (c.first == 0) && not (c.last == 0) && ltb (t.from + 1000) t.to
      then codes "  +" ++ lasted b (t.to - t.from)
      else [] in
    if t.from == 0 then [] else mark ++ (stamp b t.from ++ run)

-- `spelt`: the tooltip of the Captured column
unfoldable pub spelt : Browser → Capture → Text
unfolding taken stamp
spelt b c =
    let t = taken c in
    if t.from == 0
    then []
    else if c.first == 0
    then stamp b t.from ++ codes "\nthe capture does not say when, so this is the file's own time"
    else if c.last == 0
    then stamp b t.from ++ codes "\nits first frame; the file does not say where the last one is"
    else stamp b t.from ++ (codes " → " ++ stamp b t.to)

-- `named`: a word of the protocol's name begins so
abbrev any_starts : List Text → Text → Bool
any_starts [] w = false
any_starts (part ∷ parts) w = starts_with part w || any_starts parts w

unfoldable pub named : Text → Text → Bool
named p w = any_starts (split (λ c. c == b'-' || c == b'.' || c == b'_') p) w

abbrev any_named : List Text → Text → Bool
any_named [] w = false
any_named (p ∷ ps) w = named p w || any_named ps w

-- `c.protos ? proto(c, word) : null`
abbrev known : Option (List Text) → Text → Option Bool
known none w = none
known (some ps) w = some (any_named ps w)

abbrev is_bare : Op → Bool
is_bare bare = true
is_bare _ = false

abbrev within : Capture → Op → Option Span → Bool
within c op none = false
within c op (some at) = overlaps c op at

-- What a term that is no time answers; `none` is the code's `null`.
abbrev word_answer : Browser → Capture → Facet → Text → Option Span → Option Bool
word_answer b c name w at = some (includes (b.lower c.name) w)
word_answer b c proto w at = known c.protos w
word_answer b c time w at = some (within c bare at)
word_answer b c any w at =
    if includes (b.lower c.name) w
    then some true
    else if includes (b.lower (captured b c)) w
    then some true
    else if within c bare at
    then some true
    else known c.protos w

unfoldable pub term : Browser → Capture → Term → Option Bool
term b c t =
    if is_empty t.word && is_none t.at
    then some true
    else if is_bare t.op
    then word_answer b c t.facet t.word t.at
    else some (within c t.op t.at)

pub data Verdict : Type 0 where
  hit miss maybe : Verdict

abbrev same : Bool → Bool → Bool
same true x = x
same false x = not x

-- One round of the loop of `matches`, given the verdict of the rounds behind it.
abbrev unsure : Verdict → Verdict
unsure miss = miss
unsure _ = maybe

abbrev judged : Bool → Option Bool → Verdict → Verdict
judged neg none rest = unsure rest
judged neg (some found) rest = if same found neg then miss else rest

unfoldable pub matches : Browser → Capture → List Term → Verdict
matches b c [] = hit
matches b c (t ∷ ts) = judged t.neg (term b c t) (matches b c ts)
