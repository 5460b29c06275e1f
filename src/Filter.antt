-- ===== src/Filter.antt =====
-- A display filter on its way to the server, of src/web/app.js: `compile` sends it as it was typed,
-- and where that is rejected with the values in quotes that `requote` puts around them.
pub mod Laws
mod Tests
use mathlib.Core.Option
use webshark.Prelude.{
  is_empty, is_space, ℕ, zero, suc, ◌+◌, ◌-◌, Text, codes, Bool, true, false, not, ◌&&◌, ◌||◌,
  Option, none, some, List, [], ◌∷◌, ◌++◌, map, ◌==◌, nat_eq, text_eq, if◌then◌else◌, ltb, length,
  take, drop, contains, starts_with,
}

-- The server's answer to `check`, a call that failed being one that rejects the filter.
pub data Checked : Type 0 where
  passes : Checked
  fails : Text → Checked

-- What `compile` returns.
pub data Use : Type 0 where
  used : Text → Use
  refused : Text → Text → Use

-- `(?:\\.|[^q\\])*q`: how many characters there are up to the closing `q`, and with it
abbrev closing : ℕ → Text → Option ℕ
closing q [] = none
closing q (c ∷ []) = if c == q then some 1 else none
closing q (c ∷ d ∷ s) =
    let escaped = Option.map (λ n. 2 + n) (closing q s) in
    let longer = Option.map suc (closing q (d ∷ s)) in
    if c == 92 then escaped else if c == q then some 1 else longer

abbrev is_quote : ℕ → Bool
is_quote c = c == b'"' || c == 39 || c == b'/'

-- one of "(){}[],<>~!="
abbrev is_sign : ℕ → Bool
is_sign c = contains (codes "(){}[],<>~!=") c

abbrev is_pair : ℕ → ℕ → Bool
is_pair c d =
    c == b'&' && d == b'&'
    || c == b'|' && d == b'|'
    || (c == b'=' || c == b'!' || c == b'>' || c == b'<') && d == b'='

-- what a bare value may hold
abbrev is_bare_char : ℕ → Bool
is_bare_char c = not (is_space c || is_sign c || is_quote c || c == b'&' || c == b'|')

abbrev bare_length : Text → ℕ
bare_length [] = 0
bare_length (c ∷ s) = let n = bare_length s in if is_bare_char c then suc n else 0

abbrev pair_or_sign : Text → Option ℕ
pair_or_sign [] = none
pair_or_sign (c ∷ []) = if is_sign c then some 1 else none
pair_or_sign (c ∷ d ∷ s) = if is_pair c d then some 2 else if is_sign c then some 1 else none

abbrev or_bare : Text → Option ℕ → Option ℕ
or_bare s (some n) = some n
or_bare s none = let n = bare_length s in if n == 0 then none else some n

-- The length of the match of `PIECE` at the front of a text.
unfoldable pub piece_length : Text → Option ℕ
unfolding is_space
piece_length [] = none
piece_length (c ∷ s) =
    if is_quote c then Option.map suc (closing c s) else or_bare (c ∷ s) (pair_or_sign (c ∷ s))

pub record Piece : Type 0 where
  pub index : ℕ
  pub text : Text

-- `text.matchAll(PIECE)`: each match moves the index on, so the length of the text is fuel enough.
unfoldable pub pieces_from : ℕ → ℕ → Text → List Piece
unfolding piece_length
pieces_from zero i s = []
pieces_from (suc fuel) i s = elim (piece_length s) [
  | none ↦ pieces_from fuel (suc i) (drop 1 s)
  | some n ↦ record { index = i; text = take n s } ∷ pieces_from fuel (i + n) (drop n s)
]

-- `COMPARE`
abbrev comparisons : List Text
comparisons =
    codes "=="
    ∷ codes "!="
    ∷ codes ">="
    ∷ codes "<="
    ∷ codes ">"
    ∷ codes "<"
    ∷ codes "~"
    ∷ codes "eq"
    ∷ codes "ne"
    ∷ codes "gt"
    ∷ codes "lt"
    ∷ codes "ge"
    ∷ codes "le"
    ∷ codes "contains"
    ∷ codes "matches"
    ∷ codes "in"
    ∷ []

unfoldable pub bare : Text → Bool
bare [] = true
bare (c ∷ t) = not (is_quote c || is_sign c || c == b'&' || c == b'|')

-- A bare value, and the field it is compared against.
pub record Value : Type 0 where
  pub at : Piece
  pub field : Text

-- The case conversion of the browser, and `takesString`, which asks the server.
module _ (lower : Text → Text) (takes : Text → Bool) where
  -- The loop over the pieces, with the one before, the field of the comparison, and whether that
  -- is `in`.
  unfoldable pub values_from : Text → Text → Bool → List Piece → List Value
  unfolding bare
  values_from left field many [] = []
  values_from left field many (p ∷ ps) =
      let t = p.text in
      let compared = contains comparisons (lower t) in
      let opens = many && (t == codes "{" || t == codes ",") in
      let field' =
        if compared
        then (if bare left then left else [])
        else if is_empty field || opens
        then field
        else if not many || not (bare t)
        then []
        else field in
      let rest = values_from t field' (if compared then lower t == codes "in" else many) ps in
      if compared || is_empty field || opens || not (bare t)
      then rest
      else record { at = p; field = field } ∷ rest

  -- `replace(/["\\]/g, '\\$&')`
  abbrev escaped : Text → Text
  escaped [] = []
  escaped (c ∷ t) = if c == b'"' || c == 92 then 92 ∷ c ∷ escaped t else c ∷ escaped t

  -- The text from an index on, with the values after it in quotes.
  unfoldable pub quoted_from : Text → ℕ → List Value → Text
  quoted_from text end [] = drop end text
  quoted_from text end (v ∷ vs) =
      let next = v.at.index + length v.at.text in
      let kept = quoted_from text end vs in
      let quoted =
        take (v.at.index - end) (drop end text)
        ++ b'"' ∷ (escaped v.at.text ++ b'"' ∷ quoted_from text next vs) in
      if takes v.field then quoted else kept

  unfoldable pub requote : Text → Text
  unfolding pieces_from values_from quoted_from
  requote text = quoted_from text 0 (values_from [] [] false (pieces_from (length text) 0 text))

module _ (lower : Text → Text) (takes : Text → Bool) (check : Text → Checked) where
  abbrev pub retried : Text → Text → Text → Checked → Use
  retried text fixed err passes = used fixed
  retried text fixed err (fails _) = refused text err

  unfoldable pub compile : Text → Use
  unfolding requote
  compile text = elim (check text) [
    | passes ↦ used text
    | fails err ↦
        if requote lower takes text == text
        then refused text err
        else retried text (requote lower takes text) err (check (requote lower takes text))
  ]
