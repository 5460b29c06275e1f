-- ===== src/Captures/Listing/Cells.antt =====
-- The protocols of a capture as its row of the list shows them, of `filesDraw` in src/web/app.js: those
-- that the box names first and marked, then the others, in the server's order.
use mathlib.Core.List.{Perm, perm_middle}
use mathlib.Core.List.Perm
use webshark.Prelude.{
  Text, codes, ◌≡◌, refl, sym, ap, ap₂, subst, ◌∙◌, inl, inr, Bool, true, false, not, ◌&&◌, ◌||◌,
  Option, none, some, List, [], ◌∷◌, ◌++◌, ◌==◌, text_eq, if◌then◌else◌, contains, is_empty, length,
  join, decimal, Bool-cases,
}
use webshark.Captures.Search.{Facet, Term, named}

-- `!t.facet || t.facet === 'proto'`
abbrev of_protos : Facet → Bool
of_protos Facet.any = true
of_protos Facet.name = false
of_protos Facet.proto = true
of_protos Facet.time = false

-- Whether one of `words` names the protocol.
unfoldable pub is_hit : List Term → Text → Bool
unfolding named
is_hit [] p = false
is_hit (t ∷ terms) p =
    not t.neg && (not (is_empty t.word) && (of_protos t.facet && named p t.word)) || is_hit terms p

-- `filter`
unfoldable pub kept_by : (Text → Bool) → List Text → List Text
kept_by q [] = []
kept_by q (p ∷ ps) = if q p then p ∷ kept_by q ps else kept_by q ps

-- The cell: its tooltip, the class `some`, the protocols that are marked, and the text after them.
pub record Cell : Type 0 where
  pub title : Text
  pub partial : Bool
  pub hits : List Text
  pub others : List Text
  pub text : Text

abbrev counted_protos : Bool → List Text → Text
counted_protos partial protos =
    decimal (length protos)
    ++ (if partial
        then codes " protocols in the first frames of the capture"
        else codes " protocols")

unfoldable pub proto_cell : List Term → Bool → Option (List Text) → Cell
unfolding is_hit kept_by decimal
proto_cell terms partial none = record {
  title = codes "still reading";
  partial = partial;
  hits = [];
  others = [];
  text = codes "…";
}
proto_cell terms partial (some protos) =
    let hits = kept_by (is_hit terms) protos in
    let others = kept_by (λ p. not (contains hits p)) protos in
    record {
      title = counted_protos partial protos ++ 10 ∷ join 32 protos;
      partial = partial;
      hits = hits;
      others = others;
      text = join 32 others;
    }

or_always : (a : Bool) → (a || true) ≡ true
or_always true = refl
or_always false = refl

and_never : (a : Bool) → (a && false) ≡ false
and_never true = refl
and_never false = refl

module _ (q : Text → Bool) where
  contains-kept_by :
      (ps : List Text) (p : Text) → contains (kept_by q ps) p ≡ (contains ps p && q p)
  unfolding kept_by
  contains-kept_by [] p = refl
  contains-kept_by (x ∷ ps) p = elim (Bool-cases (x == p)) [
    | inl same ↦
        let e = (text_eq.decides x p).0 same in
        elim (Bool-cases (q x)) [
          | inl hit ↦ rw (hit, same, sym (ap q e) ∙ hit) refl
          | inr miss ↦
              rw (miss, same, sym (ap q e) ∙ miss)
                (contains-kept_by ps p ∙ rw (sym (ap q e) ∙ miss) (and_never (contains ps p)))
        ]
    | inr other ↦ elim (Bool-cases (q x)) [
      | inl hit ↦ rw (hit, other) (contains-kept_by ps p)
      | inr miss ↦ rw (miss, other) (contains-kept_by ps p)
    ]
  ]

  abbrev AllIn : List Text → List Text → Type 0
  AllIn whole [] = Unit
  AllIn whole (p ∷ ps) = (contains whole p ≡ true) × AllIn whole ps

  others_lem :
      (whole ps : List Text)
      → AllIn whole ps
      → kept_by (λ p. not (contains (kept_by q whole) p)) ps ≡ kept_by (λ p. not (q p)) ps
  unfolding kept_by
  others_lem whole [] all = refl
  others_lem whole (p ∷ ps) (one, all) =
      let same : contains (kept_by q whole) p ≡ q p = contains-kept_by whole p ∙ rw one refl in
      ap₂ (λ (b : Bool) (rest : List Text). if not b then p ∷ rest else rest) same
        (others_lem whole ps all)

  kept_by-perm : (ps : List Text) → Perm (kept_by q ps ++ kept_by (λ p. not (q p)) ps) ps
  unfolding kept_by
  kept_by-perm [] = Perm.refl _
  kept_by-perm (p ∷ ps) = elim (Bool-cases (q p)) [
    | inl hit ↦ rw hit (Perm.cons p (kept_by-perm ps))
    | inr miss ↦ rw miss (
        Perm.trans (perm_middle (kept_by q ps) (kept_by (λ p. not (q p)) ps))
          (Perm.cons p (kept_by-perm ps)))
  ]

  AllIn-cons : (x : Text) (whole ps : List Text) → AllIn whole ps → AllIn (x ∷ whole) ps
  AllIn-cons x whole [] all = tt
  AllIn-cons x whole (p ∷ ps) (one, all) =
      (ap (λ b. x == p || b) one ∙ or_always (x == p), AllIn-cons x whole ps all)

  AllIn-self : (ps : List Text) → AllIn ps ps
  AllIn-self [] = tt
  AllIn-self (p ∷ ps) = (rw ((text_eq.decides p p).1 refl) refl, AllIn-cons p ps ps (AllIn-self ps))

-- Where the protocols of a capture are read, its cell marks exactly those that a word of the box names,
-- in the server's order, the others follow in that order, and together they are the protocols of
-- the capture, each as often as the server has it.
pub proto_cell_lem :
    (terms : List Term) (partial : Bool) (protos : List Text)
    → let cell = proto_cell terms partial (some protos) in
      (cell.hits ≡ kept_by (is_hit terms) protos)
      × (cell.others ≡ kept_by (λ p. not (is_hit terms p)) protos)
      × Perm (cell.hits ++ cell.others) protos
unfolding proto_cell
proto_cell_lem terms partial protos =
    let q = is_hit terms in
    let rest = others_lem q protos protos (AllIn-self q protos) in
    (
      refl,
      rest,
      subst (λ (others : List Text). Perm (kept_by q protos ++ others) protos) (sym rest)
          (kept_by-perm q protos),
    )
