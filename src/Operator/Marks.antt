-- ===== src/Operator/Marks.antt =====
-- `mark` of operator/internal/ui/web/app.js: the text of a row, in runs that are marked and runs
-- that are not.
mod Tests
use webshark.Prelude.{
  is_empty, ℕ, suc, Text, ◌≡◌, refl, Bool, true, false, List, [], ◌∷◌, ◌++◌, append-nil,
  append_assoc, map, ◌==◌, nat_eq, contains, if◌then◌else◌, Bool-cases, arith, sym, ◌∙◌, ap, inl,
  inr,
}

-- A child of the row: a text, or a `mark` element around one.
pub record Piece : Type 0 where
  pub lit : Bool
  pub run : Text

abbrev same : Bool → Bool → Bool
same true on = on
same false true = false
same false false = true

-- The loop from an index on, with its run and whether that is lit.
unfoldable pub mark_from : List ℕ → ℕ → Text → Text → Bool → List Piece
mark_from hits i [] run lit = record { lit = lit; run = run } ∷ []
mark_from hits i (c ∷ text) run lit =
    let on = contains hits i in
    let longer = if same lit on then run ++ c ∷ [] else c ∷ [] in
    let rest = mark_from hits (suc i) text longer on in
    if same lit on then rest else record { lit = lit; run = run } ∷ rest

unfoldable pub mark : Text → List ℕ → List Piece
unfolding mark_from
mark text hits =
    if is_empty hits
    then record { lit = false; run = text } ∷ []
    else mark_from hits 0 text [] (contains hits 0)

-- Each letter of the pieces, and whether it is marked.
abbrev shade : Bool → Text → List (ℕ × Bool)
shade lit [] = []
shade lit (c ∷ run) = (c, lit) ∷ shade lit run

abbrev pub spread : List Piece → List (ℕ × Bool)
spread [] = []
spread (p ∷ ps) = shade p.lit p.run ++ spread ps

-- Each letter of a text, and whether its place is among the hits.
abbrev pub shaded : List ℕ → ℕ → Text → List (ℕ × Bool)
shaded hits i [] = []
shaded hits i (c ∷ text) = (c, contains hits i) ∷ shaded hits (suc i) text

shade-append : (lit : Bool) (a b : Text) → shade lit (a ++ b) ≡ shade lit a ++ shade lit b
shade-append lit [] b = refl
shade-append lit (c ∷ a) b = ap (λ l. (c, lit) ∷ l) (shade-append lit a b)

same_eq : (a b : Bool) → same a b ≡ true → a ≡ b
same_eq true b h = sym h
same_eq false true h = h
same_eq false false h = refl

spread-mark_from :
    (hits : List ℕ) (i : ℕ) (text run : Text) (lit : Bool)
    → spread (mark_from hits i text run lit) ≡ shade lit run ++ shaded hits i text
unfolding mark_from
spread-mark_from hits i [] run lit = refl
spread-mark_from hits i (c ∷ text) run lit = elim (Bool-cases (same lit (contains hits i))) [
  | inl on ↦
      rw (on, mark_from)
        (spread-mark_from hits (suc i) text (run ++ c ∷ []) (contains hits i)
          ∙ ap (λ l. l ++ shaded hits (suc i) text) (shade-append (contains hits i) run (c ∷ []))
          ∙ append_assoc (shade (contains hits i) run) ((c, contains hits i) ∷ [])
              (shaded hits (suc i) text)
          ∙ ap (λ b. shade b run ++ (c, contains hits i) ∷ shaded hits (suc i) text)
              (sym (same_eq lit (contains hits i) on)))
  | inr off ↦
      rw (off, mark_from)
        (ap (λ l. shade lit run ++ l)
          (spread-mark_from hits (suc i) text (c ∷ []) (contains hits i)))
]

shaded-nil : (i : ℕ) (text : Text) → shaded [] i text ≡ shade false text
shaded-nil i [] = refl
shaded-nil i (c ∷ text) = ap (λ l. (c, false) ∷ l) (shaded-nil (suc i) text)

-- The pieces hold the text's letters in order, none lost and none added, and a letter is marked
-- exactly where its place is among the hits.
pub spread-mark : (text : Text) (hits : List ℕ) → spread (mark text hits) ≡ shaded hits 0 text
unfolding mark
spread-mark text [] = append-nil (shade false text) ∙ sym (shaded-nil 0 text)
spread-mark text (h ∷ hits) = spread-mark_from (h ∷ hits) 0 text [] (contains (h ∷ hits) 0)
