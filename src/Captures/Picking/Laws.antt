-- ===== src/Captures/Picking/Laws.antt =====
-- Which captures are picked after a click.
use mathlib.Core.Option.{some-injective}
use webshark.Prelude.{
  or_false, or_assoc, ℕ, zero, suc, ◌+◌, ◌-◌, ◌≤◌, ◌<◌, min, max, arith, Text, ◌≡◌, refl, sym, ap,
  ◌∙◌, ◌⊎◌, ◌↔◌, inl, inr, Bool, true, false, not, ◌&&◌, ◌||◌, none, some, List, [], ◌∷◌, ◌==◌,
  text_eq, if◌then◌else◌, get_elem?, contains, add, take, drop, length, ltb, lt→ltb,
  contains-delete, contains-add, Bool-cases, get_elem?-take, get_elem?-drop,
}
use webshark.Captures.Picking.{Picks, add_all, between, toggle, reach, pick_row}

contains-add_all :
    (names picked : List Text) (key : Text)
    → contains (add_all names picked) key ≡ (contains picked key || contains names key)
unfolding add_all
contains-add_all [] picked key = sym (or_false (contains picked key))
contains-add_all (name ∷ names) picked key =
    contains-add_all names (add name picked) key
    ∙ ap (λ b. b || contains names key) (contains-add name picked key)
    ∙ sym (or_assoc (contains picked key) (name == key) (contains names key))

and_true : (a b : Bool) → b ≡ false → (a && not b) ≡ a
and_true true b h = rw h refl
and_true false b h = refl

or_right : (a b : Bool) → b ≡ false → (a || b) ≡ a
or_right true b h = refl
or_right false b h = h

left_out : (c b : Bool) → c ≡ true → b ≡ true → (c && not b) ≡ not c
left_out c b h k = rw (h, k) refl

put_in : (c b : Bool) → c ≡ false → b ≡ true → (c || b) ≡ not c
put_in c b h k = rw (h, k) refl

contains-toggle :
    (name : Text) (picked : List Text) (key : Text)
    → contains (toggle name picked) key
      ≡ (if name == key then not (contains picked key) else contains picked key)
contains-toggle name picked key = elim (Bool-cases (name == key)) [
  | inl here ↦
      let back = ap (contains picked) (sym ((text_eq.decides name key).0 here)) in
      rw here (elim (Bool-cases (contains picked name)) [
        | inl was ↦ rw was (
            contains-delete name picked key
            ∙ left_out (contains picked key) (name == key) (back ∙ was) here)
        | inr new ↦ rw new (
            rw new at (contains-add name picked key)
            ∙ put_in (contains picked key) (name == key) (back ∙ new) here)
      ])
  | inr apart ↦ rw apart (elim (Bool-cases (contains picked name)) [
    | inl was ↦
        rw was
          (contains-delete name picked key ∙ and_true (contains picked key) (name == key) apart)
    | inr new ↦ rw new (
        rw new at (contains-add name picked key)
        ∙ or_right (contains picked key) (name == key) apart)
  ])
]

-- A plain click on a row, or one with shift that has no row to reach back to, picks its capture if
-- that was not picked and unpicks it if it was, and leaves every other as it was.
pub pick_row-toggle :
    (filed : List Text) (i : ℕ) (through : Bool) (s : Picks) (name key : Text)
    → get_elem? filed i ≡ some name
    → reach filed through s.anchor i ≡ none
    → contains (pick_row filed i through s).picked key
      ≡ (if name == key then not (contains s.picked key) else contains s.picked key)
unfolding pick_row
pick_row-toggle filed i through s name key row far =
    rw (row, far, pick_row) (contains-toggle name s.picked key)

contains-index :
    (l : List Text) (key : Text) → contains l key ≡ true → (j : ℕ) × (get_elem? l j ≡ some key)
contains-index [] key h = absurd (cc)
contains-index (first ∷ l) key h = elim (Bool-cases (first == key)) [
  | inl here ↦ (0, ap some ((text_eq.decides first key).0 here))
  | inr apart ↦ let (j, e) = contains-index l key (rw apart at h) in (suc j, e)
]

index-contains :
    (l : List Text) (key : Text) (j : ℕ) → get_elem? l j ≡ some key → contains l key ≡ true
index-contains [] key j h = absurd (cc)
index-contains (first ∷ l) key zero h =
    rw ((text_eq.decides first key).1 (some-injective first key h)) refl
index-contains (first ∷ l) key (suc j) h = elim (Bool-cases (first == key)) [
  | inl here ↦ rw here refl
  | inr apart ↦ rw apart (index-contains l key j h)
]

-- The run of so many from a place on has what stands at its places.
take-index :
    (n : ℕ) (l : List Text) (j : ℕ) {key : Text} → get_elem? (take n l) j ≡ some key → j < n
take-index zero l j h = absurd (cc)
take-index (suc n) [] j h = absurd (cc)
take-index (suc n) (first ∷ l) zero h = omega arith
take-index (suc n) (first ∷ l) (suc j) h = omega (arith, take-index n l j h)

index-take :
    (n : ℕ) (l : List Text) (j : ℕ) {key : Text}
    → j < n
    → get_elem? l j ≡ some key
    → get_elem? (take n l) j ≡ some key
index-take zero l j under h = absurd (omega (arith, under))
index-take (suc n) [] j under h = h
index-take (suc n) (first ∷ l) zero under h = h
index-take (suc n) (first ∷ l) (suc j) under h = index-take n l j (omega (arith, under)) h

-- The captures from one row to another stand at an index from the one to the other.
abbrev pub Stands : List Text → ℕ → ℕ → Text → Type 0
Stands filed low high key = (j : ℕ) × (low ≤ j) × (j ≤ high) × (get_elem? filed j ≡ some key)

run-Stands :
    (filed : List Text) (low high : ℕ) (key : Text)
    → contains (take (high + 1 - low) (drop low filed)) key ≡ true
    → Stands filed low high key
run-Stands filed low high key h =
    let (j, e) = contains-index (take (high + 1 - low) (drop low filed)) key h in
    let under = take-index (high + 1 - low) (drop low filed) j e in
    (
      low + j,
      omega arith,
      omega (arith, under),
      sym (get_elem?-drop low filed j) ∙ get_elem?-take (high + 1 - low) (drop low filed) j e,
    )

Stands-run :
    (filed : List Text) (low high : ℕ) (key : Text)
    → Stands filed low high key
    → contains (take (high + 1 - low) (drop low filed)) key ≡ true
Stands-run filed low high key (j, from, to, e) =
    let back : low + (j - low) ≡ j = omega (arith, from) in
    index-contains (take (high + 1 - low) (drop low filed)) key (j - low) (
      index-take (high + 1 - low) (drop low filed) (j - low) (omega (arith, from, to))
        (get_elem?-drop low filed (j - low) ∙ ap (get_elem? filed) back ∙ e))

between-Stands :
    (filed : List Text) (a i : ℕ) (key : Text)
    → (contains (between filed a i) key ≡ true) ↔ Stands filed (min a i) (max a i) key
unfolding between
between-Stands filed a i key = elim (Bool-cases (ltb a i)) [
  | inl before ↦
      let low : min a i ≡ a = ground arith in
      let high : max a i ≡ i = ground arith in
      rw (before, low, high) (run-Stands filed a i key, Stands-run filed a i key)
  | inr after ↦
      let low : min a i ≡ i = ground arith in
      let high : max a i ≡ a = ground arith in
      rw (after, low, high) (run-Stands filed i a key, Stands-run filed i a key)
]

either : (b c : Bool) {P : Type 0} → (c ≡ true) ↔ P → ((b || c) ≡ true) ↔ ((b ≡ true) ⊎ P)
either true c (to, from) = (λ e. inl refl, λ e. refl)
either false c (to, from) =
    (λ e. inr (to e), λ e. elim e [ inl never ↦ absurd (cc) | inr p ↦ from p ])

-- A click with shift on a row, after a click on another that the list still has: what is picked is
-- what was and every capture from the one row to the other, both of them included, and nothing
-- else; and the row to reach back to stays.
pub pick_row-between :
    (filed : List Text) (a i : ℕ) (s : Picks) (name key : Text)
    → s.anchor ≡ some a
    → a < length filed
    → get_elem? filed i ≡ some name
    → ((contains (pick_row filed i true s).picked key ≡ true)
        ↔ ((contains s.picked key ≡ true) ⊎ Stands filed (min a i) (max a i) key))
      × ((pick_row filed i true s).anchor ≡ some a)
unfolding pick_row
pick_row-between filed a i s name key from there row =
    rw
      (
        row,
        from,
        (lt→ltb a (length filed) there),
        pick_row,
        contains-add_all (between filed a i) s.picked key,
      )
      (
        either (contains s.picked key) (contains (between filed a i) key)
            (between-Stands filed a i key),
        refl,
      )
