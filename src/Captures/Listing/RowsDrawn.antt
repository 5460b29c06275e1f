-- ===== src/Captures/Listing/RowsDrawn.antt =====
-- The rows that `drawFiles` leaves, before and after the protocols of one capture are read, and
-- where every capture has been read.
use mathlib.Core.List.{Sublist}
use mathlib.Core.List.Sublist as Sublist
use mathlib.Core.Option.{some-injective}
use webshark.Prelude.{
  ℕ, zero, suc, ◌≤◌, ◌<◌, Text, ◌≡◌, ◌≢◌, refl, sym, subst, ap, ◌∙◌, inl, inr, true, false, not,
  Option, none, some, List, [], ◌∷◌, map, arith, Bool-cases, Option-cases, length, ◌==◌, nat_eq,
  set, drop, get_elem?, get_elem?-set_self, get_elem?-set_ne, is_none,
}
use webshark.Captures.Moments.{Browser}
use webshark.Captures.Search.{Capture, Term, Verdict, hit, miss, maybe, matches, parse_find}
use webshark.Captures.Search.Verdicts.{read, matches-partial, matches_stable, matches-ne-maybe}
use webshark.Captures.Listing.{Filed, Rows, row_for, file_rows, Listing, Scan, scanned}

abbrev pub names : List Filed → List Text
names filed = map (λ (f : Filed). f.c.name) filed

-- A verdict that is sure stays.
abbrev Keeps : Verdict → Verdict → Type 0
Keeps v v' = (v ≡ hit → v' ≡ hit) × (v ≡ miss → v' ≡ miss)

apart : (v v' : Verdict) → v ≢ v' → v ≡ v' → ⊥
apart v v' h e = h e

row_for-shrinks :
    (v v' : Verdict) (c c' : Capture) (rows : Rows)
    → c'.name ≡ c.name
    → Keeps v v'
    → Sublist (names (row_for v' c' rows).filed) (names (row_for v c rows).filed)
row_for-shrinks hit hit c c' rows e k = rw e (Sublist.refl _)
row_for-shrinks hit miss c c' rows e (h, m) = absurd (apart miss hit (cc) (h refl))
row_for-shrinks hit maybe c c' rows e (h, m) = absurd (apart maybe hit (cc) (h refl))
row_for-shrinks miss miss c c' rows e k = Sublist.refl _
row_for-shrinks miss hit c c' rows e (h, m) = absurd (apart hit miss (cc) (m refl))
row_for-shrinks miss maybe c c' rows e (h, m) = absurd (apart maybe miss (cc) (m refl))
row_for-shrinks maybe hit c c' rows e k = rw e (Sublist.refl _)
row_for-shrinks maybe miss c c' rows e k = Sublist.cons c.name (Sublist.refl _)
row_for-shrinks maybe maybe c c' rows e k = rw e (Sublist.refl _)

row_for-mono :
    (v : Verdict) (c : Capture) (rows rows' : Rows)
    → Sublist (names rows'.filed) (names rows.filed)
    → Sublist (names (row_for v c rows').filed) (names (row_for v c rows).filed)
row_for-mono hit c rows rows' h = Sublist.cons-cons c.name h
row_for-mono miss c rows rows' h = h
row_for-mono maybe c rows rows' h = Sublist.cons-cons c.name h

scanned-Keeps :
    (b : Browser) (c : Capture) (res : Scan) (ts : List Term)
    → c.protos ≡ none
    → Keeps (matches b c ts) (matches b (scanned res c) ts)
unfolding scanned
scanned-Keeps b c res ts unread = (
  λ h.
      matches_stable b (record c { partial = res.partial }) res.protos unread ts hit (cc)
        (matches-partial b c res.partial ts ∙ h),
  λ h.
      matches_stable b (record c { partial = res.partial }) res.protos unread ts miss (cc)
        (matches-partial b c res.partial ts ∙ h),
)

pub file_rows-scanned :
    (b : Browser) (ts : List Term) (caps : List Capture) (i : ℕ) (c : Capture) (res : Scan)
    → get_elem? caps i ≡ some c
    → c.protos ≡ none
    → Sublist
        (names (file_rows b ts (set caps i (scanned res c))).filed)
        (names (file_rows b ts caps).filed)
unfolding file_rows scanned
file_rows-scanned b ts [] i c res there unread = absurd (cc)
file_rows-scanned b ts (d ∷ cs) zero c res there unread =
    row_for-shrinks (matches b d ts) (matches b (scanned res c) ts) d (scanned res c)
      (file_rows b ts cs) (ap (λ (x : Capture). x.name) (sym (some-injective d c there)))
      (subst (λ x. Keeps (matches b x ts) (matches b (scanned res c) ts))
        (sym (some-injective d c there)) (scanned-Keeps b c res ts unread))
file_rows-scanned b ts (d ∷ cs) (suc i) c res there unread =
    row_for-mono (matches b d ts) d _ _ (file_rows-scanned b ts cs i c res there unread)

-- The list was drawn since it, its box and its captures last changed.
abbrev pub IsDrawn : Browser → Listing → Type 0
IsDrawn b l = l.rows ≡ file_rows b (parse_find b l.find) l.caps

abbrev pub AllRead : ℕ → List Capture → Type 0
AllRead n caps = (j : ℕ) (c : Capture) → j < n → get_elem? caps j ≡ some c → c.protos ≢ none

pub head_of_drop :
    (caps : List Capture) (cs : List Capture) (c : Capture) (i : ℕ)
    → drop i caps ≡ c ∷ cs
    → get_elem? caps i ≡ some c
head_of_drop [] cs c zero e = absurd (cc)
head_of_drop [] cs c (suc i) e = absurd (cc)
head_of_drop (d ∷ ds) cs c zero e = cc
head_of_drop (d ∷ ds) cs c (suc i) e = head_of_drop ds cs c i e

pub drop-set :
    (caps : List Capture) (cs : List Capture) (c v : Capture) (i : ℕ)
    → drop i caps ≡ c ∷ cs
    → drop (suc i) (set caps i v) ≡ cs
drop-set [] cs c v zero e = absurd (cc)
drop-set [] cs c v (suc i) e = absurd (cc)
drop-set (d ∷ ds) cs c v zero e = ap (drop 1) e
drop-set (d ∷ ds) cs c v (suc i) e = drop-set ds cs c v i e

pub drop_next :
    (caps : List Capture) (cs : List Capture) (c : Capture) (i : ℕ)
    → drop i caps ≡ c ∷ cs
    → drop (suc i) caps ≡ cs
drop_next [] cs c zero e = absurd (cc)
drop_next [] cs c (suc i) e = absurd (cc)
drop_next (d ∷ ds) cs c zero e = ap (drop 1) e
drop_next (d ∷ ds) cs c (suc i) e = drop_next ds cs c i e

apart_at : (i j : ℕ) → i ≡ j → (j == i) ≡ false → ⊥
apart_at i j e other = ground arith

pub AllRead-next :
    (caps : List Capture) (i : ℕ) (c : Capture)
    → c.protos ≢ none
    → get_elem? caps i ≡ some c
    → AllRead i caps
    → AllRead (suc i) caps
AllRead-next caps i c read there known j d below at = elim (Bool-cases (j == i)) [
  | inl same ↦
      subst (λ (x : Capture). x.protos ≢ none)
        (some-injective c d
          (sym there ∙ ap (get_elem? caps) (sym ((nat_eq.decides j i).0 same)) ∙ at))
        read
  | inr other ↦ known j d (ground arith) at
]

pub AllRead-set :
    (caps : List Capture) (i : ℕ) (v : Capture)
    → v.protos ≢ none
    → i < length caps
    → AllRead i caps
    → AllRead (suc i) (set caps i v)
AllRead-set caps i v read lt known j c below at = elim (Bool-cases (j == i)) [
  | inl same ↦
      subst (λ (x : Capture). x.protos ≢ none)
        (some-injective v c (
          sym (get_elem?-set_self caps i v lt)
          ∙ ap (get_elem? (set caps i v)) (sym ((nat_eq.decides j i).0 same))
          ∙ at))
        read
  | inr other ↦
      known j c (ground arith)
        (sym (get_elem?-set_ne caps {i = i} {j = j} v (λ e. apart_at i j e other)) ∙ at)
]

read-sure : (b : Browser) (ts : List Term) (c : Capture) → c.protos ≢ none → matches b c ts ≢ maybe
read-sure b ts c known = elim (Option-cases c.protos) [
  | inl e ↦ absurd (known e)
  | inr (ps, e) ↦
      subst (λ (o : Option (List Text)). matches b (record c { protos = o }) ts ≢ maybe) (sym e)
        (matches-ne-maybe b (record c { protos = none }) ps refl ts)
]

row_for-sure :
    (v : Verdict) (c : Capture) (rows : Rows)
    → v ≢ maybe
    → (rows.waiting ≡ 0) × ((j : ℕ) (f : Filed) → get_elem? rows.filed j ≡ some f → f.tent ≡ false)
    → ((row_for v c rows).waiting ≡ 0)
      × ((j : ℕ) (f : Filed) → get_elem? (row_for v c rows).filed j ≡ some f → f.tent ≡ false)
row_for-sure miss c rows sure h = h
row_for-sure maybe c rows sure h = absurd (sure refl)
row_for-sure hit c rows sure (none_wait, all_sure) = (none_wait, at_row)
  where
    at_row :
        (j : ℕ) (f : Filed)
        → get_elem? (record { c = c; tent = false } ∷ rows.filed) j ≡ some f
        → f.tent ≡ false
    at_row zero f at =
        ap (λ (x : Filed). x.tent) (sym (some-injective (record { c = c; tent = false }) f at))
    at_row (suc j) f at = all_sure j f at

-- Of captures that are all read every row is sure.
pub file_rows-sure :
    (b : Browser) (ts : List Term) (caps : List Capture) (n : ℕ)
    → length caps ≤ n
    → AllRead n caps
    → ((file_rows b ts caps).waiting ≡ 0)
      × ((j : ℕ) (f : Filed) → get_elem? (file_rows b ts caps).filed j ≡ some f → f.tent ≡ false)
unfolding file_rows
file_rows-sure b ts [] n le known = (refl, λ j f at. absurd (cc))
file_rows-sure b ts (c ∷ cs) zero le known = absurd (omega arith)
file_rows-sure b ts (c ∷ cs) (suc n) le known =
    row_for-sure (matches b c ts) c (file_rows b ts cs)
      (read-sure b ts c (known 0 c (omega arith) refl))
      (file_rows-sure b ts cs n (omega arith) (λ j d lt at. known (suc j) d (omega arith) at))

pub known_of : (protos : Option (List Text)) → not (is_none protos) ≡ true → protos ≢ none
known_of none e = absurd (cc)
known_of (some ps) e = cc

pub unread : (protos : Option (List Text)) → not (is_none protos) ≡ false → protos ≡ none
unread none e = refl
unread (some ps) e = absurd (cc)
