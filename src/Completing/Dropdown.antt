-- ===== src/Completing/Dropdown.antt =====
-- The list of fields under the box: what every call, answer and key leaves of it, and answers that
-- the caret has moved on from.
use webshark.Prelude.{
  ℕ, suc, ◌+◌, ◌-◌, ◌%◌, ◌≤◌, ◌<◌, Text, ◌≡◌, ◌≢◌, refl, sym, subst, ap, ◌∙◌, inl, inr, Bool, true,
  false, Option, none, some, List, [], ◌∷◌, ◌==◌, nat_eq, text_eq, if◌then◌else◌, Bool-cases,
  if_case, length, take, get_elem?, get_elem?-some, length-take, arith, ltb, ltb→lt,
}
use native.Mathlib.Nat.{mod-lt, mod-eq_of_lt, mod_self, add-mod_right}
use mathlib.Core.Bool.{true≢false}
use webshark.Completing.{
  Field, Box, pick, Offer, close_complete, complete, same_asked, offered, Key, arrow_down, arrow_up,
  tab, enter, escape, index_after, highlight, pick_complete, keydown, shown_key, enter_key,
  picked_index,
}

-- The row highlighted is a row of the list.
abbrev pub On : Option ℕ → ℕ → Type 0
On none n = Unit
On (some i) n = i < n

pub record IsOffer (o : Offer) : Type 0 where
  pub few : length o.items ≤ 20
  pub empty : o.hidden ≡ (length o.items == 0)
  pub on : On o.index (length o.items)

-- What happens to the list: the caret is in another field, a call is answered, or fails, the box
-- loses the focus, a row is clicked, a key is pressed.
pub data Step : Offer → Offer → Type 0 where
  asks : (o : Offer) (field : Text) → Step o (complete field o)
  answers :
      (o : Offer) (field : Text) (reply : Option (List Field)) → Step o (offered field reply o)
  blurs : (o : Offer) → Step o (close_complete o)
  clicks : (o : Offer) (li : Option Field) (box : Box) → Step o (pick_complete li (o, box)).0
  keys : (o : Offer) (key : Key) (box : Box) → Step o (keydown key (o, box)).0

pub data Reach (o : Offer) : Offer → Type 0 where
  here : Reach o o
  next : {p q : Offer} → Reach o p → Step p q → Reach o q

close_complete-IsOffer : (o : Offer) → IsOffer (close_complete o)
unfolding close_complete
close_complete-IsOffer o = record { few = omega arith; empty = refl; on = tt }

complete-IsOffer : (field : Text) (o : Offer) → IsOffer o → IsOffer (complete field o)
unfolding complete
complete-IsOffer [] o h = close_complete-IsOffer o
complete-IsOffer (c ∷ s) o h = record { few = h.few; empty = h.empty; on = h.on }

offered-IsOffer :
    (field : Text) (reply : Option (List Field)) (o : Offer)
    → IsOffer o
    → IsOffer (offered field reply o)
unfolding offered
offered-IsOffer field none o h = h
offered-IsOffer field (some fields) o h = elim (Bool-cases (same_asked field o.asked)) [
  | inl same ↦
      rw same (record { few = omega (arith, length-take 20 fields); empty = refl; on = tt })
  | inr other ↦ rw other h
]

pick_complete-IsOffer :
    (li : Option Field) (o : Offer) (box : Box) → IsOffer o → IsOffer (pick_complete li (o, box)).0
unfolding pick_complete
pick_complete-IsOffer none o box h = h
pick_complete-IsOffer (some li) o box h = close_complete-IsOffer o

index_after-lt : (down : Bool) (index : Option ℕ) (n : ℕ) → 0 < n → index_after down index n < n
unfolding index_after
index_after-lt true none n h = h
index_after-lt false none n h = omega arith
index_after-lt true (some i) n h = mod-lt (i + 1 + n) h
index_after-lt false (some i) n h = mod-lt (i + n - 1) h

highlight-IsOffer : (i : ℕ) (o : Offer) → IsOffer o → i < length o.items → IsOffer (highlight i o)
unfolding highlight
highlight-IsOffer i o h lt = record { few = h.few; empty = h.empty; on = lt }

open-lt : (o : Offer) → IsOffer o → o.hidden ≡ false → 0 < length o.items
open-lt o h e = elim (Bool-cases (length o.items == 0)) [
  | inl none_left ↦ absurd (true≢false (sym none_left ∙ sym h.empty ∙ e))
  | inr some_left ↦ ground (arith, some_left)
]

pick_index-IsOffer :
    (o : Offer) (box : Box)
    → IsOffer o
    → IsOffer (pick_complete (get_elem? o.items (picked_index o.index)) (o, box)).0
pick_index-IsOffer o box h =
    pick_complete-IsOffer (get_elem? o.items (picked_index o.index)) o box h

enter_key-IsOffer :
    (index : Option ℕ) (o : Offer) (box : Box) → IsOffer o → IsOffer (enter_key index (o, box)).0
enter_key-IsOffer none o box h = h
enter_key-IsOffer (some i) o box h = pick_index-IsOffer o box h

shown_key-IsOffer :
    (key : Key) (o : Offer) (box : Box)
    → IsOffer o
    → 0 < length o.items
    → IsOffer (shown_key key (o, box)).0
unfolding highlight index_after pick_complete close_complete
shown_key-IsOffer arrow_down o box h pos =
    highlight-IsOffer _ o h (index_after-lt true o.index (length o.items) pos)
shown_key-IsOffer arrow_up o box h pos =
    highlight-IsOffer _ o h (index_after-lt false o.index (length o.items) pos)
shown_key-IsOffer tab o box h pos = pick_index-IsOffer o box h
shown_key-IsOffer enter o box h pos = enter_key-IsOffer o.index o box h
shown_key-IsOffer escape o box h pos = close_complete-IsOffer o

keydown-IsOffer : (key : Key) (o : Offer) (box : Box) → IsOffer o → IsOffer (keydown key (o, box)).0
unfolding keydown
keydown-IsOffer key o box h =
    if_case (λ (s : Offer × Box). IsOffer s.0) o.hidden (λ e. h)
      (λ e. shown_key-IsOffer key o box h (open-lt o h e))

Step-IsOffer : {o p : Offer} → Step o p → IsOffer o → IsOffer p
Step-IsOffer (asks o field) h = complete-IsOffer field o h
Step-IsOffer (answers o field reply) h = offered-IsOffer field reply o h
Step-IsOffer (blurs o) h = close_complete-IsOffer o
Step-IsOffer (clicks o li box) h = pick_complete-IsOffer li o box h
Step-IsOffer (keys o key box) h = keydown-IsOffer key o box h

-- Whatever calls, answers, clicks and keys there were, the list holds at most 20 fields, is hidden
-- exactly when it holds none, and the row highlighted is one of it, as it was before them.
pub Reach-IsOffer : {o p : Offer} → IsOffer o → Reach o p → IsOffer p
Reach-IsOffer h here = h
Reach-IsOffer h (next r st) = Step-IsOffer st (Reach-IsOffer h r)

ends : (i n : ℕ) → i < n → ltb (suc i) n ≡ false → i + 1 ≡ n
ends i n h last = ground arith

index_after-index_after :
    (i n : ℕ) → i < n → index_after false (some (index_after true (some i) n)) n ≡ i
unfolding index_after
index_after-index_after i n h = elim (Bool-cases (ltb (suc i) n)) [
  | inl inside ↦
      ap (λ m. (m + n - 1) % n)
        (add-mod_right (i + 1) n ∙ mod-eq_of_lt (omega (arith, ltb→lt (suc i) n inside)))
      ∙ ap (λ m. m % n) (omega arith)
      ∙ add-mod_right i n
      ∙ mod-eq_of_lt h
  | inr last ↦
      ap (λ m. (m + n - 1) % n)
        (add-mod_right (i + 1) n ∙ ap (λ m. m % n) (ends i n h last) ∙ mod_self n)
      ∙ ap (λ m. m % n) (omega (arith, ends i n h last))
      ∙ mod-eq_of_lt h
]

picked-lt : (index : Option ℕ) (n : ℕ) → On index n → 0 < n → picked_index index < n
picked-lt none n on pos = pos
picked-lt (some i) n on pos = on

keydown_shown :
    (key : Key) (o : Offer) (box : Box)
    → o.hidden ≡ false
    → keydown key (o, box) ≡ shown_key key (o, box)
unfolding keydown
keydown_shown key o box shown = ap (λ b. if b then (o, box) else shown_key key (o, box)) shown

-- From a row of an open list the down arrow and then the up arrow lead back to it, at the ends of
-- the list too.
pub keydown-keydown :
    (o : Offer) (box : Box) (i : ℕ)
    → IsOffer o
    → o.hidden ≡ false
    → o.index ≡ some i
    → keydown arrow_up (keydown arrow_down (o, box)) ≡ (o, box)
unfolding highlight
keydown-keydown o box i h shown at =
    ap (keydown arrow_up) (keydown_shown arrow_down o box shown)
    ∙ keydown_shown arrow_up (highlight (index_after true o.index (length o.items)) o) box shown
    ∙ ap (λ x. (record o { index = x }, box))
        (ap
            (λ x.
              some
                (index_after false (some (index_after true x (length o.items))) (length o.items)))
            at
          ∙ ap some (
              index_after-index_after i (length o.items)
                (subst (λ x. On x (length o.items)) at h.on))
          ∙ sym at)

-- Tab in an open list writes a field of it into the box, the one highlighted or else the first, and
-- closes it.
pub keydown_tab :
    (o : Offer) (box : Box)
    → IsOffer o
    → o.hidden ≡ false
    → (li : Field) × (get_elem? o.items (picked_index o.index) ≡ some li)
      × (keydown tab (o, box) ≡ (close_complete o, pick li box))
unfolding pick_complete
keydown_tab o box h shown =
    let (li, e) =
      get_elem?-some o.items (picked_index o.index)
        (picked-lt o.index (length o.items) h.on (open-lt o h shown)) in
    (li, e, keydown_shown tab o box shown ∙ ap (λ x. pick_complete x (o, box)) e)

-- The answers to calls of `complete`, in the order they come in.
unfoldable pub answer_all : List (Text × Option (List Field)) → Offer → Offer
answer_all [] o = o
answer_all ((field, reply) ∷ rs) o = answer_all rs (offered field reply o)

-- No answer is for the field asked about last.
abbrev pub Stale : Option Text → List (Text × Option (List Field)) → Type 0
Stale asked [] = Unit
Stale asked ((field, reply) ∷ rs) = (asked ≢ some field) × Stale asked rs

same_asked_stale :
    (field : Text) (asked : Option Text) → asked ≢ some field → same_asked field asked ≡ false
same_asked_stale field none other = refl
same_asked_stale field (some f) other = elim (Bool-cases (field == f)) [
  | inl same ↦ absurd (other (ap some (sym ((text_eq.decides field f).0 same))))
  | inr e ↦ e
]

offered_stale :
    (field : Text) (reply : Option (List Field)) (o : Offer)
    → o.asked ≢ some field
    → offered field reply o ≡ o
unfolding offered
offered_stale field none o other = refl
offered_stale field (some fields) o other =
    ap
      (λ b.
        if b
        then record o {
          items = take 20 fields;
          index = none;
          hidden = length (take 20 fields) == 0;
        }
        else o)
      (same_asked_stale field o.asked other)

-- Answers for fields that the caret has moved on from, or that come after the list was closed,
-- change nothing.
pub answer_all-Stale :
    (rs : List (Text × Option (List Field))) (o : Offer) → Stale o.asked rs → answer_all rs o ≡ o
unfolding answer_all
answer_all-Stale [] o h = refl
answer_all-Stale ((field, reply) ∷ rs) o (other, h) =
    ap (answer_all rs) (offered_stale field reply o other) ∙ answer_all-Stale rs o h
