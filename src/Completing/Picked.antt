-- ===== src/Completing/Picked.antt =====
-- What a pick writes into the filter box: the field in place of the token that ends at the caret.
use webshark.Prelude.{
  ℕ, ◌+◌, ◌-◌, ◌≤◌, Text, ◌≡◌, refl, sym, subst, ap, ◌∙◌, inl, inr, Bool, true, false, ◌&&◌, [],
  ◌∷◌, ◌++◌, append_assoc, arith, if◌then◌else◌, Bool-cases, length, take, drop, take-append-drop,
  length-append, length-take, take-append,
}
use webshark.Completing.{all_field_chars, is_field_char, field_end, field_at, Field, Box, pick}

-- What stands before the match.
unfoldable stem : Text → Text
stem [] = []
stem (c ∷ s) = let rest = stem s in if all_field_chars (c ∷ s) then [] else c ∷ rest

stem-field_end : (s : Text) → stem s ++ field_end s ≡ s
unfolding stem field_end
stem-field_end [] = refl
stem-field_end (c ∷ s) = elim (Bool-cases (all_field_chars (c ∷ s))) [
  | inl all ↦ rw all refl
  | inr other ↦ rw other (ap (λ (x : Text). c ∷ x) (stem-field_end s))
]

and_assoc : (a b c : Bool) → (a && (b && c)) ≡ ((a && b) && c)
and_assoc true b c = refl
and_assoc false b c = refl

all_field_chars-append :
    (s t : Text) → all_field_chars (s ++ t) ≡ (all_field_chars s && all_field_chars t)
all_field_chars-append [] t = refl
all_field_chars-append (c ∷ s) t =
    ap (λ b. is_field_char c && b) (all_field_chars-append s t)
    ∙ and_assoc (is_field_char c) (all_field_chars s) (all_field_chars t)

all-field_end : (s : Text) → all_field_chars (field_end s) ≡ true
unfolding field_end
all-field_end [] = refl
all-field_end (c ∷ s) = elim (Bool-cases (all_field_chars (c ∷ s))) [
  | inl all ↦ rw all all
  | inr other ↦ rw other (all-field_end s)
]

field_end-all : (s : Text) → all_field_chars s ≡ true → field_end s ≡ s
unfolding field_end
field_end-all [] h = refl
field_end-all (c ∷ s) h = rw h refl

all_field_chars-stem :
    (s f : Text) → all_field_chars f ≡ true → all_field_chars (stem s ++ f) ≡ all_field_chars s
all_field_chars-stem s f h =
    all_field_chars-append (stem s) f
    ∙ ap (λ b. all_field_chars (stem s) && b) (h ∙ sym (all-field_end s))
    ∙ sym (all_field_chars-append (stem s) (field_end s))
    ∙ ap all_field_chars (stem-field_end s)

-- The stem ends where a field could not have started earlier, so a field behind it is the match.
field_end-stem : (s f : Text) → all_field_chars f ≡ true → field_end (stem s ++ f) ≡ f
unfolding field_end stem
field_end-stem [] f h = field_end-all f h
field_end-stem (c ∷ s) f h = elim (Bool-cases (all_field_chars (c ∷ s))) [
  | inl all ↦ rw all (field_end-all f h)
  | inr other ↦
      rw (other, ap (λ b. is_field_char c && b) (all_field_chars-stem s f h) ∙ other)
        (field_end-stem s f h)
]

length_caret :
    (text : Text) (pos : ℕ)
    → pos ≤ length text
    → pos ≡ length (stem (take pos text)) + length (field_at text pos)
unfolding field_at
length_caret text pos h = omega (
  arith,
  length-take pos text,
  ap length (stem-field_end (take pos text)),
  length-append (stem (take pos text)) (field_end (take pos text)),
)

length_start :
    (text : Text) (pos : ℕ)
    → pos ≤ length text
    → pos - length (field_at text pos) ≡ length (stem (take pos text))
length_start text pos h = omega (arith, length_caret text pos h)

split_value :
    (text : Text) (pos : ℕ) → stem (take pos text) ++ field_at text pos ++ drop pos text ≡ text
unfolding field_at
split_value text pos =
    ap (λ (x : Text). x ++ drop pos text) (stem-field_end (take pos text))
    ∙ take-append-drop pos text

take_start :
    (text : Text) (pos : ℕ)
    → pos ≤ length text
    → take (pos - length (field_at text pos)) text ≡ stem (take pos text)
take_start text pos h = rw (length_start text pos h) (
    subst (λ x. take (length (stem (take pos text))) x ≡ stem (take pos text))
      (sym (append_assoc (stem (take pos text)) (field_at text pos) (drop pos text))
        ∙ split_value text pos)
      (take-append (stem (take pos text)) _))

-- What `pickComplete` writes is the box with the field in place of the one that `fieldAt` found
-- before the caret, what stands on either side of it untouched, and the caret behind the field.
-- The caret stands in the text.
pub pick-replaces :
    (li : Field) (box : Box)
    → box.caret ≤ length box.value
    → (left : Text) × (right : Text) × (box.value ≡ left ++ field_at box.value box.caret ++ right)
      × (box.caret ≡ length left + length (field_at box.value box.caret))
      × ((pick li box).value ≡ left ++ li.f ++ right)
      × ((pick li box).caret ≡ length left + length li.f)
unfolding pick
pick-replaces li box h = (
  stem (take box.caret box.value),
  drop box.caret box.value,
  sym (split_value box.value box.caret),
  length_caret box.value box.caret h,
  ap (λ (x : Text). x ++ li.f ++ drop box.caret box.value) (take_start box.value box.caret h),
  ap (λ n. n + length li.f) (length_start box.value box.caret h),
)

-- Right behind a pick the field before the caret is the one that was picked, where its name is
-- made of the characters of a name. The caret stands in the text.
pub field_at-pick :
    (li : Field) (box : Box)
    → box.caret ≤ length box.value
    → all_field_chars li.f ≡ true
    → field_at (pick li box).value (pick li box).caret ≡ li.f
unfolding field_at pick
field_at-pick li box h named =
    rw
      (
        take_start box.value box.caret h,
        length_start box.value box.caret h,
        sym (length-append (stem (take box.caret box.value)) li.f),
      )
      (ap field_end
          (take-append (stem (take box.caret box.value) ++ li.f) (drop box.caret box.value))
        ∙ field_end-stem (take box.caret box.value) li.f named)
