-- ===== src/Captures/Names/Reference.antt =====
-- References of captures: sets in, sets out.
use mathlib.Core.List.{Perm}
use native.Mathlib.Decide.{ℕ_discrete}
use webshark.Captures.Names.Upload.{ok_parts}
use webshark.Prelude.{
  Text, ◌≡◌, refl, ap, sym, subst, ◌≢◌, ◌⊎◌, inl, inr, true, List, [], ◌∷◌, arith, nat_eq, join,
  split-join, Lacks, AllLack, insert_by, sort_by, sort_by-perm, sort_by-eq_of_perm, TotalOrder,
  Bool-cases,
}
use webshark.Captures.Names.{text_leb, ref_of, names_in, is_alnum, is_name_char, all_chars, name_ok}

text_leb_total : (a b : Text) → (text_leb a b ≡ true) ⊎ (text_leb b a ≡ true)
unfolding text_leb
text_leb_total [] b = inl refl
text_leb_total (x ∷ a) [] = inr refl
text_leb_total (x ∷ a) (y ∷ b) = ground (arith, text_leb_total a b)

text_leb_antisymm : (a b : Text) → text_leb a b ≡ true → text_leb b a ≡ true → a ≡ b
unfolding text_leb
text_leb_antisymm [] [] h k = refl
text_leb_antisymm [] (y ∷ b) h k = absurd (cc)
text_leb_antisymm (x ∷ a) [] h k = absurd (cc)
text_leb_antisymm (x ∷ a) (y ∷ b) h k = ground (arith, text_leb_antisymm a b)

text_leb_trans : (a b c : Text) → text_leb a b ≡ true → text_leb b c ≡ true → text_leb a c ≡ true
unfolding text_leb
text_leb_trans [] b c h k = refl
text_leb_trans (x ∷ a) [] c h k = absurd (cc)
text_leb_trans (x ∷ a) (y ∷ b) [] h k = absurd (cc)
text_leb_trans (x ∷ a) (y ∷ b) (z ∷ c) h k = ground (arith, text_leb_trans a b c)

text_leb-TotalOrder : TotalOrder text_leb
text_leb-TotalOrder = record {
  total = text_leb_total;
  antisymmetric = text_leb_antisymm;
  transitive = text_leb_trans;
}

Text-set : IsSet Text
Text-set = hlevel ℕ_discrete

-- The same captures are the same reference, in whatever order they were picked.
pub ref_of-eq_of_perm :
    {names others : List Text} → Perm names others → ref_of names ≡ ref_of others
unfolding ref_of
ref_of-eq_of_perm p = ap (join b',') (sort_by-eq_of_perm text_leb text_leb-TotalOrder Text-set p)

abbrev pub AllOk : List Text → Type 0
AllOk [] = Unit
AllOk (name ∷ names) = (name_ok name ≡ true) × AllOk names

name_chars-Lacks : (s : Text) → all_chars s ≡ true → Lacks b',' s
unfolding is_name_char is_alnum
name_chars-Lacks [] h = tt
name_chars-Lacks (c ∷ s) h = (ground arith, name_chars-Lacks s (ground arith))

AllOk-AllLack : (names : List Text) → AllOk names → AllLack b',' names
AllOk-AllLack [] h = tt
AllOk-AllLack (name ∷ names) (o, h) =
    (name_chars-Lacks name (ok_parts name o).0, AllOk-AllLack names h)

insert_by-AllLack :
    (name : Text) (names : List Text)
    → Lacks b',' name
    → AllLack b',' names
    → AllLack b',' (insert_by text_leb name names)
insert_by-AllLack name [] o h = (o, tt)
insert_by-AllLack name (other ∷ names) o (p, h) = elim (Bool-cases (text_leb name other)) [
  | inl before ↦ rw before (o, (p, h))
  | inr after ↦ rw after (p, insert_by-AllLack name names o h)
]

sort_by-AllLack : (names : List Text) → AllLack b',' names → AllLack b',' (sort_by text_leb names)
sort_by-AllLack [] h = tt
sort_by-AllLack (name ∷ names) (o, h) = insert_by-AllLack name _ o (sort_by-AllLack names h)

insert_by-ne-nil : (name : Text) (names : List Text) → insert_by text_leb name names ≢ []
insert_by-ne-nil name [] = cc
insert_by-ne-nil name (other ∷ names) = ground arith

names_in-join :
    (names : List Text) → names ≢ [] → AllLack b',' names → names_in (join b',' names) ≡ names
unfolding names_in
names_in-join [] h k = absurd (h refl)
names_in-join (name ∷ names) h (o, k) = split-join b',' name names o k

-- A reference made of names that the server takes is read back as those captures, none lost and
-- none cut in two, so going back from it lands on the same set picked.
pub names_in-ref_of :
    (name : Text) (names : List Text)
    → AllOk (name ∷ names)
    → Perm (names_in (ref_of (name ∷ names))) (name ∷ names)
unfolding ref_of
names_in-ref_of name names h =
    let sorted = sort_by text_leb (name ∷ names) in
    let same : names_in (join b',' sorted) ≡ sorted =
      names_in-join sorted (insert_by-ne-nil name (sort_by text_leb names))
        (sort_by-AllLack (name ∷ names) (AllOk-AllLack (name ∷ names) h)) in
    subst (λ l. Perm l (name ∷ names)) (sym same) (sort_by-perm text_leb (name ∷ names))
