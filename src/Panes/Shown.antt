-- ===== src/Panes/Shown.antt =====
-- What `bytes` puts on screen for the source that is chosen and the field that is marked.
use mathlib.Core.Option.{some-injective}
use native.Mathlib.Nat.{suc-mul}
use webshark.Prelude.{
  ℕ, zero, suc, ◌+◌, ◌*◌, ◌/◌, ◌-◌, ◌<◌, Text, codes, ◌≡◌, refl, sym, ap, ap₂, ◌∙◌, Bool, true,
  false, Option, some, List, [], ◌∷◌, ◌++◌, ◌==◌, nat_eq, arith, if◌then◌else◌, length, drop,
  get_elem?, length-append,
}
use webshark.Panes.{Range, in_range, hex, gap, Detail, Line, line, lines_from, data_of, dump}
use webshark.Panes.Reading.{read, outside, shade}
use webshark.Panes.Dump.{digits, cells, left_column, solid, line-left, lines_from-left}

length-shade : (on : Bool) (t : Text) → length (shade on t) ≡ length t
length-shade on [] = refl
length-shade on (c ∷ t) = ap suc (length-shade on t)

length-blank : (m : Bool) → length (shade false (codes "  " ++ gap m)) ≡ 2 + length (gap m)
length-blank true = refl
length-blank false = refl

length-hex : (on m : Bool) (b : ℕ) → length (shade on (hex b ++ gap m)) ≡ 2 + length (gap m)
length-hex on true b = refl
length-hex on false b = refl

module _ (mark : Option Range) (mid : ℕ) where
  -- How many letters a line has on the left does not depend on its bytes.
  length-cells :
      (k i p q : ℕ) (bs : List ℕ)
      → length (cells mark mid k i p bs) ≡ length (cells mark mid k i q [])
  length-cells zero i p q bs = refl
  length-cells (suc k) i p q [] =
      length-append (shade false (codes "  " ++ gap (i == mid)))
        (cells mark mid k (suc i) (suc p) [])
      ∙ ap (λ n. length (shade false (codes "  " ++ gap (i == mid))) + n)
          (length-cells k (suc i) (suc p) (suc q) [])
      ∙ sym (length-append (shade false (codes "  " ++ gap (i == mid))) _)
  length-cells (suc k) i p q (b ∷ bs) =
      length-append (shade (in_range mark p) (hex b ++ gap (i == mid))) _
      ∙ ap₂ (λ m n. m + n)
          (length-hex (in_range mark p) (i == mid) b ∙ sym (length-blank (i == mid)))
          (length-cells k (suc i) (suc p) (suc q) bs)
      ∙ sym (length-append (shade false (codes "  " ++ gap (i == mid))) _)

  lines_from-aligned :
      (fuel wid off : ℕ) (bs : List ℕ) (j o : ℕ) (l : Line)
      → get_elem? (lines_from mark mid fuel wid off bs) j ≡ some (o, l)
      → (o ≡ off + j * wid) × (length (read outside false l.h) ≡ length (cells mark mid wid 0 0 []))
  unfolding lines_from
  lines_from-aligned fuel wid off [] j o l at = absurd (cc)
  lines_from-aligned zero wid off (b ∷ bs) j o l at = absurd (cc)
  lines_from-aligned (suc fuel) wid off (b ∷ bs) zero o l at =
      let same = some-injective (off, line mark mid wid off (b ∷ bs)) (o, l) at in
      (
        omega (arith, ap (λ (x : ℕ × Line). x.0) same),
        ap (λ (x : ℕ × Line). length (read outside false x.1.h)) (sym same)
            ∙ ap length (line-left mark mid wid off (b ∷ bs))
            ∙ length-cells wid 0 off 0 (b ∷ bs),
      )
  lines_from-aligned (suc fuel) wid off (b ∷ bs) (suc j) o l at =
      let (place, width) = lines_from-aligned fuel wid (off + wid) (drop wid (b ∷ bs)) j o l at in
      (omega (arith, place, suc-mul j wid), width)

wide : (phone : Bool) → 0 < (if phone then 8 else 16)
wide true = omega arith
wide false = omega arith

letters :
    (mark : Option Range) (phone : Bool)
    → length (cells mark ((if phone then 8 else 16) / 2 - 1) (if phone then 8 else 16) 0 0 [])
      ≡ (if phone then 25 else 49)
letters mark true = refl
letters mark false = refl

module _ (atob : Text → List ℕ) (phone : Bool) (d : Detail) where
  -- The left column holds, less its blanks, the two digits of each of the bytes in order, and those
  -- of the field are in bold and no others.
  pub dump-digits : solid (left_column (dump atob phone d)) ≡ digits d.mark 0 (data_of atob d)
  unfolding dump
  dump-digits =
      lines_from-left d.mark ((if phone then 8 else 16) / 2 - 1) (length (data_of atob d))
        (if phone then 8 else 16) 0 (data_of atob d) (wide phone) (omega arith)

  -- The line at an index has the offset of its first byte, and its left column is as wide as that
  -- of every other line, however few bytes it holds: 49 letters, or 25 on a phone.
  pub dump-aligned :
      (j off : ℕ) (l : Line)
      → get_elem? (dump atob phone d) j ≡ some (off, l)
      → (off ≡ j * (if phone then 8 else 16))
        × (length (read outside false l.h) ≡ (if phone then 25 else 49))
  unfolding dump
  dump-aligned j off l at =
      let (place, width) =
        lines_from-aligned d.mark ((if phone then 8 else 16) / 2 - 1) (length (data_of atob d))
          (if phone then 8 else 16) 0 (data_of atob d) j off l at in
      (omega (arith, place), width ∙ letters d.mark phone)
