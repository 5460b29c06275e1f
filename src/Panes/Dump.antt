-- ===== src/Panes/Dump.antt =====
-- What the dump shows: the bytes of the source in order, those of the field marked and no others,
-- and columns that line up.
use mathlib.Core.Path.{subst₂}
use webshark.Prelude.{
  ℕ, zero, suc, ◌+◌, ◌≤◌, ◌<◌, ◌/◌, ◌%◌, codes, ◌≡◌, refl, sym, ap, ap₂, ◌∙◌, inl, inr, Bool, true,
  false, Option, List, [], ◌∷◌, ◌++◌, append_assoc, append-nil, ◌==◌, nat_eq, arith, if◌then◌else◌,
  Bool-cases, ltb, length, take, drop, length-drop,
}
use webshark.Panes.{
  Range, in_range, hex_digit, hex, gap, Line, put_byte, put_blank, line_from, line, lines_from,
}
use webshark.Panes.Reading.{
  read, outside, shade, printable, LineReads, close_mark-reads, put_byte-reads, put_blank-reads,
}

take_nil : (k : ℕ) → take {A = ℕ} k [] ≡ []
take_nil zero = refl
take_nil (suc k) = refl

module _ (mark : Option Range) where
  -- The bytes from an offset on as the right column is to show them.
  abbrev pub printed : ℕ → List ℕ → List (ℕ × Bool)
  printed p [] = []
  printed p (b ∷ bs) = (printable b, in_range mark p) ∷ printed (suc p) bs

  -- The bytes from an offset on as the digits of the left column.
  abbrev pub digits : ℕ → List ℕ → List (ℕ × Bool)
  digits p [] = []
  digits p (b ∷ bs) = shade (in_range mark p) (hex b) ++ digits (suc p) bs

  printed-append :
      (k p : ℕ) (bs : List ℕ) → printed p (take k bs) ++ printed (p + k) (drop k bs) ≡ printed p bs
  printed-append zero p bs = ap (λ n. printed n bs) (omega arith)
  printed-append (suc k) p [] = refl
  printed-append (suc k) p (b ∷ bs) =
      ap (λ x. (printable b, in_range mark p) ∷ x)
        (ap (λ n. printed (suc p) (take k bs) ++ printed n (drop k bs)) (omega arith)
          ∙ printed-append k (suc p) bs)

  module _ (mid : ℕ) where
    -- The left column of a line, its cells from one on.
    abbrev pub cells : ℕ → ℕ → ℕ → List ℕ → List (ℕ × Bool)
    cells zero i p bs = []
    cells (suc k) i p [] = shade false (codes "  " ++ gap (i == mid)) ++ cells k (suc i) (suc p) []
    cells (suc k) i p (b ∷ bs) =
        shade (in_range mark p) (hex b ++ gap (i == mid)) ++ cells k (suc i) (suc p) bs

    line_from-reads :
        (k i p : ℕ) (bs : List ℕ) (l : Line) (on : Bool) (hs as_text : List (ℕ × Bool))
        → LineReads l on hs as_text
        → (now : Bool) × LineReads
            (line_from mark mid k i p bs l)
            now
            (hs ++ cells k i p bs)
            (as_text ++ printed p (take k bs))
    unfolding line_from
    line_from-reads zero i p bs l on hs as_text r = (on, rw (append-nil hs, append-nil as_text) r)
    line_from-reads (suc k) i p [] l on hs as_text r =
        let (now, rest) =
          line_from-reads k (suc i) (suc p) [] (put_blank (i == mid) l) false
            (hs ++ shade false (codes "  " ++ gap (i == mid))) as_text
            (put_blank-reads l on hs as_text r (i == mid)) in
        (
          now,
          subst₂ (LineReads (line_from mark mid k (suc i) (suc p) [] (put_blank (i == mid) l)) now)
              (append_assoc hs (shade false (codes "  " ++ gap (i == mid)))
                (cells k (suc i) (suc p) []))
              (ap (λ x. as_text ++ printed (suc p) x) (take_nil k)) rest,
        )
    line_from-reads (suc k) i p (b ∷ bs) l on hs as_text r =
        let lit = in_range mark p in
        let (now, rest) =
          line_from-reads k (suc i) (suc p) bs (put_byte lit (i == mid) b l) lit
            (hs ++ shade lit (hex b ++ gap (i == mid))) (as_text ++ (printable b, lit) ∷ [])
            (put_byte-reads l on hs as_text r lit (i == mid) b) in
        (
          now,
          subst₂
              (LineReads (line_from mark mid k (suc i) (suc p) bs (put_byte lit (i == mid) b l))
                now)
              (append_assoc hs (shade lit (hex b ++ gap (i == mid))) (cells k (suc i) (suc p) bs))
              (append_assoc as_text ((printable b, lit) ∷ []) (printed (suc p) (take k bs))) rest,
        )

    line_from-LineReads :
        (wid off : ℕ) (bs : List ℕ)
        → LineReads
            (line mark mid wid off bs)
            false
            (cells wid 0 off bs)
            (printed off (take wid bs))
    unfolding line
    line_from-LineReads wid off bs =
        let (now, r) =
          line_from-reads wid 0 off bs (record { h = []; a = []; open_mark = false }) false [] []
            (record { mark = refl; left = λ s. refl; right = λ s. refl }) in
        close_mark-reads _ now _ _ r

    pub line-left :
        (wid off : ℕ) (bs : List ℕ)
        → read outside false (line mark mid wid off bs).h ≡ cells wid 0 off bs
    line-left wid off bs =
        ap (read outside false) (sym (append-nil (line mark mid wid off bs).h))
        ∙ (line_from-LineReads wid off bs).left []
        ∙ append-nil (cells wid 0 off bs)

    line-right :
        (wid off : ℕ) (bs : List ℕ)
        → read outside false (line mark mid wid off bs).a ≡ printed off (take wid bs)
    line-right wid off bs =
        ap (read outside false) (sym (append-nil (line mark mid wid off bs).a))
        ∙ (line_from-LineReads wid off bs).right []
        ∙ append-nil (printed off (take wid bs))

-- The right column of the dump, its lines one after the other, as it is read, and the left one.
abbrev pub right_column : List (ℕ × Line) → List (ℕ × Bool)
right_column [] = []
right_column ((off, l) ∷ ls) = read outside false l.a ++ right_column ls

abbrev pub left_column : List (ℕ × Line) → List (ℕ × Bool)
left_column [] = []
left_column ((off, l) ∷ ls) = read outside false l.h ++ left_column ls

-- Less its blanks.
abbrev pub solid : List (ℕ × Bool) → List (ℕ × Bool)
solid [] = []
solid ((c, on) ∷ s) = let rest = solid s in if c == 32 then rest else (c, on) ∷ rest

solid-append : (s t : List (ℕ × Bool)) → solid (s ++ t) ≡ solid s ++ solid t
solid-append [] t = refl
solid-append ((c, on) ∷ s) t = elim (Bool-cases (c == 32)) [
  | inl blank ↦ rw blank (solid-append s t)
  | inr sign ↦ rw sign (ap (λ x. (c, on) ∷ x) (solid-append s t))
]

digit-solid : (n : ℕ) → (hex_digit n == 32) ≡ false
digit-solid n = elim (Bool-cases (ltb n 10)) [
  | inl low ↦ rw low (ground arith)
  | inr high ↦ rw high (ground arith)
]

hex-solid : (on middle : Bool) (b : ℕ) → solid (shade on (hex b ++ gap middle)) ≡ shade on (hex b)
hex-solid on true b = rw (digit-solid (b / 16), digit-solid (b % 16)) refl
hex-solid on false b = rw (digit-solid (b / 16), digit-solid (b % 16)) refl

blank-solid : (middle : Bool) → solid (shade false (codes "  " ++ gap middle)) ≡ []
blank-solid true = refl
blank-solid false = refl

module _ (mark : Option Range) (mid : ℕ) where
  cells-solid :
      (k i p : ℕ) (bs : List ℕ) → solid (cells mark mid k i p bs) ≡ digits mark p (take k bs)
  cells-solid zero i p bs = refl
  cells-solid (suc k) i p [] =
      solid-append (shade false (codes "  " ++ gap (i == mid)))
        (cells mark mid k (suc i) (suc p) [])
      ∙ ap₂ (λ x y. x ++ y) (blank-solid (i == mid)) (cells-solid k (suc i) (suc p) [])
      ∙ ap (digits mark (suc p)) (take_nil k)
  cells-solid (suc k) i p (b ∷ bs) =
      solid-append (shade (in_range mark p) (hex b ++ gap (i == mid)))
        (cells mark mid k (suc i) (suc p) bs)
      ∙ ap₂ (λ x y. x ++ y) (hex-solid (in_range mark p) (i == mid) b)
          (cells-solid k (suc i) (suc p) bs)

  digits-append :
      (k p : ℕ) (bs : List ℕ)
      → digits mark p (take k bs) ++ digits mark (p + k) (drop k bs) ≡ digits mark p bs
  digits-append zero p bs = ap (λ n. digits mark n bs) (omega arith)
  digits-append (suc k) p [] = refl
  digits-append (suc k) p (b ∷ bs) =
      ap (λ x. shade (in_range mark p) (hex b) ++ x)
        (ap (λ n. digits mark (suc p) (take k bs) ++ digits mark n (drop k bs)) (omega arith)
          ∙ digits-append k (suc p) bs)

  pub lines_from-right :
      (fuel wid off : ℕ) (bs : List ℕ)
      → 0 < wid
      → length bs ≤ fuel
      → right_column (lines_from mark mid fuel wid off bs) ≡ printed mark off bs
  unfolding lines_from
  lines_from-right fuel wid off [] pos enough = refl
  lines_from-right zero wid off (b ∷ bs) pos enough = absurd (omega arith)
  lines_from-right (suc fuel) wid off (b ∷ bs) pos enough =
      ap₂ (λ x y. x ++ y) (line-right mark mid wid off (b ∷ bs))
        (lines_from-right fuel wid (off + wid) (drop wid (b ∷ bs)) pos
          (omega (arith, length-drop wid (b ∷ bs))))
      ∙ printed-append mark wid off (b ∷ bs)

  pub lines_from-left :
      (fuel wid off : ℕ) (bs : List ℕ)
      → 0 < wid
      → length bs ≤ fuel
      → solid (left_column (lines_from mark mid fuel wid off bs)) ≡ digits mark off bs
  unfolding lines_from
  lines_from-left fuel wid off [] pos enough = refl
  lines_from-left zero wid off (b ∷ bs) pos enough = absurd (omega arith)
  lines_from-left (suc fuel) wid off (b ∷ bs) pos enough =
      solid-append (read outside false (line mark mid wid off (b ∷ bs)).h)
        (left_column (lines_from mark mid fuel wid (off + wid) (drop wid (b ∷ bs))))
      ∙ ap₂ (λ x y. x ++ y)
          (ap solid (line-left mark mid wid off (b ∷ bs)) ∙ cells-solid wid 0 off (b ∷ bs))
          (lines_from-left fuel wid (off + wid) (drop wid (b ∷ bs)) pos
            (omega (arith, length-drop wid (b ∷ bs))))
      ∙ digits-append wid off (b ∷ bs)
