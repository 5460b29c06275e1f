-- ===== src/Panes/Reading.antt =====
-- What a browser shows of a piece of the dump's HTML: its letters, the three entities as the signs
-- they stand for, and whether each is in bold.
use webshark.Prelude.{
  ℕ, ◌/◌, ◌%◌, Text, codes, ◌≡◌, refl, sym, subst, ap, ◌∙◌, inl, inr, Bool, true, false, not, ◌||◌,
  List, [], ◌∷◌, ◌++◌, append_assoc, ◌==◌, nat_eq, arith, if◌then◌else◌, Bool-cases, ltb,
}
use webshark.Panes.{hex_digit, hex, char_html, gap, Line, open_at, close_mark, put_byte, put_blank}

-- Between tags, at the first letter of one and behind it, and the same of an entity.
pub data Phase : Type 0 where
  outside opened inside named skipping : Phase

abbrev entity : ℕ → ℕ
entity c = if c == b'l' then 60 else if c == b'g' then 62 else 38

abbrev pub read : Phase → Bool → Text → List (ℕ × Bool)
read phase on [] = []
read outside on (c ∷ s) =
    let tag = read opened on s in
    let sign = read named on s in
    let letter = (c, on) ∷ read outside on s in
    if c == 60 then tag else if c == 38 then sign else letter
read opened on (c ∷ s) = read inside (not (c == b'/')) s
read inside on (c ∷ s) =
    let over = read outside on s in let more = read inside on s in if c == 62 then over else more
read named on (c ∷ s) = (entity c, on) ∷ read skipping on s
read skipping on (c ∷ s) =
    let over = read outside on s in
    let more = read skipping on s in if c == b';' then over else more

abbrev pub shade : Bool → Text → List (ℕ × Bool)
shade on [] = []
shade on (c ∷ s) = (c, on) ∷ shade on s

-- A byte as the dump shows it: a dot for one that is not printable.
abbrev pub printable : ℕ → ℕ
printable b = if ltb b 32 || ltb 126 b then b'.' else b

-- The text up to here reads as this, and what follows it is read in bold or not.
abbrev pub Reads : Text → Bool → List (ℕ × Bool) → Type 0
Reads t on shown = (s : Text) → read outside false (t ++ s) ≡ shown ++ read outside on s

-- A text that reads as this behind any other.
abbrev pub Adds : Bool → Text → Bool → List (ℕ × Bool) → Type 0
Adds on t on' shown = (s : Text) → read outside on (t ++ s) ≡ shown ++ read outside on' s

pub Reads-append :
    (t u : Text) (on on' : Bool) (shown more : List (ℕ × Bool))
    → Reads t on shown
    → Adds on u on' more
    → Reads (t ++ u) on' (shown ++ more)
Reads-append t u on on' shown more h k s =
    ap (read outside false) (append_assoc t u s)
    ∙ h (u ++ s)
    ∙ ap (λ x. shown ++ x) (k s)
    ∙ sym (append_assoc shown more (read outside on' s))

opens : Adds false (codes "<b>") true []
opens s = refl

closes : Adds true (codes "</b>") false []
closes s = refl

Adds-char_html : (on : Bool) (b : ℕ) → Adds on (char_html b) on ((printable b, on) ∷ [])
unfolding char_html
Adds-char_html on b s = elim (Bool-cases (ltb b 32 || ltb 126 b)) [
  | inl odd ↦ rw odd refl
  | inr fine ↦ elim (Bool-cases (b == 60)) [
    | inl same ↦
        rw (fine, same) (ap (λ c. (c, on) ∷ read outside on s) (sym ((nat_eq.decides b 60).0 same)))
    | inr lt ↦ elim (Bool-cases (b == 62)) [
      | inl same ↦
          rw (fine, lt, same)
            (ap (λ c. (c, on) ∷ read outside on s) (sym ((nat_eq.decides b 62).0 same)))
      | inr gt ↦ elim (Bool-cases (b == 38)) [
        | inl same ↦
            rw (fine, lt, gt, same)
              (ap (λ c. (c, on) ∷ read outside on s) (sym ((nat_eq.decides b 38).0 same)))
        | inr amp ↦ rw (fine, lt, gt, amp, lt, amp) refl
      ]
    ]
  ]
]

Adds-plain :
    (on : Bool) (c : ℕ) (t : Text) (shown : List (ℕ × Bool))
    → (c == 60) ≡ false
    → (c == 38) ≡ false
    → Adds on t on shown
    → Adds on (c ∷ t) on ((c, on) ∷ shown)
Adds-plain on c t shown lt amp h s = rw (lt, amp, h s) refl

hex_digit_plain : (n : ℕ) → ((hex_digit n == 60) ≡ false) × ((hex_digit n == 38) ≡ false)
hex_digit_plain n = elim (Bool-cases (ltb n 10)) [
  | inl low ↦ rw low (ground arith, ground arith)
  | inr high ↦ rw high (ground arith, ground arith)
]

Adds-gap : (on middle : Bool) → Adds on (gap middle) on (shade on (gap middle))
Adds-gap on true s = refl
Adds-gap on false s = refl

Adds-hex :
    (on middle : Bool) (b : ℕ) → Adds on (hex b ++ gap middle) on (shade on (hex b ++ gap middle))
Adds-hex on middle b =
    Adds-plain on (hex_digit (b / 16)) (hex_digit (b % 16) ∷ gap middle)
      ((hex_digit (b % 16), on) ∷ shade on (gap middle)) (hex_digit_plain (b / 16)).0
      (hex_digit_plain (b / 16)).1
      (Adds-plain on (hex_digit (b % 16)) (gap middle) (shade on (gap middle))
        (hex_digit_plain (b % 16)).0 (hex_digit_plain (b % 16)).1 (Adds-gap on middle))

Adds-blank :
    (middle : Bool)
    → Adds false (codes "  " ++ gap middle) false (shade false (codes "  " ++ gap middle))
Adds-blank true s = refl
Adds-blank false s = refl

-- What the two columns of a line read as so far, and that a mark is open in both or in neither.
pub record LineReads (l : Line) (on : Bool) (hs as_text : List (ℕ × Bool)) : Type 0 where
  pub mark : l.open_mark ≡ on
  pub left : Reads l.h on hs
  pub right : Reads l.a on as_text

tagged :
    (t tag : Text) (on on' : Bool) (shown : List (ℕ × Bool))
    → Reads t on shown
    → Adds on tag on' []
    → Reads (t ++ tag) on' shown
tagged t tag on on' shown h k s =
    ap (read outside false) (append_assoc t tag s) ∙ h (tag ++ s) ∙ ap (λ x. shown ++ x) (k s)

module _ (h a : Text) (hs as_text : List (ℕ × Bool)) where
  abbrev at : Bool → Line
  at o = record { h = h; a = a; open_mark = o }

  close_mark-LineReads :
      (o : Bool) → Reads h o hs → Reads a o as_text → LineReads (close_mark (at o)) false hs as_text
  close_mark-LineReads true l r = record {
    mark = refl;
    left = tagged h (codes "</b>") true false hs l closes;
    right = tagged a (codes "</b>") true false as_text r closes;
  }
  close_mark-LineReads false l r = record { mark = refl; left = l; right = r }

  open_at-LineReads :
      (o : Bool) → Reads h o hs → Reads a o as_text → LineReads (open_at (at o)) true hs as_text
  open_at-LineReads true l r = record { mark = refl; left = l; right = r }
  open_at-LineReads false l r = record {
    mark = refl;
    left = tagged h (codes "<b>") false true hs l opens;
    right = tagged a (codes "<b>") false true as_text r opens;
  }

module _ (l : Line) (on : Bool) (hs as_text : List (ℕ × Bool)) (r : LineReads l on hs as_text) where
  pub close_mark-reads : LineReads (close_mark l) false hs as_text
  close_mark-reads =
      close_mark-LineReads l.h l.a hs as_text l.open_mark
        (subst (λ o. Reads l.h o hs) (sym r.mark) r.left)
        (subst (λ o. Reads l.a o as_text) (sym r.mark) r.right)

  open_at-reads : LineReads (open_at l) true hs as_text
  open_at-reads =
      open_at-LineReads l.h l.a hs as_text l.open_mark
        (subst (λ o. Reads l.h o hs) (sym r.mark) r.left)
        (subst (λ o. Reads l.a o as_text) (sym r.mark) r.right)

  pub put_byte-reads :
      (now middle : Bool) (b : ℕ)
      → LineReads
          (put_byte now middle b l)
          now
          (hs ++ shade now (hex b ++ gap middle))
          (as_text ++ (printable b, now) ∷ [])
  unfolding put_byte
  put_byte-reads true middle b = record {
    mark = open_at-reads.mark;
    left =
        Reads-append (open_at l).h (hex b ++ gap middle) true true hs
          (shade true (hex b ++ gap middle)) open_at-reads.left (Adds-hex true middle b);
    right =
        Reads-append (open_at l).a (char_html b) true true as_text ((printable b, true) ∷ [])
          open_at-reads.right (Adds-char_html true b);
  }
  put_byte-reads false middle b = record {
    mark = close_mark-reads.mark;
    left =
        Reads-append (close_mark l).h (hex b ++ gap middle) false false hs
          (shade false (hex b ++ gap middle)) close_mark-reads.left (Adds-hex false middle b);
    right =
        Reads-append (close_mark l).a (char_html b) false false as_text ((printable b, false) ∷ [])
          close_mark-reads.right (Adds-char_html false b);
  }

  pub put_blank-reads :
      (middle : Bool)
      → LineReads (put_blank middle l) false (hs ++ shade false (codes "  " ++ gap middle)) as_text
  unfolding put_blank
  put_blank-reads middle = record {
    mark = close_mark-reads.mark;
    left =
        Reads-append (close_mark l).h (codes "  " ++ gap middle) false false hs
          (shade false (codes "  " ++ gap middle)) close_mark-reads.left (Adds-blank middle);
    right = close_mark-reads.right;
  }
