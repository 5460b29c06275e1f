-- ===== src/Columns/Laws.antt =====
-- What the drawn columns and the cells of a row hold.
use webshark.Prelude.{
  is_empty, ℕ, suc, String, ◌+◌, ◌<◌, ◌≡◌, ◌⊎◌, inl, inr, Bool, true, Option, none, some, List, [],
  ◌∷◌, arith, nat_eq, text_eq, length, Lacks, Bool-cases, split-join, beq_refl, Option-cases, ◌≤◌,
}
use webshark.Pages.{Row}
use webshark.Columns.{
  ColumnInfo, Name, Shape, Drawn, addr, col, find_column, at, time, or_else, is_at, column_ix,
  shown_from, draw_column, draw_columns, visible_columns, raw, outer, cell,
}

-- Each drawn column is the folded pair or one that a row of the capture has.
abbrev pub IsDrawable : ℕ → Drawn → Type 0
IsDrawable n addr = Unit
IsDrawable n (col none) = ⊥
IsDrawable n (col (some i)) = i < n

abbrev pub AllDrawable : ℕ → List Drawn → Type 0
AllDrawable n [] = Unit
AllDrawable n (d ∷ ds) = IsDrawable n d × AllDrawable n ds

find_column-lt :
    (p : ColumnInfo → Bool) (cs : List ColumnInfo) (i : ℕ)
    → find_column p cs ≡ some i
    → i < length cs
unfolding find_column
find_column-lt p [] i h = absurd (cc)
find_column-lt p (c ∷ cs) i h = elim (Option-cases (find_column p cs)) [
  | inl none_later ↦ ground arith
  | inr (j, later) ↦ ground (arith, find_column-lt p cs j later)
]

or_else-lt :
    (n : ℕ) (a b : Option ℕ) (i : ℕ)
    → ((j : ℕ) → a ≡ some j → j < n)
    → ((j : ℕ) → b ≡ some j → j < n)
    → or_else a b ≡ some i
    → i < n
or_else-lt n none b i ha hb h = hb i h
or_else-lt n (some j) b i ha hb h = ha i h

at-lt :
    (cs : List ColumnInfo) (fmt title : String) (i : ℕ) → at cs fmt title ≡ some i → i < length cs
unfolding at
at-lt cs fmt title i h = or_else-lt (length cs) _ _ i (find_column-lt _ cs) (find_column-lt _ cs) h

-- The Time slot is drawn with a column that the capture has.
time-lt :
    (cs : List ColumnInfo) (t : Shape) (rel : ℕ)
    → at cs "%t" "Time" ≡ some rel
    → IsDrawable (length cs) (col (column_ix cs t time))
unfolding column_ix
time-lt cs t rel e = elim (Option-cases (at cs t.fmt t.col)) [
  | inl other ↦ rw (other, e) (at-lt cs "%t" "Time" rel e)
  | inr (picked, found) ↦ rw found (at-lt cs t.fmt t.col picked found)
]

is_at→eq : (o : Option ℕ) (i : ℕ) → is_at o i ≡ true → o ≡ some i
is_at→eq none i h = absurd (cc)
is_at→eq (some j) i h = ground arith

-- Where a drawn column that is not the pair comes from.
col_source :
    (cs : List ColumnInfo) (t : Shape) (i : ℕ) (o : Option ℕ)
    → draw_column cs t i ≡ some (col o)
    → (o ≡ some i) ⊎ ((at cs "%t" "Time" ≡ some i) × (o ≡ column_ix cs t time))
unfolding draw_column
col_source cs t i o e = ground (arith, is_at→eq (at cs "%t" "Time") i)

abbrev AllBelow : ℕ → List ℕ → Type 0
AllBelow n [] = Unit
AllBelow n (i ∷ is) = (i < n) × AllBelow n is

draw_column-IsDrawable :
    (cs : List ColumnInfo) (t : Shape) (i : ℕ) (d : Drawn)
    → i < length cs
    → draw_column cs t i ≡ some d
    → IsDrawable (length cs) d
unfolding draw_column
draw_column-IsDrawable cs t i addr h e = tt
draw_column-IsDrawable cs t i (col o) h e = elim (col_source cs t i o e) [
  | inl same ↦ rw same h
  | inr (rel, slot) ↦ rw slot (time-lt cs t i rel)
]

draw_columns-AllDrawable :
    (cs : List ColumnInfo) (t : Shape) (is : List ℕ)
    → AllBelow (length cs) is
    → AllDrawable (length cs) (draw_columns cs t is)
unfolding draw_columns
draw_columns-AllDrawable cs t [] h = tt
draw_columns-AllDrawable cs t (i ∷ is) (lt, h) = elim (Option-cases (draw_column cs t i)) [
  | inl left_out ↦ rw (left_out, draw_columns) (draw_columns-AllDrawable cs t is h)
  | inr (d, kept) ↦
      rw (kept, draw_columns)
        (draw_column-IsDrawable cs t i d lt kept, draw_columns-AllDrawable cs t is h)
]

shown_from-below :
    (i n : ℕ) (cs : List ColumnInfo) → i + length cs ≤ n → AllBelow n (shown_from i cs)
unfolding shown_from
shown_from-below i n [] h = tt
shown_from-below i n (c ∷ cs) h = elim (Bool-cases c.visible) [
  | inl shown ↦ rw shown (omega arith, shown_from-below (suc i) n cs (omega arith))
  | inr hidden ↦ rw hidden (shown_from-below (suc i) n cs (omega arith))
]

-- Whatever columns a capture has and whichever Time shape is picked, the list draws only columns
-- that the rows hold, besides the folded pair of addresses.
pub visible_columns-AllDrawable :
    (cs : List ColumnInfo) (t : Shape) → AllDrawable (length cs) (visible_columns cs t)
unfolding visible_columns
visible_columns-AllDrawable cs t =
    draw_columns-AllDrawable cs t (shown_from 0 cs)
      (shown_from-below 0 (length cs) cs (omega arith))

-- A frame whose outer column says nothing else than the plain one is drawn as the plain one.
pub cell-raw :
    (ix : Name → Option ℕ) (row : Row) (name o : Name)
    → outer name ≡ some o
    → Lacks b',' (raw ix row name)
    → (raw ix row o ≡ []) ⊎ (raw ix row o ≡ raw ix row name)
    → cell ix row name ≡ raw ix row name
unfolding cell
cell-raw ix row name o e h (inl blank) = rw (e, blank)
cell-raw ix row name o e h (inr same) =
    rw (e, same)
      (elim (Bool-cases (is_empty (raw ix row name))) [
        | inl blank ↦ rw blank
        | inr text ↦
            rw (text, split-join b',' (raw ix row name) [] h tt, beq_refl (raw ix row name))
      ])
