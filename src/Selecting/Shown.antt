-- ===== src/Selecting/Shown.antt =====
-- The frame in the panes is the one selected, in every order that the answers come in; and what a
-- change of filter does to one that is out.
use webshark.Prelude.{
  ℕ, zero, suc, ◌/◌, ◌<◌, Text, ◌≡◌, refl, sym, subst, get, ◌∙◌, ap, ◌⊎◌, inl, inr, Bool, true,
  false, ◌&&◌, Option, none, some, List, [], ◌∷◌, ◌++◌, ◌==◌, nat_eq, text_eq, arith, if◌then◌else◌,
  Bool-cases, Option-cases, beq_refl,
}
use mathlib.Core.Bool.{true≢false}
use webshark.Pages.{Row, World, page_size, row_before, row_at, fetch_page, rewind}
use webshark.Selecting.{
  Call, Viewer, ask_frame, deselect, rewind_view, same_call, forget_call, arrive,
}

-- The call is one of those that are out.
abbrev pub Out : Call → List Call → Type 0
Out c [] = ⊥
Out c (d ∷ ds) = (d ≡ c) ⊎ Out c ds

-- Calls for the capture that is open, of frames that are numbered from 1.
abbrev pub Open : Text → List Call → Type 0
Open file [] = Unit
Open file (c ∷ cs) = ((c.file ≡ file) × (0 < c.num)) × Open file cs

-- A call for the frame is out.
abbrev pub Waiting : ℕ → List Call → Type 0
Waiting num [] = ⊥
Waiting num (c ∷ cs) = (c.num ≡ num) ⊎ Waiting num cs

abbrev pub Has : ℕ → Option Call → Type 0
Has num none = ⊥
Has num (some c) = c.num ≡ num

abbrev pub Of : Text → Option Call → Type 0
Of file none = Unit
Of file (some c) = c.file ≡ file

-- With no row selected the panes are empty and no answer will fill them; with one they hold the
-- frame wanted, or its call is out.
abbrev pub Shows : Option ℕ → ℕ → Option Call → List Call → Type 0
Shows none want shown calls = (shown ≡ none) × ¬ Waiting want calls
Shows (some i) want shown calls = Has want shown ⊎ Waiting want calls

pub record IsShowing (v : Viewer) : Type 0 where
  pub out : Open v.world.file v.calls
  pub of : Of v.world.file v.shown
  pub shows : Shows v.selected v.want v.shown v.calls

-- What happens while a capture is open and every call of a frame is answered. The pages change
-- under the selection, and a filter rewinds them while no call is out.
pub data Step : Viewer → Viewer → Type 0 where
  pages : (v : Viewer) (w : World) → w.file ≡ v.world.file → Step v (record v { world = w })
  asks : (v : Viewer) (i : ℕ) (row : Row) → 0 < row.n → Step v (ask_frame i (some row) v)
  arrives : (v : Viewer) (c : Call) → Out c v.calls → Step v (arrive c true v)
  closes : (v : Viewer) → Step v (deselect v)
  rewinds : (v : Viewer) → v.calls ≡ [] → Step v (rewind_view v)

pub data Reach (v : Viewer) : Viewer → Type 0 where
  here : Reach v v
  next : {u w : Viewer} → Reach v u → Step u w → Reach v w

Open-append :
    (file : Text) (cs : List Call) (c : Call)
    → Open file cs
    → (c.file ≡ file) × (0 < c.num)
    → Open file (cs ++ c ∷ [])
Open-append file [] c h k = (k, tt)
Open-append file (d ∷ cs) c (hd, h) k = (hd, Open-append file cs c h k)

Open-forget :
    (file : Text) (c : Call) (cs : List Call) → Open file cs → Open file (forget_call c cs)
unfolding forget_call
Open-forget file c [] h = tt
Open-forget file c (d ∷ cs) (hd, h) = elim (Bool-cases (same_call d c)) [
  | inl same ↦ rw same h
  | inr other ↦ rw other (hd, Open-forget file c cs h)
]

Open-Out :
    (file : Text) (c : Call) (cs : List Call)
    → Open file cs
    → Out c cs
    → (c.file ≡ file) × (0 < c.num)
Open-Out file c [] h o = absurd o
Open-Out file c (d ∷ cs) (hd, h) (inl e) = rw (← e) hd
Open-Out file c (d ∷ cs) (hd, h) (inr o) = Open-Out file c cs h o

Waiting-append : (num : ℕ) (cs : List Call) (c : Call) → c.num ≡ num → Waiting num (cs ++ c ∷ [])
Waiting-append num [] c e = inl e
Waiting-append num (d ∷ cs) c e = inr (Waiting-append num cs c e)

Waiting-Out : (c : Call) (cs : List Call) → Out c cs → Waiting c.num cs
Waiting-Out c [] o = absurd o
Waiting-Out c (d ∷ cs) (inl e) = inl (ap (λ (x : Call). x.num) e)
Waiting-Out c (d ∷ cs) (inr o) = inr (Waiting-Out c cs o)

forget_call-Waiting :
    (num : ℕ) (c : Call) (cs : List Call) → Waiting num (forget_call c cs) → Waiting num cs
unfolding forget_call
forget_call-Waiting num c [] w = w
forget_call-Waiting num c (d ∷ cs) w = elim (Bool-cases (same_call d c)) [
  | inl same ↦ inr (subst (λ x. Waiting num (if x then cs else d ∷ forget_call c cs)) same w)
  | inr other ↦ elim (subst (λ x. Waiting num (if x then cs else d ∷ forget_call c cs)) other w) [
    | inl e ↦ inl e
    | inr w' ↦ inr (forget_call-Waiting num c cs w')
  ]
]

same_call-other :
    (num : ℕ) (d c : Call) → d.num ≡ num → (num == c.num) ≡ false → same_call d c ≡ true → ⊥
same_call-other num d c e other same = elim (Bool-cases (d.num == c.num)) [
  | inl alike ↦ true≢false (sym (subst (λ n. (n == c.num) ≡ true) e alike) ∙ other)
  | inr away ↦ true≢false (sym same ∙ ap (λ b. b && (d.prev == c.prev && d.file == c.file)) away)
]

-- Forgetting a call for another frame leaves the one that is waited for.
Waiting-forget_call :
    (num : ℕ) (c : Call) (cs : List Call)
    → (num == c.num) ≡ false
    → Waiting num cs
    → Waiting num (forget_call c cs)
unfolding forget_call
Waiting-forget_call num c [] other w = w
Waiting-forget_call num c (d ∷ cs) other (inl e) = elim (Bool-cases (same_call d c)) [
  | inl same ↦ absurd (same_call-other num d c e other same)
  | inr differ ↦ rw differ (inl e)
]
Waiting-forget_call num c (d ∷ cs) other (inr w) = elim (Bool-cases (same_call d c)) [
  | inl same ↦ rw same w
  | inr differ ↦ rw differ (inr (Waiting-forget_call num c cs other w))
]

not-Waiting-zero : (file : Text) (cs : List Call) → Open file cs → ¬ Waiting 0 cs
not-Waiting-zero file [] h w = w
not-Waiting-zero file (c ∷ cs) ((_, numbered), h) (inl e) = absurd (omega arith)
not-Waiting-zero file (c ∷ cs) (hd, h) (inr w) = not-Waiting-zero file cs h w

-- The panes and the calls after an answer.
arrive-Shows :
    (sel : Option ℕ) (want : ℕ) (shown : Option Call) (c : Call) (cs : List Call)
    → Out c cs
    → Shows sel want shown cs
    → Shows sel want (if want == c.num then some c else shown) (forget_call c cs)
arrive-Shows none want shown c cs o (empty, quiet) = elim (Bool-cases (want == c.num)) [
  | inl same ↦ absurd (quiet (rw ((nat_eq.decides want c.num).0 same) (Waiting-Out c cs o)))
  | inr other ↦ rw other (empty, λ w. quiet (forget_call-Waiting want c cs w))
]
arrive-Shows (some i) want shown c cs o h = elim (Bool-cases (want == c.num)) [
  | inl same ↦ rw same (inl (sym ((nat_eq.decides want c.num).0 same)))
  | inr other ↦
      rw other
        (elim h [ inl there ↦ inl there | inr w ↦ inr (Waiting-forget_call want c cs other w) ])
]

arrive-Of :
    (file : Text) (here : Bool) (c : Call) (shown : Option Call)
    → c.file ≡ file
    → Of file shown
    → Of file (if here then some c else shown)
arrive-Of file true c shown e h = e
arrive-Of file false c shown e h = h

row_at-file : (i : ℕ) (w : World) → (row_at i w).1.file ≡ w.file
unfolding row_at fetch_page
row_at-file i w = elim (Option-cases (get w.pages (i / page_size))) [
  | inl missing ↦ rw (row_at, missing) refl
  | inr (page, there) ↦ rw (row_at, there) refl
]

row_before-file : (i : ℕ) (w : World) → (row_before i w).1.file ≡ w.file
unfolding row_before row_at fetch_page
row_before-file zero w = refl
row_before-file (suc i) w = row_at-file i w

Step-IsShowing : {v w : Viewer} → Step v w → IsShowing v → IsShowing w
unfolding ask_frame arrive deselect rewind_view rewind
Step-IsShowing (pages v w same) h = record {
  out = rw same h.out;
  of = rw same h.of;
  shows = h.shows;
}
Step-IsShowing (asks v i row numbered) h = record {
  out = rw (row_before-file i v.world) (Open-append v.world.file v.calls _ h.out (refl, numbered));
  of = rw (row_before-file i v.world) h.of;
  shows = inr (Waiting-append row.n v.calls _ refl);
}
Step-IsShowing (arrives v c o) h = record {
  out = Open-forget v.world.file c v.calls h.out;
  of =
      arrive-Of v.world.file (v.want == c.num) c v.shown (Open-Out v.world.file c v.calls h.out o).0
        h.of;
  shows = arrive-Shows v.selected v.want v.shown c v.calls o h.shows;
}
Step-IsShowing (closes v) h = record {
  out = h.out;
  of = tt;
  shows = (refl, not-Waiting-zero v.world.file v.calls h.out);
}
Step-IsShowing (rewinds v calm) h = record {
  out = h.out;
  of = tt;
  shows = (refl, rw calm (λ w. w));
}

pub Reach-IsShowing : {v w : Viewer} → IsShowing v → Reach v w → IsShowing w
Reach-IsShowing h here = h
Reach-IsShowing h (next r st) = Step-IsShowing st (Reach-IsShowing h r)

-- The panes are empty where no row is selected, and otherwise they hold the frame that `select`
-- last asked for, out of the capture that is open.
abbrev pub Holds : Option ℕ → ℕ → Text → Option Call → Type 0
Holds none want file shown = shown ≡ none
Holds (some i) want file shown = (c : Call) × (shown ≡ some c) × (c.num ≡ want) × (c.file ≡ file)

Shows-Holds :
    (sel : Option ℕ) (want : ℕ) (file : Text) (shown : Option Call)
    → Of file shown
    → Shows sel want shown []
    → Holds sel want file shown
Shows-Holds none want file shown e h = h.0
Shows-Holds (some i) want file none e (inl h) = absurd h
Shows-Holds (some i) want file none e (inr h) = absurd h
Shows-Holds (some i) want file (some c) e (inl h) = (c, refl, h, e)
Shows-Holds (some i) want file (some c) e (inr h) = absurd h

-- From panes that hold the frame selected or wait for it, after any selections, moves of the pages,
-- closings and answers in any order, once every call is answered the panes hold the frame that was
-- last selected, out of the capture that is open, or are empty where none is selected. The calls all
-- succeed, a capture stays open, and a change of filter happens only while no call is out.
pub settled :
    {u v : Viewer}
    → IsShowing u
    → Reach u v
    → v.calls ≡ []
    → Holds v.selected v.want v.world.file v.shown
settled {v = v} h run calm =
    let k = Reach-IsShowing h run in
    Shows-Holds v.selected v.want v.world.file v.shown k.of
      (subst (Shows v.selected v.want v.shown) calm k.shows)

-- A frame that is wanted and still out when `rewind` empties the panes fills them when it comes
-- in, though no row is selected: `rewind` leaves `S.want` as it was.
pub late_frame :
    (v : Viewer) (c : Call)
    → v.want ≡ c.num
    → ((arrive c true (rewind_view v)).shown ≡ some c)
      × ((arrive c true (rewind_view v)).selected ≡ none)
unfolding arrive rewind_view
late_frame v c wanted = (rw (wanted, beq_refl c.num) refl, refl)
