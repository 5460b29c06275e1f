-- ===== src/Columns/Severity.antt =====
-- The severity that a row of the list wears, of src/web/app.js: `SEV`, `MARKED` and `expert`.
mod Tests
use mathlib.Core.List.{Mem, mem-cons_of_mem, mem-cons_self}
use webshark.Prelude.{
  ℕ, zero, suc, ◌+◌, ◌-◌, ◌≤◌, ◌<◌, max, Text, codes, ◌≡◌, ◌≢◌, refl, sym, subst, ap, ◌∙◌, ◌⊎◌, inl,
  inr, Bool, true, false, Option, none, some, List, [], ◌∷◌, arith, ◌==◌, nat_eq, text_eq,
  if◌then◌else◌, Bool-cases, ltb, ltb→lt, leb, leb→le, get_elem?, get_or, split,
}
use webshark.Pages.{Row}
use webshark.Columns.{Name, sev, xinfo, cell}

abbrev pub severities : List Text
severities = codes "Comment" ∷ codes "Chat" ∷ codes "Note" ∷ codes "Warning" ∷ codes "Error" ∷ []

-- One more than `indexOf`, so 0 for its -1.
abbrev pub place_in : List Text → Text → ℕ
place_in [] s = 0
place_in (l ∷ ls) s =
    let below = place_in ls s in if l == s then 1 else if below == 0 then 0 else suc below

unfoldable pub rank_of : Text → ℕ
rank_of s = place_in severities s

-- `MARKED`
abbrev pub marked : ℕ
marked = place_in severities (codes "Note")

-- The loop of `expert`, from the worst so far.
unfoldable pub worst : ℕ → List Text → ℕ
unfolding rank_of
worst w [] = w
worst w (s ∷ ss) = worst (max w (rank_of s)) ss

-- The severity that is marked, of those of one frame.
unfoldable pub marks : List Text → Option Text
unfolding worst
marks ss = let w = worst 0 ss in if ltb w marked then none else some (get_or severities (w - 1) [])

-- `expert` of a row: the severity, and the tooltip with it.
unfoldable pub expert : (Name → Option ℕ) → Option Row → Option (Text × Text)
unfolding marks cell
expert ix none = none
expert ix (some row) = elim (marks (split (λ c. c == b',') (cell ix row sev))) [
  | none ↦ none
  | some s ↦ some (s, cell ix row xinfo)
]

-- None of the severities is this one.
abbrev pub Lacks : Text → List Text → Type 0
Lacks t [] = Unit
Lacks t (s ∷ ss) = (s ≢ t) × Lacks t ss

abbrev pub AllUpTo : ℕ → List Text → Type 0
AllUpTo w [] = Unit
AllUpTo w (s ∷ ss) = (rank_of s ≤ w) × AllUpTo w ss

place_cases :
    (same : Bool) (below i : ℕ)
    → (if same then 1 else if below == 0 then 0 else suc below) ≡ suc i
    → ((same ≡ true) × (i ≡ 0)) ⊎ ((below ≡ i) × (0 < i))
place_cases true below i e = inl (refl, omega (arith, e))
place_cases false below i e = inr (ground arith, ground arith)

place_in-get : (ls : List Text) (s : Text) (i : ℕ) → place_in ls s ≡ suc i → get_or ls i [] ≡ s
place_in-get [] s i e = absurd (omega (arith, e))
place_in-get (l ∷ ls) s zero e = elim (place_cases (l == s) (place_in ls s) 0 e) [
  | inl (same, _) ↦ (text_eq.decides l s).0 same
  | inr (_, pos) ↦ absurd (omega (arith, pos))
]
place_in-get (l ∷ ls) s (suc i) e = elim (place_cases (l == s) (place_in ls s) (suc i) e) [
  | inl (_, first) ↦ absurd (omega (arith, first))
  | inr (below, _) ↦ place_in-get ls s i below
]

rank_of-get : (s : Text) (i : ℕ) → rank_of s ≡ suc i → get_or severities i [] ≡ s
unfolding rank_of
rank_of-get s i e = place_in-get severities s i e

worst-le : (w : ℕ) (ss : List Text) → w ≤ worst w ss
unfolding worst
worst-le w [] = omega arith
worst-le w (s ∷ ss) = omega (arith, worst-le (max w (rank_of s)) ss)

worst-AllUpTo : (w : ℕ) (ss : List Text) → AllUpTo (worst w ss) ss
unfolding worst
worst-AllUpTo w [] = tt
worst-AllUpTo w (s ∷ ss) =
    (omega (arith, worst-le (max w (rank_of s)) ss), worst-AllUpTo (max w (rank_of s)) ss)

highest : (w r v : ℕ) → v ≡ max w r → leb r w ≡ false → r ≡ v
highest w r v e h = ground arith

-- The worst is the one given or the rank_of of a member.
worst-Mem :
    (w : ℕ) (ss : List Text) → (worst w ss ≡ w) ⊎ ((s : Text) × Mem s ss × (rank_of s ≡ worst w ss))
unfolding worst
worst-Mem w [] = inl refl
worst-Mem w (s ∷ ss) = elim (worst-Mem (max w (rank_of s)) ss) [
  | inl same ↦ elim (Bool-cases (leb (rank_of s) w)) [
    | inl low ↦ inl (omega (arith, same, leb→le (rank_of s) w low))
    | inr high ↦
        inr (s, mem-cons_self, highest w (rank_of s) (worst (max w (rank_of s)) ss) same high)
  ]
  | inr (t, there, e) ↦ inr (t, mem-cons_of_mem s there, e)
]

-- The severities that are marked, the worst first.
abbrev pub Tells : List Text → Option Text → Type 0
Tells ss none = Lacks (codes "Error") ss × Lacks (codes "Warning") ss × Lacks (codes "Note") ss
Tells ss (some s) =
    ((s ≡ codes "Error") × Mem s ss)
    ⊎ (((s ≡ codes "Warning") × Mem s ss × Lacks (codes "Error") ss)
        ⊎ ((s ≡ codes "Note") × Mem s ss × Lacks (codes "Error") ss × Lacks (codes "Warning") ss))

AllUpTo-Lacks : (w : ℕ) (t : Text) (ss : List Text) → w < rank_of t → AllUpTo w ss → Lacks t ss
AllUpTo-Lacks w t [] over all = tt
AllUpTo-Lacks w t (s ∷ ss) over (up, all) =
    (λ e. absurd (omega (arith, over, up, ap rank_of e)), AllUpTo-Lacks w t ss over all)

error_last : rank_of (codes "Error") ≡ 5
unfolding rank_of
error_last = refl

warning_next : rank_of (codes "Warning") ≡ 4
unfolding rank_of
warning_next = refl

note_first : rank_of (codes "Note") ≡ 3
unfolding rank_of
note_first = refl

nothing_unranked : rank_of [] ≡ 0
unfolding rank_of
nothing_unranked = refl

over_error : (k : ℕ) (s : Text) → rank_of s ≡ 6 + k → ⊥
over_error k s e =
    let empty : [] ≡ s = rank_of-get s (suc (suc (suc (suc (suc k))))) (omega (arith, e)) in
    omega (arith, e, ap rank_of empty, nothing_unranked)

-- What a severity at a place of the scale is, from the place of "Note" on.
named_at :
    (n : ℕ) (ss : List Text) (s : Text)
    → 3 ≤ n
    → rank_of s ≡ n
    → Mem s ss
    → AllUpTo n ss
    → Tells ss (some s)
named_at zero ss s over e there all = absurd (omega (arith, over))
named_at (suc zero) ss s over e there all = absurd (omega (arith, over))
named_at (suc (suc zero)) ss s over e there all = absurd (omega (arith, over))
named_at (suc (suc (suc zero))) ss s over e there all = inr (
    inr (
      sym (rank_of-get s 2 e),
      there,
      AllUpTo-Lacks 3 (codes "Error") ss (omega (arith, error_last)) all,
      AllUpTo-Lacks 3 (codes "Warning") ss (omega (arith, warning_next)) all,
    ))
named_at (suc (suc (suc (suc zero)))) ss s over e there all = inr (
    inl (
      sym (rank_of-get s 3 e),
      there,
      AllUpTo-Lacks 4 (codes "Error") ss (omega (arith, error_last)) all,
    ))
named_at (suc (suc (suc (suc (suc zero))))) ss s over e there all =
    inl (sym (rank_of-get s 4 e), there)
named_at (suc (suc (suc (suc (suc (suc k)))))) ss s over e there all =
    absurd (over_error k s (omega (arith, e)))

worst_named :
    (ss : List Text) → 3 ≤ worst 0 ss → Tells ss (some (get_or severities (worst 0 ss - 1) []))
worst_named ss h = elim (worst-Mem 0 ss) [
  | inl nothing ↦ absurd (omega (arith, nothing, h))
  | inr (s, there, e) ↦
      subst (λ t. Tells ss (some t)) (sym (rank_of-get s (worst 0 ss - 1) (omega (arith, e, h))))
        (named_at (worst 0 ss) ss s h e there (worst-AllUpTo 0 ss))
]

unmarked : (w : ℕ) (ss : List Text) → w < 3 → AllUpTo w ss → Tells ss none
unmarked w ss low all = (
  AllUpTo-Lacks w (codes "Error") ss (omega (arith, low, error_last)) all,
  AllUpTo-Lacks w (codes "Warning") ss (omega (arith, low, warning_next)) all,
  AllUpTo-Lacks w (codes "Note") ss (omega (arith, low, note_first)) all,
)

at_least : (w : ℕ) → ltb w marked ≡ false → 3 ≤ w
at_least w h = ground arith

-- A row wears "Error" if one of the items of its frame is one, else "Warning" if one is, else "Note"
-- if one is, and otherwise nothing.
pub marks_lem : (ss : List Text) → Tells ss (marks ss)
unfolding marks
marks_lem ss = elim (Bool-cases (ltb (worst 0 ss) marked)) [
  | inl low ↦
      rw low (unmarked (worst 0 ss) ss (ltb→lt (worst 0 ss) marked low) (worst-AllUpTo 0 ss))
  | inr high ↦ rw high (worst_named ss (at_least (worst 0 ss) high))
]
