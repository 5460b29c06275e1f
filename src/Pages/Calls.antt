-- ===== src/Pages/Calls.antt =====
-- The calls in flight: which there are, and that each is for the capture and the filter in force.
use webshark.Prelude.{ℕ, ◌*◌, ◌≤◌, Text, ◌≡◌, ◌⊎◌, inl, inr, List, [], ◌∷◌, ◌++◌, Bool-cases}
use webshark.Pages.{Request, page_size, same_request, forget}

-- The call is one of those in flight.
abbrev pub Asked : Request → List Request → Type 0
Asked r [] = ⊥
Asked r (q ∷ qs) = (q ≡ r) ⊎ Asked r qs

-- Calls for the capture and the filter in force, that begin within the set.
abbrev pub Current : Text → Text → ℕ → List Request → Type 0
Current file filter n [] = Unit
Current file filter n (q ∷ qs) =
    ((q.file ≡ file) × (q.filter ≡ filter) × (q.page * page_size ≤ n)) × Current file filter n qs

pub Current-append :
    (file filter : Text) (n : ℕ) (qs : List Request) (q : Request)
    → Current file filter n qs
    → (q.file ≡ file) × (q.filter ≡ filter) × (q.page * page_size ≤ n)
    → Current file filter n (qs ++ q ∷ [])
Current-append file filter n [] q h hq = (hq, tt)
Current-append file filter n (r ∷ qs) q (hr, h) hq = (hr, Current-append file filter n qs q h hq)

pub Current-forget :
    (file filter : Text) (n : ℕ) (r : Request) (qs : List Request)
    → Current file filter n qs
    → Current file filter n (forget r qs)
unfolding forget
Current-forget file filter n r [] h = tt
Current-forget file filter n r (q ∷ qs) (hq, h) = elim (Bool-cases (same_request q r)) [
  | inl same ↦ rw same h
  | inr other ↦ rw other (hq, Current-forget file filter n r qs h)
]

pub Current-Asked :
    (file filter : Text) (n : ℕ) (r : Request) (qs : List Request)
    → Current file filter n qs
    → Asked r qs
    → (r.file ≡ file) × (r.filter ≡ filter) × (r.page * page_size ≤ n)
Current-Asked file filter n r (q ∷ qs) (hq, h) (inl e) = rw (← e) hq
Current-Asked file filter n r (q ∷ qs) (hq, h) (inr a) = Current-Asked file filter n r qs h a
Current-Asked file filter n r [] h a = absurd a
