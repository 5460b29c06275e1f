-- ===== src/Pages/Locate/Laws.antt =====
-- The loop of `locate` against a search of the whole filtered set.
use webshark.Prelude.{
  ℕ, zero, suc, ◌+◌, ◌*◌, ◌≤◌, ◌<◌, ◌≡◌, refl, sym, ◌∙◌, ap, ap₂, inl, inr, true, Option, none,
  some, List, [], ◌∷◌, arith, length, take, drop, length-take, length-drop, drop-drop, drop_all,
  ◌==◌, nat_eq, ltb, get, get-put_self, Bool-cases, Option-cases,
}
use mathlib.Core.Option
use webshark.Pages.{Row, rows, flying, Request, Reply, World, page_size, request, land, settle}
use webshark.Pages.Server.{Sharkd, reply}
use webshark.Pages.Faithful.{
  matches, page_of, Faithful, fetch_page-Faithful, land-Faithful, rows-reply,
}
use webshark.Pages.Locate.{find_index, is_past, Located, at, missing, search_rows, locate}

-- Frames come in capture order: their numbers grow.
abbrev pub AllPast : ℕ → List Row → Type 0
AllPast k [] = Unit
AllPast k (row ∷ rest) = (k < row.n) × AllPast k rest

abbrev pub IsAscending : List Row → Type 0
IsAscending [] = Unit
IsAscending (row ∷ rest) = AllPast row.n rest × IsAscending rest

AllPast-weaken : (j k : ℕ) (xs : List Row) → j < k → AllPast k xs → AllPast j xs
AllPast-weaken j k [] h a = tt
AllPast-weaken j k (x ∷ xs) h (b, a) = (omega arith, AllPast-weaken j k xs h a)

AllPast-find_index : (num : ℕ) (xs : List Row) → AllPast num xs → find_index num xs ≡ none
unfolding find_index
AllPast-find_index num [] a = refl
AllPast-find_index num (x ∷ xs) (b, a) = ground (arith, AllPast-find_index num xs a)

is_past-AllPast :
    (num n : ℕ) (xs : List Row)
    → IsAscending xs
    → is_past num (take n xs) ≡ true
    → AllPast num (drop n xs)
unfolding is_past
is_past-AllPast num zero xs a h = cc
is_past-AllPast num (suc n) [] a h = cc
is_past-AllPast num (suc zero) (x ∷ xs) (b, a) h = AllPast-weaken num x.n xs (ground arith) b
is_past-AllPast num (suc (suc n)) (x ∷ []) a h = tt
is_past-AllPast num (suc (suc n)) (x ∷ y ∷ ys) (b, a) h = is_past-AllPast num (suc n) (y ∷ ys) a h

map-suc-none : (o : Option ℕ) → Option.map suc o ≡ none → o ≡ none
map-suc-none none h = refl
map-suc-none (some k) h = cc

find_index-take :
    (num n : ℕ) (xs : List Row) {k : ℕ}
    → find_index num (take n xs) ≡ some k
    → find_index num xs ≡ some k
unfolding find_index
find_index-take num zero xs h = absurd (cc)
find_index-take num (suc n) [] h = h
find_index-take num (suc n) (x ∷ xs) {k} h = elim (Option-cases (find_index num (take n xs))) [
  | inl e ↦ ground arith
  | inr (j, e) ↦ ground (arith, find_index-take num n xs e)
]

abbrev shift : ℕ → Option ℕ → Option ℕ
shift n none = none
shift n (some k) = some (n + k)

shift-zero : (o : Option ℕ) → o ≡ shift 0 o
shift-zero none = refl
shift-zero (some k) = ap some (omega arith)

map-shift : (n : ℕ) (o : Option ℕ) → Option.map suc (shift n o) ≡ shift (suc n) o
map-shift n none = refl
map-shift n (some k) = ap some (omega arith)

-- What a page does not hold is looked for behind it.
find_index-drop :
    (num n : ℕ) (xs : List Row)
    → find_index num (take n xs) ≡ none
    → find_index num xs ≡ shift n (find_index num (drop n xs))
unfolding find_index
find_index-drop num zero xs h = shift-zero (find_index num xs)
find_index-drop num (suc n) [] h = refl
find_index-drop num (suc n) (x ∷ xs) h = elim (Bool-cases (x.n == num)) [
  | inl same ↦ absurd (ground arith)
  | inr other ↦ rw other (
      ap (Option.map suc) (find_index-drop num n xs (map-suc-none _ (rw other at h)))
      ∙ map-shift n (find_index num (drop n xs)))
]

IsAscending-drop : (n : ℕ) (xs : List Row) → IsAscending xs → IsAscending (drop n xs)
IsAscending-drop zero xs a = a
IsAscending-drop (suc n) [] a = tt
IsAscending-drop (suc n) (x ∷ xs) (b, a) = IsAscending-drop n xs a

next_page :
    (p : ℕ) {other : List Row} (all : List Row)
    → other ≡ all
    → drop (suc p * page_size) other ≡ drop page_size (drop (p * page_size) all)
next_page p all same =
    ap (drop (suc p * page_size)) same
    ∙ ap (λ n. drop n all) (omega arith)
    ∙ sym (drop-drop page_size (p * page_size) all)

-- The answer that a search of all the rows would give.
abbrev pub answer_of : Option ℕ → Located
answer_of none = missing
answer_of (some i) = at i

abbrev located : ℕ → Option ℕ → Located
located start o = answer_of (shift start o)

located-shift :
    (p : ℕ) (o : Option ℕ)
    → located (suc p * page_size) o ≡ located (p * page_size) (shift page_size o)
located-shift p none = refl
located-shift p (some k) = ap at (omega arith)

module _ (s : Sharkd) where
  abbrev pub always : Request → Option Reply
  always r = some (reply s r)

  -- What a round waits for: the page, whatever was filed for it before.
  record Settled (p : ℕ) (w v : World) : Type 0 where
    faithful : Faithful s v
    file : v.file ≡ w.file
    filter : v.filter ≡ w.filter
    page : get v.pages p ≡ some (rows (page_of s w p))

  answered-Settled :
      (p : ℕ) {w : World}
      → p * page_size ≤ length (matches s w)
      → Faithful s w
      → Settled p w (land (request w p) (reply s (request w p)) w)
  unfolding land
  answered-Settled p {w} h f = record {
    faithful = land-Faithful s (request w p) (refl, refl, h) f;
    file = refl;
    filter = refl;
    page =
        get-put_self w.pages p _ ∙ ap (λ l. some (rows l)) (rows-reply s (request w p) w refl refl);
  }

  settle-Settled :
      (p : ℕ) {w : World}
      → p * page_size ≤ length (matches s w)
      → Faithful s w
      → Settled p w (settle always p w)
  unfolding settle
  settle-Settled p {w} h f = elim (Option-cases (get w.pages p)) [
    | inl miss ↦
        let done = answered-Settled p h (fetch_page-Faithful s p h f) in
        rw (miss, settle)
          (record {
            faithful = done.faithful;
            file = done.file;
            filter = done.filter;
            page = done.page;
          })
    | inr (flying, hit) ↦ rw (hit, settle) (answered-Settled p h f)
    | inr (rows page, hit) ↦
        rw (hit, settle)
          (record {
            faithful = f;
            file = refl;
            filter = refl;
            page = hit ∙ ap (λ l. some (rows l)) (f.shown p page hit);
          })
  ]

  -- One round of the loop, on a page that holds the rows of its place: `later` is what the next
  -- round returns, if there is one.
  search_rows_lem :
      (num p : ℕ) (w : World) (all : List Row) (later : Located × World)
      → IsAscending all
      → (page_size ≤ length all
          → later.0 ≡ located (suc p * page_size) (find_index num (drop page_size all)))
      → (search_rows (find_index num (take page_size all)) (take page_size all) num p w later).0
        ≡ located (p * page_size) (find_index num all)
  unfolding find_index
  search_rows_lem num p w all later asc h =
      elim (Option-cases (find_index num (take page_size all))) [
        | inr (k, e) ↦ rw (e, find_index-take num page_size all e)
        | inl e ↦
            let behind = find_index-drop num page_size all e in
            elim (Bool-cases (ltb (length (take page_size all)) page_size)) [
              | inl short ↦
                  let few : length all ≤ page_size = ground (arith, length-take page_size all) in
                  rw (e, short, behind, drop_all page_size all few)
              | inr full ↦ elim (Bool-cases (is_past num (take page_size all))) [
                | inl past ↦
                    rw
                      (
                        e,
                        full,
                        past,
                        behind,
                        AllPast-find_index num _ (is_past-AllPast num page_size all asc past),
                      )
                      refl
                | inr before ↦
                    let many : page_size ≤ length all = ground (arith, length-take page_size all) in
                    rw (e, full, before, behind)
                      (h many ∙ located-shift p (find_index num (drop page_size all)))
              ]
            ]
      ]

  locate_from :
      (fuel num p : ℕ) (w : World)
      → Faithful s w
      → p * page_size ≤ length (matches s w)
      → length (matches s w) < (p + fuel) * page_size
      → IsAscending (drop (p * page_size) (matches s w))
      → (locate always fuel num p w).0
        ≡ located (p * page_size) (find_index num (drop (p * page_size) (matches s w)))
  unfolding locate
  locate_from zero num p w f h k asc = absurd (omega arith)
  locate_from (suc fuel) num p w f h k asc =
      let done = settle-Settled p h f in
      let w' = settle always p w in
      let all = matches s w in
      let same : matches s w' ≡ all = ap₂ s.matching done.file done.filter in
      let behind : drop (suc p * page_size) (matches s w')
          ≡ drop page_size (drop (p * page_size) all) =
        next_page p all same in
      rw (done.page, locate)
        (search_rows_lem num p w' (drop (p * page_size) all) _ asc λ many.
          locate_from fuel num (suc p) w' done.faithful
            (rw same (omega (arith, length-drop (p * page_size) all))) (rw same (omega arith))
            (rw behind (IsAscending-drop page_size _ asc))
          ∙ ap (λ l. located (suc p * page_size) (find_index num l)) behind)

  -- From faithful pages, where the frames that match ascend and every call is answered: with fuel for
  -- one round more than the filtered set has whole pages, `locate` finds the index of
  -- the frame among all the rows that match, or answers that none of them is that frame, whichever
  -- of its pages were fetched, in flight or neither when it began.
  pub locate_lem :
      (fuel num : ℕ) (w : World)
      → Faithful s w
      → IsAscending (matches s w)
      → length (matches s w) < fuel * page_size
      → (locate always fuel num 0 w).0 ≡ answer_of (find_index num (matches s w))
  locate_lem fuel num w f asc k =
      locate_from fuel num 0 w f (omega arith) (omega arith) asc
      ∙ ap answer_of (sym (shift-zero (find_index num (matches s w))))
