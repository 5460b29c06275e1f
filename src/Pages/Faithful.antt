-- ===== src/Pages/Faithful.antt =====
-- Every way the packet list's pages can come to hold something: the draws, the fetches, the
-- answers in any order and the filters, and what holds of the pages after any run of them.
use webshark.Prelude.{
  is_empty, ℕ, ◌+◌, ◌-◌, ◌*◌, ◌/◌, ◌%◌, ◌≤◌, ◌<◌, min, Text, ◌≡◌, refl, sym, ◌∙◌, ap, inl, inr,
  true, false, some, List, [], ◌∷◌, arith, length, take, drop, length-take, length-drop, get,
  get_elem?, get_elem?-take, get_elem?-drop, ◌≢◌, get-put_self, get-put_cases, get-remove, nat_eq,
  ltb, Bool-cases, Option-cases,
}
use webshark.Pages.{
  Row, rows, flying, Request, World, page_size, request, fetch_page, land, crash, row_at, refilter,
  rows_drawn,
}
use webshark.Pages.Calls.{Asked, Current, Current-append, Current-forget, Current-Asked}
use webshark.Pages.Counts.{counted_bounded, counted_complete, counted_whole}
use webshark.Pages.Server.{Sharkd, reply}

module _ (s : Sharkd) where
  abbrev pub matches : World → List Row
  matches w = s.matching w.file w.filter

  abbrev pub page_of : World → ℕ → List Row
  page_of w p = take page_size (drop (p * page_size) (matches w))

  -- The pages are the rows that match, and the count is what they say of their number.
  pub record Faithful (w : World) : Type 0 where
    pub shown : (p : ℕ) (page : List Row) → get w.pages p ≡ some (rows page) → page ≡ page_of w p
    pub bounded : w.count ≤ length (matches w)
    pub complete : w.ended ≡ true → w.count ≡ length (matches w)
    pub whole : w.ended ≡ false → w.count % page_size ≡ 0
    pub current : Current w.file w.filter (length (matches w)) w.asked
    pub measured : w.total ≡ length (s.matching w.file [])

  -- What happens to the pages while one capture is open. The last is `filter` when no call is in
  -- flight.
  pub data Step : World → World → Type 0 where
    draw : (w : World) (i : ℕ) → i < rows_drawn w → Step w (row_at i w).1
    first : (w : World) → Step w (fetch_page 0 w)
    lands : (w : World) (r : Request) → Asked r w.asked → Step w (land r (reply s r) w)
    fails : (w : World) (r : Request) → Asked r w.asked → Step w (crash r w)
    filters : (w : World) (text : Text) → w.asked ≡ [] → Step w (refilter text w)

  pub data Reach (w : World) : World → Type 0 where
    here : Reach w w
    next : {u v : World} → Reach w u → Step u v → Reach w v

abbrev seen_by : Sharkd → Request → ℕ
seen_by s r = r.page * page_size + length (reply s r).rows

module _ (s : Sharkd) where
  pub fetch_page-Faithful :
      (p : ℕ) {w : World}
      → p * page_size ≤ length (matches s w)
      → Faithful s w
      → Faithful s (fetch_page p w)
  unfolding fetch_page
  fetch_page-Faithful p {w} h v = record {
    shown = λ q page e. elim (get-put_cases w.pages p q flying e) [
      | inl (_, put_) ↦ absurd (cc)
      | inr old ↦ v.shown q page old
    ];
    bounded = v.bounded;
    complete = v.complete;
    whole = v.whole;
    current = Current-append _ _ _ w.asked (request w p) v.current (refl, refl, h);
    measured = v.measured;
  }

  crash-Faithful : (r : Request) {w : World} → Faithful s w → Faithful s (crash r w)
  unfolding crash
  crash-Faithful r {w} v = record {
    shown = λ q page e. v.shown q page (ground (arith, get-remove w.pages r.page q));
    bounded = v.bounded;
    complete = v.complete;
    whole = v.whole;
    current = Current-forget _ _ _ r w.asked v.current;
    measured = v.measured;
  }

  refilter-Faithful :
      (text : Text) {w : World} → w.asked ≡ [] → Faithful s w → Faithful s (refilter text w)
  unfolding refilter
  refilter-Faithful [] {w} quiet v = record {
    shown = λ q page e. absurd (cc);
    bounded = omega (arith, v.measured);
    complete = λ _. v.measured;
    whole = λ e. absurd (cc);
    current = rw quiet tt;
    measured = v.measured;
  }
  refilter-Faithful (c ∷ text) {w} quiet v = record {
    shown = λ q page e. absurd (cc);
    bounded = omega arith;
    complete = λ e. absurd (cc);
    whole = λ _. refl;
    current = rw quiet tt;
    measured = v.measured;
  }

  -- What a reply adds: as many rows as the page has, and fewer than a page at the end of the set.
  length-reply :
      (r : Request)
      → length (reply s r).rows
        ≡ min page_size (length (s.matching r.file r.filter) - r.page * page_size)
  unfolding reply
  length-reply r =
      ap length (s.frames_window r.file r.filter _ _)
      ∙ length-take page_size (drop (r.page * page_size) (s.matching r.file r.filter))
      ∙ ap (min page_size) (length-drop (r.page * page_size) (s.matching r.file r.filter))

  last-reply : (r : Request) → (reply s r).last ≡ ltb (length (reply s r).rows) page_size
  unfolding reply
  last-reply r = refl

  -- The rows of the reply to a call for the filter in force.
  pub rows-reply :
      (r : Request) (w : World)
      → r.file ≡ w.file
      → r.filter ≡ w.filter
      → (reply s r).rows ≡ page_of s w r.page
  unfolding reply
  rows-reply r w ef eq = s.frames_window r.file r.filter _ _ ∙ rw (ef, eq) refl

  -- Where the reply ends, among the rows that match.
  seen_bounds :
      (r : Request) (w : World)
      → r.file ≡ w.file
      → r.filter ≡ w.filter
      → r.page * page_size ≤ length (matches s w)
      → (seen_by s r ≤ length (matches s w))
        × ((reply s r).last ≡ true → seen_by s r ≡ length (matches s w))
        × ((reply s r).last ≡ false → seen_by s r % page_size ≡ 0)
  seen_bounds r w ef eq fits =
      let size : length (reply s r).rows
          ≡ min page_size (length (matches s w) - r.page * page_size) =
        length-reply r ∙ rw (ef, eq) refl in
      (omega arith, (λ e. ground (arith, last-reply r)), (λ e. ground (arith, last-reply r)))

  pub land-Faithful :
      (r : Request) {w : World}
      → (r.file ≡ w.file) × (r.filter ≡ w.filter) × (r.page * page_size ≤ length (matches s w))
      → Faithful s w
      → Faithful s (land r (reply s r) w)
  unfolding land
  land-Faithful r {w} (ef, eq, fits) v =
      let (within, ends, fills) = seen_bounds r w ef eq fits in
      record {
        shown = λ p page e. elim (get-put_cases w.pages r.page p (rows (reply s r).rows) e) [
          | inl (same, put_) ↦ cc (put_, rows-reply r w ef eq, same)
          | inr old ↦ v.shown p page old
        ];
        bounded = counted_bounded (is_empty w.filter) (reply s r).last _ _ _ v.bounded within;
        complete =
            counted_complete (is_empty w.filter) (reply s r).last w.ended _ _ _ v.complete ends
              v.bounded within;
        whole = counted_whole (is_empty w.filter) (reply s r).last w.ended _ _ v.whole fills;
        current = Current-forget _ _ _ r w.asked v.current;
        measured = v.measured;
      }

  -- A row that is drawn is on a page that begins within the set.
  begins :
      (i : ℕ) (w : World)
      → i < rows_drawn w
      → Faithful s w
      → i / page_size * page_size ≤ length (matches s w)
  unfolding rows_drawn
  begins i w h v = elim (Bool-cases w.ended) [
    | inl done ↦ omega (arith, v.complete done, (rw done at h))
    | inr open_ ↦ omega (arith, v.whole open_, v.bounded, (rw open_ at h))
  ]

  row_at-Faithful :
      (i : ℕ) {w : World} → i < rows_drawn w → Faithful s w → Faithful s (row_at i w).1
  unfolding row_at
  row_at-Faithful i {w} h v = elim (Option-cases (get w.pages (i / page_size))) [
    | inl miss ↦ rw (miss, row_at) (fetch_page-Faithful (i / page_size) (begins i w h v) v)
    | inr (page, hit) ↦ rw (hit, row_at) v
  ]

  Step-Faithful : {u v : World} → Step s u v → Faithful s u → Faithful s v
  Step-Faithful (draw w i h) f = row_at-Faithful i h f
  Step-Faithful (first w) f = fetch_page-Faithful 0 (omega arith) f
  Step-Faithful (lands w r a) f = land-Faithful r (Current-Asked _ _ _ r w.asked f.current a) f
  Step-Faithful (fails w r a) f = crash-Faithful r f
  Step-Faithful (filters w text quiet) f = refilter-Faithful text quiet f

  -- From pages that are faithful, every run of draws, fetches, answers in any order, failures, and
  -- filters applied while no call is in flight leaves pages that are faithful: a page holds the
  -- rows of its place in the filtered set, the count never exceeds that set, and equals its size
  -- once the end is known.
  pub Reach-Faithful : {u v : World} → Faithful s u → Reach s u v → Faithful s v
  Reach-Faithful f here = f
  Reach-Faithful f (next r st) = Step-Faithful st (Reach-Faithful f r)

  -- Whatever run led here, a row that the list draws at an index is the frame that stands at that
  -- index among those that match the filter in force.
  pub row_at-frame :
      {u v : World}
      → Faithful s u
      → Reach s u v
      → (i : ℕ) (row : Row) → (row_at i v).0 ≡ some row
      → get_elem? (matches s v) i ≡ some row
  unfolding row_at
  row_at-frame {v} f run i row h = elim (Option-cases (get v.pages (i / page_size))) [
    | inl miss ↦ absurd (cc (rw (miss, row_at) at h))
    | inr (flying, hit) ↦ absurd (cc (rw (hit, row_at) at h))
    | inr (rows page, hit) ↦
        let v' = Reach-Faithful f run in
        let start = i / page_size * page_size in
        let there : get_elem? (page_of s v (i / page_size)) (i - start) ≡ some row =
          rw (v'.shown (i / page_size) page hit) at (rw (hit, row_at) at h) in
        let at : start + (i - start) ≡ i = omega arith in
        sym (ap (get_elem? (matches s v)) at)
        ∙ sym (get_elem?-drop start (matches s v) (i - start))
        ∙ get_elem?-take page_size (drop start (matches s v)) (i - start) there
  ]

  -- A reply to a call that a change of filter has overtaken, landing after it, leaves pages that are
  -- not faithful, where its rows are not those of that page under the new filter.
  pub stale_reply :
      (w : World) (r : Request) (text : Text)
      → Asked r w.asked
      → (reply s r).rows ≢ page_of s (refilter text w) r.page
      → ¬ Faithful s (land r (reply s r) (refilter text w))
  unfolding land
  stale_reply w r text a differ f =
      differ (f.shown r.page (reply s r).rows (get-put_self (refilter text w).pages r.page _))
