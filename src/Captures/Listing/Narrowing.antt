-- ===== src/Captures/Listing/Narrowing.antt =====
-- What the scan does to the rows of the list: it only ever takes rows away, and ends with none that
-- is unsure.
use mathlib.Core.List.{Sublist}
use mathlib.Core.List.Sublist as Sublist
use mathlib.Core.Bool.{true≢false}
use webshark.Prelude.{
  ℕ, suc, ◌≤◌, Text, ◌≡◌, ◌≢◌, refl, sym, ap, ◌∙◌, Bool, false, not, Option, none, some, List, [],
  ◌∷◌, arith, if_case, length, nat_eq, drop, get_elem?, length-drop, is_none,
  lt-length_of_get_elem?,
}
use webshark.Captures.Moments.{Browser}
use webshark.Captures.Search.{Capture, parse_find}
use webshark.Captures.Listing.{
  Filed, Listing, draw_files, Scan, scanned, scan_landed, scan_from, scan_all,
}
use webshark.Captures.Listing.RowsDrawn.{
  names, file_rows-scanned, IsDrawn, AllRead, head_of_drop, drop-set, drop_next, AllRead-next,
  AllRead-set, file_rows-sure, known_of, unread,
}

module _ (b : Browser) (scan : Text → Option Scan) (busy overtaken : ℕ → Bool) where
  -- What a part of the scan makes of a list: it is drawn, over the same box, and its rows are some
  -- of those that were there, in their order.
  abbrev Narrows : Listing → Listing → Type 0
  Narrows l m = IsDrawn b m × Sublist (names m.rows.filed) (names l.rows.filed)

  scan_landed-Narrows :
      (i : ℕ) (c : Capture) (cs : List Capture) (res : Option Scan) (l : Listing)
      → IsDrawn b l
      → drop i l.caps ≡ c ∷ cs
      → c.protos ≡ none
      → Narrows l (scan_landed b scan busy overtaken i c res l)
  unfolding draw_files
  scan_landed-Narrows i c cs none l drawn e unread = (drawn, Sublist.refl _)
  scan_landed-Narrows i c cs (some res) l drawn e unread = (
    refl,
    rw drawn (
        file_rows-scanned b (parse_find b l.find) l.caps i c res (head_of_drop l.caps cs c i e)
          unread),
  )

  scan_landed-caps :
      (i : ℕ) (c : Capture) (cs : List Capture) (res : Option Scan) (l : Listing)
      → drop i l.caps ≡ c ∷ cs
      → drop (suc i) (scan_landed b scan busy overtaken i c res l).caps ≡ cs
  unfolding draw_files
  scan_landed-caps i c cs none l e = drop_next l.caps cs c i e
  scan_landed-caps i c cs (some res) l e = drop-set l.caps cs c (scanned res c) i e

  scan_from-Narrows :
      (i : ℕ) (cs : List Capture) (l : Listing)
      → IsDrawn b l
      → drop i l.caps ≡ cs
      → Narrows l (scan_from b scan busy overtaken i cs l)
  unfolding scan_from
  scan_from-Narrows i [] l drawn e = (drawn, Sublist.refl _)
  scan_from-Narrows i (c ∷ cs) l drawn e =
      if_case (Narrows l) (busy i) (λ stop. (drawn, Sublist.refl _))
        (λ on.
          if_case (Narrows l) (not (is_none c.protos))
            (λ known. scan_from-Narrows (suc i) cs l drawn (drop_next l.caps cs c i e))
            (λ unknown.
              if_case (Narrows l) (overtaken i) (λ stop. (drawn, Sublist.refl _))
                (λ go.
                  let narrowed =
                    scan_landed-Narrows i c cs (scan c.name) l drawn e (unread c.protos unknown) in
                  let (redrawn, fewer) =
                    scan_from-Narrows (suc i) cs
                      (scan_landed b scan busy overtaken i c (scan c.name) l) narrowed.0
                      (scan_landed-caps i c cs (scan c.name) l e) in
                  (redrawn, Sublist.trans fewer narrowed.1))))

  scan_landed-AllRead :
      (i : ℕ) (c : Capture) (cs : List Capture) (res : Option Scan) (l : Listing)
      → res ≢ none
      → AllRead i l.caps
      → drop i l.caps ≡ c ∷ cs
      → AllRead (suc i) (scan_landed b scan busy overtaken i c res l).caps
  unfolding draw_files scanned
  scan_landed-AllRead i c cs none l answered known e = absurd (answered refl)
  scan_landed-AllRead i c cs (some res) l answered known e =
      AllRead-set l.caps i (scanned res c) (cc)
        (lt-length_of_get_elem? l.caps i c (head_of_drop l.caps cs c i e)) known

  module _ (free : (i : ℕ) → busy i ≡ false) (kept : (i : ℕ) → overtaken i ≡ false)
      (answers : (name : Text) → scan name ≢ none) where
    scan_from-AllRead :
        (i : ℕ) (cs : List Capture) (l : Listing)
        → AllRead i l.caps
        → drop i l.caps ≡ cs
        → (n : ℕ) × (length (scan_from b scan busy overtaken i cs l).caps ≤ n)
          × AllRead n (scan_from b scan busy overtaken i cs l).caps
    unfolding scan_from
    scan_from-AllRead i [] l known e = (i, omega (arith, length-drop i l.caps, ap length e), known)
    scan_from-AllRead i (c ∷ cs) l known e =
        let Ends = (λ (m : Listing). (n : ℕ) × (length m.caps ≤ n) × AllRead n m.caps) in
        if_case Ends (busy i) (λ stop. absurd (true≢false (sym stop ∙ free i)))
          (λ on.
            if_case Ends (not (is_none c.protos))
              (λ read.
                scan_from-AllRead (suc i) cs l
                  (AllRead-next l.caps i c (known_of c.protos read) (head_of_drop l.caps cs c i e)
                    known)
                  (drop_next l.caps cs c i e))
              (λ unknown.
                if_case Ends (overtaken i) (λ stop. absurd (true≢false (sym stop ∙ kept i)))
                  (λ go.
                    scan_from-AllRead (suc i) cs
                      (scan_landed b scan busy overtaken i c (scan c.name) l)
                      (scan_landed-AllRead i c cs (scan c.name) l (answers c.name) known e)
                      (scan_landed-caps i c cs (scan c.name) l e))))

    -- A scan that runs to its end, every call of it answered, leaves no row that is unsure, so
    -- that the footer has nothing more to wait for.
    pub scan_all-settles :
        (l : Listing)
        → ((scan_all b scan busy overtaken (draw_files b l)).rows.waiting ≡ 0)
          × ((j : ℕ) (f : Filed)
              → get_elem? (scan_all b scan busy overtaken (draw_files b l)).rows.filed j ≡ some f
              → f.tent ≡ false)
    unfolding scan_all draw_files
    scan_all-settles l =
        let (drawn, _) = scan_from-Narrows 0 l.caps (draw_files b l) refl refl in
        let (n, le, known) =
          scan_from-AllRead 0 l.caps (draw_files b l) (λ j c lt at. absurd (omega arith)) refl in
        rw drawn (
          file_rows-sure b (parse_find b (scan_all b scan busy overtaken (draw_files b l)).find)
            (scan_all b scan busy overtaken (draw_files b l)).caps n le known)
