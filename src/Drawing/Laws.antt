-- ===== src/Drawing/Laws.antt =====
-- What the list shows after `draw`: the rows in view, each once and at its place, and of each the
-- frame that stands there.
use mathlib.Core.Option.{some-injective}
use webshark.Prelude.{
  ℕ, zero, suc, ◌+◌, ◌-◌, ◌*◌, ◌/◌, ◌≤◌, ◌<◌, ◌≡◌, refl, sym, subst, ap, ◌∙◌, inl, inr, true, false,
  Option, some, List, [], ◌∷◌, arith, drop, get, get_elem?, Option-cases, nat_eq,
}
use webshark.Pages.{Row, World, page_size, fetch_page, row_at, rows_drawn}
use webshark.Pages.Server.{Sharkd}
use webshark.Pages.Faithful.{
  Faithful, Step, draw as draws, Reach, here, next, matches, row_at-frame,
}
use webshark.Window.{first_drawn, upto_drawn}
use webshark.Window.Laws.{drawn_lem}
use webshark.Drawing.{Slot, filled, is_selected, hide_all, fill_slots, draw}

hide_all-hidden :
    (pool : List Slot) (j : ℕ) (slot : Slot)
    → get_elem? (hide_all pool) j ≡ some slot
    → slot.hidden ≡ true
unfolding hide_all
hide_all-hidden [] j slot at = absurd (cc)
hide_all-hidden (t ∷ pool) zero slot at =
    ap (λ (x : Slot). x.hidden) (sym (some-injective (record t { hidden = true }) slot at))
hide_all-hidden (t ∷ pool) (suc j) slot at = hide_all-hidden pool j slot at

module _ (s : Sharkd) where
  row_at-matches : (i : ℕ) (w : World) → matches s (row_at i w).1 ≡ matches s w
  unfolding row_at fetch_page
  row_at-matches i w = elim (Option-cases (get w.pages (i / page_size))) [
    | inl missing ↦ rw (row_at, missing) refl
    | inr (page, there) ↦ rw (row_at, there) refl
  ]

  row_at-rows_drawn : (i : ℕ) (w : World) → rows_drawn (row_at i w).1 ≡ rows_drawn w
  unfolding row_at fetch_page rows_drawn
  row_at-rows_drawn i w = elim (Option-cases (get w.pages (i / page_size))) [
    | inl missing ↦ rw (row_at, missing) refl
    | inr (page, there) ↦ rw (row_at, there) refl
  ]

  Reach-cons : {u v w : World} → Step s u v → Reach s v w → Reach s u w
  Reach-cons st here = next here st
  Reach-cons st (next r st') = next (Reach-cons st r) st'

  Reach-trans : {u v w : World} → Reach s u v → Reach s v w → Reach s u w
  Reach-trans r here = r
  Reach-trans r (next r' st) = next (Reach-trans r r') st

  -- The slot of a row, and the pages at the time it was filled.
  pub record Holds (height : ℕ) (selected : Option ℕ) (i : ℕ) (w : World) (slot : Slot)
      : Type 0 where
    pub then_ : World
    pub reached : Reach s w then_
    pub same : matches s then_ ≡ matches s w
    pub is_filled : slot ≡ filled height selected i (row_at i then_).0

  fill_slots-Holds :
      (height : ℕ) (selected : Option ℕ) (k i : ℕ) (pool : List Slot) (w : World) (j : ℕ)
      → i + k ≤ rows_drawn w
      → j < k
      → (slot : Slot) × (get_elem? (fill_slots height selected k i pool w).0 j ≡ some slot)
        × Holds height selected (i + j) w slot
  unfolding fill_slots
  fill_slots-Holds height selected zero i pool w j room lt = absurd (omega arith)
  fill_slots-Holds height selected (suc k) i pool w zero room lt = (
    filled height selected i (row_at i w).0,
    refl,
    record {
      then_ = w;
      reached = here;
      same = refl;
      is_filled = ap (λ n. filled height selected n (row_at n w).0) (omega arith);
    },
  )
  fill_slots-Holds height selected (suc k) i pool w (suc j) room lt =
      let (slot, at, h) =
        fill_slots-Holds height selected k (suc i) (drop 1 pool) (row_at i w).1 j
          (omega (arith, room, row_at-rows_drawn i w)) (omega arith) in
      (
        slot,
        at,
        subst (λ n. Holds height selected n w slot) (omega arith)
            (record {
              then_ = h.then_;
              reached = Reach-cons (draws w i (omega (arith, room))) h.reached;
              same = h.same ∙ row_at-matches i w;
              is_filled = h.is_filled;
            }),
      )

  fill_slots-hidden :
      (height : ℕ) (selected : Option ℕ) (k i : ℕ) (pool : List Slot) (w : World) (j : ℕ)
      (slot : Slot)
      → k ≤ j
      → get_elem? (fill_slots height selected k i pool w).0 j ≡ some slot
      → slot.hidden ≡ true
  unfolding fill_slots
  fill_slots-hidden height selected zero i pool w j slot past at = hide_all-hidden pool j slot at
  fill_slots-hidden height selected (suc k) i pool w zero slot past at =
      absurd (omega (arith, past))
  fill_slots-hidden height selected (suc k) i pool w (suc j) slot past at =
      fill_slots-hidden height selected k (suc i) (drop 1 pool) (row_at i w).1 j slot
        (omega (arith, past)) at

  -- After any run from faithful pages, a row of the list that has a pixel in the viewport has one
  -- slot, at its place in the canvas and on show, which is selected exactly if the row is; and what it
  -- holds, if it holds a row, is the frame that stands there among those that match the filter.
  pub draw_lem :
      (height view top : ℕ) (selected : Option ℕ) (pool : List Slot) {u w : World} (i : ℕ)
      → Faithful s u
      → Reach s u w
      → 0 < height
      → i < rows_drawn w
      → top < (i + 1) * height
      → i * height < top + view
      → (slot : Slot) × (get_elem?
            (draw height view top selected pool w).0
            (i - first_drawn height top)
          ≡ some slot)
        × (slot.index ≡ i)
        × (slot.top ≡ i * height)
        × (slot.hidden ≡ false)
        × (slot.sel ≡ is_selected selected i)
        × ((row : Row) → slot.row ≡ some row → get_elem? (matches s w) i ≡ some row)
  unfolding draw upto_drawn first_drawn
  draw_lem height view top selected pool {u} {w} i f run pos inside below above =
      let (low, high, few) = drawn_lem height view (rows_drawn w) top i pos inside below above in
      let first = first_drawn height top in
      let k = upto_drawn height view (rows_drawn w) top - first in
      let (slot, at, held) =
        fill_slots-Holds height selected k first pool w (i - first) (omega arith) (omega arith) in
      let h : Holds height selected i w slot =
        subst (λ n. Holds height selected n w slot) (omega arith) held in
      (
        slot,
        at,
        ap (λ (x : Slot). x.index) h.is_filled,
        ap (λ (x : Slot). x.top) h.is_filled,
        ap (λ (x : Slot). x.hidden) h.is_filled,
        ap (λ (x : Slot). x.sel) h.is_filled,
        λ row drawn.
            sym (ap (λ rows. get_elem? rows i) h.same)
            ∙ row_at-frame s f (Reach-trans run h.reached) i row
                (sym (ap (λ (x : Slot). x.row) h.is_filled) ∙ drawn),
      )

  -- Every other slot of the pool is hidden.
  pub draw-hidden :
      (height view top : ℕ) (selected : Option ℕ) (pool : List Slot) (w : World) (j : ℕ)
      (slot : Slot)
      → upto_drawn height view (rows_drawn w) top ≤ first_drawn height top + j
      → get_elem? (draw height view top selected pool w).0 j ≡ some slot
      → slot.hidden ≡ true
  unfolding draw
  draw-hidden height view top selected pool w j slot past at =
      fill_slots-hidden height selected
        (upto_drawn height view (rows_drawn w) top - first_drawn height top)
        (first_drawn height top) pool w j slot (omega (arith, past)) at
