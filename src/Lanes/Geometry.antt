-- ===== src/Lanes/Geometry.antt =====
-- Where the lanes stand: `widest`, `layout`, `x` and `lane` of src/web/app.js, in whole pixels.
use webshark.Prelude.{
  ℕ, ◌+◌, ◌-◌, ◌*◌, ◌/◌, ◌≤◌, ◌<◌, min, max, Text, ◌≡◌, ap, ◌⊎◌, inl, inr, Bool, List, [], ◌∷◌,
  arith, ltb, leb, if◌then◌else◌, length, Bool-cases,
}
use webshark.Window.{ceil_div}
use webshark.Window.Laws.{div_below, lt_next_mul, le_ceil_mul, lt_of_mul_lt}

-- `Math.ceil(a.length * MONO)`, at 7.25 pixels a character
unfoldable pub text_width : Text → ℕ
text_width a = (29 * length a + 3) / 4

-- the × beside a label and the slot mirroring it
abbrev pub slots_width : Bool → ℕ
slots_width phone = 2 * (if phone then 10 else 14)

unfoldable pub longest : List Text → ℕ
unfolding text_width
longest [] = 0
longest (a ∷ nodes) = max (text_width a) (longest nodes)

unfoldable pub widest : Bool → List Text → ℕ
unfolding longest
widest phone nodes = longest nodes + slots_width phone

-- `min` of `layout`: LANE[1] is 400, LANEP 100 and LANE[0] 160
unfoldable pub lane_min : Bool → List Text → ℕ
unfolding widest
lane_min phone nodes = min 400 (max (if phone then 100 else 160) (widest phone nodes))

-- `S.nodeW`, where `room` is what the gutter leaves of the list, or 0 where it leaves nothing
unfoldable pub lane_width : Bool → List Text → ℕ → ℕ
unfolding lane_min
lane_width phone nodes room =
    let least = lane_min phone nodes in
    max least (min 400 (if ltb 0 (length nodes) then room / length nodes else least))

-- `x`, and `lane` of a point of the canvas
unfoldable pub lane_x : ℕ → ℕ → ℕ → ℕ
lane_x gutter width i = gutter + width * i + width / 2

unfoldable pub lane_at : ℕ → ℕ → ℕ → ℕ → ℕ
lane_at gutter width n at = min (n - 1) ((at - gutter) / width)

-- The run of lanes that `layout` draws, SIDE of them past either edge of the window.
unfoldable pub lanes_from : ℕ → ℕ → ℕ → ℕ
lanes_from gutter width left = (left - gutter) / width - 2

unfoldable pub lanes_upto : ℕ → ℕ → ℕ → ℕ → ℕ
unfolding ceil_div
lanes_upto gutter width n right =
    if leb gutter right
    then min n (ceil_div (right - gutter) width + 2)
    else min n (2 - (gutter - right) / width)

abbrev pub Fits : ℕ → Bool → List Text → Type 0
Fits width phone [] = Unit
Fits width phone (a ∷ nodes) = (text_width a + slots_width phone ≤ width) × Fits width phone nodes

longest-Fits :
    (phone : Bool) (nodes : List Text) (width : ℕ)
    → longest nodes + slots_width phone ≤ width
    → Fits width phone nodes
unfolding longest
longest-Fits phone [] width h = tt
longest-Fits phone (a ∷ nodes) width h =
    (ground arith, longest-Fits phone nodes width (ground arith))

-- A lane is never narrower than the layout's floor nor wider than 400 pixels, and short of that
-- ceiling it holds every address of the diagram whole, with the slots on either side of it.
pub lane_width_lem :
    (phone : Bool) (nodes : List Text) (room : ℕ)
    → ((if phone then 100 else 160) ≤ lane_width phone nodes room)
      × (lane_width phone nodes room ≤ 400)
      × ((lane_width phone nodes room ≡ 400) ⊎ Fits (lane_width phone nodes room) phone nodes)
unfolding lane_width
lane_width_lem phone nodes room = (
  ground arith,
  ground arith,
  elim (Bool-cases (leb (widest phone nodes) 400)) [
    | inl holds ↦ inr (longest-Fits phone nodes _ (ground arith))
    | inr over_ ↦ inl (ground arith)
  ],
)

quotient : (width i off : ℕ) → off < width → (width * i + off) / width ≡ i
quotient width i off k =
    let q = (width * i + off) / width in
    let above : i < q + 1 =
      lt_of_mul_lt width i (q + 1)
        (omega (arith, lt_next_mul width (width * i + off) (omega arith))) in
    omega (arith, div_below width (width * i + off) i (omega arith) (omega arith))

add_sub_gutter : (gutter a off : ℕ) → gutter + a + off - gutter ≡ a + off
add_sub_gutter gutter a off = omega arith

-- A point inside a lane is on that lane: the drop of a dragged column goes where it is seen to.
pub lane_at-lane :
    (gutter width n i off : ℕ)
    → i < n
    → off < width
    → lane_at gutter width n (gutter + width * i + off) ≡ i
unfolding lane_at
lane_at-lane gutter width n i off h k =
    omega
      (arith, quotient width i off k, ap (λ t. t / width) (add_sub_gutter gutter (width * i) off))

-- Every lane with a pixel in the part of the window that shows the diagram is drawn.
pub lanes_drawn :
    (gutter width n left right i : ℕ)
    → 0 < width
    → i < n
    → left < gutter + width * (i + 1)
    → gutter + width * i < right
    → (lanes_from gutter width left ≤ i) × (i < lanes_upto gutter width n right)
unfolding lanes_from lanes_upto
lanes_drawn gutter width n left right i w inside below above =
    let first = div_below width (left - gutter) i w (omega arith) in
    let last : i < ceil_div (right - gutter) width =
      lt_of_mul_lt width i (ceil_div (right - gutter) width)
        (omega (arith, le_ceil_mul width (right - gutter) w)) in
    (omega arith, ground arith)
