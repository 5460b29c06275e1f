-- ===== src/Lanes/Laid/Laws.antt =====
-- What `laid` lets `layout` leave alone is laid out as it would be again.
use mathlib.Core.Option.{some-injective}
use mathlib.Core.Bool.{true≢false}
use webshark.Prelude.{
  ℕ, Text, ◌≡◌, refl, sym, ap, subst, ◌∙◌, inl, inr, Bool, true, ◌||◌, not, Option, none, some,
  List, [], ◌∷◌, ◌++◌, append-nil, append_assoc, length, length-append, arith, ◌==◌, nat_eq,
  text_eq, if_case, is_empty, Bool-cases, Option-cases, get, is_none,
}
use webshark.Pages.{Row}
use webshark.Columns.{Name}
use webshark.Lanes.{Diagram, see, see_all, addresses, arrange, nodes}
use webshark.Lanes.Laid.{
  Sig, same_sig, is_laid, Band, slots_for, sig_of, layout, unlane, fetch_nodes, place_lane, unlay,
  rewind_lanes, regutter,
}

-- What is laid out is laid out for a first part of the lanes, by the numbers it was laid out for, and
-- the title is that of the Time column.
pub record Coherent (b : Band) (sig : Sig) : Type 0 where
  old : List Text
  more : List Text
  begins : b.diagram.nodes ≡ old ++ more
  counted : length old ≡ sig.n
  drawn : b.lanes ≡ slots_for b.gutter sig old
  titled : b.title ≡ b.time

abbrev IsCoherent : Band → Type 0
IsCoherent b = (sig : Sig) → b.laid ≡ some sig → Coherent b sig

see-extends : (a : Text) (d : Diagram) → (more : List Text) × ((see a d).0.nodes ≡ d.nodes ++ more)
unfolding see
see-extends a d = elim (Bool-cases (is_empty a || not (is_none (get d.node a)))) [
  | inl there ↦ ([], rw there (sym (append-nil d.nodes)))
  | inr new ↦ (a ∷ [], rw new refl)
]

see_all-extends :
    (addrs : List Text) (d : Diagram)
    → (more : List Text) × ((see_all addrs d).0.nodes ≡ d.nodes ++ more)
unfolding see_all
see_all-extends [] d = ([], sym (append-nil d.nodes))
see_all-extends (a ∷ addrs) d =
    let (one, first) = see-extends a d in
    let (more, rest) = see_all-extends addrs (see a d).0 in
    (one ++ more, rest ∙ ap (λ (ns : List Text). ns ++ more) first ∙ append_assoc d.nodes one more)

no_order : (d : Diagram) → is_empty d.order ≡ true → arrange d ≡ d
unfolding arrange
no_order d e = rw (e, arrange) refl

see-order : (a : Text) (d : Diagram) → (see a d).0.order ≡ d.order
unfolding see
see-order a d = elim (Bool-cases (is_empty a || not (is_none (get d.node a)))) [
  | inl there ↦ rw there refl
  | inr new ↦ rw new refl
]

see_all-order : (addrs : List Text) (d : Diagram) → (see_all addrs d).0.order ≡ d.order
unfolding see_all
see_all-order [] d = refl
see_all-order (a ∷ addrs) d = see_all-order addrs (see a d).0 ∙ see-order a d

same_sig→slots :
    (gutter : ℕ) (a b : Sig) (addrs : List Text)
    → same_sig a b ≡ true
    → (a.n ≡ b.n) × (slots_for gutter a addrs ≡ slots_for gutter b addrs)
same_sig→slots gutter a b addrs h =
    let n : a.n ≡ b.n = ground (arith, h) in
    let width : a.width ≡ b.width = ground (arith, h) in
    let from : a.from ≡ b.from = ground (arith, h) in
    let upto : a.upto ≡ b.upto = ground (arith, h) in (n, rw (width, from, upto) refl)

-- A list that is no longer than the part it begins with is that part.
nothing_more :
    (old more whole : List Text) → whole ≡ old ++ more → length old ≡ length whole → old ≡ whole
nothing_more old [] whole e h = sym (e ∙ append-nil old)
nothing_more old (m ∷ more) whole e h =
    absurd (omega (arith, ap length e, length-append old (m ∷ more), h))

Coherent-whole :
    (view scroll : ℕ) (b : Band) (t : Sig)
    → Coherent b t
    → same_sig t (sig_of view scroll b) ≡ true
    → b.lanes ≡ slots_for b.gutter (sig_of view scroll b) b.diagram.nodes
unfolding sig_of
Coherent-whole view scroll b t c h =
    let (n, slots) = same_sig→slots b.gutter t (sig_of view scroll b) c.old h in
    c.drawn
    ∙ slots
    ∙ ap (slots_for b.gutter (sig_of view scroll b))
        (nothing_more c.old c.more b.diagram.nodes c.begins (c.counted ∙ n))

layout_lem :
    (view scroll : ℕ) (b : Band)
    → IsCoherent b
    → let c = layout view scroll b in
      (c.lanes ≡ slots_for b.gutter (sig_of view scroll b) b.diagram.nodes)
      × (c.title ≡ b.time)
      × IsCoherent c
unfolding layout
layout_lem view scroll b coherent = elim (Bool-cases (is_laid b.laid (sig_of view scroll b))) [
  | inl kept ↦ elim (Option-cases b.laid) [
    | inl unlaid ↦
        absurd
          (true≢false (sym kept ∙ ap (λ (o : Option Sig). is_laid o (sig_of view scroll b)) unlaid))
    | inr (t, is) ↦
        let c = coherent t is in
        let same = subst (λ (o : Option Sig). is_laid o (sig_of view scroll b) ≡ true) is kept in
        rw kept (Coherent-whole view scroll b t c same, c.titled, coherent)
  ]
  | inr new ↦ rw new (
    refl,
    refl,
    λ sig e.
        subst
          (Coherent (record b {
            laid = some (sig_of view scroll b);
            lanes = slots_for b.gutter (sig_of view scroll b) b.diagram.nodes;
            title = b.time;
          }))
          (some-injective (sig_of view scroll b) sig e)
          (record {
            old = b.diagram.nodes;
            more = [];
            begins = sym (append-nil b.diagram.nodes);
            counted = refl;
            drawn = refl;
            titled = refl;
          }),
  )
]

-- What moves the lanes, the gutter or the titles, in any order.
pub data Step : Band → Band → Type 0 where
  lays : (view scroll : ℕ) (b : Band) → Step b (layout view scroll b)
  fetches : (ix : Name → Option ℕ) (rows : List Row) (b : Band) → Step b (fetch_nodes ix rows b)
  places : (addr : Text) (to : ℕ) (b : Band) → Step b (place_lane addr to b)
  drags : (b : Band) → Step b (unlay b)
  rewinds : (b : Band) → Step b (rewind_lanes b)
  regutters :
      (gutter : ℕ) (phone : Bool) (time : Text) (b : Band) → Step b (regutter gutter phone time b)

pub data Reach (b : Band) : Band → Type 0 where
  here : Reach b b
  next : {c d : Band} → Reach b c → Step c d → Reach b d

fetch_nodes-IsCoherent :
    (ix : Name → Option ℕ) (rows : List Row) (b : Band)
    → IsCoherent b
    → IsCoherent (fetch_nodes ix rows b)
unfolding fetch_nodes nodes
fetch_nodes-IsCoherent ix rows b coherent sig e =
    let seen = see_all (addresses ix rows) b.diagram in
    let (new, extends) = see_all-extends (addresses ix rows) b.diagram in
    elim (Bool-cases seen.1) [
      | inl added ↦ elim (Bool-cases (is_empty b.diagram.order)) [
        | inl unordered ↦
            let c = coherent sig (rw (added, unordered) at e) in
            record {
              old = c.old;
              more = c.more ++ new;
              begins = rw added (
                  ap (λ (d : Diagram). d.nodes)
                    (no_order seen.0
                      (ap is_empty (see_all-order (addresses ix rows) b.diagram) ∙ unordered))
                  ∙ extends
                  ∙ ap (λ (ns : List Text). ns ++ new) c.begins
                  ∙ append_assoc c.old c.more new);
              counted = c.counted;
              drawn = c.drawn;
              titled = c.titled;
            }
        | inr ordered ↦ absurd (cc (rw (added, ordered) at e))
      ]
      | inr same ↦
          let c = coherent sig (rw same at e) in
          record {
            old = c.old;
            more = c.more ++ new;
            begins = rw same (
                extends
                ∙ ap (λ (ns : List Text). ns ++ new) c.begins
                ∙ append_assoc c.old c.more new);
            counted = c.counted;
            drawn = c.drawn;
            titled = c.titled;
          }
    ]

place_lane-IsCoherent :
    (addr : Text) (to : ℕ) (b : Band) → IsCoherent b → IsCoherent (place_lane addr to b)
unfolding place_lane
place_lane-IsCoherent addr to b coherent = elim (Option-cases (get b.diagram.node addr)) [
  | inl nowhere ↦ rw (nowhere, place_lane) coherent
  | inr (at, there) ↦
      rw (there, place_lane)
        (if_case IsCoherent (at == to) (λ e. coherent) (λ e sig never. absurd (cc)))
]

Step-IsCoherent : {b c : Band} → Step b c → IsCoherent b → IsCoherent c
unfolding unlay rewind_lanes regutter unlane
Step-IsCoherent (Step.lays view scroll b) h = (layout_lem view scroll b h).2
Step-IsCoherent (Step.fetches ix rows b) h = fetch_nodes-IsCoherent ix rows b h
Step-IsCoherent (Step.places addr to b) h = place_lane-IsCoherent addr to b h
Step-IsCoherent (Step.drags b) h = λ sig never. absurd (cc)
Step-IsCoherent (Step.rewinds b) h = λ sig never. absurd (cc)
Step-IsCoherent (Step.regutters gutter phone time b) h = λ sig never. absurd (cc)

Reach-IsCoherent : {b c : Band} → Reach b c → IsCoherent b → IsCoherent c
Reach-IsCoherent Reach.here h = h
Reach-IsCoherent (Reach.next run step) h = Step-IsCoherent step (Reach-IsCoherent run h)

-- From a diagram that is not laid out, after any pages, drags, filters, changes of the gutter and
-- scrolls, whatever `layout` leaves alone: once it has run, the slots on show are those of the lanes
-- in the window, with their addresses and at their places, and the title is that of the Time column.
pub lanes_laid :
    (view scroll : ℕ) {b c : Band}
    → b.laid ≡ none
    → Reach b c
    → ((layout view scroll c).lanes ≡ slots_for c.gutter (sig_of view scroll c) c.diagram.nodes)
      × ((layout view scroll c).title ≡ c.time)
lanes_laid view scroll {b} {c} fresh run =
    let (lanes, title, still) =
      layout_lem view scroll c (Reach-IsCoherent run (λ sig e. absurd (cc (fresh, e)))) in
    (lanes, title)
