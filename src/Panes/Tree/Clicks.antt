-- ===== src/Panes/Tree/Clicks.antt =====
-- What `toggle` does to elements that agree with the nodes and the open keys: they agree afterwards.
use mathlib.Core.Bool.{true≢false}
use webshark.Prelude.{
  Text, ◌≡◌, ◌≢◌, refl, sym, ap, ap₂, subst, ◌∙◌, ◌⊎◌, inl, inr, Bool, true, false, not, List, [],
  text_eq, contains, add, delete, Bool-cases,
}
use webshark.Panes.Tree.{
  Label, Nodes, Look, Elements, key, twisty_of, look, build, Place, itself, beside, inside,
  unfolded, toggle_node,
}
use webshark.Panes.Tree.Keys.{
  Without, Apart, IsDistinct, Apart-sym, SameBut, SameBut-add, SameBut-delete, contains-add_self,
  contains-delete_self,
}

-- The elements are those of the nodes, each folded or not by its key, and its kids are not there
-- yet or are in agreement too.
unfoldable pub Agrees : List Text → Elements → Nodes → Type 0
Agrees opened Elements.done Nodes.done = Unit
Agrees opened Elements.done (Nodes.leaf n f) = ⊥
Agrees opened Elements.done (Nodes.node n kids f) = ⊥
Agrees opened (Elements.leaf k e) Nodes.done = ⊥
Agrees opened (Elements.leaf k e) (Nodes.leaf n f) = (k ≡ look n []) × Agrees opened e f
Agrees opened (Elements.leaf k e) (Nodes.node n kids f) = ⊥
Agrees opened (Elements.node m own k hidden els e) Nodes.done = ⊥
Agrees opened (Elements.node m own k hidden els e) (Nodes.leaf n f) = ⊥
Agrees opened (Elements.node m own k hidden els e) (Nodes.node n kids f) =
    (m ≡ n)
    × (own ≡ kids)
    × (k ≡ look n (twisty_of (contains opened (key n))))
    × (hidden ≡ not (contains opened (key n)))
    × (((els ≡ Elements.done) × (hidden ≡ true)) ⊎ Agrees opened els kids)
    × Agrees opened e f

pub build-Agrees : (opened : List Text) (f : Nodes) → Agrees opened (build opened f) f
unfolding build Agrees
build-Agrees opened Nodes.done = tt
build-Agrees opened (Nodes.leaf n rest) = (refl, build-Agrees opened rest)
build-Agrees opened (Nodes.node n kids rest) = elim (Bool-cases (contains opened (key n))) [
  | inl shown ↦
      (refl, refl, refl, refl, inr (rw shown (build-Agrees opened kids)), build-Agrees opened rest)
  | inr folded ↦
      (refl, refl, refl, refl, inl (rw folded refl, rw folded refl), build-Agrees opened rest)
]

-- A key that no node of the list has may be opened and folded.
Agrees-but :
    (k : Text) (opened after : List Text) (e : Elements) (f : Nodes)
    → SameBut k opened after
    → Without k f
    → Agrees opened e f
    → Agrees after e f
unfolding Agrees SameBut Without
Agrees-but k opened after Elements.done Nodes.done same w a = tt
Agrees-but k opened after Elements.done (Nodes.leaf n f) same w a = absurd a
Agrees-but k opened after Elements.done (Nodes.node n kids f) same w a = absurd a
Agrees-but k opened after (Elements.leaf l e) Nodes.done same w a = absurd a
Agrees-but k opened after (Elements.leaf l e) (Nodes.leaf n f) same w (i, a) =
    (i, Agrees-but k opened after e f same w a)
Agrees-but k opened after (Elements.leaf l e) (Nodes.node n kids f) same w a = absurd a
Agrees-but k opened after (Elements.node m own l hidden els e) Nodes.done same w a = absurd a
Agrees-but k opened after (Elements.node m own l hidden els e) (Nodes.leaf n f) same w a = absurd a
Agrees-but k opened after (Elements.node m own l hidden els e) (Nodes.node n kids f) same
      (apart, wk, wf) (i, o, t, h, inner, a) =
    let here_too = same (key n) apart in
    (
      i,
      o,
      rw here_too t,
      rw here_too h,
      elim inner [
        | inl unbuilt ↦ inl unbuilt
        | inr built ↦ inr (Agrees-but k opened after els kids same wk built)
      ],
      Agrees-but k opened after e f same wf a,
    )

-- What a click did: nothing, or the key of one of the nodes is open or not, and of no other key.
pub record Clicked (opened after : List Text) (e : Elements) (f : Nodes) : Type 0 where
  pub of_key : Text
  pub only : SameBut of_key opened after
  pub elsewhere : (g : Nodes) → Apart f g → Without of_key g
  pub differs : (j : Text) → Without j f → of_key ≢ j
  pub agrees : Agrees after e f

unfoldable pub Outcome : List Text → List Text → Elements → Elements → Nodes → Type 0
Outcome opened after old e f = ((e ≡ old) × (after ≡ opened)) ⊎ Clicked opened after e f

Agrees-unfolded :
    (opened : List Text) (els : Elements) (kids : Nodes)
    → (els ≡ Elements.done) ⊎ Agrees opened els kids
    → Agrees opened (unfolded opened kids els) kids
unfolding Agrees
Agrees-unfolded opened Elements.done kids h = build-Agrees opened kids
Agrees-unfolded opened (Elements.leaf k e) kids (inl never) = absurd (cc)
Agrees-unfolded opened (Elements.leaf k e) kids (inr a) = a
Agrees-unfolded opened (Elements.node m own k hidden els e) kids (inl never) = absurd (cc)
Agrees-unfolded opened (Elements.node m own k hidden els e) kids (inr a) = a

module _ (opened : List Text) (n : Label) (kids f : Nodes) (k : Look) (els e : Elements)
    (wk : Without (key n) kids) (wf : Without (key n) f) where
  Clicked-here :
      (after : List Text) (old new : Elements)
      → SameBut (key n) opened after
      → Agrees after new (Nodes.node n kids f)
      → Outcome opened after old new (Nodes.node n kids f)
  unfolding Outcome Apart Without
  Clicked-here after old new only a = inr (record {
    of_key = key n;
    only = only;
    elsewhere = λ g w. w.0;
    differs = λ j w same. w.0 (sym same);
    agrees = a;
  })

  Outcome-unfolded :
      k ≡ look n (twisty_of (contains opened (key n)))
      → ((els ≡ Elements.done) × (true ≡ true)) ⊎ Agrees opened els kids
      → Agrees opened e f
      → let old = Elements.node n kids k true els e in
        Outcome opened
          (toggle_node opened itself old).1
          old
          (toggle_node opened itself old).0
          (Nodes.node n kids f)
  unfolding toggle_node Agrees look
  Outcome-unfolded t inner a =
      let after = add (key n) opened in
      let only = SameBut-add (key n) opened in
      let now = contains-add_self (key n) opened in
      Clicked-here after _ _ only (
        refl,
        refl,
        rw now (ap (λ (l : Look). record l { twisty = twisty_of true }) t),
        rw now refl,
        inr (
            Agrees-unfolded after els kids (elim inner [
              | inl (unbuilt, hid) ↦ inl unbuilt
              | inr built ↦ inr (Agrees-but (key n) opened after els kids only wk built)
            ])),
        Agrees-but (key n) opened after e f only wf a,
      )

  Outcome-folded :
      k ≡ look n (twisty_of (contains opened (key n)))
      → ((els ≡ Elements.done) × (false ≡ true)) ⊎ Agrees opened els kids
      → Agrees opened e f
      → let old = Elements.node n kids k false els e in
        Outcome opened
          (toggle_node opened itself old).1
          old
          (toggle_node opened itself old).0
          (Nodes.node n kids f)
  unfolding toggle_node Agrees look
  Outcome-folded t inner a =
      let after = delete (key n) opened in
      let only = SameBut-delete (key n) opened in
      let now = contains-delete_self (key n) opened in
      Clicked-here after _ _ only (
        refl,
        refl,
        rw now (ap (λ (l : Look). record l { twisty = twisty_of false }) t),
        rw now refl,
        elim inner [
          | inl (unbuilt, never) ↦ absurd (true≢false (sym never))
          | inr built ↦ inr (Agrees-but (key n) opened after els kids only wk built)
        ],
        Agrees-but (key n) opened after e f only wf a,
      )

toggle_node-done :
    (opened : List Text) (p : Place) → toggle_node opened p Elements.done ≡ (Elements.done, opened)
unfolding toggle_node
toggle_node-done opened itself = refl
toggle_node-done opened (beside p) = refl
toggle_node-done opened (inside p) = refl

abbrev HereAt : List Text → Look → Bool → Elements → Elements → Nodes → Label × Nodes → Type 0
HereAt opened k hidden els e f (m, own) =
    let old = Elements.node m own k hidden els e in
    Outcome opened (toggle_node opened itself old).1 old (toggle_node opened itself old).0 f

pub toggle_node-Outcome :
    (opened : List Text) (p : Place) (e : Elements) (f : Nodes)
    → IsDistinct f
    → Agrees opened e f
    → Outcome opened (toggle_node opened p e).1 e (toggle_node opened p e).0 f
unfolding toggle_node Outcome Agrees IsDistinct Apart Without SameBut
toggle_node-Outcome opened itself Elements.done f d a = inl (refl, refl)
toggle_node-Outcome opened (beside p) Elements.done f d a = inl (refl, refl)
toggle_node-Outcome opened (inside p) Elements.done f d a = inl (refl, refl)
toggle_node-Outcome opened itself (Elements.leaf k e) f d a = inl (refl, refl)
toggle_node-Outcome opened (inside p) (Elements.leaf k e) f d a = inl (refl, refl)
toggle_node-Outcome opened (beside p) (Elements.leaf k e) Nodes.done d a = absurd a
toggle_node-Outcome opened (beside p) (Elements.leaf k e) (Nodes.node n kids f) d a = absurd a
toggle_node-Outcome opened (beside p) (Elements.leaf k e) (Nodes.leaf n f) d (i, a) =
    elim (toggle_node-Outcome opened p e f d a) [
      | inl (same, still) ↦ inl (ap (Elements.leaf k) same, still)
      | inr c ↦ inr (record {
        of_key = c.of_key;
        only = c.only;
        elsewhere = c.elsewhere;
        differs = c.differs;
        agrees = (i, c.agrees);
      })
    ]
toggle_node-Outcome opened p (Elements.node m own k hidden els e) Nodes.done d a = absurd a
toggle_node-Outcome opened p (Elements.node m own k hidden els e) (Nodes.leaf n f) d a = absurd a
toggle_node-Outcome opened itself (Elements.node m own k true els e) (Nodes.node n kids f)
      (wk, wf, apart, dk, df) (i, o, t, h, inner, a) =
    subst (HereAt opened k true els e (Nodes.node n kids f))
      (ap₂ (λ (m : Label) (own : Nodes). (m, own)) (sym i) (sym o))
      (Outcome-unfolded opened n kids f k els e wk wf t inner a)
toggle_node-Outcome opened itself (Elements.node m own k false els e) (Nodes.node n kids f)
      (wk, wf, apart, dk, df) (i, o, t, h, inner, a) =
    subst (HereAt opened k false els e (Nodes.node n kids f))
      (ap₂ (λ (m : Label) (own : Nodes). (m, own)) (sym i) (sym o))
      (Outcome-folded opened n kids f k els e wk wf t inner a)
toggle_node-Outcome opened (beside p) (Elements.node m own k hidden els e) (Nodes.node n kids f)
      (wk, wf, apart, dk, df) (i, o, t, h, inner, a) =
    elim (toggle_node-Outcome opened p e f df a) [
      | inl (same, still) ↦ inl (ap (Elements.node m own k hidden els) same, still)
      | inr c ↦ inr (record {
        of_key = c.of_key;
        only = c.only;
        elsewhere = λ g w. c.elsewhere g w.2;
        differs = λ j w. c.differs j w.2;
        agrees =
            let there = c.only (key n) (c.differs (key n) wf) in
            (
              i,
              o,
              rw there t,
              rw there h,
              elim inner [
                | inl unbuilt ↦ inl unbuilt
                | inr built ↦ inr (
                    Agrees-but c.of_key opened _ els kids c.only
                      (c.elsewhere kids (Apart-sym kids f apart)) built)
              ],
              c.agrees,
            );
      })
    ]
toggle_node-Outcome opened (inside p) (Elements.node m own k hidden els e) (Nodes.node n kids f)
      (wk, wf, apart, dk, df) (i, o, t, h, inner, a) =
    elim inner [
      | inl (unbuilt, hid) ↦ inl (
        subst
            (λ (x : Elements).
              Elements.node m own k hidden (toggle_node opened p x).0 e
              ≡ Elements.node m own k hidden x e)
            (sym unbuilt)
            (ap (λ (x : Elements × List Text). Elements.node m own k hidden x.0 e)
              (toggle_node-done opened p)),
        ap (λ (x : Elements). (toggle_node opened p x).1) unbuilt
            ∙ ap (λ (x : Elements × List Text). x.1) (toggle_node-done opened p),
      )
      | inr built ↦ elim (toggle_node-Outcome opened p els kids dk built) [
        | inl (same, still) ↦
            inl (ap (λ (x : Elements). Elements.node m own k hidden x e) same, still)
        | inr c ↦ inr (record {
          of_key = c.of_key;
          only = c.only;
          elsewhere = λ g w. c.elsewhere g w.1;
          differs = λ j w. c.differs j w.1;
          agrees =
              let there = c.only (key n) (c.differs (key n) wk) in
              (
                i,
                o,
                rw there t,
                rw there h,
                inr c.agrees,
                Agrees-but c.of_key opened _ e f c.only (c.elsewhere f apart) a,
              );
        })
      ]
    ]
