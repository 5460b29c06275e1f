-- ===== src/Operator/Polling/Folds.antt =====
-- What a reader said of a card of operator/internal/ui/web/app.js is kept while the list is painted
-- again and again, and what is kept of a capture that has gone.
use webshark.Prelude.{
  ℕ, Text, ◌≡◌, ◌≢◌, refl, sym, ap, ◌∙◌, inl, inr, Bool, true, false, Option, none, some, List, [],
  ◌∷◌, map, ◌==◌, text_eq, if◌then◌else◌, arith, contains, Bool-cases, get, get-put_self, get-put,
  beq_refl,
}
use webshark.Operator.Pods.{Locale}
use webshark.Operator.Pods.Ticks.{Made, made, failed}
use webshark.Operator.Cards.{Webshark}
use webshark.Operator.Cards.Painted.{
  PacketCapture, Card, capture_key, card, drop_gone, paint_captures,
}
use webshark.Operator.Polling.{
  Asked, Lists, Board, refresh, painted, landed, typed, lost, timer, choose_namespace,
  choose_webshark, act, submitted, fold_card, fold,
}

get-drop_gone :
    (live : List Text) (folds : List (Text × Bool)) (key : Text)
    → get (drop_gone live folds) key ≡ (if contains live key then get folds key else none)
unfolding drop_gone
get-drop_gone live [] key = ground arith
get-drop_gone live ((k, said) ∷ folds) key = elim (Bool-cases (k == key)) [
  | inl same ↦
      let e = (text_eq.decides k key).0 same in
      elim (Bool-cases (contains live k)) [
        | inl there ↦ rw (there, same, ap (contains live) (sym e) ∙ there) refl
        | inr gone ↦
            rw (gone, same)
              (get-drop_gone live folds key ∙ rw (ap (contains live) (sym e) ∙ gone) refl)
      ]
  | inr other ↦ elim (Bool-cases (contains live k)) [
    | inl there ↦ rw (there, other) (get-drop_gone live folds key)
    | inr gone ↦ rw (gone, other) (get-drop_gone live folds key)
  ]
]

-- Every card of the key is as it was said to be.
pub Shows : Text → Bool → List Card → Type 0
Shows key said [] = Unit
Shows key said (c ∷ cs) = (c.key ≡ key → c.opened ≡ said) × Shows key said cs

Shows-fold :
    (key : Text) (said : Bool) (cards : List Card) → Shows key said (map (fold_card key said) cards)
unfolding Shows
Shows-fold key said [] = tt
Shows-fold key said (c ∷ cs) =
    (λ e. rw ((text_eq.decides c.key key).1 e) refl, Shows-fold key said cs)

Shows-fold_other :
    (key other : Text) (said b : Bool) (cards : List Card)
    → other ≢ key
    → Shows key said cards
    → Shows key said (map (fold_card other b) cards)
unfolding Shows
Shows-fold_other key other said b [] apart s = tt
Shows-fold_other key other said b (c ∷ cs) apart (s, ss) = (
  λ e. (elim (Bool-cases (c.key == other)) [
    | inl same ↦ absurd (apart (sym ((text_eq.decides c.key other).0 same) ∙ e))
    | inr o ↦ rw o (s e)
  ]),
  Shows-fold_other key other said b cs apart ss,
)

module _ (encode : Text → Text) where
  Shows-card :
      (ws : List Webshark) (now : ℕ) (folds : List (Text × Bool)) (key : Text) (said : Bool)
      (cs : List PacketCapture)
      → get folds key ≡ some said
      → Shows key said (map (card encode ws now folds) cs)
  unfolding Shows card
  Shows-card ws now folds key said [] h = tt
  Shows-card ws now folds key said (c ∷ cs) h =
      (λ e. rw (e, h) refl, Shows-card ws now folds key said cs h)

  paint_captures-keeps :
      (ws : List Webshark) (now : ℕ) (folds : List (Text × Bool)) (cs : List PacketCapture)
      (key : Text) (said : Bool)
      → contains (map capture_key cs) key ≡ true
      → get folds key ≡ some said
      → (get (paint_captures encode ws now folds cs).0 key ≡ some said)
        × Shows key said (paint_captures encode ws now folds cs).1
  unfolding paint_captures
  paint_captures-keeps ws now folds [] key said there h = absurd (cc)
  paint_captures-keeps ws now folds (c ∷ cs) key said there h =
      let kept : get (drop_gone (map capture_key (c ∷ cs)) folds) key ≡ some said =
        get-drop_gone (map capture_key (c ∷ cs)) folds key ∙ rw there h in
      (kept, Shows-card ws now (drop_gone (map capture_key (c ∷ cs)) folds) key said (c ∷ cs) kept)

  -- A list that has captures, and not this one, takes what was said of it away; an empty list does
  -- not, and the next capture of that name wears it.
  pub fold_inherited :
      (ws : List Webshark) (now later : ℕ) (folds : List (Text × Bool)) (d : PacketCapture)
      (ds : List PacketCapture) (c : PacketCapture) (cs : List PacketCapture) (said : Bool)
      → contains (map capture_key (d ∷ ds)) (capture_key c) ≡ false
      → get folds (capture_key c) ≡ some said
      → (get (paint_captures encode ws now folds (d ∷ ds)).0 (capture_key c) ≡ none)
        × Shows
            (capture_key c)
            said
            (paint_captures encode ws later (paint_captures encode ws now folds []).0 (c ∷ cs)).1
  unfolding paint_captures
  fold_inherited ws now later folds d ds c cs said gone h = (
    get-drop_gone (map capture_key (d ∷ ds)) folds (capture_key c) ∙ rw gone refl,
    (paint_captures-keeps ws later folds (c ∷ cs) (capture_key c) said
        (rw (beq_refl (capture_key c)) refl) h).1,
  )

-- What happens while a capture is listed and its card is left alone: a refresh of any time comes in
-- with the capture in its list, and anything else. A card that is painted open says so again, since
-- the browser tells of a `details` that is made open.
module _ (locale : Locale) (encode : Text → Text) (key : Text) (said : Bool) where
  pub data Spared : Board → Board → Type 0 where
    lands :
        (now : ℕ) (a : Asked) (lists : Lists) (b : Board)
        → contains (map capture_key lists.captures) key ≡ true
        → Spared b (landed locale encode now a lists b)
    loses : (a : Asked) (b : Board) → Spared b (lost a b)
    asks : (b : Board) → Spared b (refresh b)
    types : (text : Text) (b : Board) → Spared b (typed locale encode text b)
    fires : (b : Board) → Spared b (timer b)
    moves : (ns : Text) (b : Board) → Spared b (choose_namespace ns b)
    chooses : (webshark : Text) (b : Board) → Spared b (choose_webshark webshark b)
    acts : (answer : Option Text) (b : Board) → Spared b (act answer b)
    submits : (answer : Made) (b : Board) → Spared b (submitted answer b)
    folds : (other : Text) (it : Bool) (b : Board) → other ≢ key → Spared b (fold other it b)
    repeats : (b : Board) → Spared b (fold key said b)

  pub data Sparing : Board → Board → Type 0 where
    here : {b : Board} → Sparing b b
    next : {a b c : Board} → Sparing a b → Spared b c → Sparing a c

  abbrev Kept : Board → Type 0
  Kept b = (get b.folds key ≡ some said) × Shows key said b.cards

  Spared-Kept : {b c : Board} → Spared b c → Kept b → Kept c
  unfolding landed painted lost refresh typed timer choose_namespace choose_webshark act submitted
      fold
  Spared-Kept (Spared.lands now a lists b there) (h, s) =
      paint_captures-keeps encode lists.websharks now b.folds lists.captures key said there h
  Spared-Kept (Spared.loses a b) k = k
  Spared-Kept (Spared.asks b) k = k
  Spared-Kept (Spared.types text b) k = k
  Spared-Kept (Spared.fires b) k = k
  Spared-Kept (Spared.moves ns b) k = k
  Spared-Kept (Spared.chooses w b) k = k
  Spared-Kept (Spared.acts none b) k = k
  Spared-Kept (Spared.acts (some message) b) k = k
  Spared-Kept (Spared.submits (made name) b) k = k
  Spared-Kept (Spared.submits (failed message) b) k = k
  Spared-Kept (Spared.folds other it b apart) (h, s) = (
    get-put b.folds other key it ∙ ground (arith, text_eq.decides other key, h),
    Shows-fold_other key other said it b.cards apart s,
  )
  Spared-Kept (Spared.repeats b) k = (get-put_self b.folds key said, Shows-fold key said b.cards)

  Sparing-Kept : {b c : Board} → Sparing b c → Kept b → Kept c
  Sparing-Kept Sparing.here k = k
  Sparing-Kept (Sparing.next run step) k = Spared-Kept step (Sparing-Kept run k)

  -- What a reader says of a card is what it shows from then on, whatever refreshes come in, in any
  -- order, and whatever else is done, as long as the capture is in each list that comes in and its
  -- card is not said the other way; and the answer is kept for the next paint.
  pub fold_kept :
      (b : Board) {c : Board}
      → Sparing (fold key said b) c
      → (get c.folds key ≡ some said) × Shows key said c.cards
  unfolding fold
  fold_kept b run = Sparing-Kept run (get-put_self b.folds key said, Shows-fold key said b.cards)
