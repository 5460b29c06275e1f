-- ===== src/Captures/Search/Verdicts.antt =====
-- What the protocols of a capture, when they arrive, can change of its verdict.
use webshark.Prelude.{
  Text, ◌≡◌, refl, ap, ap₂, ◌&&◌, true, is_empty, is_none, if◌then◌else◌, ◌∙◌, ◌≢◌, Bool, Option,
  none, some, List, [], ◌∷◌, arith,
}
use webshark.Captures.Moments.{Browser, Span}
use webshark.Captures.Search.{
  Capture, Facet, any, name, proto, time, Op, bare, Term, term, Verdict, hit, miss, maybe, matches,
  judged, is_bare, word_answer, within, captured, overlaps,
}

-- One round of the loop, by what is known of the term's answer and of the other rounds.
judged_stable :
    (neg : Bool) (o o' : Option Bool) (r r' : Verdict)
    → ((x : Bool) → o ≡ some x → o' ≡ some x)
    → o' ≢ none
    → (r ≡ hit → r' ≡ hit)
    → (r ≡ miss → r' ≡ miss)
    → r' ≢ maybe
    → (judged neg o r ≡ hit → judged neg o' r' ≡ hit)
      × (judged neg o r ≡ miss → judged neg o' r' ≡ miss)
      × (judged neg o' r' ≢ maybe)
judged_stable neg none none r r' h k hits misses sure = absurd (k refl)
judged_stable neg none (some y) r r' h k hits misses sure =
    (λ e. ground arith, λ e. ground arith, λ e. ground arith)
judged_stable neg (some x) o' r r' h k hits misses sure =
    rw (h x refl) (λ e. ground arith, λ e. ground arith, λ e. ground arith)

module _ (b : Browser) (c : Capture) (ps : List Text) (unread : c.protos ≡ none) where
  abbrev pub read : Capture
  read = record c { protos = some ps }

  captured-read : captured b read ≡ captured b c
  unfolding captured
  captured-read = refl

  within-read : (op : Op) (at : Option Span) → within read op at ≡ within c op at
  unfolding overlaps
  within-read op none = refl
  within-read op (some at) = refl

  word_answer_stable :
      (f : Facet) (w : Text) (at : Option Span) (x : Bool)
      → word_answer b c f w at ≡ some x
      → word_answer b read f w at ≡ some x
  word_answer_stable name w at x h = h
  word_answer_stable proto w at x h = absurd (cc)
  word_answer_stable time w at x h = ap some (within-read bare at) ∙ h
  word_answer_stable any w at x h = ground (arith, captured-read, within-read bare at)

  -- An answer that did not wait for the protocols is the answer when they have arrived.
  term_stable : (t : Term) (x : Bool) → term b c t ≡ some x → term b read t ≡ some x
  unfolding term
  term_stable t x h =
      ground (arith, within-read t.op t.at, word_answer_stable t.facet t.word t.at x)

  word_answer-ne-none : (f : Facet) (w : Text) (at : Option Span) → word_answer b read f w at ≢ none
  word_answer-ne-none name w at = cc
  word_answer-ne-none proto w at = cc
  word_answer-ne-none time w at = cc
  word_answer-ne-none any w at = ground arith

  term-ne-none : (t : Term) → term b read t ≢ none
  unfolding term
  term-ne-none t = ground (arith, word_answer-ne-none t.facet t.word t.at)

  matches_stable_parts :
      (ts : List Term)
      → (matches b c ts ≡ hit → matches b read ts ≡ hit)
        × (matches b c ts ≡ miss → matches b read ts ≡ miss)
        × (matches b read ts ≢ maybe)
  unfolding matches
  matches_stable_parts [] = (λ h. refl, λ h. absurd (cc), cc)
  matches_stable_parts (t ∷ ts) =
      let (hits, misses, sure) = matches_stable_parts ts in
      judged_stable t.neg (term b c t) (term b read t) (matches b c ts) (matches b read ts)
        (term_stable t) (term-ne-none t) hits misses sure

  -- A verdict given while the protocols are still being read is kept when they have been, whatever
  -- they turn out to be: a row that is shown for sure stays, one that is hidden stays hidden.
  pub matches_stable :
      (ts : List Term) (v : Verdict) → v ≢ maybe → matches b c ts ≡ v → matches b read ts ≡ v
  matches_stable ts hit sure h = (matches_stable_parts ts).0 h
  matches_stable ts miss sure h = (matches_stable_parts ts).1 h
  matches_stable ts maybe sure h = absurd (sure refl)

  -- Once the protocols have been read no row is left unsure.
  pub matches-ne-maybe : (ts : List Term) → matches b read ts ≢ maybe
  matches-ne-maybe ts = (matches_stable_parts ts).2

-- That the protocols are those of the first frames only changes no verdict.
module _ (b : Browser) (c : Capture) (p : Bool) where
  within-partial :
      (op : Op) (at : Option Span) → within (record c { partial = p }) op at ≡ within c op at
  unfolding overlaps
  within-partial op none = refl
  within-partial op (some at) = refl

  word_answer-partial :
      (f : Facet) (w : Text) (at : Option Span)
      → word_answer b (record c { partial = p }) f w at ≡ word_answer b c f w at
  unfolding captured overlaps
  word_answer-partial name w at = refl
  word_answer-partial proto w at = refl
  word_answer-partial time w none = refl
  word_answer-partial time w (some at) = refl
  word_answer-partial any w none = refl
  word_answer-partial any w (some at) = refl

  term-partial : (t : Term) → term b (record c { partial = p }) t ≡ term b c t
  unfolding term
  term-partial t =
      ap₂
        (λ x y.
          if is_empty t.word && is_none t.at then some true else if is_bare t.op then x else some y)
        (word_answer-partial t.facet t.word t.at) (within-partial t.op t.at)

  pub matches-partial : (ts : List Term) → matches b (record c { partial = p }) ts ≡ matches b c ts
  unfolding matches
  matches-partial [] = refl
  matches-partial (t ∷ ts) = ap₂ (judged t.neg) (term-partial t) (matches-partial ts)
