-- ===== src/Filter/Laws.antt =====
-- What becomes of a filter that is sent.
use webshark.Prelude.{
  ℕ, Text, ◌≡◌, refl, sym, ap, ◌∙◌, ◌⊎◌, inl, inr, Bool, false, List, [], ◌∷◌, drop, ◌==◌, text_eq,
  Bool-cases,
}
use webshark.Filter.{Checked, passes, fails, used, refused, Value, quoted_from, requote, compile}

quoted_nothing :
    (lower : Text → Text) (takes : Text → Bool) (text : Text) (end : ℕ) (vs : List Value)
    → ((field : Text) → takes field ≡ false)
    → quoted_from lower takes text end vs ≡ drop end text
unfolding quoted_from
quoted_nothing lower takes text end [] none_takes = refl
quoted_nothing lower takes text end (v ∷ vs) none_takes =
    rw (none_takes v.field, quoted_from) (quoted_nothing lower takes text end vs none_takes)

-- Where no field takes a string, the rewriting is the text as it was typed.
pub requote_nothing :
    (lower : Text → Text) (takes : Text → Bool) (text : Text)
    → ((field : Text) → takes field ≡ false)
    → requote lower takes text ≡ text
unfolding requote
requote_nothing lower takes text none_takes = quoted_nothing lower takes text 0 _ none_takes

module _ (lower : Text → Text) (takes : Text → Bool) (check : Text → Checked) where
  Checked-cases : (c : Checked) → (c ≡ passes) ⊎ ((err : Text) × (c ≡ fails err))
  Checked-cases passes = inl refl
  Checked-cases (fails err) = inr (err, refl)

  -- A filter that is used is one that the server passes: the one typed, or its rewriting, and that
  -- only where the one typed is rejected.
  pub compile_used :
      (text t : Text)
      → compile lower takes check text ≡ used t
      → (check t ≡ passes)
        × ((t ≡ text)
            ⊎ ((t ≡ requote lower takes text) × ((err : Text) × (check text ≡ fails err))))
  unfolding compile
  compile_used text t h = elim (Checked-cases (check text)) [
    | inl ok ↦
        let same : text ≡ t = cc (rw (ok, compile) at h) in
        (ap check (sym same) ∙ ok, inl (sym same))
    | inr (err, bad) ↦ elim (Bool-cases (requote lower takes text == text)) [
      | inl plain ↦ absurd (cc (rw (bad, plain, compile) at h))
      | inr fixed ↦ elim (Checked-cases (check (requote lower takes text))) [
        | inl ok ↦
            let same : requote lower takes text ≡ t = cc (rw (bad, fixed, ok, compile) at h) in
            (ap check (sym same) ∙ ok, inr (sym same, (err, bad)))
        | inr (other, worse) ↦ absurd (cc (rw (bad, fixed, worse, compile) at h))
      ]
    ]
  ]

  -- A filter that is refused is refused as it was typed, with the error that it earned itself.
  pub compile_refused :
      (text t err : Text)
      → compile lower takes check text ≡ refused t err
      → (t ≡ text) × (check text ≡ fails err)
  unfolding compile
  compile_refused text t err h = elim (Checked-cases (check text)) [
    | inl ok ↦ absurd (cc (rw (ok, compile) at h))
    | inr (own, bad) ↦ elim (Bool-cases (requote lower takes text == text)) [
      | inl plain ↦
          let e : refused text own ≡ refused t err = rw (bad, plain, compile) at h in
          (cc e, bad ∙ ap fails (cc e))
      | inr fixed ↦ elim (Checked-cases (check (requote lower takes text))) [
        | inl ok ↦ absurd (cc (rw (bad, fixed, ok, compile) at h))
        | inr (other, worse) ↦
            let e : refused text own ≡ refused t err = rw (bad, fixed, worse, compile) at h in
            (cc e, bad ∙ ap fails (cc e))
      ]
    ]
  ]
