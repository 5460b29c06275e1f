-- ===== src/Operator/Polling/Settled.antt =====
-- What the list of pods is worth while refreshes are out, the search is typed in and the namespace
-- is changed: runs of the events of operator/internal/ui/web/app.js over a cluster whose pods stay.
use mathlib.Core.Bool.{true≢false}
use webshark.Prelude.{
  ℕ, Text, ◌≡◌, ◌≢◌, refl, sym, ap, subst, ◌∙◌, ◌⊎◌, inl, inr, Bool, true, false, Option, none,
  some, List, [], ◌∷◌, ◌++◌, ◌==◌, beq_refl, text_eq, if◌then◌else◌, Bool-cases, trim_space,
  contains,
}
use webshark.Operator.Pods.{Pod, Shown, Locale, selector, search}
use webshark.Operator.Pods.Ticks.{
  Made, made, failed, started, tick_pod, change_all, paint_pods, type_query, change_namespace,
}
use webshark.Operator.Polling.{
  Asked, Lists, Board, asked_now, refresh, forget_refresh, painted, landed, typed, lost, timer,
  choose_namespace, choose_webshark, load, act, submitted, fold,
}

forget_first : (a : Asked) (rest : List Asked) → forget_refresh a (a ∷ rest) ≡ rest
unfolding forget_refresh
forget_first a rest = rw (beq_refl a.namespace, beq_refl a.selector) refl

module _ (locale : Locale) (encode : Text → Text) (pods_of : Text → Text → List Pod) where
  -- The oldest refresh that is out is the one that comes in, and none is lost unless another is
  -- behind it. A search is typed while none is out, or asks for the selector that it asked for.
  pub data Step : Board → Board → Type 0 where
    polls : (b : Board) → Step b (refresh b)
    lands :
        (now : ℕ) (a : Asked) (rest : List Asked) (lists : Lists) (b : Board)
        → b.out ≡ a ∷ rest
        → lists.pods ≡ pods_of a.namespace a.selector
        → Step b (landed locale encode now a lists b)
    loses : (a n : Asked) (rest : List Asked) (b : Board) → b.out ≡ a ∷ n ∷ rest → Step b (lost a b)
    types :
        (text : Text) (b : Board)
        → (b.out ≡ []) ⊎ (selector (trim_space text) ≡ selector b.desk.query)
        → Step b (typed locale encode text b)
    fires : (b : Board) → Step b (timer b)
    moves : (ns : Text) (b : Board) → Step b (choose_namespace ns b)
    chooses : (key : Text) (b : Board) → Step b (choose_webshark key b)
    acts : (answer : Option Text) (b : Board) → Step b (act answer b)
    submits : (answer : Made) (b : Board) → Step b (submitted answer b)
    ticks :
        (key : Text) (checked : Bool) (b : Board)
        → Step b (record b { desk = tick_pod key checked b.desk })
    ticks_all :
        (checked : Bool) (b : Board) → Step b (record b { desk = change_all locale checked b.desk })
    folds : (key : Text) (said : Bool) (b : Board) → Step b (fold key said b)

  pub data Reach : Board → Board → Type 0 where
    here : {b : Board} → Reach b b
    next : {a b c : Board} → Reach a b → Step b c → Reach a c

  -- The pods are those of the namespace and the selector, and what is shown is what the search
  -- leaves of them; or the youngest refresh that is out was asked for with these.
  Due : Text → Text → List Pod → List Shown → Text → List Asked → Type 0
  Due ns query pods shown listed [] =
      (listed ≡ selector query)
      × (pods ≡ pods_of ns (selector query))
      × (shown ≡ search locale query ns pods)
  Due ns query pods shown listed (a ∷ []) = a ≡ record { namespace = ns; selector = selector query }
  Due ns query pods shown listed (a ∷ n ∷ rest) = Due ns query pods shown listed (n ∷ rest)

  abbrev IsDue : Board → Type 0
  IsDue b = Due b.desk.ns b.desk.query b.desk.pods b.desk.shown b.listed b.out

  abbrev Awaits : Board → Type 0
  Awaits b = (b.typing ≡ true) ⊎ IsDue b

  Due-refresh :
      (ns query : Text) (pods : List Pod) (shown : List Shown) (listed : Text) (out : List Asked)
      → Due ns query pods shown listed
          (out ++ record { namespace = ns; selector = selector query } ∷ [])
  unfolding Due
  Due-refresh ns query pods shown listed [] = refl
  Due-refresh ns query pods shown listed (a ∷ []) = refl
  Due-refresh ns query pods shown listed (a ∷ n ∷ rest) =
      Due-refresh ns query pods shown listed (n ∷ rest)

  IsDue-refresh : (b : Board) → IsDue (refresh b)
  unfolding refresh asked_now
  IsDue-refresh b = Due-refresh b.desk.ns b.desk.query b.desk.pods b.desk.shown b.listed b.out

  -- Only the selector of the query counts while one is out.
  Due-query :
      (ns query other : Text) (pods : List Pod) (shown : List Shown) (listed : Text)
      (out : List Asked)
      → selector other ≡ selector query
      → Due ns query pods shown listed out
      → Due ns other pods (search locale other ns pods) listed out
  unfolding Due
  Due-query ns query other pods shown listed [] e (l, p, s) =
      (l ∙ sym e, p ∙ ap (pods_of ns) (sym e), refl)
  Due-query ns query other pods shown listed (a ∷ []) e d =
      d ∙ ap (λ (s : Text). record { namespace = ns; selector = s }) (sym e)
  Due-query ns query other pods shown listed (a ∷ n ∷ rest) e d =
      Due-query ns query other pods shown listed (n ∷ rest) e d

  Due-out :
      (ns query : Text) (pods pods' : List Pod) (shown shown' : List Shown) (listed listed' : Text)
      (n : Asked) (rest : List Asked)
      → Due ns query pods shown listed (n ∷ rest)
      → Due ns query pods' shown' listed' (n ∷ rest)
  unfolding Due
  Due-out ns query pods pods' shown shown' listed listed' n [] d = d
  Due-out ns query pods pods' shown shown' listed listed' n (m ∷ rest) d =
      Due-out ns query pods pods' shown shown' listed listed' m rest d

  Due-landed :
      (ns query : Text) (pods old : List Pod) (shown : List Shown) (listed : Text) (a : Asked)
      (rest : List Asked)
      → pods ≡ pods_of a.namespace a.selector
      → Due ns query old shown listed (a ∷ rest)
      → Due ns query pods (search locale query ns pods) a.selector rest
  unfolding Due
  Due-landed ns query pods old shown listed a [] p d = (
    ap (λ (x : Asked). x.selector) d,
    p ∙ ap (λ (x : Asked). pods_of x.namespace x.selector) d,
    refl,
  )
  Due-landed ns query pods old shown listed a (n ∷ rest) p d =
      Due-out ns query old pods shown (search locale query ns pods) listed a.selector n rest d

  Awaits-landed :
      (now : ℕ) (a : Asked) (rest : List Asked) (lists : Lists) (b : Board)
      → b.out ≡ a ∷ rest
      → lists.pods ≡ pods_of a.namespace a.selector
      → Awaits b
      → Awaits (landed locale encode now a lists b)
  unfolding landed painted paint_pods
  Awaits-landed now a rest lists b out p (inl t) = inl t
  Awaits-landed now a rest lists b out p (inr d) = inr (
      subst
        (Due b.desk.ns b.desk.query lists.pods (search locale b.desk.query b.desk.ns lists.pods)
          a.selector)
        (sym (ap (forget_refresh a) out ∙ forget_first a rest))
        (Due-landed b.desk.ns b.desk.query lists.pods b.desk.pods b.desk.shown b.listed a rest p
          (subst (Due b.desk.ns b.desk.query b.desk.pods b.desk.shown b.listed) out d)))

  Awaits-lost :
      (a n : Asked) (rest : List Asked) (b : Board)
      → b.out ≡ a ∷ n ∷ rest
      → Awaits b
      → Awaits (lost a b)
  unfolding lost Due
  Awaits-lost a n rest b out (inl t) = inl t
  Awaits-lost a n rest b out (inr d) = inr (
      subst (Due b.desk.ns b.desk.query b.desk.pods b.desk.shown b.listed)
        (sym (ap (forget_refresh a) out ∙ forget_first a (n ∷ rest)))
        (subst (Due b.desk.ns b.desk.query b.desk.pods b.desk.shown b.listed) out d))

  -- A search that is typed while none is out asks for what is listed, or starts the timer.
  Awaits-typed_idle :
      (text : Text) (b : Board) → b.out ≡ [] → Awaits b → Awaits (typed locale encode text b)
  unfolding typed type_query paint_pods Due
  Awaits-typed_idle text b out w = elim (Bool-cases (selector (trim_space text) == b.listed)) [
    | inl same ↦ elim w [
      | inl t ↦ inl (rw same t)
      | inr d ↦
          let (l, p, s) =
            subst (Due b.desk.ns b.desk.query b.desk.pods b.desk.shown b.listed) out d in
          let e = (text_eq.decides (selector (trim_space text)) b.listed).0 same in
          inr (
            subst
              (Due b.desk.ns (trim_space text) b.desk.pods
                (search locale (trim_space text) b.desk.ns b.desk.pods) b.listed)
              (sym out) (sym e, p ∙ ap (pods_of b.desk.ns) (sym l ∙ sym e), refl))
    ]
    | inr other ↦ inl (rw other refl)
  ]

  Awaits-typed_same :
      (text : Text) (b : Board)
      → selector (trim_space text) ≡ selector b.desk.query
      → Awaits b
      → Awaits (typed locale encode text b)
  unfolding typed type_query paint_pods
  Awaits-typed_same text b e (inl t) =
      inl (elim (Bool-cases (selector (trim_space text) == b.listed)) [
        | inl same ↦ rw same t
        | inr other ↦ rw other refl
      ])
  Awaits-typed_same text b e (inr d) = inr (
      Due-query b.desk.ns b.desk.query (trim_space text) b.desk.pods b.desk.shown b.listed b.out e
        d)

  Step-Awaits : {b c : Board} → Step b c → Awaits b → Awaits c
  unfolding timer choose_namespace change_namespace choose_webshark act submitted started tick_pod
      change_all paint_pods fold
  Step-Awaits (Step.polls b) w = inr (IsDue-refresh b)
  Step-Awaits (Step.lands now a rest lists b out p) w = Awaits-landed now a rest lists b out p w
  Step-Awaits (Step.loses a n rest b out) w = Awaits-lost a n rest b out w
  Step-Awaits (Step.types text b (inl out)) w = Awaits-typed_idle text b out w
  Step-Awaits (Step.types text b (inr e)) w = Awaits-typed_same text b e w
  Step-Awaits (Step.fires b) w = inr (IsDue-refresh (record b { typing = false }))
  Step-Awaits (Step.moves ns b) w =
      inr (IsDue-refresh (record b { desk = change_namespace ns b.desk }))
  Step-Awaits (Step.chooses key b) w = w
  Step-Awaits (Step.acts none b) w = inr (IsDue-refresh b)
  Step-Awaits (Step.acts (some message) b) w = w
  Step-Awaits (Step.submits (made name) b) w =
      inr (IsDue-refresh (record b { desk = started (made name) b.desk }))
  Step-Awaits (Step.submits (failed message) b) w = w
  Step-Awaits (Step.ticks key checked b) w = w
  Step-Awaits (Step.ticks_all checked b) (inl t) = inl t
  Step-Awaits (Step.ticks_all checked b) (inr d) =
      inr (
        Due-query b.desk.ns b.desk.query b.desk.query b.desk.pods b.desk.shown b.listed b.out refl
          d)
  Step-Awaits (Step.folds key said b) w = w

  Reach-Awaits : {b c : Board} → Reach b c → Awaits b → Awaits c
  Reach-Awaits Reach.here w = w
  Reach-Awaits (Reach.next run step) w = Step-Awaits step (Reach-Awaits run w)

  -- Over a cluster whose pods stay as they are, from the load of the page on, whatever is typed,
  -- chosen, ticked, started, folded and polled, where the refreshes come in in their order, the
  -- youngest is not lost, and no other selector is typed while one is out: once none is out and the
  -- timer does not run, the pods are those of the namespace and the selector in force, and those
  -- shown are what the search leaves of them.
  pub lists_settled :
      (namespaces : List Text) (b : Board) {c : Board}
      → Reach (load namespaces b) c
      → c.out ≡ []
      → c.typing ≡ false
      → (c.desk.pods ≡ pods_of c.desk.ns (selector c.desk.query))
        × (c.desk.shown ≡ search locale c.desk.query c.desk.ns c.desk.pods)
  unfolding load Due
  lists_settled namespaces b {c} run out still =
      elim (Reach-Awaits run (
        inr (
          IsDue-refresh (record b {
            desk = record b.desk { ns = if contains namespaces b.desk.ns then b.desk.ns else [] };
          })))) [
            | inl t ↦ absurd (true≢false (sym t ∙ still))
            | inr d ↦
                let (l, p, s) =
                  subst (Due c.desk.ns c.desk.query c.desk.pods c.desk.shown c.listed) out d in
                (p, s)
          ]

  -- Where the only refresh that is out was asked for with another selector than the one listed,
  -- and the search is typed back to the one listed, its answer leaves the pods of the other selector
  -- in the list, with no refresh out and no timer to ask for one.
  pub selector_restored :
      (now : ℕ) (text : Text) (a : Asked) (lists : Lists) (b : Board)
      → b.out ≡ a ∷ []
      → b.typing ≡ false
      → a.selector ≢ b.listed
      → selector (trim_space text) ≡ b.listed
      → lists.pods ≡ pods_of a.namespace a.selector
      → let c = landed locale encode now a lists (typed locale encode text b) in
        (c.out ≡ [])
        × (c.typing ≡ false)
        × (selector c.desk.query ≢ a.selector)
        × (c.desk.pods ≡ pods_of a.namespace a.selector)
  unfolding landed painted typed type_query paint_pods
  selector_restored now text a lists b out still other back pods = (
    ap (forget_refresh a) out ∙ forget_first a [],
    rw ((text_eq.decides (selector (trim_space text)) b.listed).1 back) still,
    λ e. other (sym e ∙ back),
    pods,
  )
