-- ===== src/Hide/Laws.antt =====
-- Which field of a dissection stands for an address, and what the filter made of it says.
use webshark.Prelude.{
  is_empty, zero, suc, ◌+◌, Text, codes, ◌≡◌, refl, ◌⊎◌, inl, inr, Bool, true, false, not, ◌&&◌,
  ◌||◌, Option, none, some, ◌==◌, text_eq, arith, index_of, take, drop, Bool-cases, Option-cases,
  if◌then◌else◌, subst,
}
use webshark.Hide.{
  Node, node, Forest, none_left, then_node, Hit, looks_addr, shows, held, first_hit, holder_in,
  holder, addr_term, either_term, is_value, ends,
}

-- A node with this filter and this label is in the dissection, at any depth.
mutual
  pub data Within : Node → Text → Text → Type 0 where
    itself : {f label : Text} {kids : Forest} → Within (node f label kids) f label
    under :
        {f label g sub : Text} {kids : Forest} → Among kids g sub → Within (node f label kids) g sub

  pub data Among : Forest → Text → Text → Type 0 where
    first :
        {n : Node} {ns : Forest} {f label : Text}
        → Within n f label
        → Among (then_node n ns) f label
    later :
        {n : Node} {ns : Forest} {f label : Text}
        → Among ns f label
        → Among (then_node n ns) f label

first_hit-cases :
    (a b : Option Hit) (h : Hit) → first_hit a b ≡ some h → (a ≡ some h) ⊎ (b ≡ some h)
first_hit-cases none b h e = inr e
first_hit-cases (some a) b h e = inl e

mutual
  unfolding holder_in holder

  holder_in-Within :
      (n : Node) (addr : Text) (h : Hit)
      → holder_in n addr ≡ some h
      → (f : Text) × (label : Text) × Within n f label × (held f label addr ≡ some h)
  holder_in-Within (node f label kids) addr h e =
      elim (first_hit-cases (held f label addr) (holder kids addr) h e) [
        | inl here ↦ (f, label, Within.itself, here)
        | inr below ↦
            let (g, sub, among, is) = holder-Among kids addr h below in
            (g, sub, Within.under among, is)
      ]

  holder-Among :
      (ns : Forest) (addr : Text) (h : Hit)
      → holder ns addr ≡ some h
      → (f : Text) × (label : Text) × Among ns f label × (held f label addr ≡ some h)
  holder-Among none_left addr h e = absurd (cc)
  holder-Among (then_node n ns) addr h e =
      elim (first_hit-cases (holder_in n addr) (holder ns addr) h e) [
        | inl here ↦
            let (f, label, within, is) = holder_in-Within n addr h here in
            (f, label, Among.first within, is)
        | inr after ↦
            let (f, label, among, is) = holder-Among ns addr h after in
            (f, label, Among.later among, is)
      ]

both_true : (a b : Bool) → (a && b) ≡ true → (a ≡ true) × (b ≡ true)
both_true true b h = (refl, h)
both_true false b h = absurd (cc)

held_at :
    (label addr name value : Text) (h : Hit)
    → (if looks_addr value && (value == addr || shows label addr)
        then some (record { name = name; value = value })
        else none)
      ≡ some h
    → (looks_addr h.value ≡ true) × ((h.value == addr || shows label addr) ≡ true)
held_at label addr name value h e =
    elim (Bool-cases (looks_addr value && (value == addr || shows label addr))) [
      | inl ok ↦
          let same : value ≡ h.value = cc (rw ok at e) in
          subst (λ v. (looks_addr v ≡ true) × ((v == addr || shows label addr) ≡ true)) same
            (both_true (looks_addr value) (value == addr || shows label addr) ok)
      | inr bad ↦ absurd (cc (rw bad at e))
    ]

held_lem :
    (f label addr : Text) (h : Hit)
    → held f label addr ≡ some h
    → (looks_addr h.value ≡ true) × ((h.value == addr || shows label addr) ≡ true)
unfolding held
held_lem f label addr h e = elim (Option-cases (index_of f (codes " == "))) [
  | inl never ↦ absurd (cc (rw (never, held) at e))
  | inr (zero, start) ↦ absurd (cc (rw (start, held) at e))
  | inr (suc i, found) ↦
      held_at label addr (take (suc i) f) (drop (suc i + 4) f) h (rw (found, held) at e)
]

-- Where `holder` answers, some node of the dissection, at whatever depth, has the field: its
-- value is an address, and it or the label over it is the one that the column showed.
pub holder_lem :
    (ns : Forest) (addr : Text) (h : Hit)
    → holder ns addr ≡ some h
    → (f : Text) × (label : Text) × Among ns f label
      × (held f label addr ≡ some h)
      × (looks_addr h.value ≡ true)
      × ((h.value == addr || shows label addr) ≡ true)
holder_lem ns addr h e =
    let (f, label, among, is) = holder-Among ns addr h e in
    let (is_addr, shown) = held_lem f label addr h is in (f, label, among, is, is_addr, shown)

-- The filter for both ends is one that the capture compiles, or the field's own at one end.
pub ends_lem :
    (compiles : Text → Bool) (hit : Hit)
    → (compiles (ends compiles hit) ≡ true) ⊎ (ends compiles hit ≡ is_value hit.name hit.value)
unfolding ends
ends_lem compiles hit =
    elim (Bool-cases (not (is_empty (addr_term hit)) && compiles (addr_term hit))) [
      | inl both_ends ↦ rw both_ends (inl (ground arith))
      | inr neither ↦
          elim (Bool-cases (not (is_empty (either_term hit)) && compiles (either_term hit))) [
            | inl either ↦ rw (neither, either) (inl (ground arith))
            | inr one ↦ rw (neither, one) (inr refl)
          ]
    ]
