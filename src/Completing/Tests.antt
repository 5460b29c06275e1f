-- ===== src/Completing/Tests.antt =====
-- The list of fields under a filter of two clauses.
use webshark.Prelude.{
  codes, ◌≡◌, refl, true, false, Option, none, some, List, [], ◌∷◌, arith, text_eq, nat_eq,
}
use webshark.Completing.{
  Field, Box, field_at, field_end, pick, Offer, complete, offered, arrow_up, index_after, highlight,
  keydown,
}
use webshark.Completing.Picked.{field_at-pick}
use webshark.Completing.Dropdown.{IsOffer, here, next, asks, answers, keys, Reach-IsOffer}

abbrev ip_src : Field
ip_src = record { f = codes "ip.src"; n = codes "Source" }

abbrev ip_dst : Field
ip_dst = record { f = codes "ip.dst"; n = codes "Destination" }

-- "tcp && ip." with the caret behind "ip.", and a clause to follow
abbrev box : Box
box = record { value = codes "tcp && ip. and udp"; caret = 10 }

field_at_runs : field_at (codes "tcp && ip. and udp") 10 ≡ codes "ip."
unfolding field_at field_end
field_at_runs = refl

pick_runs : pick ip_src box ≡ record { value = codes "tcp && ip.src and udp"; caret = 13 }
unfolding pick field_at field_end
pick_runs = refl

field_at-pick_example : field_at (pick ip_src box).value (pick ip_src box).caret ≡ codes "ip.src"
field_at-pick_example = field_at-pick ip_src box (omega arith) refl

abbrev closed : Offer
closed = record { items = []; index = none; asked = none; hidden = true }

abbrev two_fields : Offer
two_fields = record {
  items = ip_src ∷ ip_dst ∷ [];
  index = some 1;
  asked = some (codes "ip.");
  hidden = false;
}

two_fields-IsOffer : IsOffer two_fields
two_fields-IsOffer = record { few = omega arith; empty = refl; on = omega arith }

closed-IsOffer : IsOffer closed
closed-IsOffer = record { few = omega arith; empty = refl; on = tt }

abbrev reply : Option (List Field)
reply = some (ip_src ∷ ip_dst ∷ [])

Reach-IsOffer_example : IsOffer two_fields
unfolding complete offered keydown highlight index_after
Reach-IsOffer_example = Reach-IsOffer {o = closed} {p = two_fields} closed-IsOffer (
    next (next (next here (asks closed (codes "ip."))) (answers _ (codes "ip.") reply))
      (keys _ arrow_up box))
