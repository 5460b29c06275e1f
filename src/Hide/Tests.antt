-- ===== src/Hide/Tests.antt =====
-- Runs of the filter that hides a column, on the dissection of one frame.
use webshark.Prelude.{
  ℕ, codes, Text, ◌≡◌, refl, Bool, true, false, text_eq, Option, none, some, [], ◌∷◌,
}
use webshark.Pages.{rows}
use webshark.Columns.{Name, src, dst, cell}
use webshark.Hide.{Node, node, Forest, none_left, then_node, Hit, holder, ends, hide}

abbrev one : Node → Forest
one n = then_node n none_left

abbrev mac : Text
mac = codes "00:1b:21:aa:bb:cc"

-- A field of the link layer, whose label resolves the vendor.
abbrev tree : Forest
tree = one (
    node [] (codes "Ethernet II") (
      then_node (node (codes "eth.type == 0x0806") (codes "Type: ARP") none_left) (
        one (
          node (codes "eth.src == 00:1b:21:aa:bb:cc")
            (codes "Source: Intel_aa:bb:cc (00:1b:21:aa:bb:cc)") none_left))))

abbrev eth_src : Hit
eth_src = record { name = codes "eth.src"; value = mac }

holder_run : holder tree (codes "Intel_aa:bb:cc") ≡ some eth_src
unfolding holder
holder_run = refl

ends_run : ends (λ term. true) eth_src ≡ codes "eth.addr == 00:1b:21:aa:bb:cc"
unfolding ends
ends_run = refl

abbrev never : Text → Bool
never term = false

abbrev ix : Name → Option ℕ
ix src = some 0
ix dst = some 1
ix _ = none

hide_run :
    hide
      (λ row. some tree)
      (λ term. true)
      ix
      ((0, rows (record { n = 1; c = codes "Intel_aa:bb:cc" ∷ codes "Broadcast" ∷ [] } ∷ [])) ∷ [])
      []
      (codes "Intel_aa:bb:cc")
    ≡ some (codes "!((eth.addr == 00:1b:21:aa:bb:cc) and not ip and not ipv6)")
unfolding hide cell
hide_run = refl
