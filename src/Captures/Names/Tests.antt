-- ===== src/Captures/Names/Tests.antt =====
-- Runs of the names: a file of a camera roll, and two captures picked in either order.
use mathlib.Core.List.{Perm}
use webshark.Prelude.{codes, Text, ◌≡◌, refl, true, [], ◌∷◌}
use webshark.Captures.Names.{ref_of, names_in, name_ok, upload_name}
use webshark.Captures.Names.Upload.{upload_name-name_ok}
use webshark.Captures.Names.Reference.{AllOk, names_in-ref_of}

upload_runs : upload_name (codes "(1) a:b.pcap") ≡ codes "c_1_ a_b.pcap"
unfolding upload_name
upload_runs = refl

upload_name-name_ok_example : name_ok (upload_name (codes "(1) a:b.pcap")) ≡ true
upload_name-name_ok_example = upload_name-name_ok (codes "(1) a:b.pcap")

name_ok_runs : name_ok (codes "sip call-2.pcapng") ≡ true
unfolding name_ok
name_ok_runs = refl

abbrev a : Text
a = codes "a.pcap"

abbrev b : Text
b = codes "b.pcap"

ref_of_runs : ref_of (b ∷ a ∷ []) ≡ codes "a.pcap,b.pcap"
unfolding ref_of
ref_of_runs = refl

two_ok : AllOk (b ∷ a ∷ [])
unfolding name_ok
two_ok = (refl, (refl, tt))

names_in-ref_of_example : Perm (names_in (ref_of (b ∷ a ∷ []))) (b ∷ a ∷ [])
names_in-ref_of_example = names_in-ref_of b (a ∷ []) two_ok
