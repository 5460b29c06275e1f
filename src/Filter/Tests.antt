-- ===== src/Filter/Tests.antt =====
-- Runs of the rewriting, of a filter on an identity of digits.
use webshark.Prelude.{is_space, Text, codes, ◌≡◌, ◌⊎◌, refl, Bool, ◌==◌, text_eq, if◌then◌else◌}
use webshark.Filter.{Checked, passes, fails, used, refused, requote, compile}
use webshark.Filter.Laws.{compile_used}

abbrev same : Text → Text
same t = t

abbrev is_id : Text → Bool
is_id field = field == codes "ims.id"

abbrev typed : Text
typed = codes "ims.id == 001 && sip"

abbrev written : Text
written = codes "ims.id == \"001\" && sip"

abbrev check : Text → Checked
check t = if t == written then passes else fails (codes "no string")

requote_run : requote same is_id typed ≡ written
unfolding requote is_space
requote_run = refl

set_run : requote same is_id (codes "ims.id in {1, 2}") ≡ codes "ims.id in {\"1\", \"2\"}"
unfolding requote is_space
set_run = refl

compile_run : compile same is_id check typed ≡ used written
unfolding compile is_space
compile_run = refl

refused_run :
    compile same is_id check (codes "sip ==") ≡ refused (codes "sip ==") (codes "no string")
unfolding compile is_space
refused_run = refl

compile_used_example :
    (check written ≡ passes)
    × ((written ≡ typed)
        ⊎ ((written ≡ requote same is_id typed) × ((err : Text) × (check typed ≡ fails err))))
compile_used_example = compile_used same is_id check typed written compile_run
