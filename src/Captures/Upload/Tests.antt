-- ===== src/Captures/Upload/Tests.antt =====
-- Three files, the second of which has the name of the first once they are cleaned.
use webshark.Prelude.{Text, codes, ◌≡◌, refl, ◌⊎◌, false, Option, none, List, [], ◌∷◌, text_eq}
use webshark.Captures.Upload.{upload, Whole, Stops, upload_lem}

abbrev no_fault : Text → Option Text
no_fault name = none

abbrev files : List Text
files = codes "a!" ∷ codes "a?" ∷ codes "c" ∷ []

twice_run : upload no_fault (codes "d" ∷ []) files ≡ record {
  posted = codes "a_" ∷ codes "a_" ∷ [];
  note = codes "a_: a_ is already there";
  listed = false;
}
unfolding upload
twice_run = refl

upload_lem_example :
    Whole no_fault (codes "d" ∷ []) files (upload no_fault (codes "d" ∷ []) files)
    ⊎ Stops no_fault (codes "d" ∷ []) files (upload no_fault (codes "d" ∷ []) files)
upload_lem_example = upload_lem no_fault (codes "d" ∷ []) files
