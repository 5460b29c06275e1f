-- ===== src/Captures/Names.antt =====
-- Names and references of captures, of src/web/app.js: what a file is uploaded as (`upload`), and
-- the one text that stands for a set of captures (`refOf`, `namesIn`). `name_ok` is the server's
-- own test, `nameOK` of src/main.go.
pub mod Upload
pub mod Reference
mod Tests
use webshark.Prelude.{
  ℕ, zero, suc, ◌+◌, ◌≤◌, ◌<◌, Text, codes, ◌≡◌, refl, ◌∙◌, ap, ◌≢◌, ◌⊎◌, inl, inr, Bool, true,
  false, not, ◌&&◌, ◌||◌, List, [], ◌∷◌, arith, ◌==◌, nat_eq, ltb, leb, if◌then◌else◌, length,
  length-take, take, take_all, map, length-map, join, split, split-join, Lacks, AllLack, sort_by,
  sort_by-perm, sort_by-eq_of_perm, TotalOrder, Bool-cases,
}

-- `<` on strings goes by code units, and so does `sort`.
unfoldable pub text_leb : Text → Text → Bool
text_leb [] t = true
text_leb (a ∷ s) [] = false
text_leb (a ∷ s) (b ∷ t) = if a == b then text_leb s t else ltb a b

unfoldable pub ref_of : List Text → Text
unfolding text_leb
ref_of names = join b',' (sort_by text_leb names)

unfoldable pub names_in : Text → List Text
names_in ref = split (λ c. c == b',') ref

is_alnum : ℕ → Bool
is_alnum c = leb b'A' c && leb c b'Z' || leb b'a' c && leb c b'z' || leb b'0' c && leb c b'9'

-- `[A-Za-z0-9 ._+-]`
unfoldable pub is_name_char : ℕ → Bool
unfolding is_alnum
is_name_char c = is_alnum c || c == b' ' || c == b'.' || c == b'_' || c == b'+' || c == b'-'

abbrev all_chars : Text → Bool
all_chars [] = true
all_chars (c ∷ s) = is_name_char c && all_chars s

-- `nameOK`
unfoldable pub name_ok : Text → Bool
unfolding is_name_char
name_ok [] = false
name_ok (c ∷ s) = is_alnum c && all_chars s && leb (length s) 127

unfoldable pub clean_char : ℕ → ℕ
unfolding is_name_char
clean_char c = if is_name_char c then c else b'_'

abbrev starts_alnum : Text → Bool
starts_alnum [] = false
starts_alnum (c ∷ s) = is_alnum c

-- The name that `upload` gives a file.
unfoldable pub upload_name : Text → Text
unfolding clean_char
upload_name file =
    let name = take 128 (map clean_char file) in
    if starts_alnum name then name else take 128 (b'c' ∷ name)
