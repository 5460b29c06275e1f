-- ===== src/Captures/Names/Upload.antt =====
-- The name of an upload against the server's test.
use webshark.Prelude.{
  ℕ, zero, suc, ◌≤◌, Text, ◌≡◌, refl, inl, inr, true, [], ◌∷◌, arith, nat_eq, le→leb, length,
  length-take, take, take_all, map, Bool-cases,
}
use webshark.Captures.Names.{
  is_name_char, all_chars, name_ok, clean_char, starts_alnum, upload_name,
}

all_chars-take : (n : ℕ) (s : Text) → all_chars s ≡ true → all_chars (take n s) ≡ true
all_chars-take zero s h = refl
all_chars-take (suc n) [] h = refl
all_chars-take (suc n) (c ∷ s) h = ground (arith, all_chars-take n s)

clean_char-is_name_char : (c : ℕ) → is_name_char (clean_char c) ≡ true
unfolding clean_char
clean_char-is_name_char c = ground arith

all_chars-map : (s : Text) → all_chars (map clean_char s) ≡ true
all_chars-map [] = refl
all_chars-map (c ∷ s) = rw (clean_char-is_name_char c, all_chars-map s)

ok_of_alnum :
    (name : Text)
    → all_chars name ≡ true
    → length name ≤ 128
    → starts_alnum name ≡ true
    → name_ok name ≡ true
unfolding name_ok
ok_of_alnum [] h k a = cc
ok_of_alnum (c ∷ s) h k a = ground arith

ok_of_prefix : (name : Text) → all_chars name ≡ true → name_ok (take 128 (b'c' ∷ name)) ≡ true
unfolding name_ok
ok_of_prefix name h =
    rw (all_chars-take 127 name h) (le→leb _ 127 (omega (arith, length-take 127 name)))

-- Whatever a file picker hands over, the name it is uploaded as is one that the server takes.
pub upload_name-name_ok : (file : Text) → name_ok (upload_name file) ≡ true
unfolding upload_name
upload_name-name_ok file =
    let name = take 128 (map clean_char file) in
    let clean = all_chars-take 128 (map clean_char file) (all_chars-map file) in
    elim (Bool-cases (starts_alnum name)) [
      | inl begins ↦
          rw begins
            (ok_of_alnum name clean (omega (arith, length-take 128 (map clean_char file))) begins)
      | inr other ↦ rw other (ok_of_prefix name clean)
    ]

map-clean_char : (s : Text) → all_chars s ≡ true → map clean_char s ≡ s
unfolding clean_char
map-clean_char [] h = refl
map-clean_char (c ∷ s) h = ground (arith, map-clean_char s)

pub ok_parts :
    (file : Text)
    → name_ok file ≡ true
    → (all_chars file ≡ true) × (length file ≤ 128) × (starts_alnum file ≡ true)
unfolding name_ok
ok_parts [] h = absurd (cc)
ok_parts (c ∷ s) h = (ground arith, ground arith, ground arith)

-- A name that the server takes is uploaded as it is.
pub upload_name_of_ok : (file : Text) → name_ok file ≡ true → upload_name file ≡ file
unfolding upload_name
upload_name_of_ok file h =
    let (clean, short, begins) = ok_parts file h in
    rw (map-clean_char file clean, take_all 128 file short, begins)
