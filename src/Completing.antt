-- ===== src/Completing.antt =====
-- The field names offered under the filter box, of src/web/app.js: `fieldAt`, `complete`,
-- `closeComplete`, `highlight` and `pickComplete`, and what the keys of the box do to them.
pub mod Picked
pub mod Dropdown
mod Tests
use webshark.Prelude.{
  ℕ, zero, suc, ◌+◌, ◌-◌, ◌%◌, Text, Bool, true, false, ◌&&◌, ◌||◌, Option, none, some, List, [],
  ◌∷◌, ◌++◌, ◌==◌, nat_eq, text_eq, if◌then◌else◌, leb, length, take, drop, get_elem?, is_empty,
}

-- `[\w.-]`
abbrev pub is_field_char : ℕ → Bool
is_field_char c =
    leb b'a' c && leb c b'z'
    || leb b'A' c && leb c b'Z'
    || leb b'0' c && leb c b'9'
    || (c == b'_' || c == b'.' || c == b'-')

abbrev pub all_field_chars : Text → Bool
all_field_chars [] = true
all_field_chars (c ∷ s) = is_field_char c && all_field_chars s

-- The match of `/[\w.-]+$/`, the longest there is, or nothing.
unfoldable pub field_end : Text → Text
field_end [] = []
field_end (c ∷ s) = let rest = field_end s in if all_field_chars (c ∷ s) then c ∷ s else rest

unfoldable pub field_at : Text → ℕ → Text
unfolding field_end
field_at text pos = field_end (take pos text)

-- A field that the server offers: `f`, its name, and `n`, what it is.
pub record Field : Type 0 where
  pub f : Text
  pub n : Text

-- The filter box: its value, and the caret at `selectionStart`.
pub record Box : Type 0 where
  pub value : Text
  pub caret : ℕ

-- What `pickComplete` writes into the box.
unfoldable pub pick : Field → Box → Box
unfolding field_at
pick li box =
    let start = box.caret - length (field_at box.value box.caret) in
    record {
      value = take start box.value ++ li.f ++ drop box.caret box.value;
      caret = start + length li.f;
    }

-- `compItems`, `compIdx` with none for its -1, `compAsked` with none for its null, and the list's
-- `hidden`.
pub record Offer : Type 0 where
  pub items : List Field
  pub index : Option ℕ
  pub asked : Option Text
  pub hidden : Bool

unfoldable pub close_complete : Offer → Offer
close_complete o = record { items = []; index = none; asked = none; hidden = true }

-- `complete` up to its call, which it makes for a field that is not empty.
unfoldable pub complete : Text → Offer → Offer
unfolding close_complete
complete field o = if is_empty field then close_complete o else record o { asked = some field }

abbrev pub same_asked : Text → Option Text → Bool
same_asked field none = false
same_asked field (some asked) = field == asked

-- The rest of it, with the answer to the call, none for one that failed.
unfoldable pub offered : Text → Option (List Field) → Offer → Offer
offered field none o = o
offered field (some fields) o =
    let items = take 20 fields in
    if same_asked field o.asked
    then record o { items = items; index = none; hidden = length items == 0 }
    else o

-- The keys of the box that the list listens for.
pub data Key : Type 0 where
  arrow_down arrow_up tab enter escape : Key

-- `(compIdx + dir + compItems.length) % compItems.length`, and from no row at all the first one or
-- the last.
unfoldable pub index_after : Bool → Option ℕ → ℕ → ℕ
index_after true none n = 0
index_after false none n = n - 1
index_after true (some i) n = (i + 1 + n) % n
index_after false (some i) n = (i + n - 1) % n

unfoldable pub highlight : ℕ → Offer → Offer
highlight i o = record o { index = some i }

abbrev pub picked_index : Option ℕ → ℕ
picked_index none = 0
picked_index (some i) = i

-- `pickComplete` on a row of the list, or on nothing.
unfoldable pub pick_complete : Option Field → Offer × Box → Offer × Box
unfolding close_complete pick
pick_complete none s = s
pick_complete (some li) (o, box) = (close_complete o, pick li box)

abbrev pick_index : Offer × Box → Offer × Box
pick_index (o, box) = pick_complete (get_elem? o.items (picked_index o.index)) (o, box)

abbrev pub enter_key : Option ℕ → Offer × Box → Offer × Box
enter_key none s = s
enter_key (some i) s = pick_index s

abbrev pub shown_key : Key → Offer × Box → Offer × Box
shown_key arrow_down (o, box) = (highlight (index_after true o.index (length o.items)) o, box)
shown_key arrow_up (o, box) = (highlight (index_after false o.index (length o.items)) o, box)
shown_key tab (o, box) = pick_index (o, box)
shown_key enter (o, box) = enter_key o.index (o, box)
shown_key escape (o, box) = (close_complete o, box)

-- `keydown` on the box.
unfoldable pub keydown : Key → Offer × Box → Offer × Box
unfolding highlight index_after pick_complete close_complete
keydown key (o, box) = if o.hidden then (o, box) else shown_key key (o, box)
