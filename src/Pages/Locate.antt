-- ===== src/Pages/Locate.antt =====
-- `locate` of src/web/app.js: the row index of a frame number, for the link that carries one.
pub mod Laws
use webshark.Prelude.{
  ℕ, zero, suc, ◌+◌, ◌*◌, Bool, true, false, Option, none, some, List, [], ◌∷◌, ◌==◌, nat_eq,
  if◌then◌else◌, ltb, length, get,
}
use mathlib.Core.Option
use webshark.Pages.{Row, Page, rows, flying, Request, Reply, World, page_size, settle}

-- `page.findIndex(row => row.n === num)`
unfoldable pub find_index : ℕ → List Row → Option ℕ
find_index num [] = none
find_index num (row ∷ page) = if row.n == num then some 0 else Option.map suc (find_index num page)

-- `page[page.length - 1].n > num`
unfoldable pub is_past : ℕ → List Row → Bool
is_past num [] = false
is_past num (row ∷ []) = ltb num row.n
is_past num (row ∷ next ∷ page) = is_past num (next ∷ page)

-- What `locate` returns: an index, -1, or no answer within the fuel.
pub data Located : Type 0 where
  at : ℕ → Located
  missing : Located
  unfinished : Located

abbrev pub search_rows : Option ℕ → List Row → ℕ → ℕ → World → Located × World → Located × World
search_rows (some i) page num p w later = (at (p * page_size + i), w)
search_rows none page num p w later =
    if ltb (length page) page_size
    then (missing, w)
    else if is_past num page
    then (missing, w)
    else later

-- One round, with the page that has been waited for; an unfetched one is a failed call.
abbrev pub search_page : Option Page → ℕ → ℕ → World → Located × World → Located × World
search_page none num p w later = (missing, w)
search_page (some flying) num p w later = (missing, w)
search_page (some (rows page)) num p w later = search_rows (find_index num page) page num p w later

unfoldable pub locate : (Request → Option Reply) → ℕ → ℕ → ℕ → World → Located × World
unfolding settle find_index is_past
locate answer zero num p w = (unfinished, w)
locate answer (suc fuel) num p w =
    let w' = settle answer p w in
    let later = locate answer fuel num (suc p) w' in search_page (get w'.pages p) num p w' later
