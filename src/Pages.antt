-- ===== src/Pages.antt =====
-- The packet list's pages, of src/web/app.js: the rows of the open capture under the filter in
-- force, fetched PAGE frames at a time, the promises still in flight, and the loop that looks a
-- frame number up in them. One `World` holds what the functions share: the fields of `S` that
-- they read and write, and the requests whose answers have not come in yet.
pub mod Server
pub mod Calls
pub mod Counts
pub mod Faithful
pub mod Locate
mod Tests
use webshark.Prelude.{
  is_empty, ℕ, zero, suc, ◌+◌, ◌-◌, ◌*◌, ◌/◌, max, Text, Bool, true, false, ◌&&◌, Option, none,
  some, List, [], ◌∷◌, ◌++◌, ◌==◌, nat_eq, text_eq, if◌then◌else◌, ltb, length, get_elem?, get, put,
  remove,
}

-- frames per call of /api/frames
abbrev pub page_size : ℕ
page_size = 200

pub record Row : Type 0 where
  pub n : ℕ
  pub c : List Text

-- What a page's key holds in `S.pages`: its rows, or the promise fetching them.
pub data Page : Type 0 where
  rows : List Row → Page
  flying : Page

-- The query of one call: the capture, the filter of that moment, and `p * PAGE`.
pub record Request : Type 0 where
  pub file : Text
  pub filter : Text
  pub page : ℕ

pub record Reply : Type 0 where
  pub rows : List Row
  pub last : Bool

pub record World : Type 0 where
  pub file : Text
  pub filter : Text
  pub total : ℕ
  pub count : ℕ
  pub ended : Bool
  pub pages : List (ℕ × Page)
  pub asked : List Request

abbrev pub same_request : Request → Request → Bool
same_request a b = a.page == b.page && (a.filter == b.filter && a.file == b.file)

-- A call that has been answered is no longer in flight.
unfoldable pub forget : Request → List Request → List Request
forget r [] = []
forget r (q ∷ qs) = if same_request q r then qs else q ∷ forget r qs

abbrev pub request : World → ℕ → Request
request w p = record { file = w.file; filter = w.filter; page = p }

-- The synchronous part of `fetchPage`: the call goes out, and its promise is filed.
unfoldable pub fetch_page : ℕ → World → World
fetch_page p w = record w { pages = put w.pages p flying; asked = w.asked ++ request w p ∷ [] }

-- Its `.then`: `seen` under a filter moves the count, and a short page ends it.
unfoldable pub land : Request → Reply → World → World
land r reply w =
    let seen = r.page * page_size + length reply.rows in
    record w {
      pages = put w.pages r.page (rows reply.rows);
      count = if is_empty w.filter then w.count else if reply.last then seen else max w.count seen;
      ended = if is_empty w.filter then w.ended else if reply.last then true else w.ended;
      asked = forget r w.asked;
    }

-- Its `.catch`.
unfoldable pub crash : Request → World → World
crash r w = record w { pages = remove w.pages r.page; asked = forget r w.asked }

-- `rowAt` at an index that is not negative: the row, or none, and the fetch that a miss starts.
abbrev pub row_of : Option Page → ℕ → Option Row
row_of none i = none
row_of (some flying) i = none
row_of (some (rows page)) i = get_elem? page i

unfoldable pub row_at : ℕ → World → Option Row × World
row_at i w =
    let p = i / page_size in
    elim (get w.pages p) [
      | none ↦ (none, fetch_page p w)
      | some page ↦ (row_of (some page) (i - p * page_size), w)
    ]

-- `select` asks for the row before the one selected, so for -1 at the first.
unfoldable pub row_before : ℕ → World → Option Row × World
unfolding row_at
row_before zero w = (none, w)
row_before (suc i) w = row_at i w

-- `rewind`, after `filter` has set `S.filter`: what of it these functions read.
unfoldable pub rewind : World → World
rewind w = record w {
  pages = [];
  count = if is_empty w.filter then w.total else 0;
  ended = is_empty w.filter;
}

unfoldable pub refilter : Text → World → World
unfolding rewind
refilter text w = rewind (record w { filter = text })

-- The canvas is sized for one page more than is known, until a page comes back short.
unfoldable pub rows_drawn : World → ℕ
rows_drawn w = w.count + (if w.ended then 0 else page_size)

unfoldable pub height : ℕ → World → ℕ
unfolding rows_drawn
height row w = rows_drawn w * row

-- What came of one call: its reply, or an error.
abbrev pub answered : Request → Option Reply → World → World
answered r none w = crash r w
answered r (some reply) w = land r reply w

module _ (answer : Request → Option Reply) where
  -- The wait at the head of `locate`'s loop: fetch the page, or wait for the promise.
  abbrev pub settle_page : Option Page → ℕ → World → World
  settle_page none p w = answered (request w p) (answer (request w p)) (fetch_page p w)
  settle_page (some flying) p w = answered (request w p) (answer (request w p)) w
  settle_page (some (rows page)) p w = w

  unfoldable pub settle : ℕ → World → World
  unfolding fetch_page land crash forget
  settle p w = settle_page (get w.pages p) p w
