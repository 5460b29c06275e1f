-- ===== src/Lib.antt =====
-- webshark: a packet capture viewer in the browser (src/web/app.js, served by src/main.go over
-- Wireshark's sharkd), and the page of its Kubernetes operator (operator/internal/ui/web/app.js).
-- These modules model what the two pages compute, below the drawing of it. Paths are from the
-- root of the repository.
--
-- The viewer, src/web/app.js:
--   `Pages`     the packet list: `rowAt`, `fetchPage` and both ends of its promise, `height`,
--               `rewind`, as functions on a `World` that holds the fields of `S` they share and the
--               requests in flight. `Pages.Server` is what answers them: the `frames` handler over
--               sharkd, a record with its documented window. `Pages.Faithful` has the runs as a step
--               relation, and what they keep, over `Pages.Calls` (the calls in flight) and
--               `Pages.Counts` (the count after a reply). `Pages.Locate` is the loop that looks a frame up.
--   `Columns`   `columns`, the text of a cell: `raw`, `cell`, `inner`, and the severity that a row wears
--               (`Columns.Severity`: `expert`).
--   `Lanes`     the sequence diagram: `nodes`, `renumber`, `place`, `arrange`, and in
--               `Lanes.Geometry` the numbers of `widest`, `layout`, `x` and `lane`, and in
--               `Lanes.Sideways` the scrolling of `revealX`. The drag of a label is `Lanes.Dragging`,
--               the arrows are `Lanes.Arrow`, and the slots that `layout` recycles `Lanes.Laid`. The rows come from `Pages`, the addresses
--               from `Columns`.
--   `Selecting` the row that is selected and the calls of /api/frame: `select`, `deselect`, `move`, and
--               what the answers put into the panes; `Selecting.Shown` has the runs. It stands on `Pages`.
--   `Panes`     the sources of a frame, the field picked, and the dump of the bytes as HTML (`show`,
--               `pick`, `tabs`, `bytes`). `Panes.Reading` is a browser's reading of that HTML, `Panes.Tree` the
--               tree with its nodes that are open (`build`, `toggle`), and `Panes.Tabs` the choices around it.
--   `Settings`  the widths of the columns (`wide`, `fit`), the gutter and the tracks of the list
--               (`Settings.Grid`: `gutter`, `head`), and what is picked, kept and laid out again
--               (`Settings.Remembered`: `theme`, `retime`, `view`, `measure`, the `ResizeObserver`). It stands on `Columns`.
--   `Session`   where the page is: `pop`, after the button back too (`Session.Levels`), `openCapture`,
--               `closeCapture`, `files`, the hash of `sync` and `restore`
--               (`Session.Address`), and what the keys ask for (`Session.Keys`).
--   `Drawing`   the pool of elements that `draw` fills with the rows in view, over `Pages` and `Window`.
--   `Window`    the run of rows that `draw` and `filesDraw` fill, and the scrolling of `reveal`.
--   `Hide`      the filter that hides a lane: `hide`, `addrTerm`, `holder`, `ends` and their helpers.
--   `Captures`  the capture list: names and references (`Names`), times as text and text as times
--               (`Moments`), the box that narrows the list down (`Search`), the rows it leaves and the scan
--               that reads the protocols (`Listing`), the captures picked out (`Picking`) by a click or a press
--               (`Touch`), and the files that are dropped (`Upload`), with `upload` of src/main.go.
--   `Filter`    the check of a filter and its rewriting with quotes: `compile`, `requote` and the lexer.
--   `Completing` the fields offered under the filter box: `fieldAt`, `complete`, the keys, the pick.
--
-- The operator's page, operator/internal/ui/web/app.js:
--   `Operator`  the search over the pods (`Fuzzy`, `Marks`, `Pods`), the ticks and the request that
--               starts a capture (`Pods.Start`, `Pods.Ticks`), and the websharks with the
--               cards of the captures (`Cards`, `Cards.Painted`). `Polling` has the refreshes in flight and the
--               events that ask for them, over the parts above.
--
-- Texts are lists of UTF-16 code units, a `Map` or `Set` with its order is an association list or a
-- list, and numbers are natural numbers; the score of the search is an integer, since it can be
-- negative. Pixels are whole: a fraction of one that the browser may report is not modelled. An
-- index that is -1 in the code is an option here.
--
-- What the pages ask of the browser and of the servers is a parameter: sharkd's frames, the
-- dissection of a frame, the check of a filter, the clock and the calendar of the time zone,
-- `toLowerCase` and `localeCompare`, `atob`, and `URLSearchParams`.
--
-- Fuel: `locate` runs on fuel, and one round more than the matching frames have whole pages is
-- enough. `fuzzy_from` runs on the length of the text and one more, since each round starts past the
-- place before. `pieces_from` runs on the length of the text, since each round moves at least one
-- character on. The lines of the dump run on the number of bytes, since each takes one at least.
--
-- Not modelled: the DOM and so the elements of the rows, what the stylesheet decides, the Go servers
-- beyond what is said above, the Android app and the dissector plugins.
pub mod Captures
pub mod Columns
pub mod Completing
pub mod Drawing
pub mod Filter
pub mod Hide
pub mod Lanes
pub mod Operator
pub mod Pages
pub mod Panes
pub mod Prelude
pub mod Selecting
pub mod Session
pub mod Settings
pub mod Window
