-- ===== src/Operator/Polling.antt =====
-- How the operator's page, operator/internal/ui/web/app.js, keeps its lists: `namespaces`, `refresh`
-- with the calls that are out, what paints them (`paintWebsharks`, `paintPods`, `paintCaptures`), the
-- events that ask for them, and the frame that a webshark is opened in (`view`, `unview`).
pub mod Folds
pub mod Settled
mod Tests
use webshark.Prelude.{
  ℕ, Text, codes, Bool, true, false, not, ◌&&◌, Option, none, some, List, [], ◌∷◌, ◌++◌, map, ◌==◌,
  text_eq, if◌then◌else◌, contains, put, trim_space,
}
use webshark.Operator.Pods.{Pod, Locale, selector}
use webshark.Operator.Pods.Ticks.{
  Desk, Made, made, failed, started, paint_pods, change_namespace, type_query,
}
use webshark.Operator.Cards.{Webshark, choose}
use webshark.Operator.Cards.Painted.{PacketCapture, Card, paint_captures}

-- What a refresh was asked for with.
pub record Asked : Type 0 where
  pub namespace : Text
  pub selector : Text

-- What its three calls answered.
pub record Lists : Type 0 where
  pub pods : List Pod
  pub captures : List PacketCapture
  pub websharks : List Webshark

-- `S` with what is on the page: the cards, the refreshes that are out, oldest first, and whether
-- the timer of the search box runs.
pub record Board : Type 0 where
  pub desk : Desk
  pub listed : Text
  pub captures : List PacketCapture
  pub websharks : List Webshark
  pub webshark : Text
  pub folds : List (Text × Bool)
  pub cards : List Card
  pub out : List Asked
  pub typing : Bool

unfoldable pub asked_now : Board → Asked
asked_now b = record { namespace = b.desk.ns; selector = selector b.desk.query }

-- `refresh`, up to its calls; so too `tick`.
unfoldable pub refresh : Board → Board
unfolding asked_now
refresh b = record b { out = b.out ++ asked_now b ∷ [] }

abbrev same_refresh : Asked → Asked → Bool
same_refresh a b = a.namespace == b.namespace && a.selector == b.selector

unfoldable pub forget_refresh : Asked → List Asked → List Asked
forget_refresh a [] = []
forget_refresh a (b ∷ bs) = if same_refresh a b then bs else b ∷ forget_refresh a bs

module _ (locale : Locale) (encode : Text → Text) where
  -- `refresh` from the answers on, at the time `now`.
  unfoldable pub painted : ℕ → Asked → Lists → Board → Board
  unfolding paint_pods choose paint_captures
  painted now a lists b =
      let (folds, cards) = paint_captures encode lists.websharks now b.folds lists.captures in
      record {
        desk = paint_pods locale (record b.desk { pods = lists.pods });
        listed = a.selector;
        captures = lists.captures;
        websharks = lists.websharks;
        webshark = choose lists.websharks b.webshark;
        folds = folds;
        cards = cards;
        out = b.out;
        typing = b.typing;
      }

  unfoldable pub landed : ℕ → Asked → Lists → Board → Board
  unfolding painted forget_refresh
  landed now a lists b = painted now a lists (record b { out = forget_refresh a b.out })

  -- The box of the search: a selector that is not the one listed starts the timer.
  unfoldable pub typed : Text → Board → Board
  unfolding type_query
  typed text b =
      let desk = type_query locale text b.desk in
      record b { desk = desk; typing = if selector desk.query == b.listed then b.typing else true }

-- `tick` where a call of the refresh fails.
unfoldable pub lost : Asked → Board → Board
unfolding forget_refresh
lost a b = record b { out = forget_refresh a b.out }

-- The timer of the search box.
unfoldable pub timer : Board → Board
unfolding refresh
timer b = refresh (record b { typing = false })

unfoldable pub choose_namespace : Text → Board → Board
unfolding refresh change_namespace
choose_namespace ns b = refresh (record b { desk = change_namespace ns b.desk })

unfoldable pub choose_webshark : Text → Board → Board
unfolding choose
choose_webshark key b = record b { webshark = choose b.websharks key }

-- `namespaces`, and the `tick` after it.
unfoldable pub load : List Text → Board → Board
unfolding refresh
load namespaces b = refresh (record b {
  desk = record b.desk { ns = if contains namespaces b.desk.ns then b.desk.ns else [] };
})

-- `act`: what came of its call, an error or none.
unfoldable pub act : Option Text → Board → Board
unfolding refresh
act none b = refresh b
act (some message) b = record b { desk = record b.desk { toast = some message } }

-- The end of the form's `submit`.
unfoldable pub submitted : Made → Board → Board
unfolding refresh started
submitted (made name) b = refresh (record b { desk = started (made name) b.desk })
submitted (failed message) b = record b { desk = started (failed message) b.desk }

abbrev pub fold_card : Text → Bool → Card → Card
fold_card key said c = record c { opened = if c.key == key then said else c.opened }

-- A card of the list is opened or closed.
unfoldable pub fold : Text → Bool → Board → Board
fold key said b = record b {
  folds = put b.folds key said;
  cards = map (fold_card key said) b.cards;
}

-- `$('frame')` and `$('viewing')`: where the frame was sent, where it is now if that can be read, and
-- whether the viewer is hidden.
pub record Frame : Type 0 where
  pub src : Text
  pub href : Option Text
  pub label : Text
  pub hidden : Bool

abbrev frame_at : Frame → Text
frame_at f = elim f.href [ none ↦ f.src | some href ↦ href ]

-- A frame that is sent somewhere is there; what it can be read as afterwards is `readable`.
unfoldable pub view : (Text → Option Text) → Text → Text → Frame → Frame
view readable url label f =
    if frame_at f == url
    then record f { label = label; hidden = false }
    else record { src = url; href = readable url; label = label; hidden = false }

unfoldable pub unview : Frame → Frame
unview f = record f { hidden = true }
