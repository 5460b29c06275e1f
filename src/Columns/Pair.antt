-- ===== src/Columns/Pair.antt =====
-- The folded pair of addresses of a row of the list, of src/web/app.js: `fillPair`.
use webshark.Prelude.{
  Text, codes, ◌≡◌, refl, Option, none, some, [], ◌∷◌, is_empty, if◌then◌else◌, ℕ,
}
use webshark.Pages.{Row}
use webshark.Columns.{Name, src, dst, sport, dport, cell, inner}

-- The texts of its five spans, and its tooltip.
pub record Pair : Type 0 where
  pub source : Text
  pub source_port : Text
  pub arrow : Text
  pub target : Text
  pub target_port : Text
  pub title : Text

abbrev dimmed : Text → Text
dimmed p = if is_empty p then [] else b':' ∷ p

-- A row whose page is still out has none of them.
unfoldable pub fill_pair : (Name → Option ℕ) → Option Row → Pair
unfolding cell inner
fill_pair ix none = record {
  source = [];
  source_port = [];
  arrow = [];
  target = [];
  target_port = [];
  title = [];
}
fill_pair ix (some row) = record {
  source = cell ix row src;
  source_port = dimmed (cell ix row sport);
  arrow = codes " → ";
  target = cell ix row dst;
  target_port = dimmed (cell ix row dport);
  title = inner ix row;
}

row_run : (fill_pair (λ n. none) (some (record { n = 1; c = [] }))).source ≡ []
unfolding fill_pair cell
row_run = refl
