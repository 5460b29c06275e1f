-- ===== src/Pages/Server.antt =====
-- What answers /api/frames: the handler `frames` of src/main.go, over sharkd, which is not part of
-- the repository. sharkd's `frames` is a parameter with its documented window: from the frames
-- that match the filter, in capture order, those from `skip` on, `limit` at most.
use webshark.Prelude.{ℕ, ◌*◌, Text, ◌≡◌, List, length, take, drop, ltb}
use webshark.Pages.{Row, Request, Reply, page_size}

pub record Sharkd : Type 0 where
  pub matching : Text → Text → List Row
  pub frames : Text → Text → ℕ → ℕ → List Row
  pub frames_window :
      (file filter : Text) (skip limit : ℕ)
      → frames file filter skip limit ≡ take limit (drop skip (matching file filter))

-- The reply to the page's query: `skip` is `p * PAGE`, `limit` is PAGE.
unfoldable pub reply : Sharkd → Request → Reply
reply s r =
    let page = s.frames r.file r.filter (r.page * page_size) page_size in
    record { rows = page; last = ltb (length page) page_size }
