-- ===== src/Pages/Counts.antt =====
-- The count of the list and its end after one reply, as numbers.
use webshark.Prelude.{ℕ, ◌≤◌, ◌%◌, max, ◌≡◌, Bool, true, false, arith, if◌then◌else◌}
use webshark.Pages.{page_size}

-- The new count of `land`, by what is known of the old one and of the rows seen.
abbrev pub counted : Bool → Bool → ℕ → ℕ → ℕ
counted all last count seen = if all then count else if last then seen else max count seen

abbrev pub ended_by : Bool → Bool → Bool → Bool
ended_by all last ended = if all then ended else if last then true else ended

pub counted_bounded :
    (all last : Bool) (count seen n : ℕ) → count ≤ n → seen ≤ n → counted all last count seen ≤ n
counted_bounded all last count seen n h k = ground arith

pub counted_complete :
    (all last ended : Bool) (count seen n : ℕ)
    → (ended ≡ true → count ≡ n)
    → (last ≡ true → seen ≡ n)
    → count ≤ n
    → seen ≤ n
    → ended_by all last ended ≡ true
    → counted all last count seen ≡ n
counted_complete all last ended count seen n h k b c e = ground arith

pub counted_whole :
    (all last ended : Bool) (count seen : ℕ)
    → (ended ≡ false → count % page_size ≡ 0)
    → (last ≡ false → seen % page_size ≡ 0)
    → ended_by all last ended ≡ false
    → counted all last count seen % page_size ≡ 0
counted_whole all last ended count seen h k e = ground arith
