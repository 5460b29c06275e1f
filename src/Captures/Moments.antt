-- ===== src/Captures/Moments.antt =====
-- A word as the stretch of time it names, and a time as text: `moment`, `stamp` and `lasted` of
-- src/web/app.js. Times are milliseconds.
use webshark.Prelude.{
  value_from, decimal, is_empty, ℕ, zero, suc, ◌+◌, ◌-◌, ◌*◌, ◌/◌, ◌^◌, Text, codes, Bool, ◌&&◌,
  ◌||◌, Option, none, some, [], ◌∷◌, ◌++◌, ◌==◌, nat_eq, text_eq, ltb, leb, if◌then◌else◌, length,
}

pub record Fields : Type 0 where
  pub year : ℕ
  pub month : ℕ
  pub day : ℕ
  pub hours : ℕ
  pub minutes : ℕ
  pub seconds : ℕ

-- What the page asks of the browser: the clock, the calendar of its time zone in both directions
-- (months from 1), `toLowerCase`, and `toFixed(1)` of a quotient.
pub record Browser : Type 0 where
  pub now : ℕ
  pub local : ℕ → Fields
  pub instant : Fields → ℕ
  pub lower : Text → Text
  pub tenths : ℕ → ℕ → Text

pub record Span : Type 0 where
  pub from : ℕ
  pub to : ℕ

abbrev pub day_length : ℕ
day_length = 86400000

infixl 5 ◌>>=◌
abbrev pub ◌>>=◌ {ℓ κ} : {A : Type ℓ} {B : Type κ} → Option A → (A → Option B) → Option B
none >>= f = none
some a >>= f = f a

is_digit : ℕ → Bool
is_digit c = leb b'0' c && leb c b'9'

-- `\d{n}`, with what is left
digits : ℕ → ℕ → Text → Option (ℕ × Text)
unfolding is_digit
digits acc zero s = some (acc, s)
digits acc (suc n) [] = none
digits acc (suc n) (c ∷ s) = if is_digit c then digits (acc * 10 + (c - b'0')) n s else none

-- one code unit, and then the rest
char : ℕ → Text → Option Text
char c [] = none
char c (d ∷ s) = if d == c then some s else none

-- `\d+`: the digits in front, and the rest
span_digits : Text → Text × Text
unfolding is_digit
span_digits [] = ([], [])
span_digits (c ∷ s) =
    let (ds, rest) = span_digits s in if is_digit c then (c ∷ ds, rest) else ([], c ∷ s)

-- `(\d{1,2}):`
hour_mark : Text → Option (ℕ × Text)
unfolding digits char
hour_mark s =
    let one_digit = digits 0 1 s >>= λ (h, r). char b':' r >>= λ r'. some (h, r') in
    elim (digits 0 2 s >>= λ (h, r). char b':' r >>= λ r'. some (h, r')) [
      | some found ↦ some found
      | none ↦ one_digit
    ]

pub record Clock : Type 0 where
  pub hours : ℕ
  pub minutes : ℕ
  pub seconds : Option ℕ

abbrev seconds_mark : ℕ → ℕ → Text → Option Clock
seconds_mark h mi [] = some (record { hours = h; minutes = mi; seconds = none })
seconds_mark h mi (c ∷ s) = char b':' (c ∷ s) >>= λ r. digits 0 2 r >>= λ (sec, rest).
    if is_empty rest then some (record { hours = h; minutes = mi; seconds = some sec }) else none

-- `(\d{1,2}):(\d{2})(?::(\d{2}))?$`
clock_mark : Text → Option Clock
unfolding hour_mark digits char
clock_mark s = hour_mark s >>= λ (h, r). digits 0 2 r >>= λ (mi, rest). seconds_mark h mi rest

-- The instant of a day's clock time, and how wide the spelling of it is.
abbrev clock_span : Browser → ℕ → ℕ → ℕ → Clock → Span
clock_span b y mo d c =
    let sec : ℕ = elim c.seconds [ none ↦ 0 | some s ↦ s ] in
    let width : ℕ = elim c.seconds [ none ↦ 60000 | some _ ↦ 1000 ] in
    let at = b.instant (record {
      year = y;
      month = mo;
      day = d;
      hours = c.hours;
      minutes = c.minutes;
      seconds = sec;
    }) in
    record { from = at; to = at + width - 1 }

day_span : Browser → ℕ → ℕ → ℕ → Span
day_span b y mo d =
    let at =
      b.instant (record { year = y; month = mo; day = d; hours = 0; minutes = 0; seconds = 0 }) in
    record { from = at; to = at + day_length - 1 }

-- `UNIT`
unit : ℕ → Option ℕ
unit c =
    if c == b'm'
    then some 60000
    else if c == b'h'
    then some 3600000
    else if c == b'd'
    then some day_length
    else if c == b'w'
    then some (7 * day_length)
    else none

-- `^(\d+(?:\.\d+)?)([mhdw])$`: the age, as whole milliseconds. A fraction of one makes no
-- difference to a comparison with times that are whole.
abbrev age_unit : Text → Text → Text → Option ℕ
age_unit whole part (u ∷ []) =
    unit u >>= λ ms. some (value_from 0 (whole ++ part) * ms / 10 ^ length part)
age_unit whole part _ = none

abbrev age_fraction : Text → Text → Option ℕ
age_fraction whole [] = none
age_fraction whole (c ∷ s) =
    let (part, rest) = span_digits s in
    if c == b'.'
    then (if is_empty part then none else age_unit whole part rest)
    else age_unit whole [] (c ∷ s)

age : Text → Option ℕ
unfolding span_digits unit
age s =
    let (whole, rest) = span_digits s in if is_empty whole then none else age_fraction whole rest

-- `^(\d{4})-(\d{2})-(\d{2})(?:[t_]…)?$`
abbrev date_rest : Browser → ℕ → ℕ → ℕ → Text → Option Span
date_rest b y mo d [] = some (day_span b y mo d)
date_rest b y mo d (c ∷ s) =
    if c == b't' || c == b'_'
    then (clock_mark s >>= λ clock. some (clock_span b y mo d clock))
    else none

date : Browser → Text → Option Span
unfolding digits char clock_mark day_span
date b s = digits 0 4 s >>= λ (y, r). char b'-' r >>= λ r1. digits 0 2 r1 >>= λ (mo, r2).
    char b'-' r2 >>= λ r3. digits 0 2 r3 >>= λ (d, rest). date_rest b y mo d rest

abbrev or_span : Option Span → Option Span → Option Span
or_span none o = o
or_span (some s) o = some s

unfoldable pub moment : Browser → Text → Option Span
unfolding day_span age date clock_mark
moment b word =
    let today = b.local b.now in
    let ago = age word >>= λ ms. some (record { from = b.now - ms; to = b.now }) in
    let clock = clock_mark word >>= λ c. some (clock_span b today.year today.month today.day c) in
    if word == codes "today"
    then some (day_span b today.year today.month today.day)
    else if word == codes "yesterday"
    then some (day_span b today.year today.month (today.day - 1))
    else if word == codes "now"
    then some (record { from = b.now; to = b.now })
    else or_span ago (or_span (date b word) clock)

-- `padStart(2, '0')`
unfoldable pub pad : ℕ → Text
unfolding decimal
pad n = if ltb n 10 then b'0' ∷ decimal n else decimal n

unfoldable pub stamp : Browser → ℕ → Text
unfolding pad
stamp b ms =
    let d = b.local ms in
    decimal d.year
    ++ (b'-'
        ∷ (pad d.month
            ++ (b'-'
                ∷ (pad d.day
                    ++ (b' '
                        ∷ (pad d.hours ++ (b':' ∷ (pad d.minutes ++ b':' ∷ pad d.seconds))))))))

unfoldable pub lasted : Browser → ℕ → Text
unfolding decimal
lasted b ms =
    if ltb ms 60000
    then decimal ((ms + 500) / 1000) ++ codes "s"
    else if ltb ms 3600000
    then decimal ((ms + 30000) / 60000) ++ codes "m"
    else if ltb ms 86400000
    then b.tenths ms 3600000 ++ codes "h"
    else decimal ((ms + 43200000) / 86400000) ++ codes "d"
