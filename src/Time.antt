-- ===== src/Time.antt =====
-- Go's `time.Time` in UTC, as far as the program uses it: the zero time, the order, and the layout
-- "2006-01-02". A time is a calendar date of the years 0 and later, with the nanoseconds of the day.
use kd_server.Common.{
  ℕ, ◌+◌, ◌-◌, ◌*◌, ◌/◌, ◌%◌, Bool, not, ◌&&◌, ◌||◌, Option, none, some, [], ◌∷◌, ◌++◌, ltb, ◌==◌,
  within, if◌then◌else◌,
}
use kd_server.Text.{Text}

pub record Time : Type 0 where
  pub year : ℕ
  pub month : ℕ
  pub day : ℕ
  pub nanos : ℕ

-- `t.IsZero()`: January 1 of the year 1, 00:00:00.
abbrev pub zero_time : Time
zero_time = record { year = 1; month = 1; day = 1; nanos = 0 }

unfoldable pub is_zero : Time → Bool
is_zero t = t.year == 1 && t.month == 1 && t.day == 1 && t.nanos == 0

-- `a.Before(b)`
unfoldable pub before : Time → Time → Bool
before a b =
    ltb a.year b.year
    || a.year == b.year
      && (ltb a.month b.month
          || a.month == b.month && (ltb a.day b.day || a.day == b.day && ltb a.nanos b.nanos))

-- `a.After(b)`
unfoldable pub later_than : Time → Time → Bool
unfolding before
later_than a b = before b a

unfoldable pub is_leap : ℕ → Bool
is_leap y = y % 4 == 0 && (not (y % 100 == 0) || y % 400 == 0)

-- `daysIn`
unfoldable pub days_in : ℕ → ℕ → ℕ
unfolding is_leap
days_in month year =
    if month == 2
    then (if is_leap year then 29 else 28)
    else if month == 4 || month == 6 || month == 9 || month == 11
    then 30
    else 31

unfoldable pub is_digit : ℕ → Bool
is_digit c = within b'0' b'9' c

abbrev value : ℕ → ℕ
value c = c - b'0'

abbrev date : ℕ → ℕ → ℕ → Time
date y m d = record { year = y; month = m; day = d; nanos = 0 }

-- `time.Parse("2006-01-02", s)`: four digits, two, and two, of a day that exists.
unfoldable pub parse_date : Text → Option Time
unfolding is_digit days_in
parse_date (a ∷ b ∷ c ∷ d ∷ h ∷ e ∷ f ∷ i ∷ g ∷ j ∷ []) =
    let year = value a * 1000 + value b * 100 + value c * 10 + value d in
    let month = value e * 10 + value f in
    let day = value g * 10 + value j in
    if is_digit a
      && is_digit b
      && is_digit c
      && is_digit d
      && h == b'-'
      && is_digit e
      && is_digit f
      && within 1 12 month
      && i == b'-'
      && is_digit g
      && is_digit j
      && within 1 (days_in month year) day
    then some (date year month day)
    else none
parse_date _ = none

abbrev digit : ℕ → ℕ
digit n = b'0' + n % 10

-- `t.Format("2006-01-02")`, of the years up to 9999.
unfoldable pub format_date : Time → Text
format_date t =
    digit (t.year / 1000)
    ∷ digit (t.year / 100)
    ∷ digit (t.year / 10)
    ∷ digit t.year
    ∷ b'-'
    ∷ digit (t.month / 10)
    ∷ digit t.month
    ∷ b'-'
    ∷ digit (t.day / 10)
    ∷ digit t.day
    ∷ []

abbrev two_digits : ℕ → Text
two_digits n = digit (n / 10) ∷ digit n ∷ []

-- `t.Format(time.RFC3339)`
unfoldable pub format_rfc3339 : Time → Text
unfolding format_date
format_rfc3339 t =
    let seconds = t.nanos / 1000000000 in
    format_date t
    ++ b'T'
      ∷ (two_digits (seconds / 3600)
          ++ b':'
            ∷ (two_digits (seconds / 60 % 60) ++ b':' ∷ (two_digits (seconds % 60) ++ b'Z' ∷ [])))
