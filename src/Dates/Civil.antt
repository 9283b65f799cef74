-- ===== src/Dates/Civil.antt =====
-- The Gregorian calendar, as JavaScript's `Date` documents it: days counted from the first of January
-- of the year 0, and the date of such a count. app/src/app/core/util/dates.ts rests on it.
pub mod Laws
pub mod RoundTrip
use easy_docket.Base.{
  ℕ, zero, suc, ◌+◌, ◌-◌, ◌*◌, ◌/◌, ◌%◌, Bool, true, false, ◌&&◌, ◌||◌, not, if◌then◌else◌, leb,
  ltb, ◌==◌,
}

pub record Ymd : Type 0 where
  pub year : ℕ
  -- 1 to 12
  pub month : ℕ
  pub day : ℕ

-- `Date.UTC` and `new Date` read the years 0 to 99 as 1900 to 1999.
unfoldable pub full_year : ℕ → ℕ
full_year y = if leb y 99 then 1900 + y else y

unfoldable pub is_leap : ℕ → Bool
is_leap y = y % 4 == 0 && (not (y % 100 == 0) || y % 400 == 0)

-- The days of a month, counted from 0 for January.
unfoldable pub month_length : Bool → ℕ → ℕ
month_length leap m =
    if m == 1
    then (if leap then 29 else 28)
    else if m == 3 || m == 5 || m == 8 || m == 10
    then 30
    else 31

-- The days of a year before a month.
unfoldable pub before_month : Bool → ℕ → ℕ
before_month leap zero = 0
before_month leap (suc m) = before_month leap m + month_length leap m

-- The days before a year.
unfoldable pub before_year : ℕ → ℕ
before_year y = 365 * y + (y + 3) / 4 + (y + 399) / 400 - (y + 99) / 100

-- The day of a year, a month from 0 and a day of the month from 0.
unfoldable pub ordinal : ℕ → ℕ → ℕ → ℕ
ordinal y m d = before_year y + before_month (is_leap y) m + d

-- `Date.UTC(year, month - 1, day)`, in days: months past December count on into the next years.
unfoldable pub day_number : Ymd → ℕ
day_number v =
    let total = full_year v.year * 12 + v.month - 1 in
    ordinal (total / 12) (total % 12) 0 + v.day - 1

year_from : ℕ → ℕ → ℕ → ℕ
year_from zero y n = y
year_from (suc f) y n =
    let rest = year_from f (suc y) n in if leb (before_year (suc y)) n then rest else y

-- The year of a day: `n / 366` is none too late, and a few steps reach it.
unfoldable pub year_of : ℕ → ℕ
unfolding year_from
year_of n = year_from (suc n) (n / 366) n

month_from : Bool → ℕ → ℕ → ℕ → ℕ × ℕ
month_from leap zero m n = (m, n)
month_from leap (suc f) m n =
    let rest = month_from leap f (suc m) (n - month_length leap m) in
    if ltb n (month_length leap m) then (m, n) else rest

-- The month and the day in it, both from 0, of a day of a year.
unfoldable pub month_of : Bool → ℕ → ℕ × ℕ
unfolding month_from
month_of leap n = month_from leap 12 0 n

-- `getUTCFullYear`, `getUTCMonth` + 1 and `getUTCDate` of a day.
unfoldable pub civil : ℕ → Ymd
civil n =
    let y = year_of n in
    let (m, d) = month_of (is_leap y) (n - before_year y) in
    record { year = y; month = m + 1; day = d + 1 }
