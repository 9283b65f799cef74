-- ===== src/Dates.antt =====
-- Calendar arithmetic on `YYYY-MM-DD` texts: app/src/app/core/util/dates.ts. What the code asks of
-- JavaScript's `Date` is the Gregorian calendar of Dates/Civil.antt.
pub mod Civil
pub mod Written
pub mod Shift
pub mod Months
pub mod Ranges
mod Tests
use easy_docket.Base.{
  ℕ, zero, suc, ◌+◌, ◌-◌, ◌*◌, ◌/◌, ◌%◌, Bool, ◌&&◌, Option, none, some, List, [], ◌∷◌, ◌++◌,
  if◌then◌else◌, leb, ltb, ◌==◌, min, take, drop, ◌>>=◌,
}
use easy_docket.Base.Int.{ℤ, pos, negsuc}
use easy_docket.Base.Text.{Text, ltb_text, leb_text}
use easy_docket.Base.Digits.{to_string, pad_start, parse_digits}
use easy_docket.Dates.Civil.{Ymd, full_year, month_length, is_leap, day_number, civil}

-- The bounds of a range are both in it.
pub record DateRange : Type 0 where
  pub from : Text
  pub to : Text

unfoldable pub is_digit : ℕ → Bool
is_digit c = leb b'0' c && leb c b'9'

unfoldable pub digit : ℕ → ℕ
digit c = c - b'0'

-- `parts`; `none` stands for the error that it throws.
unfoldable pub parts : Text → Option Ymd
parts (a ∷ b ∷ c ∷ d ∷ s ∷ e ∷ f ∷ t ∷ g ∷ h ∷ []) =
    if is_digit a
      && is_digit b
      && is_digit c
      && is_digit d
      && is_digit e
      && is_digit f
      && is_digit g
      && is_digit h
      && s == b'-'
      && t == b'-'
    then some (record {
      year = digit a * 1000 + digit b * 100 + digit c * 10 + digit d;
      month = digit e * 10 + digit f;
      day = digit g * 10 + digit h;
    })
    else none
parts _ = none

-- `format`
unfoldable pub format : ℕ → ℕ → ℕ → Text
format year month day =
    pad_start 4 b'0' (to_string 10 year)
    ++ (b'-'
        ∷ (pad_start 2 b'0' (to_string 10 month) ++ (b'-' ∷ pad_start 2 b'0' (to_string 10 day))))

-- `daysInMonth`: the day before the first of the next month, in the years that `Date` reads.
unfoldable pub days_in_month : ℕ → ℕ → ℕ
days_in_month year month =
    let total = full_year year * 12 + month - 1 in month_length (is_leap (total / 12)) (total % 12)

-- `addDays`; `none` also stands for a date before the year 0.
unfoldable pub add_days : Text → ℤ → Option Text
add_days date days = parts date >>= λ v.
    let n = day_number v in
    let shown = λ (k : ℕ). (let w = civil k in some (format w.year w.month w.day)) in
    elim days [ pos k ↦ shown (n + k) | negsuc k ↦ if ltb k n then shown (n - suc k) else none ]

-- The date a number of months after year 0, with the day clamped to the month.
month_date : ℕ → ℕ → Text
month_date absolute day =
    let year = absolute / 12 in
    let month = absolute % 12 + 1 in format year month (min day (days_in_month year month))

-- `addMonths`; `none` also stands for a month before the year 0.
unfoldable pub add_months : Text → ℤ → Option Text
unfolding month_date
add_months date months = parts date >>= λ v.
    let base = v.year * 12 + v.month in
    elim months [
      | pos k ↦ if leb 1 (base + k) then some (month_date (base + k - 1) v.day) else none
      | negsuc k ↦ if leb (k + 2) base then some (month_date (base - (k + 2)) v.day) else none
    ]

-- `monthKey`
unfoldable pub month_key : Text → Text
month_key date = take 7 date

-- `within`
unfoldable pub within : Text → DateRange → Bool
within date range = leb_text range.from date && leb_text date range.to
