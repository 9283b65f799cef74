-- ===== src/Dates/Ranges.antt =====
-- Months as texts: `monthsIn`, `startOfMonth` and `endOfMonth` of app/src/app/core/util/dates.ts. Where a
-- slice is no number, which JavaScript reads as NaN, there is no result.
pub mod Cover
pub mod Apart
use easy_docket.Base.{
  ℕ, zero, suc, ◌+◌, Option, none, some, List, [], ◌∷◌, ◌++◌, if◌then◌else◌, ltb, take, drop, ◌>>=◌,
}
use easy_docket.Base.Text.{Text, codes, ltb_text, leb_text}
use easy_docket.Base.Digits.{to_string, pad_start, parse_digits}
use easy_docket.Dates.{DateRange, days_in_month, format, month_key}

-- The rounds that `monthsIn` makes at most.
abbrev pub max_months : ℕ
max_months = 1200

-- `YYYY-MM`
unfoldable pub month_text : ℕ → ℕ → Text
month_text year month =
    pad_start 4 b'0' (to_string 10 year) ++ (b'-' ∷ pad_start 2 b'0' (to_string 10 month))

-- The loop of `monthsIn`.
unfoldable pub months_from : ℕ → Text → ℕ → ℕ → List Text
months_from zero last year month = []
months_from (suc rounds) last year month =
    let key = month_text year month in
    let later =
      if ltb 12 (month + 1)
      then months_from rounds last (year + 1) 1
      else months_from rounds last year (month + 1) in
    key ∷ (if leb_text last key then [] else later)

-- `Number(text.slice(0, 4))` and `Number(text.slice(5, 7))`
unfoldable pub year_of : Text → Option ℕ
year_of text = parse_digits 10 (take 4 text)

unfoldable pub month_of : Text → Option ℕ
month_of text = parse_digits 10 (take 2 (drop 5 text))

-- `monthsIn`
unfoldable pub months_in : DateRange → Option (List Text)
months_in range =
    if ltb_text range.to range.from
    then some []
    else (year_of range.from >>= λ year. month_of range.from >>= λ month.
        some (months_from max_months (month_key range.to) year month))
