-- ===== src/Dates/Civil/RoundTrip.antt =====
-- Days and dates of the Gregorian calendar are in one-to-one correspondence from the year 100 on, and
-- the correspondence keeps the order.
use easy_docket.Base.{ℕ, suc, ◌+◌, ◌-◌, ◌*◌, ◌/◌, ◌%◌, ◌≤◌, ◌<◌, ◌≡◌, refl, ap, ◌∙◌, arith}
use easy_docket.Dates.Civil.{
  Ymd, full_year, is_leap, month_length, before_month, before_year, ordinal, day_number, year_of,
  month_of, civil,
}
use easy_docket.Dates.Civil.Laws.{
  year_length, before_year-suc, before_year_le, year_of_lem, year_of-ordinal, month_of_lem,
  month_of-before, year_length_lem, before_month_le, before_month-suc,
}

-- A date of the calendar. The years below 100 are read as others by `Date`.
pub record IsDate (v : Ymd) : Type 0 where
  pub year_min : 100 ≤ v.year
  pub month_min : 1 ≤ v.month
  pub month_max : v.month ≤ 12
  pub day_min : 1 ≤ v.day
  pub day_max : v.day ≤ month_length (is_leap v.year) (v.month - 1)

total_month :
    (y m : ℕ) → 1 ≤ m → m ≤ 12 → ((y * 12 + m - 1) / 12 ≡ y) × ((y * 12 + m - 1) % 12 ≡ m - 1)
total_month y m h k = omega arith

-- The number of a date: the days before its year, before its month in the year, and before it.
pub day_number_lem :
    (v : Ymd)
    → IsDate v
    → day_number v
      ≡ before_year v.year + (before_month (is_leap v.year) (v.month - 1) + (v.day - 1))
unfolding day_number ordinal full_year
day_number_lem v h =
    let (a, b) = total_month v.year v.month h.month_min h.month_max in
    ground (arith, a, b, ap is_leap a, h.year_min, h.day_min)

pub before_year_century : before_year 100 ≡ 36525
unfolding before_year
before_year_century = refl

pub in_year :
    (v : Ymd)
    → IsDate v
    → before_month (is_leap v.year) (v.month - 1) + (v.day - 1) < year_length v.year
in_year v h =
    let leap = is_leap v.year in
    ground (
      arith,
      year_length_lem v.year,
      before_month-suc leap (v.month - 1),
      before_month_le leap (suc (v.month - 1)) 12,
      h.day_min,
      h.day_max,
      h.month_max,
      h.month_min,
    )

-- A date is read back from its number.
pub civil-day_number : (v : Ymd) → IsDate v → civil (day_number v) ≡ v
unfolding civil
civil-day_number v h =
    let leap = is_leap v.year in
    let r = before_month leap (v.month - 1) + (v.day - 1) in
    let e : day_number v ≡ before_year v.year + r = day_number_lem v h in
    let y : year_of (day_number v) ≡ v.year =
      ap year_of e ∙ year_of-ordinal v.year r (in_year v h) in
    let rest : day_number v - before_year v.year ≡ r = omega (arith, e) in
    let md : month_of leap (day_number v - before_year v.year) ≡ (v.month - 1, v.day - 1) =
      rw rest (
        month_of-before leap (v.month - 1) (v.day - 1) (omega (arith, h.day_min, h.day_max))
          (omega (arith, h.month_min, h.month_max))) in
    ground (arith, y, md, ap is_leap y, ap before_year y, h.month_min, h.day_min)

module _ (n : ℕ) where
  rest_bound : n - before_year (year_of n) < before_month (is_leap (year_of n)) 12
  rest_bound =
      ground (arith, year_of_lem n, before_year-suc (year_of n), year_length_lem (year_of n))

  year_of_min : 36525 ≤ n → 100 ≤ year_of n
  year_of_min h =
      ground (arith, year_of_lem n, before_year_le (suc (year_of n)) 100, before_year_century)

  -- Every day from the year 100 on has a date.
  pub civil-IsDate : 36525 ≤ n → IsDate (civil n)
  unfolding civil
  civil-IsDate h = ground (
    arith,
    month_of_lem (is_leap (year_of n)) (n - before_year (year_of n)) rest_bound,
    year_of_min h,
  )

  -- The number of the date of a day is that day.
  pub day_number-civil : 36525 ≤ n → day_number (civil n) ≡ n
  unfolding civil
  day_number-civil h =
      day_number_lem (civil n) (civil-IsDate h)
      ∙ ground (
        arith,
        month_of_lem (is_leap (year_of n)) (n - before_year (year_of n)) rest_bound,
        year_of_lem n,
      )

pub civil_year_mono : (m n : ℕ) → m ≤ n → (civil m).year ≤ (civil n).year
unfolding civil
civil_year_mono m n h =
    ground (arith, year_of_lem m, year_of_lem n, before_year_le (suc (year_of n)) (year_of m))
