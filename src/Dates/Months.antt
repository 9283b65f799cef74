-- ===== src/Dates/Months.antt =====
-- `addMonths` of app/src/app/core/util/dates.ts on dates of the calendar.
use easy_docket.Base.{
  ℕ, ◌+◌, ◌-◌, ◌*◌, ◌/◌, ◌%◌, ◌≤◌, ◌<◌, ◌≡◌, ◌⊎◌, refl, ap, Bool, true, some, min, arith,
}
use easy_docket.Base.Int.{pos}
use easy_docket.Base.Text.{Text, ltb_text}
use easy_docket.Dates.Civil.{Ymd, full_year, is_leap, month_length}
use easy_docket.Dates.Civil.RoundTrip.{IsDate}
use easy_docket.Dates.Written.{written, format_order}
use easy_docket.Dates.Shift.{IsStart, IsDate-Fits, parts-written}
use easy_docket.Dates.{days_in_month, add_months}

pub month_length_min : (leap : Bool) (m : ℕ) → 28 ≤ month_length leap m
unfolding month_length
month_length_min leap m = ground arith

-- In the years that `Date` reads as they are, a month has its length.
pub days_in_month_lem :
    (y m : ℕ) → 100 ≤ y → 1 ≤ m → m ≤ 12 → days_in_month y m ≡ month_length (is_leap y) (m - 1)
unfolding days_in_month full_year
days_in_month_lem y m hy lo hi =
    let d : (y * 12 + m - 1) / 12 ≡ y = omega arith in
    let r : (y * 12 + m - 1) % 12 ≡ m - 1 = omega arith in ground (arith, d, r, ap is_leap d)

-- The date that `addMonths` finds, by the count of months from the year 0.
abbrev pub clamped : ℕ → ℕ → Ymd
clamped absolute day =
    let year = absolute / 12 in
    let month = absolute % 12 + 1 in
    record { year = year; month = month; day = min day (days_in_month year month) }

pub clamped-IsDate : (absolute day : ℕ) → 1200 ≤ absolute → 1 ≤ day → IsDate (clamped absolute day)
clamped-IsDate absolute day h lo =
    let y : 100 ≤ absolute / 12 = omega arith in
    let e = days_in_month_lem (absolute / 12) (absolute % 12 + 1) y (omega arith) (omega arith) in
    let low = month_length_min (is_leap (absolute / 12)) (absolute % 12 + 1 - 1) in
    record {
      year_min = y;
      month_min = omega arith;
      month_max = omega arith;
      day_min = omega (arith, e, low);
      day_max = omega (arith, e);
    }

pub add_months-clamped :
    (v : Ymd) (k : ℕ)
    → IsStart v
    → add_months (written v) (pos k)
      ≡ some (written (clamped (v.year * 12 + v.month + k - 1) v.day))
unfolding add_months
add_months-clamped v k h = rw (parts-written v h) (ground (arith, h.date.month_min))

-- Adding months to a date of the years 100 to 9999 lands in the month that many months on, on the same
-- day or, where the month is shorter, on its last day; the result is a date of the calendar.
pub add_months_clamps :
    (v : Ymd) (k : ℕ)
    → IsStart v
    → (w : Ymd) × (add_months (written v) (pos k) ≡ some (written w))
      × IsDate w
      × (w.year * 12 + w.month ≡ v.year * 12 + v.month + k)
      × (w.day ≡ min v.day (days_in_month w.year w.month))
add_months_clamps v k h =
    let absolute = v.year * 12 + v.month + k - 1 in
    (
      clamped absolute v.day,
      add_months-clamped v k h,
      clamped-IsDate absolute v.day (omega (arith, h.date.year_min, h.date.month_min))
          h.date.day_min,
      omega (arith, h.date.month_min),
      refl,
    )

pub month_order :
    (m n : ℕ) → m < n → (m / 12 < n / 12) ⊎ ((m / 12 ≡ n / 12) × (m % 12 + 1 < n % 12 + 1))
month_order m n h = omega arith

-- More months give a later text, up to the year 9999.
pub add_months_mono :
    (v : Ymd) (a b : ℕ) (d e : Text)
    → IsStart v
    → a < b
    → v.year * 12 + v.month + b ≤ 120000
    → add_months (written v) (pos a) ≡ some d
    → add_months (written v) (pos b) ≡ some e
    → ltb_text d e ≡ true
add_months_mono v a b d e h lt y ed ee =
    let m = v.year * 12 + v.month + a - 1 in
    let n = v.year * 12 + v.month + b - 1 in
    let lo : 1200 ≤ m = omega (arith, h.date.year_min, h.date.month_min) in
    let hi : 1200 ≤ n = omega arith in
    ground (
      arith,
      add_months-clamped v a h,
      add_months-clamped v b h,
      format_order (clamped m v.day) (clamped n v.day)
          (IsDate-Fits _ (clamped-IsDate m v.day lo h.date.day_min) (omega arith))
          (IsDate-Fits _ (clamped-IsDate n v.day hi h.date.day_min) (omega arith)),
      month_order m n,
    )
