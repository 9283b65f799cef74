-- ===== src/Dates/Shift.antt =====
-- `addDays` and `addMonths` of app/src/app/core/util/dates.ts on dates of the calendar.
use easy_docket.Base.{
  ℕ, suc, ◌+◌, ◌-◌, ◌≤◌, ◌<◌, ◌≡◌, ◌⊎◌, inl, inr, sym, ap, ◌∙◌, Bool, true, some, arith, ◌>>=◌,
}
use easy_docket.Base.Int.{pos, negsuc}
use easy_docket.Base.Text.{Text, ltb_text}
use easy_docket.Dates.Civil.{Ymd, is_leap, month_length, day_number, civil}
use easy_docket.Dates.Civil.Laws.{
  before_year_le, before_month_le, before_month-suc, before_year-suc,
}
use easy_docket.Dates.Civil.RoundTrip.{
  IsDate, before_year_century, day_number_lem, in_year, civil-day_number, civil-IsDate,
  day_number-civil, civil_year_mono,
}
use easy_docket.Dates.Written.{Fits, written, format_order, parts-format}
use easy_docket.Dates.{parts, add_days}

month_length_le : (leap : Bool) (m : ℕ) → month_length leap m ≤ 31
unfolding month_length
month_length_le leap m = ground arith

-- A date of the calendar up to the year 9999.
pub IsDate-Fits : (v : Ymd) → IsDate v → v.year < 10000 → Fits v
IsDate-Fits v h y =
    ground (arith, month_length_le (is_leap v.year) (v.month - 1), h.month_max, h.day_max)

-- The order of dates by year, month and day.
abbrev pub Earlier : Ymd → Ymd → Type 0
Earlier v w =
    (v.year < w.year)
    ⊎ ((v.year ≡ w.year) × ((v.month < w.month) ⊎ ((v.month ≡ w.month) × (v.day < w.day))))

pub day_number-Earlier :
    (v w : Ymd) → IsDate v → IsDate w → Earlier v w → day_number v < day_number w
day_number-Earlier v w h k (inl y) = ground (
  arith,
  day_number_lem v h,
  day_number_lem w k,
  in_year v h,
  before_year-suc v.year,
  before_year_le (suc v.year) w.year,
)
day_number-Earlier v w h k (inr (y, inl m)) = ground (
  arith,
  day_number_lem v h,
  day_number_lem w k,
  before_month-suc (is_leap v.year) (v.month - 1),
  before_month_le (is_leap v.year) (suc (v.month - 1)) (w.month - 1),
  h.day_max,
  h.day_min,
  h.month_min,
)
day_number-Earlier v w h k (inr (y, inr (m, d))) =
    ground (arith, day_number_lem v h, day_number_lem w k, h.day_min)

pub written_order :
    (v w : Ymd)
    → Fits v
    → Fits w
    → (ltb_text (written v) (written w) ≡ true) ⊎ ((v ≡ w) ⊎ Earlier w v)
written_order v w h k = ground (arith, format_order v w h k)

-- Later days have later texts.
pub civil_order :
    (m n : ℕ)
    → 36525 ≤ m
    → m < n
    → Fits (civil m)
    → Fits (civil n)
    → ltb_text (written (civil m)) (written (civil n)) ≡ true
civil_order m n lo lt fm fn = elim (written_order (civil m) (civil n) fm fn) [
  | inl h ↦ h
  | inr (inl same) ↦
      absurd (omega (arith, ap day_number same, day_number-civil m lo, day_number-civil n hi))
  | inr (inr back) ↦ absurd (
      omega (
        arith,
        day_number-Earlier (civil n) (civil m) (civil-IsDate n hi) (civil-IsDate m lo) back,
        day_number-civil m lo,
        day_number-civil n hi,
      ))
]
  where
    hi : 36525 ≤ n
    hi = omega arith

-- The dates that the theorems below start from.
pub record IsStart (v : Ymd) : Type 0 where
  pub date : IsDate v
  pub year_max : v.year < 10000

pub parts-written : (v : Ymd) → IsStart v → parts (written v) ≡ some v
parts-written v h = parts-format v (IsDate-Fits v h.date h.year_max)

-- Adding days to a date gives the date of the day that many days on.
pub add_days-civil :
    (v : Ymd) (k : ℕ)
    → IsStart v
    → add_days (written v) (pos k) ≡ some (written (civil (day_number v + k)))
unfolding add_days
add_days-civil v k h = rw (parts-written v h)

-- Whole days before a date, while they do not reach behind the year 0.
pub add_days-civil_back :
    (v : Ymd) (k : ℕ)
    → IsStart v
    → k < day_number v
    → add_days (written v) (negsuc k) ≡ some (written (civil (day_number v - suc k)))
unfolding add_days
add_days-civil_back v k h lt = rw (parts-written v h) (ground arith)

pub day_number_min : (v : Ymd) → IsDate v → 36525 ≤ day_number v
day_number_min v h =
    ground (arith, day_number_lem v h, before_year_le 100 v.year, before_year_century, h.year_min)

civil-IsStart :
    (v : Ymd) (k : ℕ)
    → IsStart v
    → (civil (day_number v + k)).year < 10000
    → IsStart (civil (day_number v + k))
civil-IsStart v k h y = record {
  date = civil-IsDate (day_number v + k) (omega (arith, day_number_min v h.date));
  year_max = y;
}

-- Days add up: from a date of the years 100 to 9999, adding `a` days and then `b` is adding `a + b`,
-- if the date between them is before the year 10000.
pub add_days_sum :
    (v : Ymd) (a b : ℕ)
    → IsStart v
    → (civil (day_number v + a)).year < 10000
    → (add_days (written v) (pos a) >>= λ d. add_days d (pos b))
      ≡ add_days (written v) (pos (a + b))
add_days_sum v a b h y = rw (add_days-civil v a h) (
    add_days-civil (civil (day_number v + a)) b (civil-IsStart v a h y)
    ∙ ap (λ n. some (written (civil n)))
        (omega
          (arith, day_number-civil (day_number v + a) (omega (arith, day_number_min v h.date))))
    ∙ sym (add_days-civil v (a + b) h))

-- Going on some days, at least one, and as many back gives the date again, for dates of the years 100
-- to 9999 whose target is before the year 10000.
pub add_days_back :
    (v : Ymd) (k : ℕ)
    → IsStart v
    → (civil (day_number v + suc k)).year < 10000
    → (add_days (written v) (pos (suc k)) >>= λ d. add_days d (negsuc k)) ≡ some (written v)
add_days_back v k h y =
    let n = day_number-civil (day_number v + suc k) (omega (arith, day_number_min v h.date)) in
    rw (add_days-civil v (suc k) h) (
      add_days-civil_back (civil (day_number v + suc k)) k (civil-IsStart v (suc k) h y)
        (omega (arith, n))
      ∙ ap (λ m. some (written (civil m))) (omega (arith, n))
      ∙ ap (λ w. some (written w)) (civil-day_number v h.date))

-- More days give a later text, up to the year 9999.
pub add_days_mono :
    (v : Ymd) (a b : ℕ) (d e : Text)
    → IsStart v
    → a < b
    → (civil (day_number v + b)).year < 10000
    → add_days (written v) (pos a) ≡ some d
    → add_days (written v) (pos b) ≡ some e
    → ltb_text d e ≡ true
add_days_mono v a b d e h lt y ed ee =
    let lo : 36525 ≤ day_number v + a = omega (arith, day_number_min v h.date) in
    let hi : 36525 ≤ day_number v + b = omega arith in
    let years = civil_year_mono (day_number v + a) (day_number v + b) (omega arith) in
    ground (
      arith,
      add_days-civil v a h,
      add_days-civil v b h,
      civil_order (day_number v + a) (day_number v + b) lo (omega arith)
          (IsDate-Fits (civil (day_number v + a)) (civil-IsDate (day_number v + a) lo)
            (omega arith))
          (IsDate-Fits (civil (day_number v + b)) (civil-IsDate (day_number v + b) hi)
            (omega arith)),
    )
