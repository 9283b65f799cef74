-- ===== src/Budgets/FirstDays.antt =====
-- The first days of the periods of app/src/app/core/budgets/period.ts, as dates of the calendar.
use easy_docket.Base.{
  ℕ, ◌+◌, ◌-◌, ◌*◌, ◌/◌, ◌%◌, ◌≤◌, ◌<◌, ◌≡◌, inl, inr, sym, ap, subst, ◌∙◌, true, false, some,
  arith,
}
use easy_docket.Base.Text.{ltb_text}
use easy_docket.Dates.Civil.{Ymd, day_number, civil}
use easy_docket.Dates.Civil.RoundTrip.{civil-day_number, civil-IsDate, civil_year_mono}
use easy_docket.Dates.Written.{Fits, written, format_order}
use easy_docket.Dates.Shift.{
  IsStart, IsDate-Fits, add_days-civil, Earlier, civil_order, written_order, day_number-Earlier,
  day_number_min,
}
use easy_docket.Dates.Months.{
  clamped, clamped-IsDate, add_months-clamped, month_order, days_in_month_lem,
}
use easy_docket.Models.Records.{BudgetPeriod, weekly, monthly, yearly}
use easy_docket.Budgets.{Anchor, window_start, periods_between}

-- The first day of a period, as a date.
unfoldable pub first_day : BudgetPeriod → Ymd → ℕ → Ymd
first_day weekly s k = civil (day_number s + k * 7)
first_day monthly s k = clamped (s.year * 12 + s.month + k - 1) s.day
first_day yearly s k = clamped (s.year * 12 + s.month + k * 12 - 1) s.day

abbrev pub anchored : BudgetPeriod → Ymd → Anchor
anchored period s = record { period = period; start_date = written s }

pub window_start-first_day :
    (period : BudgetPeriod) (s : Ymd) (k : ℕ)
    → IsStart s
    → window_start (anchored period s) k ≡ some (written (first_day period s k))
unfolding window_start first_day
window_start-first_day weekly s k h = add_days-civil s (k * 7) h
window_start-first_day monthly s k h = add_months-clamped s k h
window_start-first_day yearly s k h = add_months-clamped s (k * 12) h

clamped_start : (s : Ymd) → IsStart s → clamped (s.year * 12 + s.month + 0 - 1) s.day ≡ s
clamped_start s h =
    let y : (s.year * 12 + s.month + 0 - 1) / 12 ≡ s.year =
      omega (arith, h.date.month_min, h.date.month_max) in
    let m : (s.year * 12 + s.month + 0 - 1) % 12 + 1 ≡ s.month =
      omega (arith, h.date.month_min, h.date.month_max) in
    let e = days_in_month_lem s.year s.month h.date.year_min h.date.month_min h.date.month_max in
    ground (arith, y, m, e, h.date.day_max)

pub first_day-zero : (period : BudgetPeriod) (s : Ymd) → IsStart s → first_day period s 0 ≡ s
unfolding first_day
first_day-zero weekly s h =
    let e : day_number s + 0 * 7 ≡ day_number s = omega arith in
    ap civil e ∙ civil-day_number s h.date
first_day-zero monthly s h = clamped_start s h
first_day-zero yearly s h = clamped_start s h

abbrev months : Ymd → ℕ
months v = v.year * 12 + v.month

-- A text that is not earlier is of no earlier day and no earlier month.
pub not_earlier :
    (s t : Ymd)
    → IsStart s
    → IsStart t
    → ltb_text (written t) (written s) ≡ false
    → (day_number s ≤ day_number t) × (months s ≤ months t)
not_earlier s t h k e =
    elim (written_order t s (IsDate-Fits t k.date k.year_max) (IsDate-Fits s h.date h.year_max)) [
      | inl early ↦ ground (arith, early)
      | inr (inl same) ↦ (omega (arith, ap day_number same), omega (arith, ap months same))
      | inr (inr later) ↦
          (omega (arith, day_number-Earlier s t h.date k.date later), later_months later)
    ]
  where
    later_months : Earlier s t → months s ≤ months t
    later_months (inl y) = omega (arith, h.date.month_max, k.date.month_min)
    later_months (inr (y, inl m)) = omega arith
    later_months (inr (y, inr (m, d))) = omega arith

-- A date in a later month has a later text.
later_month :
    (t : Ymd) (m day : ℕ)
    → IsStart t
    → months t ≤ m
    → m < 120000
    → 1 ≤ day
    → ltb_text (written t) (written (clamped m day)) ≡ true
later_month t m day k lt top d =
    let y : (months t - 1) / 12 ≡ t.year = omega (arith, k.date.month_min, k.date.month_max) in
    let r : (months t - 1) % 12 + 1 ≡ t.month = omega (arith, k.date.month_min, k.date.month_max) in
    let lo : 1200 ≤ m = omega (arith, k.date.year_min, k.date.month_min) in
    ground (
      arith,
      y,
      r,
      format_order t (clamped m day) (IsDate-Fits t k.date k.year_max)
          (IsDate-Fits _ (clamped-IsDate m day lo d) (omega arith)),
      month_order (months t - 1) m,
      k.date.month_min,
    )

-- There is room before the year 10000 for the period after a date.
pub record HasRoom (t : Ymd) : Type 0 where
  pub year_room : t.year < 9998
  pub week_room : (civil (day_number t + 7)).year < 10000

-- The estimate is not low.
pub first_day-periods_between :
    (period : BudgetPeriod) (s t : Ymd)
    → IsStart s
    → IsStart t
    → HasRoom t
    → day_number s ≤ day_number t
    → months s ≤ months t
    → ltb_text (written t) (written (first_day period s (periods_between period s t + 1))) ≡ true
unfolding first_day periods_between
first_day-periods_between weekly s t h k room le le' =
    let n = day_number s + ((day_number t - day_number s) / 7 + 1) * 7 in
    let after : day_number t < n = omega arith in
    let most : n ≤ day_number t + 7 = omega arith in
    let lo : 36525 ≤ day_number t = day_number_min t k.date in
    let years = civil_year_mono n (day_number t + 7) most in
    ap (λ v. ltb_text (written v) (written (civil n))) (sym (civil-day_number t k.date))
    ∙ civil_order (day_number t) n lo after
        (subst Fits (sym (civil-day_number t k.date)) (IsDate-Fits t k.date k.year_max))
        (IsDate-Fits (civil n) (civil-IsDate n (omega arith)) (omega (arith, room.week_room)))
first_day-periods_between monthly s t h k room le le' =
    later_month t _ s.day k (omega arith) (omega (arith, room.year_room, k.date.month_max))
      h.date.day_min
first_day-periods_between yearly s t h k room le le' =
    later_month t _ s.day k (omega arith) (omega (arith, room.year_room, k.date.month_max))
      h.date.day_min

-- The first day of the next period is a date before the year 10000.
pub first_day-IsStart :
    (period : BudgetPeriod) (s t : Ymd) (i : ℕ)
    → IsStart s
    → IsStart t
    → HasRoom t
    → day_number s ≤ day_number t
    → months s ≤ months t
    → i ≤ periods_between period s t
    → IsStart (first_day period s (i + 1))
unfolding first_day periods_between
first_day-IsStart weekly s t i h k room le le' within =
    let n = day_number s + (i + 1) * 7 in
    let most : n ≤ day_number t + 7 = omega arith in
    let lo : 36525 ≤ n = omega (arith, day_number_min s h.date) in
    record {
      date = civil-IsDate n lo;
      year_max = omega (arith, civil_year_mono n (day_number t + 7) most, room.week_room);
    }
first_day-IsStart monthly s t i h k room le le' within = record {
  date = clamped-IsDate _ s.day (omega (arith, h.date.year_min, h.date.month_min)) h.date.day_min;
  year_max = omega (arith, room.year_room, k.date.month_max);
}
first_day-IsStart yearly s t i h k room le le' within = record {
  date = clamped-IsDate _ s.day (omega (arith, h.date.year_min, h.date.month_min)) h.date.day_min;
  year_max = omega (arith, room.year_room, k.date.month_max);
}
