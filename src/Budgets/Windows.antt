-- ===== src/Budgets/Windows.antt =====
-- The window that `windowFor` of app/src/app/core/budgets/period.ts finds.
use easy_docket.Base.{
  ℕ, ◌+◌, ◌-◌, ◌≤◌, ◌<◌, ◌≡◌, ◌⊎◌, inl, inr, refl, sym, ap, subst, ◌∙◌, true, false, some, arith,
}
use easy_docket.Base.Int.{pos}
use easy_docket.Base.Text.{Text, ltb_text, ltb_text_irrefl, ltb_text_asym}
use easy_docket.Dates.Civil.{Ymd, day_number, civil}
use easy_docket.Dates.Civil.RoundTrip.{
  civil-day_number, day_number-civil, civil-IsDate, civil_year_mono,
}
use easy_docket.Dates.Written.{Fits, written}
use easy_docket.Dates.Shift.{
  IsStart, IsDate-Fits, parts-written, add_days-civil, civil_order, written_order,
  day_number-Earlier, day_number_min, add_days-civil_back,
}
use easy_docket.Dates.{add_days}
use easy_docket.Models.Records.{BudgetPeriod}
use easy_docket.Budgets.{
  window_start, estimate_index, periods_between, parse_date, BudgetWindow, day_before,
  window_by_index, window_for,
}
use easy_docket.Budgets.Search.{index_for_lem}
use easy_docket.Budgets.FirstDays.{
  first_day, anchored, window_start-first_day, first_day-zero, not_earlier, HasRoom,
  first_day-periods_between, first_day-IsStart,
}

-- The day before a later date: it is not earlier than the date, and the later date is the day after it.
day_before-later :
    (t v : Ymd)
    → IsStart t
    → IsStart v
    → ltb_text (written t) (written v) ≡ true
    → (to : Text) × (day_before (written v) ≡ some to)
      × (ltb_text to (written t) ≡ false)
      × (add_days to (pos 1) ≡ some (written v))
unfolding day_before
day_before-later t v k h lt = (
  written (civil (day_number v - 1)),
  add_days-civil_back v 0 h (omega (arith, after)),
  not_before (ltb_or_eq),
  next,
)
  where
    fits : Fits t
    fits = IsDate-Fits t k.date k.year_max

    after : day_number t < day_number v
    after = elim (written_order v t (IsDate-Fits v h.date h.year_max) fits) [
      | inl back ↦ ground (arith, ltb_text_asym (written v) (written t) back)
      | inr (inl same) ↦ ground (arith, ltb_text_irrefl (written t), ap written same)
      | inr (inr earlier) ↦ day_number-Earlier t v k.date h.date earlier
    ]

    lo : 36525 ≤ day_number t
    lo = day_number_min t k.date

    year_ok : (civil (day_number v - 1)).year < 10000
    year_ok = omega (
      arith,
      civil_year_mono (day_number v - 1) (day_number v) (omega arith),
      ap (λ (x : Ymd). x.year) (civil-day_number v h.date),
      h.year_max,
    )

    before : IsStart (civil (day_number v - 1))
    before = record {
      date = civil-IsDate (day_number v - 1) (omega (arith, lo, after));
      year_max = year_ok;
    }

    ltb_or_eq : (day_number t < day_number v - 1) ⊎ (day_number t ≡ day_number v - 1)
    ltb_or_eq = omega (arith, after)

    not_before :
        (day_number t < day_number v - 1) ⊎ (day_number t ≡ day_number v - 1)
        → ltb_text (written (civil (day_number v - 1))) (written t) ≡ false
    not_before (inl less) = ltb_text_asym (written t) (written (civil (day_number v - 1))) (
        ap (λ x. ltb_text (written x) (written (civil (day_number v - 1))))
          (sym (civil-day_number t k.date))
        ∙ civil_order (day_number t) (day_number v - 1) lo less
            (subst Fits (sym (civil-day_number t k.date)) fits) (IsDate-Fits _ before.date year_ok))
    not_before (inr same) =
        ap (λ x. ltb_text (written x) (written t)) (ap civil (sym same) ∙ civil-day_number t k.date)
        ∙ ltb_text_irrefl (written t)

    next : add_days (written (civil (day_number v - 1))) (pos 1) ≡ some (written v)
    next =
        add_days-civil (civil (day_number v - 1)) 1 before
        ∙ ap (λ n. some (written (civil n)))
            (omega (arith, day_number-civil (day_number v - 1) (omega (arith, lo, after)), after))
        ∙ ap (λ x. some (written x)) (civil-day_number v h.date)

-- For a budget with any period that starts in the years 100 to 9999 and a date from its start on, with
-- room for a period before the year 10000, `window_for` gives a window that holds the date: it starts on
-- the date or before and ends on the date or after. It is the window of its index, and the day after
-- its end is the start of the next one.
pub window_for-holds :
    (period : BudgetPeriod) (s t : Ymd)
    → IsStart s
    → IsStart t
    → HasRoom t
    → ltb_text (written t) (written s) ≡ false
    → (w : BudgetWindow) × (window_for (anchored period s) (written t) ≡ some (some w))
      × (ltb_text (written t) w.from ≡ false)
      × (ltb_text w.to (written t) ≡ false)
      × (window_start (anchored period s) w.index ≡ some w.from)
      × (window_start (anchored period s) (w.index + 1) ≡ add_days w.to (pos 1))
unfolding window_for estimate_index parse_date window_by_index
window_for-holds period s t h k room e =
    let (days, le) = not_earlier s t h k e in
    let estimate = periods_between period s t in
    let total : (i : ℕ)
        → window_start (anchored period s) i ≡ some (written (first_day period s i)) =
      λ i. window_start-first_day period s i h in
    let first : ltb_text (written t) (written (first_day period s 0)) ≡ false =
      ap (λ v. ltb_text (written t) (written v)) (first_day-zero period s h) ∙ e in
    let (i, within, found, low, high) =
      index_for_lem (window_start (anchored period s)) (λ j. written (first_day period s j))
        (written t) total first estimate (first_day-periods_between period s t h k room days le) in
    let v = first_day period s (i + 1) in
    let start : IsStart v = first_day-IsStart period s t i h k room days le within in
    let (to, ended, late, next) = day_before-later t v k start high in
    (
      record { from = written (first_day period s i); to = to; index = i },
      rw (e, parts-written s h, parts-written t k, found, total i, total (i + 1), ended) refl,
      low,
      late,
      total i,
      total (i + 1) ∙ sym next,
    )
