-- ===== src/Budgets.antt =====
-- The periods of a budget: app/src/app/core/budgets/period.ts. `none` stands for the errors that dates
-- of no calendar throw. A window is asked for from the start of the budget on only, so that its index
-- is a natural number.
pub mod Spend
pub mod Search
pub mod FirstDays
pub mod Windows
pub mod Carry
mod Tests
use easy_docket.Base.{
  ℕ, zero, suc, ◌+◌, ◌-◌, ◌*◌, ◌/◌, Bool, true, false, Option, none, some, List, [], ◌∷◌,
  if◌then◌else◌, ◌>>=◌,
}
use easy_docket.Base.Int.{ℤ, pos, negsuc}
use easy_docket.Base.Text.{Text, ltb_text, leb_text}
use easy_docket.Dates.Civil.{Ymd, day_number}
use easy_docket.Dates.{parts, format, days_in_month, add_days, add_months}
use easy_docket.Models.Records.{BudgetPeriod, weekly, monthly, yearly, Budget}

-- `BudgetWindow`
pub record BudgetWindow : Type 0 where
  pub from : Text
  pub to : Text
  pub index : ℕ

-- `Anchor`
pub record Anchor : Type 0 where
  pub period : BudgetPeriod
  pub start_date : Text

unfoldable pub anchor_of : Budget → Anchor
anchor_of budget = record { period = budget.period; start_date = budget.start_date }

-- `parseDate`
unfoldable pub parse_date : Text → Option Ymd
parse_date date = parts date

-- `formatDate`
unfoldable pub format_date : Ymd → Text
format_date v = format v.year v.month v.day

-- `windowStart`
unfoldable pub window_start : Anchor → ℕ → Option Text
window_start anchor index = elim anchor.period [
  | weekly ↦ add_days anchor.start_date (pos (index * 7))
  | monthly ↦ add_months anchor.start_date (pos index)
  | yearly ↦ add_months anchor.start_date (pos (index * 12))
]

-- `dayBefore`
unfoldable pub day_before : Text → Option Text
day_before date = add_days date (negsuc 0)

-- `windowByIndex`
unfoldable pub window_by_index : Anchor → ℕ → Option BudgetWindow
window_by_index anchor index = window_start anchor index >>= λ from.
    window_start anchor (index + 1) >>= λ next.
    day_before next >>= λ to. some (record { from = from; to = to; index = index })

unfoldable pub periods_between : BudgetPeriod → Ymd → Ymd → ℕ
periods_between weekly start target = (day_number target - day_number start) / 7
periods_between monthly start target =
    target.year * 12 + target.month - (start.year * 12 + start.month)
periods_between yearly start target =
    (target.year * 12 + target.month - (start.year * 12 + start.month)) / 12

-- `estimateIndex`
unfoldable pub estimate_index : Anchor → Text → Option ℕ
estimate_index anchor date = parse_date anchor.start_date >>= λ start.
    parse_date date >>= λ target. some (periods_between anchor.period start target)

-- The first loop of `windowFor`: back while a window starts after the date.
unfoldable pub step_back : (ℕ → Option Text) → Text → ℕ → Option ℕ
step_back start date zero = some 0
step_back start date (suc index) =
    let rest = step_back start date index in
    start (suc index) >>= λ from. if ltb_text date from then rest else some (suc index)

-- The second loop: on while the next window starts on the date or before.
unfoldable pub step_on : (ℕ → Option Text) → Text → ℕ → ℕ → Option ℕ
step_on start date zero index = none
step_on start date (suc fuel) index =
    let rest = step_on start date fuel (index + 1) in
    start (index + 1) >>= λ next. if leb_text next date then rest else some index

-- The rounds of the second loop that the model allows; the estimate is never low, so one is enough.
abbrev pub rounds : ℕ
rounds = 2

unfoldable pub index_for : (ℕ → Option Text) → Text → ℕ → Option ℕ
index_for start date estimate =
    step_back start date estimate >>= λ index. step_on start date rounds index

-- `windowFor`; `some none` is its null.
unfoldable pub window_for : Anchor → Text → Option (Option BudgetWindow)
window_for anchor date =
    if ltb_text date anchor.start_date
    then some none
    else (estimate_index anchor date >>= λ estimate.
        index_for (window_start anchor) date estimate >>= λ index.
        window_by_index anchor index >>= λ window. some (some window))

-- `periodIndexFor`; `some none` is its null.
unfoldable pub period_index_for : Anchor → Text → Option (Option ℕ)
period_index_for anchor date = window_for anchor date >>= λ found.
    some (elim found [ none ↦ none | some window ↦ some window.index ])
