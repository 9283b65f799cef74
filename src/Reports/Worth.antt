-- ===== src/Reports/Worth.antt =====
-- `netWorthOver` of app/src/app/core/reports/aggregate.ts: the net worth at the end of each month of a
-- range. A rate that is no positive number throws, as in the conversion.
pub mod Order
pub mod Points
pub mod Amounts
pub mod LastDays
pub mod Refused
pub mod Ends
use easy_docket.Base.{
  ℕ, ◌-◌, Bool, true, false, Option, none, some, List, [], ◌∷◌, ◌++◌, if◌then◌else◌,
}
use easy_docket.Base.Int.{ℤ, pos, ◌+ℤ◌, neg}
use easy_docket.Base.Text.{Text, ltb_text, leb_text}
use easy_docket.Base.Digits.{to_string, pad_start}
use easy_docket.Conversion.{Double, Outcome, value, in_reporting, same_currency, convert, ◌>>=◌}
use easy_docket.Dates.{DateRange, days_in_month}
use easy_docket.Dates.Ranges.{months_in, year_of, month_of}
use easy_docket.Models.Records.{
  Minor, Account, Transaction, TransactionKind, income, expense, transfer,
}

-- `NetWorthPoint`
pub record NetWorthPoint : Type 0 where
  pub date : Text
  pub amount : Minor

-- The end of a month, but no later than that of the range.
unfoldable pub clamp : Text → DateRange → Text
clamp end range = if ltb_text range.to end then range.to else end

unfoldable pub month_end : Text → ℕ → ℕ → Text
month_end month year number =
    month ++ (b'-' ∷ pad_start 2 b'0' (to_string 10 (days_in_month year number)))

unfoldable pub end_in : Text → DateRange → Option ℕ → Option ℕ → Option Text
end_in month range (some year) (some number) = some (clamp (month_end month year number) range)
end_in month range (some year) none = none
end_in month range none number = none

-- `lastDayOf`
unfoldable pub last_day_of : Text → DateRange → Option Text
last_day_of month range = end_in month range (year_of month) (month_of month)

-- An end and the later ends.
unfoldable pub join_ends : Option Text → Option (List Text) → Option (List Text)
join_ends (some end) (some ends) = some (end ∷ ends)
join_ends (some end) none = none
join_ends none ends = none

-- The ends of the months, one for each round of the loop.
unfoldable pub cutoffs : List Text → DateRange → Option (List Text)
cutoffs [] range = some []
cutoffs (month ∷ months) range = join_ends (last_day_of month range) (cutoffs months range)

-- `sort` by date, which is stable.
unfoldable pub insert_dated :
    {W : Type 0} → Transaction W → List (Transaction W) → List (Transaction W)
insert_dated t [] = t ∷ []
insert_dated t (other ∷ ts) =
    if leb_text t.date other.date then t ∷ other ∷ ts else other ∷ insert_dated t ts

unfoldable pub sort_dated : {W : Type 0} → List (Transaction W) → List (Transaction W)
sort_dated [] = []
sort_dated (t ∷ ts) = insert_dated t (sort_dated ts)

-- What a converted amount does to the worth.
unfoldable pub signed_by : TransactionKind → Option Minor → Minor
signed_by kind none = pos 0
signed_by income (some amount) = amount
signed_by expense (some amount) = neg amount
signed_by transfer (some amount) = pos 0

unfoldable pub is_transfer : TransactionKind → Bool
is_transfer income = false
is_transfer expense = false
is_transfer transfer = true

module _ {W : Type 0} (double : Double W) (reporting : Text) where
  -- `delta`
  unfoldable pub delta : Transaction W → Outcome Minor
  delta t =
      if is_transfer t.kind
      then value (pos 0)
      else in_reporting double t reporting >>= λ converted. value (signed_by t.kind converted)

  -- `convertOpening`
  unfoldable pub convert_opening : Minor → W → Text → Outcome Minor
  convert_opening amount rate currency =
      if same_currency currency reporting
      then value amount
      else convert double amount rate currency reporting

  -- What an account opens with; without a rate it is left out.
  unfoldable pub opening_of : (Text → Option W) → Account → Outcome Minor
  opening_of rate_for_currency account =
      if same_currency account.currency reporting
      then value account.opening_balance
      else elim (rate_for_currency account.currency) [
        | none ↦ value (pos 0)
        | some rate ↦ convert_opening account.opening_balance rate account.currency
      ]

  unfoldable pub openings : (Text → Option W) → List Account → Minor → Outcome Minor
  openings rate_for_currency [] sum = value sum
  openings rate_for_currency (account ∷ accounts) sum =
      opening_of rate_for_currency account >>= λ amount.
      openings rate_for_currency accounts (sum +ℤ amount)

  -- The inner loop: the transactions up to the end of a month.
  unfoldable pub advance :
      Text → List (Transaction W) → Minor → Outcome (Minor × List (Transaction W))
  advance cutoff [] running = value (running, [])
  advance cutoff (t ∷ ts) running =
      if leb_text t.date cutoff
      then (delta t >>= λ amount. advance cutoff ts (running +ℤ amount))
      else value (running, t ∷ ts)

  -- The outer loop.
  unfoldable pub points_from :
      List Text → List (Transaction W) → Minor → Outcome (List NetWorthPoint)
  points_from [] ordered running = value []
  points_from (cutoff ∷ ends) ordered running = advance cutoff ordered running >>= λ next.
      points_from ends next.1 next.0 >>= λ points.
      value (record { date = cutoff; amount = next.0 } ∷ points)

  -- The points at the ends of months.
  unfoldable pub net_worth_at :
      (Text → Option W)
      → List Account
      → List (Transaction W)
      → List Text
      → Outcome (List NetWorthPoint)
  net_worth_at rate_for_currency accounts ts ends =
      openings rate_for_currency accounts (pos 0) >>= λ opening.
      points_from ends (sort_dated ts) opening

  -- `netWorthOver`; `none` where the range begins with no date.
  unfoldable pub net_worth_over :
      (Text → Option W)
      → List Account
      → List (Transaction W)
      → DateRange
      → Option (Outcome (List NetWorthPoint))
  net_worth_over rate_for_currency accounts ts range = elim (months_in range) [
    | none ↦ none
    | some months ↦ elim (cutoffs months range) [
      | none ↦ none
      | some ends ↦ some (net_worth_at rate_for_currency accounts ts ends)
    ]
  ]
