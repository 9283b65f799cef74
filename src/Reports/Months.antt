-- ===== src/Reports/Months.antt =====
-- `flowByMonth` of app/src/app/core/reports/aggregate.ts: income and expense of each month of a range.
pub mod Buckets
pub mod Each
pub mod Flows
use easy_docket.Base.{
  ℕ, Bool, true, false, ◌&&◌, ◌||◌, Option, none, some, List, [], ◌∷◌, map, any, if◌then◌else◌,
}
use easy_docket.Base.Int.{pos, ◌-ℤ◌}
use easy_docket.Base.Text.{Text, eq_text}
use easy_docket.Conversion.{Double, Outcome, value, in_reporting, ◌>>=◌}
use easy_docket.Dates.{DateRange, within, month_key}
use easy_docket.Dates.Ranges.{months_in}
use easy_docket.Models.Records.{Minor, Transaction, TransactionKind}
use easy_docket.Reports.{add_kind}

-- `MonthlyFlow`
pub record MonthlyFlow : Type 0 where
  pub month : Text
  pub income : Minor
  pub expense : Minor
  pub net : Minor

unfoldable pub empty_flow : Text → MonthlyFlow
empty_flow month = record { month = month; income = pos 0; expense = pos 0; net = pos 0 }

-- `buckets.get(key)` finds a bucket.
unfoldable pub has_bucket : Text → List MonthlyFlow → Bool
has_bucket key = any (λ bucket. eq_text bucket.month key)

unfoldable pub add_flow : TransactionKind → Option Minor → MonthlyFlow → MonthlyFlow
add_flow kind converted bucket =
    let sums = add_kind kind converted (bucket.income, bucket.expense) in
    record bucket { income = sums.0; expense = sums.1 }

-- The bucket of a month takes an amount; the months of the buckets are all different.
unfoldable pub add_to_month :
    Text → TransactionKind → Option Minor → List MonthlyFlow → List MonthlyFlow
add_to_month key kind converted [] = []
add_to_month key kind converted (bucket ∷ buckets) =
    if eq_text bucket.month key
    then add_flow kind converted bucket ∷ buckets
    else bucket ∷ add_to_month key kind converted buckets

unfoldable pub with_net : MonthlyFlow → MonthlyFlow
with_net bucket = record bucket { net = bucket.income -ℤ bucket.expense }

module _ {W : Type 0} (double : Double W) (reporting : Text) (range : DateRange) where
  -- The loop of `flowByMonth` over the transactions.
  unfoldable pub flow_from : List (Transaction W) → List MonthlyFlow → Outcome (List MonthlyFlow)
  flow_from [] buckets = value buckets
  flow_from (t ∷ ts) buckets =
      if within t.date range && has_bucket (month_key t.date) buckets
      then (in_reporting double t reporting >>= λ converted.
          flow_from ts (add_to_month (month_key t.date) t.kind converted buckets))
      else flow_from ts buckets

  -- `flowByMonth`; `none` where the range begins with no date.
  unfoldable pub flow_by_month : List (Transaction W) → Option (Outcome (List MonthlyFlow))
  flow_by_month ts = elim (months_in range) [
    | none ↦ none
    | some months ↦
        some (flow_from ts (map empty_flow months) >>= λ buckets. value (map with_net buckets))
  ]
