-- ===== src/Reports/Months/Flows.antt =====
-- `flowByMonth` and `totalsFor` of app/src/app/core/reports/aggregate.ts side by side.
use easy_docket.Base.{
  ◌+◌, ◌<◌, ◌≡◌, inl, inr, refl, sym, ◌∙◌, ap, true, false, Option, some, List, [], ◌∷◌, map, subst,
  In, All, Bool-cases,
}
use easy_docket.Base.Int.{pos}
use easy_docket.Base.Int.Sums.{sum_by}
use easy_docket.Base.Text.{Text}
use easy_docket.Conversion.{Double, value, in_reporting}
use easy_docket.Dates.Civil.{Ymd}
use easy_docket.Dates.Shift.{IsStart}
use easy_docket.Dates.Written.{written}
use easy_docket.Dates.{DateRange, within, month_key}
use easy_docket.Dates.Ranges.{months_in, max_months}
use easy_docket.Dates.Ranges.Cover.{month_number, months_in-some, months_in-In}
use easy_docket.Models.Records.{Minor, Transaction}
use easy_docket.Reports.{Totals, totals_from, totals_for}
use easy_docket.Reports.Spending.{
  Outcome-cases, value_inj, not_bad, totals_thrown, totals_after, outside, counted, thrown,
}
use easy_docket.Reports.Months.{
  MonthlyFlow, empty_flow, has_bucket, add_to_month, with_net, flow_from, flow_by_month,
}
use easy_docket.Reports.Months.Each.{
  months_of, flow_of, filled, filled_none, filled_outside, filled_inside, flows_of,
  add_to_month-months_of, empty_flow-months_of,
}
use easy_docket.Dates.Ranges.Apart.{Apart, months_in-Apart}
use easy_docket.Reports.Months.Buckets.{
  incomes, expenses, add_to_month-sums, add_to_month-has_bucket, empty_flow-has_bucket,
  empty_flow-sums, with_net-sums,
}

module _ {W : Type 0} (double : Double W) (reporting : Text) (range : DateRange) where
  -- A transaction in the range finds a bucket.
  abbrev Covered : List Text → Transaction W → Type 0
  Covered months t = within t.date range ≡ true → In (month_key t.date) months

  flow_outside :
      (t : Transaction W) (ts : List (Transaction W)) (buckets : List MonthlyFlow)
      → within t.date range ≡ false
      → flow_from double reporting range (t ∷ ts) buckets
        ≡ flow_from double reporting range ts buckets
  unfolding flow_from
  flow_outside t ts buckets out = rw out refl

  flow_counted :
      (t : Transaction W) (ts : List (Transaction W)) (converted : Option Minor)
      (buckets : List MonthlyFlow)
      → within t.date range ≡ true
      → has_bucket (month_key t.date) buckets ≡ true
      → in_reporting double t reporting ≡ value converted
      → flow_from double reporting range (t ∷ ts) buckets
        ≡ flow_from double reporting range ts
            (add_to_month (month_key t.date) t.kind converted buckets)
  unfolding flow_from
  flow_counted t ts converted buckets here found c = rw (here, found, c) refl

  flow_from-totals_from :
      (months : List Text) (ts : List (Transaction W)) (buckets : List MonthlyFlow)
      (sums : Minor × Minor)
      → All (Covered months) ts
      → ((key : Text) → In key months → has_bucket key buckets ≡ true)
      → Apart (months_of buckets)
      → totals_from double reporting range ts (incomes buckets, expenses buckets) ≡ value sums
      → (bs : List MonthlyFlow) × (flow_from double reporting range ts buckets ≡ value bs)
        × (incomes bs ≡ sums.0)
        × (expenses bs ≡ sums.1)
        × (bs ≡ map (filled double reporting range ts) buckets)
  unfolding flow_from totals_from
  flow_from-totals_from months [] buckets sums covered has apart e = (
    buckets,
    refl,
    ap (λ s. s.0) (value_inj e),
    ap (λ s. s.1) (value_inj e),
    filled_none double reporting range buckets,
  )
  flow_from-totals_from months (t ∷ ts) buckets sums covered has apart e =
      let before : Minor × Minor = (incomes buckets, expenses buckets) in
      elim (Bool-cases (within t.date range)) [
        | inr out ↦
            (let passed = (outside double reporting range [] t ts [] before out).0 in
              let (bs, run, i, x, each) =
                flow_from-totals_from months ts buckets sums covered.1 has apart (sym passed ∙ e) in
              (
                bs,
                flow_outside t ts buckets out ∙ run,
                i,
                x,
                each ∙ filled_outside double reporting range t ts buckets out,
              ))
        | inl here ↦ elim (Outcome-cases (in_reporting double t reporting)) [
          | inr bad ↦
              absurd (not_bad (sym (thrown double reporting range [] t ts before here bad) ∙ e))
          | inl (converted, c) ↦
              (let key = month_key t.date in
                let found = has key (covered.0 here) in
                let (i, x) = add_to_month-sums key t.kind converted buckets found in
                let after = add_to_month key t.kind converted buckets in
                let rest =
                  sym (counted double reporting range [] t ts converted before here c) ∙ e in
                let (bs, run, j, y, each) =
                  flow_from-totals_from months ts after sums covered.1
                    (λ k m. add_to_month-has_bucket k key t.kind converted buckets ∙ has k m)
                    (subst Apart (sym (add_to_month-months_of key t.kind converted buckets)) apart)
                    (ap (λ s. totals_from double reporting range ts s) (λ n. (i n, x n)) ∙ rest) in
                (
                  bs,
                  flow_counted t ts converted buckets here found c ∙ run,
                  j,
                  y,
                  each ∙ filled_inside double reporting range t ts converted here c buckets apart,
                ))
        ]
      ]

-- A transaction on a date of the calendar.
pub record Dated {W : Type 0} (t : Transaction W) : Type 0 where
  pub day : Ymd
  pub start : IsStart day
  pub shown : t.date ≡ written day

module _ {W : Type 0} (double : Double W) (reporting : Text) where
  Dated-Covered :
      (from to : Ymd) (months : List Text) (ts : List (Transaction W))
      → IsStart from
      → IsStart to
      → month_number to < month_number from + max_months
      → let range : DateRange = record { from = written from; to = written to } in
        months_in range ≡ some months
        → All Dated ts
        → All (Covered double reporting range months) ts
  Dated-Covered from to months [] f t near e dated = tt
  Dated-Covered from to months (t ∷ ts) f l near e (d, dated) = (
    λ here.
        subst (λ date. In (month_key date) months) (sym d.shown)
          (months_in-In from to d.day months f l d.start near e (
            subst (λ date. within date (record { from = written from; to = written to }) ≡ true)
              d.shown here)),
    Dated-Covered from to months ts f l near e dated,
  )

  flow_by_month_lem :
      (range : DateRange) (months : List Text) (ts : List (Transaction W)) (bs : List MonthlyFlow)
      → months_in range ≡ some months
      → flow_from double reporting range ts (map empty_flow months) ≡ value bs
      → flow_by_month double reporting range ts ≡ some (value (map with_net bs))
  unfolding flow_by_month
  flow_by_month_lem range months ts bs listed done = rw (listed, flow_by_month, done) refl

  -- Over a range between two dates of the calendar that lie less than 1,200 months apart, when all
  -- transactions have dates of the calendar and the totals come out, the flows come out, one for each
  -- month that the range lists, in order. The income and the expense of each are the sums of what the
  -- transactions of the range dated in the month convert to, by kind, the net is their difference, and
  -- over all months they add up to the totals: no transaction of the range misses its month.
  pub flow_by_month-totals_for :
      (from to : Ymd) (ts : List (Transaction W)) (totals : Totals)
      → IsStart from
      → IsStart to
      → month_number to < month_number from + max_months
      → All Dated ts
      → let range : DateRange = record { from = written from; to = written to } in
        totals_for double reporting range ts ≡ value totals
        → (months : List Text) × (flows : List MonthlyFlow) × (months_in range ≡ some months)
          × (flow_by_month double reporting range ts ≡ some (value flows))
          × (flows ≡ map (flow_of double reporting range ts) months)
          × (sum_by (λ f. f.income) flows ≡ totals.income)
          × (sum_by (λ f. f.expense) flows ≡ totals.expense)
  flow_by_month-totals_for from to ts totals f l near dated e =
      let range : DateRange = record { from = written from; to = written to } in
      let (months, listed) = months_in-some from to f l in
      let (i, x) = empty_flow-sums months in
      elim (Outcome-cases (totals_from double reporting range ts (pos 0, pos 0))) [
        | inr bad ↦ absurd (not_bad (sym (totals_thrown double reporting range ts bad) ∙ e))
        | inl (sums, run) ↦
            (let (bs, done, j, y, each) =
                flow_from-totals_from double reporting range months ts (map empty_flow months) sums
                  (Dated-Covered from to months ts f l near listed dated)
                  (λ key m. empty_flow-has_bucket key months m)
                  (subst Apart (sym (empty_flow-months_of months))
                    (months_in-Apart from to months f l listed))
                  (ap (λ s. totals_from double reporting range ts s) (λ n. (i n, x n)) ∙ run) in
              let (g, h) = with_net-sums bs in
              let same = value_inj (sym (totals_after double reporting range ts sums run) ∙ e) in
              (
                months,
                map with_net bs,
                listed,
                flow_by_month_lem range months ts bs listed done,
                ap (λ b. map with_net b) each ∙ flows_of double reporting range ts months,
                g ∙ j ∙ ap (λ t. t.income) same,
                h ∙ y ∙ ap (λ t. t.expense) same,
              ))
      ]
