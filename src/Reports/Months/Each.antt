-- ===== src/Reports/Months/Each.antt =====
-- What each month of `flowByMonth` of app/src/app/core/reports/aggregate.ts takes.
use easy_docket.Base.{
  ◌≡◌, inl, inr, refl, sym, ◌∙◌, ap, true, false, ◌&&◌, Option, none, some, List, [], ◌∷◌, map, All,
  subst, arith, Bool-cases,
}
use easy_docket.Base.Int.{pos, ◌+ℤ◌, ◌-ℤ◌}
use easy_docket.Base.Int.Laws.{plus_assoc, zero_plus, plus_zero}
use easy_docket.Base.Int.Sums.{sum_by, when}
use easy_docket.Base.Text.{Text, eq_text, eq_text→eq, eq_text_refl}
use easy_docket.Conversion.{Double, Outcome, value, bad_rate, in_reporting}
use easy_docket.Dates.{DateRange, within, month_key}
use easy_docket.Dates.Ranges.Apart.{Apart}
use easy_docket.Models.Records.{Minor, Transaction, TransactionKind, income, expense, transfer}
use easy_docket.Reports.{add_kind}
use easy_docket.Reports.Months.{MonthlyFlow, empty_flow, add_flow, add_to_month, with_net}

-- What an amount is of the income, or of the expense.
abbrev pub earned_of : TransactionKind → Outcome (Option Minor) → Minor
earned_of income (value (some amount)) = amount
earned_of income (value none) = pos 0
earned_of income bad_rate = pos 0
earned_of expense converted = pos 0
earned_of transfer converted = pos 0

abbrev pub spent_of : TransactionKind → Outcome (Option Minor) → Minor
spent_of expense (value (some amount)) = amount
spent_of expense (value none) = pos 0
spent_of expense bad_rate = pos 0
spent_of income converted = pos 0
spent_of transfer converted = pos 0

add_kind_parts :
    (kind : TransactionKind) (converted : Option Minor) (i x : Minor)
    → add_kind kind converted (i, x)
      ≡ (i +ℤ earned_of kind (value converted), x +ℤ spent_of kind (value converted))
unfolding add_kind
add_kind_parts income (some amount) i x = λ n. (i +ℤ amount, sym (plus_zero x) n)
add_kind_parts income none i x = λ n. (sym (plus_zero i) n, sym (plus_zero x) n)
add_kind_parts expense (some amount) i x = λ n. (sym (plus_zero i) n, x +ℤ amount)
add_kind_parts expense none i x = λ n. (sym (plus_zero i) n, sym (plus_zero x) n)
add_kind_parts transfer (some amount) i x = λ n. (sym (plus_zero i) n, sym (plus_zero x) n)
add_kind_parts transfer none i x = λ n. (sym (plus_zero i) n, sym (plus_zero x) n)

-- The months of the buckets.
abbrev pub months_of : List MonthlyFlow → List Text
months_of = map (λ bucket. bucket.month)

abbrev pub plus : Minor → Minor → MonthlyFlow → MonthlyFlow
plus i x bucket = record bucket { income = bucket.income +ℤ i; expense = bucket.expense +ℤ x }

module _ {W : Type 0} (double : Double W) (reporting : Text) (range : DateRange) where
  -- The income, and the expense, of a month: what the transactions of the range dated in it convert to.
  abbrev pub earned_in : Text → List (Transaction W) → Minor
  earned_in month = sum_by (λ t.
      when (within t.date range && eq_text (month_key t.date) month)
        (earned_of t.kind (in_reporting double t reporting)))

  abbrev pub spent_in : Text → List (Transaction W) → Minor
  spent_in month = sum_by (λ t.
      when (within t.date range && eq_text (month_key t.date) month)
        (spent_of t.kind (in_reporting double t reporting)))

  abbrev pub flow_of : List (Transaction W) → Text → MonthlyFlow
  flow_of ts month = record {
    month = month;
    income = earned_in month ts;
    expense = spent_in month ts;
    net = earned_in month ts -ℤ spent_in month ts;
  }

  -- A bucket once some transactions have been taken in.
  abbrev pub filled : List (Transaction W) → MonthlyFlow → MonthlyFlow
  filled ts bucket = plus (earned_in bucket.month ts) (spent_in bucket.month ts) bucket

  pub filled_none : (buckets : List MonthlyFlow) → buckets ≡ map (filled []) buckets
  filled_none [] = refl
  filled_none (bucket ∷ buckets) = λ n.
      record bucket {
        income = sym (plus_zero bucket.income) n;
        expense = sym (plus_zero bucket.expense) n;
      }
      ∷ filled_none buckets n

  pub filled_outside :
      (t : Transaction W) (ts : List (Transaction W)) (buckets : List MonthlyFlow)
      → within t.date range ≡ false
      → map (filled ts) buckets ≡ map (filled (t ∷ ts)) buckets
  filled_outside t ts [] out = refl
  filled_outside t ts (bucket ∷ buckets) out = rw out (λ n.
      plus (sym (zero_plus (earned_in bucket.month ts)) n)
        (sym (zero_plus (spent_in bucket.month ts)) n) bucket
      ∷ filled_outside t ts buckets out n)

  module _ (t : Transaction W) (ts : List (Transaction W)) (converted : Option Minor)
      (here : within t.date range ≡ true)
      (c : in_reporting double t reporting ≡ value converted) where
    other_month :
        (bucket : MonthlyFlow)
        → eq_text (month_key t.date) bucket.month ≡ false
        → filled ts bucket ≡ filled (t ∷ ts) bucket
    other_month bucket differ =
        rw (here, differ)
          (λ n.
            plus (sym (zero_plus (earned_in bucket.month ts)) n)
              (sym (zero_plus (spent_in bucket.month ts)) n) bucket)

    other_months :
        (buckets : List MonthlyFlow)
        → All (λ month. eq_text (month_key t.date) month ≡ false) (months_of buckets)
        → map (filled ts) buckets ≡ map (filled (t ∷ ts)) buckets
    other_months [] differ = refl
    other_months (bucket ∷ buckets) (differ, rest) =
        λ n. other_month bucket differ n ∷ other_months buckets rest n

    own_month :
        (bucket : MonthlyFlow)
        → bucket.month ≡ month_key t.date
        → filled ts (add_flow t.kind converted bucket) ≡ filled (t ∷ ts) bucket
    unfolding add_flow
    own_month bucket same =
        let earned = earned_in bucket.month ts in
        let spent = spent_in bucket.month ts in
        let sums = add_kind_parts t.kind converted bucket.income bucket.expense in
        let i =
          ap (λ (s : Minor × Minor). s.0 +ℤ earned) sums
          ∙ plus_assoc bucket.income (earned_of t.kind (value converted)) earned
          ∙ ap (λ y. bucket.income +ℤ (y +ℤ earned)) (sym (rw (here, own, c) refl)) in
        let x =
          ap (λ (s : Minor × Minor). s.1 +ℤ spent) sums
          ∙ plus_assoc bucket.expense (spent_of t.kind (value converted)) spent
          ∙ ap (λ y. bucket.expense +ℤ (y +ℤ spent)) (sym (rw (here, own, c) refl)) in
        λ n. record bucket { income = i n; expense = x n }
      where
        own : eq_text (month_key t.date) bucket.month ≡ true
        own = rw same (eq_text_refl (month_key t.date))

    -- A transaction adds to the bucket of its month alone.
    pub filled_inside :
        (buckets : List MonthlyFlow)
        → Apart (months_of buckets)
        → map (filled ts) (add_to_month (month_key t.date) t.kind converted buckets)
          ≡ map (filled (t ∷ ts)) buckets
    unfolding add_to_month
    filled_inside [] apart = refl
    filled_inside (bucket ∷ buckets) (first, apart) =
        elim (Bool-cases (eq_text bucket.month (month_key t.date))) [
          | inl same ↦
              (let e = eq_text→eq bucket.month (month_key t.date) same in
                rw same (λ n.
                  own_month bucket e n
                  ∷ other_months buckets
                      (subst (λ m. All (λ month. eq_text m month ≡ false) (months_of buckets)) e
                        first)
                      n))
          | inr differ ↦ rw differ (λ n.
              other_month bucket (turned bucket.month (month_key t.date) differ) n
              ∷ filled_inside buckets apart n)
        ]
      where
        turned : (a b : Text) → eq_text a b ≡ false → eq_text b a ≡ false
        turned a b h = ground (arith, eq_text→eq b a, eq_text_refl a)

  pub flows_of :
      (ts : List (Transaction W)) (months : List Text)
      → map with_net (map (filled ts) (map empty_flow months)) ≡ map (flow_of ts) months
  unfolding with_net empty_flow
  flows_of ts [] = refl
  flows_of ts (month ∷ months) = λ n.
      (let earned = zero_plus (earned_in month ts) n in
        let spent = zero_plus (spent_in month ts) n in
        record { month = month; income = earned; expense = spent; net = earned -ℤ spent })
      ∷ flows_of ts months n

-- Taking in an amount leaves the months as they are.
pub add_to_month-months_of :
    (key : Text) (kind : TransactionKind) (converted : Option Minor) (buckets : List MonthlyFlow)
    → months_of (add_to_month key kind converted buckets) ≡ months_of buckets
unfolding add_to_month add_flow
add_to_month-months_of key kind converted [] = refl
add_to_month-months_of key kind converted (bucket ∷ buckets) =
    elim (Bool-cases (eq_text bucket.month key)) [
      | inl same ↦ rw same refl
      | inr differ ↦
          rw differ
            (ap (λ ms. bucket.month ∷ ms) (add_to_month-months_of key kind converted buckets))
    ]

pub empty_flow-months_of : (months : List Text) → months_of (map empty_flow months) ≡ months
unfolding empty_flow
empty_flow-months_of [] = refl
empty_flow-months_of (month ∷ months) = ap (λ ms. month ∷ ms) (empty_flow-months_of months)
