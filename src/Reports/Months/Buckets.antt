-- ===== src/Reports/Months/Buckets.antt =====
-- The sums over the buckets of the months of app/src/app/core/reports/aggregate.ts.
use easy_docket.Base.{
  ◌≡◌, inl, inr, refl, sym, ◌∙◌, ap, true, if◌then◌else◌, Option, none, some, List, [], ◌∷◌, map,
  In, arith, Bool-cases,
}
use easy_docket.Base.Int.{ℤ, pos, ◌+ℤ◌}
use easy_docket.Base.Int.Laws.{plus_assoc, zero_plus}
use easy_docket.Base.Int.Sums.{sum_by}
use easy_docket.Base.Text.{Text, eq_text, eq_text_refl}
use easy_docket.Models.Records.{Minor, TransactionKind, income, expense, transfer}
use easy_docket.Reports.{add_kind}
use easy_docket.Reports.Spending.{move_in}
use easy_docket.Reports.Months.{
  MonthlyFlow, empty_flow, has_bucket, add_flow, add_to_month, with_net,
}

abbrev pub incomes : List MonthlyFlow → ℤ
incomes = sum_by (λ bucket. bucket.income)

abbrev pub expenses : List MonthlyFlow → ℤ
expenses = sum_by (λ bucket. bucket.expense)

-- What an amount adds to the two sums does not depend on them.
add_kind_shift :
    (kind : TransactionKind) (converted : Option Minor) (i x j y : ℤ)
    → ((add_kind kind converted (i, x)).0 +ℤ j ≡ (add_kind kind converted (i +ℤ j, x +ℤ y)).0)
      × ((add_kind kind converted (i, x)).1 +ℤ y ≡ (add_kind kind converted (i +ℤ j, x +ℤ y)).1)
unfolding add_kind
add_kind_shift kind none i x j y = (refl, refl)
add_kind_shift income (some amount) i x j y = (move_in i amount j, refl)
add_kind_shift expense (some amount) i x j y = (refl, move_in x amount y)
add_kind_shift transfer (some amount) i x j y = (refl, refl)

add_kind_behind :
    (kind : TransactionKind) (converted : Option Minor) (i x j y : ℤ)
    → (i +ℤ (add_kind kind converted (j, y)).0 ≡ (add_kind kind converted (i +ℤ j, x +ℤ y)).0)
      × (x +ℤ (add_kind kind converted (j, y)).1 ≡ (add_kind kind converted (i +ℤ j, x +ℤ y)).1)
unfolding add_kind
add_kind_behind kind none i x j y = (refl, refl)
add_kind_behind income (some amount) i x j y = (sym (plus_assoc i j amount), refl)
add_kind_behind expense (some amount) i x j y = (refl, sym (plus_assoc x y amount))
add_kind_behind transfer (some amount) i x j y = (refl, refl)

-- An amount that finds its bucket is in the sums.
pub add_to_month-sums :
    (key : Text) (kind : TransactionKind) (converted : Option Minor) (buckets : List MonthlyFlow)
    → has_bucket key buckets ≡ true
    → let sums = add_kind kind converted (incomes buckets, expenses buckets) in
      (incomes (add_to_month key kind converted buckets) ≡ sums.0)
      × (expenses (add_to_month key kind converted buckets) ≡ sums.1)
unfolding has_bucket add_to_month add_flow
add_to_month-sums key kind converted [] h = cc
add_to_month-sums key kind converted (bucket ∷ buckets) h =
    elim (Bool-cases (eq_text bucket.month key)) [
      | inl same ↦ rw same (
          add_kind_shift kind converted bucket.income bucket.expense (incomes buckets)
            (expenses buckets))
      | inr other ↦
          (let (i, x) = add_to_month-sums key kind converted buckets (rw other at h) in
            let (j, y) =
              add_kind_behind kind converted bucket.income bucket.expense (incomes buckets)
                (expenses buckets) in
            rw other (ap (λ s. bucket.income +ℤ s) i ∙ j, ap (λ s. bucket.expense +ℤ s) x ∙ y))
    ]

-- The months of the buckets stay.
pub add_to_month-has_bucket :
    (other key : Text) (kind : TransactionKind) (converted : Option Minor)
    (buckets : List MonthlyFlow)
    → has_bucket other (add_to_month key kind converted buckets) ≡ has_bucket other buckets
unfolding has_bucket add_to_month add_flow
add_to_month-has_bucket other key kind converted [] = refl
add_to_month-has_bucket other key kind converted (bucket ∷ buckets) =
    elim (Bool-cases (eq_text bucket.month key)) [
      | inl same ↦ rw same refl
      | inr differ ↦ rw differ (
          ap (λ b. if eq_text bucket.month other then true else b)
            (add_to_month-has_bucket other key kind converted buckets))
    ]

pub empty_flow-has_bucket :
    (key : Text) (months : List Text)
    → In key months
    → has_bucket key (map empty_flow months) ≡ true
unfolding has_bucket empty_flow
empty_flow-has_bucket key [] m = absurd m
empty_flow-has_bucket key (month ∷ months) (inl e) = rw (e, eq_text_refl month) refl
empty_flow-has_bucket key (month ∷ months) (inr m) =
    ground (arith, empty_flow-has_bucket key months m)

pub empty_flow-sums :
    (months : List Text)
    → (incomes (map empty_flow months) ≡ pos 0) × (expenses (map empty_flow months) ≡ pos 0)
unfolding empty_flow
empty_flow-sums [] = (refl, refl)
empty_flow-sums (month ∷ months) =
    let (i, x) = empty_flow-sums months in (zero_plus _ ∙ i, zero_plus _ ∙ x)

pub with_net-sums :
    (buckets : List MonthlyFlow)
    → (incomes (map with_net buckets) ≡ incomes buckets)
      × (expenses (map with_net buckets) ≡ expenses buckets)
unfolding with_net
with_net-sums [] = (refl, refl)
with_net-sums (bucket ∷ buckets) =
    let (i, x) = with_net-sums buckets in
    (ap (λ s. bucket.income +ℤ s) i, ap (λ s. bucket.expense +ℤ s) x)
