-- ===== src/Reports/Worth/Amounts.antt =====
-- What the opening balances and the transactions are worth in the reporting currency, for `netWorthOver`
-- of app/src/app/core/reports/aggregate.ts.
use easy_docket.Base.{
  ◌≡◌, inl, inr, refl, sym, ◌∙◌, ap, false, Option, none, some, List, [], ◌∷◌, All, arith,
  if◌then◌else◌, Bool-cases, Option-cases,
}
use easy_docket.Base.Int.{ℤ, pos, neg, ◌+ℤ◌, ◌-ℤ◌, -ℤ_parts, eq_of_parts}
use easy_docket.Base.Int.Laws.{plus_assoc, plus_zero, zero_plus}
use easy_docket.Base.Int.Sums.{sum_by, sum_by_same, when}
use easy_docket.Base.Text.{Text, eq_text, leb_text}
use easy_docket.Conversion.{
  Double, Outcome, value, bad_rate, in_reporting, same_currency, convert, ◌>>=◌,
}
use easy_docket.Models.Records.{
  Minor, Account, Transaction, TransactionKind, income, expense, transfer,
}
use easy_docket.Money.{upper}
use easy_docket.Reports.Months.Each.{earned_of, spent_of}
use easy_docket.Reports.Spending.{value_inj}
use easy_docket.Reports.Worth.{
  NetWorthPoint, is_transfer, signed_by, delta, convert_opening, opening_of, openings,
}
use easy_docket.Reports.Worth.Order.{bind-value, or_zero, effect_by}
use easy_docket.Reports.Worth.Points.{Reckoned}

minus_zero : (a : ℤ) → a -ℤ pos 0 ≡ a
minus_zero a = eq_of_parts _ _ (ground (arith, -ℤ_parts a (pos 0)))

zero_minus : (a : ℤ) → pos 0 -ℤ a ≡ neg a
zero_minus a = eq_of_parts _ _ (ground (arith, -ℤ_parts (pos 0) a))

module _ {W : Type 0} (double : Double W) (reporting : Text) where
  -- What an account's opening balance is worth; nothing where its currency has no rate.
  abbrev pub rated : Option W → Account → Minor
  rated none account = pos 0
  rated (some rate) account =
      or_zero (convert double account.opening_balance rate account.currency reporting)

  abbrev pub opening_worth : (Text → Option W) → Account → Minor
  opening_worth rate_for_currency account =
      if eq_text (upper account.currency) (upper reporting)
      then account.opening_balance
      else rated (rate_for_currency account.currency) account

  -- What a transaction earned, less what it spent.
  abbrev pub change_of : Transaction W → Minor
  change_of t =
      earned_of t.kind (in_reporting double t reporting)
      -ℤ spent_of t.kind (in_reporting double t reporting)

  -- The worth at a date: all opening balances, and what all transactions up to the date earned, less
  -- what they spent.
  abbrev pub Worth :
      (Text → Option W) → List Account → List (Transaction W) → NetWorthPoint → Type 0
  Worth rate_for_currency accounts ts p =
      p.amount
      ≡ sum_by (opening_worth rate_for_currency) accounts
        +ℤ sum_by (λ t. when (leb_text t.date p.date) (change_of t)) ts

  pub convert_opening_other :
      (amount : Minor) (rate : W) (currency : Text)
      → eq_text (upper currency) (upper reporting) ≡ false
      → convert_opening double reporting amount rate currency
        ≡ convert double amount rate currency reporting
  unfolding convert_opening same_currency
  convert_opening_other amount rate currency differ = rw differ refl

  opening_of-value :
      (rate_for_currency : Text → Option W) (account : Account) (amount : Minor)
      → opening_of double reporting rate_for_currency account ≡ value amount
      → opening_worth rate_for_currency account ≡ amount
  unfolding opening_of same_currency or_zero
  opening_of-value rate_for_currency account amount e =
      elim (Bool-cases (eq_text (upper account.currency) (upper reporting))) [
        | inl same ↦ rw same (value_inj (rw same at e))
        | inr differ ↦ elim (Option-cases (rate_for_currency account.currency)) [
          | inl missing ↦ rw (differ, missing) (value_inj (rw (differ, missing) at e))
          | inr (rate, found) ↦
              rw (differ, found)
                (ap or_zero (
                  sym (convert_opening_other account.opening_balance rate account.currency differ)
                  ∙ (rw (differ, found) at e)))
        ]
      ]

  openings-value :
      (rate_for_currency : Text → Option W) (accounts : List Account) (sum total : Minor)
      → openings double reporting rate_for_currency accounts sum ≡ value total
      → total ≡ sum +ℤ sum_by (opening_worth rate_for_currency) accounts
  unfolding openings
  openings-value rate_for_currency [] sum total e = sym (value_inj e) ∙ sym (plus_zero sum)
  openings-value rate_for_currency (account ∷ accounts) sum total e =
      let (amount, here, rest) =
        bind-value (opening_of double reporting rate_for_currency account) _ total e in
      openings-value rate_for_currency accounts (sum +ℤ amount) total rest
      ∙ plus_assoc sum amount (sum_by (opening_worth rate_for_currency) accounts)
      ∙ ap (λ x. sum +ℤ (x +ℤ sum_by (opening_worth rate_for_currency) accounts))
          (sym (opening_of-value rate_for_currency account amount here))

  signed_by_parts :
      (kind : TransactionKind) (converted : Outcome (Option Minor))
      → or_zero (
          if is_transfer kind then value (pos 0) else (converted >>= λ c. value (signed_by kind c)))
        ≡ earned_of kind converted -ℤ spent_of kind converted
  unfolding is_transfer signed_by or_zero
  signed_by_parts income (value (some a)) = sym (minus_zero a)
  signed_by_parts income (value none) = sym (minus_zero (pos 0))
  signed_by_parts income bad_rate = sym (minus_zero (pos 0))
  signed_by_parts expense (value (some a)) = sym (zero_minus a)
  signed_by_parts expense (value none) = sym (minus_zero (pos 0))
  signed_by_parts expense bad_rate = sym (minus_zero (pos 0))
  signed_by_parts transfer converted = sym (minus_zero (pos 0))

  effect_by-change_of :
      (date : Text) (t : Transaction W)
      → effect_by double reporting date t ≡ when (leb_text t.date date) (change_of t)
  unfolding effect_by delta
  effect_by-change_of date t =
      ap (λ x. when (leb_text t.date date) x)
        (signed_by_parts t.kind (in_reporting double t reporting))

  pub Reckoned-Worth :
      (rate_for_currency : Text → Option W) (accounts : List Account) (ts : List (Transaction W))
      (points : List NetWorthPoint)
      → All (Reckoned double reporting rate_for_currency accounts ts) points
      → All (Worth rate_for_currency accounts ts) points
  Reckoned-Worth rate_for_currency accounts ts [] h = tt
  Reckoned-Worth rate_for_currency accounts ts (p ∷ points) ((opening, o, amount), h) = (
    amount ∙ (λ i.
        (openings-value rate_for_currency accounts (pos 0) opening o ∙ zero_plus _) i
        +ℤ sum_by_same (effect_by double reporting p.date)
            (λ t. when (leb_text t.date p.date) (change_of t)) (effect_by-change_of p.date) ts i),
    Reckoned-Worth rate_for_currency accounts ts points h,
  )
