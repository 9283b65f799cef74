-- ===== src/Budgets/Spend.antt =====
-- What a budget's period has spent and carried: app/src/app/core/budgets/spend.ts. `none` stands for an
-- error, of a date or of a rate.
use easy_docket.Base.{
  ℕ, zero, suc, Bool, true, false, not, ◌&&◌, Option, none, some, List, [], ◌∷◌, if◌then◌else◌, any,
  filter, ◌>>=◌,
}
use easy_docket.Base.Int.{ℤ, pos, ◌+ℤ◌, ◌-ℤ◌, ltb_ℤ, leb_ℤ}
use easy_docket.Base.Text.{Text, eq_text, ltb_text}
use easy_docket.Models.Records.{
  Minor, TransactionKind, income, expense, transfer, Transaction, Budget,
}
use easy_docket.Conversion
use easy_docket.Conversion.{Double, Outcome, in_reporting, add_converted}
use easy_docket.Budgets.{BudgetWindow, anchor_of, window_by_index, window_for}

-- `BudgetProgress`
pub record BudgetProgress : Type 0 where
  pub budget : Budget
  pub unconverted : ℕ
  pub window : BudgetWindow
  pub limit : Minor
  pub carried : Minor
  pub allowance : Minor
  pub spent : Minor
  pub remaining : Minor
  pub share : ℤ
  pub over : Bool

unfoldable pub is_expense : TransactionKind → Bool
is_expense income = false
is_expense expense = true
is_expense transfer = false

unfoldable pub includes : List Text → Text → Bool
includes ids id = any (λ other. eq_text other id) ids

unfoldable pub covers : Budget → Option (List Text) → Text → Bool
covers budget none id = includes budget.category_ids id
covers budget (some covered) id = includes covered id

unfoldable pub covers_category : Budget → Option (List Text) → Option Text → Bool
covers_category budget covered none = false
covers_category budget covered (some id) = covers budget covered id

unfoldable pub lift : {A : Type 0} → Outcome A → Option A
lift (Conversion.value a) = some a
lift Conversion.bad_rate = none

module _ {W : Type 0} (double : Double W) (budget : Budget) (covered : Option (List Text)) where
  -- `countsTowards`
  unfoldable pub counts_towards : Transaction W → Bool
  counts_towards t = is_expense t.kind && covers_category budget covered t.category_id

  -- The tests of the loop of `spendDetail`.
  unfoldable pub is_in : BudgetWindow → Transaction W → Bool
  is_in window t =
      counts_towards t && not (ltb_text t.date window.from) && not (ltb_text window.to t.date)

  unfoldable pub detail_from : BudgetWindow → List (Transaction W) → Minor × ℕ → Option (Minor × ℕ)
  detail_from window [] sums = some sums
  detail_from window (t ∷ ts) sums =
      if is_in window t
      then (lift (in_reporting double t budget.currency) >>= λ amount.
          detail_from window ts (add_converted amount sums))
      else detail_from window ts sums

  -- `spendDetail`: what is spent, and the number of those left out.
  unfoldable pub spend_detail : BudgetWindow → List (Transaction W) → Option (Minor × ℕ)
  spend_detail window ts = detail_from window ts (pos 0, 0)

  -- `spendIn`
  unfoldable pub spend_in : BudgetWindow → List (Transaction W) → Option Minor
  spend_in window ts = spend_detail window ts >>= λ sums. some sums.0

  -- The loop of `carriedInto`, after so many periods.
  unfoldable pub carry_over : List (Transaction W) → ℕ → Option Minor
  carry_over ts zero = some (pos 0)
  carry_over ts (suc period) = carry_over ts period >>= λ carry.
      window_by_index (anchor_of budget) period >>= λ window.
      spend_in window ts >>= λ spent. some (carry +ℤ (budget.amount -ℤ spent))

  -- `carriedInto`
  unfoldable pub carried_into : ℕ → List (Transaction W) → Option Minor
  carried_into index ts = if budget.rollover then carry_over ts index else some (pos 0)

  -- The percentage of the allowance that is used.
  unfoldable pub share_of : Minor → Minor → ℤ
  share_of spent allowance =
      if ltb_ℤ (pos 0) allowance
      then (let percent = double.to_minor (
            double.rounded (
              double.times (double.over (double.of_minor spent) (double.of_minor allowance))
                (double.of_minor (pos 100)))) in
          if leb_ℤ (pos 100) percent then pos 100 else percent)
      else pos 100

  unfoldable pub progress_of : BudgetWindow → Minor → Minor × ℕ → BudgetProgress
  progress_of window carried (spent, unconverted) =
      let allowance = budget.amount +ℤ carried in
      let remaining = allowance -ℤ spent in
      record {
        budget = budget;
        unconverted = unconverted;
        window = window;
        limit = budget.amount;
        carried = carried;
        allowance = allowance;
        spent = spent;
        remaining = remaining;
        share = share_of spent allowance;
        over = ltb_ℤ remaining (pos 0);
      }

  -- `progressFor` for a window.
  unfoldable pub progress_in : List (Transaction W) → BudgetWindow → Option BudgetProgress
  unfolding progress_of
  progress_in ts window = carried_into window.index ts >>= λ carried.
      spend_detail window ts >>= λ sums. some (progress_of window carried sums)

  -- `progressFor`; `some none` is its null.
  unfoldable pub progress_for : List (Transaction W) → Text → Option (Option BudgetProgress)
  progress_for ts as_of = window_for (anchor_of budget) as_of >>= λ found. elim found [
    | none ↦ some none
    | some window ↦ (progress_in ts window >>= λ p. some (some p))
  ]

-- `staleCategoryIds`
unfoldable pub stale_category_ids : Budget → List Text → List Text
stale_category_ids budget known = filter (λ id. not (includes known id)) budget.category_ids
