-- ===== src/Cards.antt =====
-- The cycle of a credit card: app/src/app/core/cards/statement.ts. `none` stands for the error of a
-- text that is no date.
pub mod Bills
pub mod Closes
pub mod Owed
mod Tests
use easy_docket.Base.{
  ℕ, ◌+◌, ◌-◌, Bool, true, false, not, ◌&&◌, ◌||◌, Option, none, some, List, [], ◌∷◌, if◌then◌else◌,
  min, max, ◌>>=◌,
}
use easy_docket.Base.Int.{ℤ, pos, negsuc, neg, ◌+ℤ◌, ◌-ℤ◌, ltb_ℤ, leb_ℤ, max_ℤ}
use easy_docket.Base.Text.{Text, ltb_text, leb_text}
use easy_docket.Dates.{parts, format, days_in_month, add_months}
use easy_docket.Dates.Civil.{day_number}
use easy_docket.Models.Records.{Minor, Transaction, Account}
use easy_docket.Money.{signed_for}

-- `dayOfMonth`
unfoldable pub day_of_month : ℕ → ℕ → ℕ → Text
day_of_month year month day = format year month (min (max day 1) (days_in_month year month))

-- `statementClose`
unfoldable pub statement_close : ℕ → Text → Option Text
statement_close statement_day date =
    parts date >>= λ v. some (day_of_month v.year v.month statement_day)

-- `lastStatementDate`
unfoldable pub last_statement_date : ℕ → Text → Option Text
last_statement_date statement_day as_of = parts as_of >>= λ v.
    let this_month = day_of_month v.year v.month statement_day in
    if leb_text this_month as_of
    then some this_month
    else (add_months this_month (negsuc 0) >>= statement_close statement_day)

-- `dueDateFor`
unfoldable pub due_date_for : ℕ → Text → Option Text
due_date_for due_day statement_date = parts statement_date >>= λ v.
    let same_month = day_of_month v.year v.month due_day in
    if ltb_text statement_date same_month
    then some same_month
    else (add_months statement_date (pos 1) >>= statement_close due_day)

-- `hasCycle`, with the two days where it holds.
unfoldable pub cycle_days : Option ℕ → Option ℕ → Option (ℕ × ℕ)
cycle_days (some statement_day) (some due_day) = some (statement_day, due_day)
cycle_days (some statement_day) none = none
cycle_days none due_day = none

-- `availableCredit`
unfoldable pub available_credit : Minor → Option Minor → Option Minor
available_credit balance none = none
available_credit balance (some limit) = some (limit +ℤ balance)

-- `StatementSummary`
pub record StatementSummary : Type 0 where
  pub closed_on : Text
  pub due_on : Text
  pub statement_balance : Minor
  pub paid_since : Minor
  pub remaining : Minor
  pub current_balance : Minor

-- `owed`
unfoldable pub owed : Minor → Minor
owed balance = neg balance

module _ {Rate : Type 0} where
  unfoldable pub balance_from : Minor → Text → List (Transaction Rate) → Text → Minor
  balance_from total account [] date = total
  balance_from total account (txn ∷ transactions) date =
      let rest = λ (t : Minor). balance_from t account transactions date in
      if ltb_text date txn.date then rest total else rest (total +ℤ signed_for account txn)

  -- `balanceAsOf`
  unfoldable pub balance_as_of : Account → List (Transaction Rate) → Text → Minor
  balance_as_of account transactions date =
      balance_from account.opening_balance account.id transactions date

  -- The loop of `summariseStatement`: what arrived after the close, up to the day.
  unfoldable pub paid_from : Minor → Text → Text → Text → List (Transaction Rate) → Minor
  paid_from paid account closed_on as_of [] = paid
  paid_from paid account closed_on as_of (txn ∷ transactions) =
      let rest = λ (p : Minor). paid_from p account closed_on as_of transactions in
      let effect = signed_for account txn in
      if leb_text txn.date closed_on || ltb_text as_of txn.date
      then rest paid
      else if ltb_ℤ (pos 0) effect
      then rest (paid +ℤ effect)
      else rest paid

  unfoldable pub summary_of :
      Account → List (Transaction Rate) → Text → Text → Text → StatementSummary
  summary_of account transactions as_of closed_on due_on =
      let statement_balance = owed (balance_as_of account transactions closed_on) in
      let paid_since = paid_from (pos 0) account.id closed_on as_of transactions in
      record {
        closed_on = closed_on;
        due_on = due_on;
        statement_balance = statement_balance;
        paid_since = paid_since;
        remaining = max_ℤ (statement_balance -ℤ paid_since) (pos 0);
        current_balance = owed (balance_as_of account transactions as_of);
      }

  -- `summariseStatement`; the inner `none` is its null.
  unfoldable pub summarise_statement :
      Account → List (Transaction Rate) → Text → Option (Option StatementSummary)
  summarise_statement account transactions as_of =
      elim (cycle_days account.statement_day account.due_day) [
        | none ↦ some none
        | some days ↦
            (last_statement_date days.0 as_of >>= λ closed_on.
            due_date_for days.1 closed_on >>= λ due_on.
            some (some (summary_of account transactions as_of closed_on due_on)))
      ]

-- `daysBetween`, on dates that `parts` reads.
unfoldable pub days_between : Text → Text → Option ℤ
days_between from to =
    parts from >>= λ f. parts to >>= λ t. some (pos (day_number t) -ℤ pos (day_number f))

-- `isDueSoon`
unfoldable pub is_due_soon : StatementSummary → ℤ → Text → Option Bool
is_due_soon summary days as_of =
    if leb_ℤ summary.remaining (pos 0)
    then some false
    else if leb_text as_of summary.due_on
    then (days_between as_of summary.due_on >>= λ between. some (leb_ℤ between days))
    else some false
