-- ===== src/Cards/Owed.antt =====
-- The amounts of a statement of app/src/app/core/cards/statement.ts.
use easy_docket.Base.{
  ℕ, suc, ◌-◌, ◌<◌, ◌≤◌, ◌≡◌, some, refl, sym, ap, ◌∙◌, Bool, true, false, not, ◌||◌, List, [], ◌∷◌,
  arith, if◌then◌else◌, Bool-cases, inl, inr,
}
use easy_docket.Base.Int.{
  ℤ, pos, neg, ◌+ℤ◌, ◌-ℤ◌, ◌≤ℤ◌, ltb_ℤ, max_ℤ, +ℤ_parts, -ℤ_parts, eq_of_parts,
}
use easy_docket.Base.Int.Laws.{plus_zero, plus_assoc}
use easy_docket.Base.Text.{Text, ltb_text, leb_text, not_below_trans}
use easy_docket.Models.Records.{Minor, Transaction, Account}
use easy_docket.Money.{signed_for}
use easy_docket.Cards.{
  owed, balance_from, balance_as_of, paid_from, summary_of, StatementSummary, summarise_statement,
  cycle_days,
}
use easy_docket.Cards.Bills.{Bills, summary_of-Bills}
use easy_docket.Cards.Closes.{
  in_month, in_month-IsStart, index_of_in_month, last_statement_date-latest, due_date_for-first,
}
use easy_docket.Dates.Civil.{Ymd}
use easy_docket.Dates.Shift.{IsStart}
use easy_docket.Dates.Written.{written}

false_of_not : {b : Bool} → not b ≡ true → b ≡ false
false_of_not {b = false} h = refl
false_of_not {b = true} h = cc

first_takes : (a b c x : ℤ) → ((a +ℤ b) +ℤ c) +ℤ x ≡ ((a +ℤ x) +ℤ b) +ℤ c
first_takes a b c x = eq_of_parts _ _ (
    omega (
      arith,
      +ℤ_parts a b,
      +ℤ_parts (a +ℤ b) c,
      +ℤ_parts ((a +ℤ b) +ℤ c) x,
      +ℤ_parts a x,
      +ℤ_parts (a +ℤ x) b,
      +ℤ_parts ((a +ℤ x) +ℤ b) c,
    ))

second_takes : (a b c x : ℤ) → ((a +ℤ b) +ℤ c) +ℤ x ≡ (a +ℤ (b +ℤ x)) +ℤ c
second_takes a b c x = eq_of_parts _ _ (
    omega (
      arith,
      +ℤ_parts a b,
      +ℤ_parts (a +ℤ b) c,
      +ℤ_parts ((a +ℤ b) +ℤ c) x,
      +ℤ_parts b x,
      +ℤ_parts a (b +ℤ x),
      +ℤ_parts (a +ℤ (b +ℤ x)) c,
    ))

owed_parts : (c p s : ℤ) → neg ((c +ℤ p) +ℤ (pos 0 +ℤ s)) ≡ (neg c -ℤ p) -ℤ s
owed_parts c p s = eq_of_parts _ _ (
    ground (
      arith,
      +ℤ_parts c p,
      +ℤ_parts (pos 0) s,
      +ℤ_parts (c +ℤ p) (pos 0 +ℤ s),
      -ℤ_parts (neg c) p,
      -ℤ_parts (neg c -ℤ p) s,
    ))

module _ {Rate : Type 0} where
  -- What left the account after the close, up to the day: a sum that is not positive.
  unfoldable pub spent_from : Text → Text → Text → List (Transaction Rate) → Minor
  spent_from account closed_on as_of [] = pos 0
  spent_from account closed_on as_of (txn ∷ transactions) =
      let rest = spent_from account closed_on as_of transactions in
      let effect = signed_for account txn in
      if leb_text txn.date closed_on || ltb_text as_of txn.date
      then rest
      else if ltb_ℤ (pos 0) effect
      then rest
      else effect +ℤ rest

  module _ (account closed_on as_of : Text) (order : leb_text closed_on as_of ≡ true) where
    -- The loops with running totals, together.
    balances_meet :
        (transactions : List (Transaction Rate)) (a b paid spent : Minor)
        → b ≡ (a +ℤ paid) +ℤ spent
        → balance_from b account transactions as_of
          ≡ (balance_from a account transactions closed_on
              +ℤ paid_from paid account closed_on as_of transactions)
            +ℤ (spent +ℤ spent_from account closed_on as_of transactions)
    unfolding balance_from paid_from spent_from
    balances_meet [] a b paid spent e = e ∙ ap (λ x. (a +ℤ paid) +ℤ x) (sym (plus_zero spent))
    balances_meet (txn ∷ transactions) a b paid spent e =
        elim (Bool-cases (ltb_text closed_on txn.date)) [
          | inr before ↦
              (let in_time : ltb_text as_of txn.date ≡ false =
                  not_below_trans as_of closed_on txn.date (false_of_not order) before in
                rw (before, in_time)
                  (balances_meet transactions (a +ℤ x) (b +ℤ x) paid spent
                    (rw e (first_takes a paid spent x))))
          | inl after ↦ elim (Bool-cases (ltb_text as_of txn.date)) [
            | inl late ↦ rw (after, late) (balances_meet transactions a b paid spent e)
            | inr in_time ↦ elim (Bool-cases (ltb_ℤ (pos 0) x)) [
              | inl up ↦
                  rw (after, in_time, up)
                    (balances_meet transactions a (b +ℤ x) (paid +ℤ x) spent
                      (rw e (second_takes a paid spent x)))
              | inr down ↦
                  rw (after, in_time, down)
                    (balances_meet transactions a (b +ℤ x) paid (spent +ℤ x)
                        (rw e (plus_assoc (a +ℤ paid) spent x))
                      ∙ ap
                          (λ y.
                            (balance_from a account transactions closed_on
                              +ℤ paid_from paid account closed_on as_of transactions)
                            +ℤ y)
                          (plus_assoc spent x (spent_from account closed_on as_of transactions)))
            ]
          ]
        ]
      where
        x : Minor
        x = signed_for account txn

    paid_from_grows :
        (transactions : List (Transaction Rate)) (paid : Minor)
        → paid ≤ℤ paid_from paid account closed_on as_of transactions
    unfolding paid_from
    paid_from_grows [] paid = omega arith
    paid_from_grows (txn ∷ transactions) paid = ground (
      arith,
      paid_from_grows transactions paid,
      paid_from_grows transactions (paid +ℤ signed_for account txn),
      +ℤ_parts paid (signed_for account txn),
    )

    spent_from_below :
        (transactions : List (Transaction Rate))
        → spent_from account closed_on as_of transactions ≤ℤ pos 0
    unfolding spent_from
    spent_from_below [] = omega arith
    spent_from_below (txn ∷ transactions) = ground (
      arith,
      spent_from_below transactions,
      +ℤ_parts (signed_for account txn) (spent_from account closed_on as_of transactions),
    )

  -- What is owed falls by the payments since the close and rises by the spending since.
  abbrev pub AddsUp : Account → List (Transaction Rate) → Text → StatementSummary → Type 0
  AddsUp account transactions as_of s =
      let spent = spent_from account.id s.closed_on as_of transactions in
      (s.current_balance ≡ (s.statement_balance -ℤ s.paid_since) -ℤ spent)
      × (pos 0 ≤ℤ s.paid_since)
      × (spent ≤ℤ pos 0)
      × (pos 0 ≤ℤ s.remaining)
      × (s.statement_balance ≤ℤ s.remaining +ℤ s.paid_since)
      × (s.remaining ≤ℤ max_ℤ s.statement_balance (pos 0))

  summary_of-AddsUp :
      (account : Account) (transactions : List (Transaction Rate)) (as_of closed_on due_on : Text)
      → leb_text closed_on as_of ≡ true
      → AddsUp account transactions as_of (summary_of account transactions as_of closed_on due_on)
  unfolding summary_of balance_as_of owed
  summary_of-AddsUp account transactions as_of closed_on due_on order =
      let o = account.opening_balance in
      let closed = balance_from o account.id transactions closed_on in
      let paid = paid_from (pos 0) account.id closed_on as_of transactions in
      let spent = spent_from account.id closed_on as_of transactions in
      let meet =
        balances_meet account.id closed_on as_of order transactions o o (pos 0) (pos 0)
          (sym (plus_zero (o +ℤ pos 0) ∙ plus_zero o)) in
      let grows = paid_from_grows account.id closed_on as_of order transactions (pos 0) in
      let below = spent_from_below account.id closed_on as_of order transactions in
      (
        ap neg meet ∙ owed_parts closed paid spent,
        grows,
        below,
        ground arith,
        ground (
          arith,
          -ℤ_parts (neg closed) paid,
          +ℤ_parts (neg closed -ℤ paid) paid,
          +ℤ_parts (pos 0) paid,
        ),
        ground (arith, -ℤ_parts (neg closed) paid),
      )

  -- For a card with a statement day and a due day, and a day of the years 102 to 9997, there is a summary.
  -- It closes in the last of the months whose close is not after the day, and is due in the first month
  -- whose due day is after the close. What the statement asks for is what the account lacked at the
  -- close, what is owed is what it lacks on the day, and what was paid is the sum of what came in
  -- between; nothing remains where that covers the statement, and otherwise what it leaves of it. What
  -- is owed on the day is the statement's amount less what was paid since and less the (negative) sum
  -- of what was spent.
  pub summarise_statement_lem :
      (account : Account) (transactions : List (Transaction Rate)) (v : Ymd)
      (statement_day due_day : ℕ)
      → IsStart v
      → 102 ≤ v.year
      → v.year < 9998
      → account.statement_day ≡ some statement_day
      → account.due_day ≡ some due_day
      → (s : StatementSummary) × (m : ℕ) × (n : ℕ) × (summarise_statement account transactions
            (written v)
          ≡ some (some s))
        × (s.closed_on ≡ written (in_month m statement_day))
        × (ltb_text (written v) s.closed_on ≡ false)
        × (ltb_text (written v) (written (in_month (suc m) statement_day)) ≡ true)
        × (s.due_on ≡ written (in_month n due_day))
        × (ltb_text s.closed_on s.due_on ≡ true)
        × (ltb_text s.closed_on (written (in_month (n - 1) due_day)) ≡ false)
        × Bills account transactions (written v) s
        × AddsUp account transactions (written v) s
  unfolding summarise_statement cycle_days
  summarise_statement_lem account transactions v statement_day due_day h lo hi es ed =
      let (m, closes, near, before, next) =
        last_statement_date-latest v statement_day h (omega arith) (omega arith) in
      let w = in_month m statement_day in
      let index = index_of_in_month m statement_day in
      let start : IsStart w =
        in_month-IsStart m statement_day (omega (arith, near, h.date.month_min))
          (omega (arith, near, h.date.month_max)) in
      let (n, due, after, first) =
        due_date_for-first w due_day start (omega (arith, near, h.date.month_min))
          (omega (arith, near, h.date.month_max)) in
      let due_on = written (in_month n due_day) in
      (
        summary_of account transactions (written v) (written w) due_on,
        m,
        n,
        rw (es, ed, closes, due) refl,
        unfold summary_of in refl,
        unfold summary_of in before,
        next,
        unfold summary_of in refl,
        unfold summary_of in after,
        unfold summary_of in first,
        summary_of-Bills account transactions (written v) (written w) due_on,
        summary_of-AddsUp account transactions (written v) (written w) due_on (ap not before),
      )
