-- ===== src/Cards/Bills.antt =====
-- The amounts of a statement of app/src/app/core/cards/statement.ts as sums over the transactions.
use easy_docket.Base.{
  ◌≡◌, refl, sym, ap, ◌∙◌, ◌⊎◌, inl, inr, true, false, ◌&&◌, List, [], ◌∷◌, arith, Bool-cases,
}
use easy_docket.Base.Int.{
  ℤ, pos, neg, ◌+ℤ◌, ◌-ℤ◌, ◌≤ℤ◌, ltb_ℤ, leb_ℤ, max_ℤ, +ℤ_parts, -ℤ_parts, eq_of_parts,
}
use easy_docket.Base.Int.Laws.{plus_zero, zero_plus, plus_assoc}
use easy_docket.Base.Int.Sums.{sum_by, when}
use easy_docket.Base.Text.{Text, ltb_text, leb_text}
use easy_docket.Models.Records.{Minor, Transaction, Account}
use easy_docket.Money.{signed_for}
use easy_docket.Cards.{owed, balance_from, balance_as_of, paid_from, summary_of, StatementSummary}

max_left :
    (a b : ℤ)
    → ((a ≤ℤ b) × (max_ℤ (a -ℤ b) (pos 0) ≡ pos 0)) ⊎ ((b ≤ℤ a) × (max_ℤ (a -ℤ b) (pos 0) +ℤ b ≡ a))
max_left a b = elim (Bool-cases (leb_ℤ (a -ℤ b) (pos 0))) [
  | inl covered ↦ inl (ground (arith, -ℤ_parts a b), rw covered refl)
  | inr short ↦ inr (
    ground (arith, -ℤ_parts a b),
    rw short (eq_of_parts _ _ (ground (arith, -ℤ_parts a b, +ℤ_parts (a -ℤ b) b))),
  )
]

module _ {Rate : Type 0} where
  -- What stands on the account at the end of a day.
  abbrev pub standing : Account → List (Transaction Rate) → Text → Minor
  standing account transactions date =
      account.opening_balance
      +ℤ sum_by (λ t. when (leb_text t.date date) (signed_for account.id t)) transactions

  -- What came in after one day, up to another.
  abbrev pub payments : Text → Text → Text → List (Transaction Rate) → Minor
  payments account closed_on as_of transactions =
      sum_by
        (λ t.
          when (ltb_text closed_on t.date && leb_text t.date as_of)
            (max_ℤ (signed_for account t) (pos 0)))
        transactions

  -- The amounts of a summary for the transactions. What remains is nothing where the payments cover
  -- the statement, and what they leave of it otherwise.
  pub record Bills (account : Account) (transactions : List (Transaction Rate)) (as_of : Text)
      (s : StatementSummary) : Type 0 where
    pub statement_due : s.statement_balance ≡ neg (standing account transactions s.closed_on)
    pub current_due : s.current_balance ≡ neg (standing account transactions as_of)
    pub paid : s.paid_since ≡ payments account.id s.closed_on as_of transactions
    pub left :
        ((s.statement_balance ≤ℤ s.paid_since) × (s.remaining ≡ pos 0))
        ⊎ ((s.paid_since ≤ℤ s.statement_balance)
            × (s.remaining +ℤ s.paid_since ≡ s.statement_balance))

  balance_from-sum :
      (account date : Text) (total : Minor) (transactions : List (Transaction Rate))
      → balance_from total account transactions date
        ≡ total +ℤ sum_by (λ t. when (leb_text t.date date) (signed_for account t)) transactions
  unfolding balance_from
  balance_from-sum account date total [] = sym (plus_zero total)
  balance_from-sum account date total (t ∷ transactions) =
      let rest = sum_by (λ t. when (leb_text t.date date) (signed_for account t)) transactions in
      elim (Bool-cases (ltb_text date t.date)) [
        | inl later ↦ rw later (
            balance_from-sum account date total transactions
            ∙ ap (λ x. total +ℤ x) (sym (zero_plus rest)))
        | inr counted ↦ rw counted (
            balance_from-sum account date (total +ℤ signed_for account t) transactions
            ∙ plus_assoc total (signed_for account t) rest)
      ]

  paid_from-sum :
      (account closed_on as_of : Text) (total : Minor) (transactions : List (Transaction Rate))
      → paid_from total account closed_on as_of transactions
        ≡ total +ℤ payments account closed_on as_of transactions
  unfolding paid_from
  paid_from-sum account closed_on as_of total [] = sym (plus_zero total)
  paid_from-sum account closed_on as_of total (t ∷ transactions) =
      let x = signed_for account t in
      let rest = payments account closed_on as_of transactions in
      let none_more : total +ℤ rest ≡ total +ℤ (pos 0 +ℤ rest) =
        ap (λ y. total +ℤ y) (sym (zero_plus rest)) in
      elim (Bool-cases (ltb_text closed_on t.date)) [
        | inr before ↦
            rw before (paid_from-sum account closed_on as_of total transactions ∙ none_more)
        | inl after ↦ elim (Bool-cases (ltb_text as_of t.date)) [
          | inl late ↦
              rw (after, late)
                (paid_from-sum account closed_on as_of total transactions ∙ none_more)
          | inr in_time ↦ elim (Bool-cases (ltb_ℤ (pos 0) x)) [
            | inl up ↦
                rw (after, in_time, up)
                  (paid_from-sum account closed_on as_of (total +ℤ x) transactions
                    ∙ plus_assoc total x rest
                    ∙ ap (λ y. total +ℤ (y +ℤ rest)) (sym (max_up x up)))
            | inr down ↦
                rw (after, in_time, down)
                  (paid_from-sum account closed_on as_of total transactions
                    ∙ none_more
                    ∙ ap (λ y. total +ℤ (y +ℤ rest)) (sym (max_down x down)))
          ]
        ]
      ]
    where
      max_up : (x : ℤ) → ltb_ℤ (pos 0) x ≡ true → max_ℤ x (pos 0) ≡ x
      max_up x up = ground arith

      max_down : (x : ℤ) → ltb_ℤ (pos 0) x ≡ false → max_ℤ x (pos 0) ≡ pos 0
      max_down x down = eq_of_parts _ _ (ground arith)

  pub summary_of-Bills :
      (account : Account) (transactions : List (Transaction Rate)) (as_of closed_on due_on : Text)
      → Bills account transactions as_of (summary_of account transactions as_of closed_on due_on)
  unfolding summary_of balance_as_of owed
  summary_of-Bills account transactions as_of closed_on due_on = record {
    statement_due =
        ap neg (balance_from-sum account.id closed_on account.opening_balance transactions);
    current_due = ap neg (balance_from-sum account.id as_of account.opening_balance transactions);
    paid =
        paid_from-sum account.id closed_on as_of (pos 0) transactions
        ∙ zero_plus (payments account.id closed_on as_of transactions);
    left = max_left _ _;
  }
