-- ===== src/Transactions/Payment.antt =====
-- What `pay` of app/src/app/core/cards/pay-bill.service.ts does to the card and to the account that pays.
use easy_docket.Base.{
  ℕ, ◌+◌, ◌≡◌, ◌≢◌, inl, inr, refl, sym, ◌∙◌, ap, true, false, none, some, List, [], ◌∷◌, arith,
}
use easy_docket.Base.Int.{
  ℤ, pos, neg, ◌+ℤ◌, ◌-ℤ◌, ◌<ℤ◌, +ℤ_parts, -ℤ_parts, eq_of_parts, pos_part, neg_part,
}
use easy_docket.Base.Text.{Text, eq_text, eq_text_refl, leb_text}
use easy_docket.Models.Records.{Minor, Transaction, Account}
use easy_docket.Money.{signed_for, is_counter, upper}
use easy_docket.Cards.{owed, balance_from, balance_as_of}
use easy_docket.Db.{get_row}
use easy_docket.Models.{transactions}
use easy_docket.Ledger
use easy_docket.Ledger.{Ledger}
use easy_docket.Rows.{AnyEntity, transaction_row}
use easy_docket.Transactions.{
  Rejection, ok, invalid, failed, PayBillRequest, refusal, completed, payment, pay, pay_unless,
  save,
}
use easy_docket.Transactions.Valid.{IsRecordable, Outcome, save_outcomes}

shift_first : (t s e : ℤ) → (t +ℤ e) +ℤ s ≡ (t +ℤ s) +ℤ e
shift_first t s e =
    eq_of_parts _ _
      (omega (arith, +ℤ_parts t e, +ℤ_parts (t +ℤ e) s, +ℤ_parts t s, +ℤ_parts (t +ℤ s) e))

owed_less : (b a : ℤ) → neg (b +ℤ a) ≡ neg b -ℤ a
owed_less b a = eq_of_parts _ _ (ground (arith, +ℤ_parts b a, -ℤ_parts (neg b) a))

take_off : (b a : ℤ) → b +ℤ neg a ≡ b -ℤ a
take_off b a = eq_of_parts _ _ (ground (arith, +ℤ_parts b (neg a), -ℤ_parts b a))

refusal-none :
    (request : PayBillRequest)
    → refusal request ≡ none
    → (pos 0 <ℤ request.amount)
      × (eq_text request.from.id request.card.id ≡ false)
      × (eq_text (upper request.from.currency) (upper request.card.currency) ≡ true)
unfolding refusal
refusal-none request h = ground arith

positive_size : (a : ℤ) → pos 0 <ℤ a → pos (pos_part a + neg_part a) ≡ a
positive_size a h = ground arith

module _ {Rate : Type 0} where
  -- An amount that the running total starts with is in the balance.
  balance_from_shift :
      (txns : List (Transaction Rate)) (total e : Minor) (account date : Text)
      → balance_from (total +ℤ e) account txns date ≡ balance_from total account txns date +ℤ e
  unfolding balance_from
  balance_from_shift [] total e account date = refl
  balance_from_shift (txn ∷ txns) total e account date = ground (
    arith,
    balance_from_shift txns total e account date,
    balance_from_shift txns (total +ℤ signed_for account txn) e account date,
    shift_first total (signed_for account txn) e,
  )

  balance_as_of-cons :
      (account : Account) (txn : Transaction Rate) (txns : List (Transaction Rate)) (date : Text)
      → leb_text txn.date date ≡ true
      → balance_as_of account (txn ∷ txns) date
        ≡ balance_as_of account txns date +ℤ signed_for account.id txn
  unfolding balance_as_of balance_from
  balance_as_of-cons account txn txns date h = ground (
    arith,
    balance_from_shift txns account.opening_balance (signed_for account.id txn) account.id date,
  )

  -- The bill is lower by the payment, and so is the account that paid.
  abbrev pub Settles : PayBillRequest → Transaction Rate → Type 0
  Settles request txn =
      (txns : List (Transaction Rate)) (date : Text)
      → leb_text txn.date date ≡ true
      → (owed (balance_as_of request.card (txn ∷ txns) date)
          ≡ owed (balance_as_of request.card txns date) -ℤ request.amount)
        × (balance_as_of request.from (txn ∷ txns) date
            ≡ balance_as_of request.from txns date -ℤ request.amount)

module _ (Rate : Type 0) (id today : Text) (now : ℕ) (request : PayBillRequest) (stamp : Text)
    (allowed : refusal request ≡ none) where
  paid : Transaction Rate
  paid = record (completed now (payment id today request)) { updated_at = stamp }

  paid_effects :
      (signed_for request.card.id paid ≡ request.amount)
      × (signed_for request.from.id paid ≡ neg request.amount)
  unfolding paid signed_for is_counter completed payment
  paid_effects =
      let (positive, other, _) = refusal-none request allowed in
      let size = positive_size request.amount positive in
      (
        rw (other, eq_text_refl request.card.id) size,
        rw (eq_text_refl request.from.id) (ap neg size),
      )

  paid-Settles : Settles request paid
  paid-Settles txns date h =
      let (on_card, on_from) = paid_effects in
      let due = balance_as_of request.card txns date in
      let funds = balance_as_of request.from txns date in
      (
        ap owed (balance_as_of-cons request.card paid txns date h ∙ ap (λ x. due +ℤ x) on_card)
            ∙ (unfold owed in owed_less due request.amount),
        balance_as_of-cons request.from paid txns date h
            ∙ ap (λ x. funds +ℤ x) on_from
            ∙ take_off funds request.amount,
      )

ok_inj : {Rate : Type 0} {a b : AnyEntity Rate} → ok a ≡ ok b → a ≡ b
ok_inj e = cc

module _ {Rate : Type 0} where
  pay_allowed :
      (id today : Text) (now wall : ℕ) (request : PayBillRequest) (l l' : Ledger (AnyEntity Rate))
      (row : AnyEntity Rate)
      → pay id today now wall request l ≡ (some (ok row), l')
      → (refusal request ≡ none) × (save now wall (payment id today request) l ≡ (ok row, l'))
  unfolding pay pay_unless
  pay_allowed id today now wall request l l' row h = ground arith

  -- A payment of a bill that goes through is recorded as a transfer that the ledger may hold and that can
  -- be read back under its id. From its date on, what is owed on the card is lower by the amount, and so is
  -- the balance of the account that paid.
  pub pay-Settles :
      (id today : Text) (now wall : ℕ) (request : PayBillRequest) (l l' : Ledger (AnyEntity Rate))
      (row : AnyEntity Rate)
      → pay id today now wall request l ≡ (some (ok row), l')
      → (txn : Transaction Rate) × (row ≡ transaction_row txn)
        × IsRecordable txn
        × (get_row (transactions, id) l'.tables ≡ some row)
        × Settles request txn
  unfolding paid completed get_row payment
  pay-Settles id today now wall request l l' row h =
      let (allowed, saved) = pay_allowed id today now wall request l l' row h in
      by_outcome allowed saved (save_outcomes now wall (payment id today request) l)
    where
      not_invalid : {x : Rejection} → ok row ≢ invalid x
      not_invalid e = cc

      not_failed : {x : Ledger.Error} → ok row ≢ failed x
      not_failed e = cc

      by_outcome :
          refusal request ≡ none
          → save now wall (payment id today request) l ≡ (ok row, l')
          → Outcome
              (completed now (payment id today request))
              l
              (save now wall (payment id today request) l)
          → (txn : Transaction Rate) × (row ≡ transaction_row txn)
            × IsRecordable txn
            × (get_row (transactions, id) l'.tables ≡ some row)
            × Settles request txn
      by_outcome allowed saved (inl (v, (stamp, returned, held))) =
          let same : row ≡ transaction_row (paid Rate id today now request stamp allowed) =
            ok_inj (sym (ap (λ s. s.0) saved) ∙ returned) in
          (
            paid Rate id today now request stamp allowed,
            same,
            record {
              positive = v.positive;
              has_account = v.has_account;
              dated = v.dated;
              moves = v.moves;
            },
            ap (λ s. get_row (transactions, id) s.1.tables) (sym saved)
                ∙ held
                ∙ ap (λ r. some r) (sym same),
            paid-Settles Rate id today now request stamp allowed,
          )
      by_outcome allowed saved (inr (inl (_, (x, f), _))) =
          absurd (not_invalid (sym (ap (λ s. s.0) saved) ∙ f))
      by_outcome allowed saved (inr (inr (_, (x, f), _))) =
          absurd (not_failed (sym (ap (λ s. s.0) saved) ∙ f))
