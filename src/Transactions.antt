-- ===== src/Transactions.antt =====
-- Recording a transaction, `save` of app/src/app/core/repositories/transactions.service.ts, and paying
-- a card's bill with one, `pay` of app/src/app/core/cards/pay-bill.service.ts.
pub mod Valid
pub mod Payment
mod Tests
use easy_docket.Base.{
  ℕ, ◌+◌, Bool, true, false, not, Option, none, some, List, [], ◌∷◌, if◌then◌else◌,
}
use easy_docket.Base.Int.{pos, pos_part, neg_part, leb_ℤ}
use easy_docket.Base.Text.{Text, codes, eq_text}
use easy_docket.Models.{transactions}
use easy_docket.Models.Records.{
  Minor, TransactionKind, income, expense, transfer, Transaction, Account,
}
use easy_docket.Rows.{AnyEntity, transaction_row, any_entity}
use easy_docket.Schedule.{is_date_text}
use easy_docket.Ledger.{Ledger, put}
use easy_docket.Ledger
use easy_docket.Money.{upper}

-- `TransactionDraft`: a field that has a default may be left out. A draft without a payee is not
-- modelled, since `save` has no default for it; an absent account, category or rate is as good as null.
pub record TransactionDraft (Rate : Type 0) : Type 0 where
  pub id : Text
  pub kind : TransactionKind
  pub amount : Minor
  pub currency : Text
  pub account_id : Text
  pub date : Text
  pub counter_account_id : Option Text
  pub category_id : Option Text
  pub payee : Text
  pub note : Option Text
  pub tags : Option (List Text)
  pub cleared : Option Bool
  pub rate : Option Rate
  pub rate_date : Option Text
  pub created_at : Option ℕ
  pub updated_at : Option Text

-- The errors of `assertValid`.
pub data Rejection : Type 0 where
  not_positive no_account bad_date no_destination same_account : Rejection

-- What `save` returns or throws.
pub data Result (Rate : Type 0) : Type 0 where
  ok : AnyEntity Rate → Result Rate
  invalid : Rejection → Result Rate
  failed : Ledger.Error → Result Rate

unfoldable pub or_default : {A : Type 0} → A → Option A → A
or_default default none = default
or_default default (some a) = a

unfoldable pub is_empty : Text → Bool
is_empty [] = true
is_empty (c ∷ t) = false

-- The tests of a transfer.
unfoldable pub destination_error : Text → Option Text → Option Rejection
destination_error account none = some no_destination
destination_error account (some counter) =
    if is_empty counter
    then some no_destination
    else if eq_text counter account
    then some same_account
    else none

unfoldable pub transfer_error : TransactionKind → Text → Option Text → Option Rejection
transfer_error income account counter = none
transfer_error expense account counter = none
transfer_error transfer account counter = destination_error account counter

module _ {Rate : Type 0} where
  -- `assertValid`, with the error that it throws.
  unfoldable pub assert_valid : Transaction Rate → Option Rejection
  assert_valid txn =
      if leb_ℤ txn.amount (pos 0)
      then some not_positive
      else if is_empty txn.account_id
      then some no_account
      else if not (is_date_text txn.date)
      then some bad_date
      else transfer_error txn.kind txn.account_id txn.counter_account_id

  -- The transaction of a draft, at the time `now`.
  unfoldable pub completed : ℕ → TransactionDraft Rate → Transaction Rate
  completed now draft = record {
    id = draft.id;
    kind = draft.kind;
    amount = pos (pos_part draft.amount + neg_part draft.amount);
    currency = draft.currency;
    account_id = draft.account_id;
    counter_account_id = draft.counter_account_id;
    category_id = draft.category_id;
    date = draft.date;
    payee = draft.payee;
    note = or_default [] draft.note;
    tags = or_default [] draft.tags;
    cleared = or_default true draft.cleared;
    rate = draft.rate;
    rate_date = draft.rate_date;
    created_at = or_default now draft.created_at;
    updated_at = or_default [] draft.updated_at;
  }

  of_put : Ledger.Result (AnyEntity Rate) → Result Rate
  of_put (Ledger.ok row) = ok row
  of_put (Ledger.err e) = failed e

  record_valid :
      ℕ
      → Transaction Rate
      → Option Rejection
      → Ledger (AnyEntity Rate)
      → Result Rate × Ledger (AnyEntity Rate)
  unfolding of_put
  record_valid wall txn (some r) l = (invalid r, l)
  record_valid wall txn none l =
      let (r, l') = put any_entity wall transactions (transaction_row txn) l in (of_put r, l')

  -- `save`; `now` is the time of the draft and `wall` that of the clock.
  unfoldable pub save :
      ℕ
      → ℕ
      → TransactionDraft Rate
      → Ledger (AnyEntity Rate)
      → Result Rate × Ledger (AnyEntity Rate)
  unfolding record_valid
  save now wall draft l =
      let txn = completed now draft in record_valid wall txn (assert_valid txn) l

-- `PayBillRequest`; a date that is left out is today, which the caller gives.
pub record PayBillRequest : Type 0 where
  pub card : Account
  pub from : Account
  pub amount : Minor
  pub date : Option Text
  pub note : Option Text

-- The errors of `pay` itself.
pub data Refusal : Type 0 where
  nothing_paid own_bill other_currency : Refusal

unfoldable pub refusal : PayBillRequest → Option Refusal
refusal request =
    if leb_ℤ request.amount (pos 0)
    then some nothing_paid
    else if eq_text request.from.id request.card.id
    then some own_bill
    else if not (eq_text (upper request.from.currency) (upper request.card.currency))
    then some other_currency
    else none

module _ {Rate : Type 0} where
  -- The draft that `pay` saves, under the id that it is given.
  unfoldable pub payment : Text → Text → PayBillRequest → TransactionDraft Rate
  payment id today request = record {
    id = id;
    kind = transfer;
    amount = request.amount;
    currency = request.card.currency;
    account_id = request.from.id;
    date = or_default today request.date;
    counter_account_id = some request.card.id;
    category_id = none;
    payee = request.card.name;
    note = some (or_default [] request.note);
    tags = none;
    cleared = some true;
    rate = none;
    rate_date = none;
    created_at = none;
    updated_at = none;
  }

  pay_unless :
      Option Refusal
      → (Ledger (AnyEntity Rate) → Result Rate × Ledger (AnyEntity Rate))
      → Ledger (AnyEntity Rate)
      → Option (Result Rate) × Ledger (AnyEntity Rate)
  pay_unless (some r) saved l = (none, l)
  pay_unless none saved l = let (r, l') = saved l in (some r, l')

  -- `pay`; `none` stands for a refusal of its own.
  unfoldable pub pay :
      Text
      → Text
      → ℕ
      → ℕ
      → PayBillRequest
      → Ledger (AnyEntity Rate)
      → Option (Result Rate) × Ledger (AnyEntity Rate)
  unfolding pay_unless
  pay id today now wall request =
      pay_unless (refusal request) (save now wall (payment id today request))
