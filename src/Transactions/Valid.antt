-- ===== src/Transactions/Valid.antt =====
-- What `save` of app/src/app/core/repositories/transactions.service.ts records, and what it refuses.
use easy_docket.Base.{
  ℕ, ◌≡◌, ◌≢◌, ◌↔◌, ◌⊎◌, inl, inr, refl, sym, ◌∙◌, ap, true, false, Option, none, some, [], ◌∷◌,
  arith,
}
use easy_docket.Base.Int.{pos, ◌<ℤ◌}
use easy_docket.Base.Text.{Text, eq_text→eq, eq_text_refl}
use easy_docket.Models.{transactions}
use easy_docket.Models.Records.{TransactionKind, income, expense, transfer, Transaction}
use easy_docket.Db.{get_row}
use easy_docket.Ledger.{Ledger, put}
use easy_docket.Ledger
use easy_docket.Ledger.Puts.{put-returns}
use easy_docket.Rows.{AnyEntity, transaction_row, any_entity}
use easy_docket.Schedule.{is_date_text}
use easy_docket.Transactions.{
  TransactionDraft, Rejection, Result, ok, invalid, failed, is_empty, destination_error,
  transfer_error, assert_valid, completed, record_valid, of_put, save,
}

-- A transfer goes to another account.
abbrev pub GoesElsewhere : Text → Option Text → Type 0
GoesElsewhere account none = ⊥
GoesElsewhere account (some counter) = (counter ≢ []) × (counter ≢ account)

-- What the ledger may hold as a transaction.
pub record IsRecordable {Rate : Type 0} (txn : Transaction Rate) : Type 0 where
  pub positive : pos 0 <ℤ txn.amount
  pub has_account : txn.account_id ≢ []
  pub dated : is_date_text txn.date ≡ true
  pub moves : txn.kind ≡ transfer → GoesElsewhere txn.account_id txn.counter_account_id

is_empty-false : (t : Text) → (is_empty t ≡ false) ↔ (t ≢ [])
unfolding is_empty
is_empty-false [] = ground arith
is_empty-false (c ∷ t) = (λ h e. cc, λ h. refl)

destination_error-none :
    (account : Text) (counter : Option Text)
    → (destination_error account counter ≡ none) ↔ GoesElsewhere account counter
unfolding destination_error
destination_error-none account none = ground arith
destination_error-none account (some counter) =
    ground (arith, is_empty-false counter, eq_text→eq counter account, eq_text_refl account)

transfer_error-none :
    (kind : TransactionKind) (account : Text) (counter : Option Text)
    → (transfer_error kind account counter ≡ none)
      ↔ (kind ≡ transfer → GoesElsewhere account counter)
unfolding transfer_error
transfer_error-none income account counter = (λ h e. cc, λ h. refl)
transfer_error-none expense account counter = (λ h e. cc, λ h. refl)
transfer_error-none transfer account counter =
    let (there, back) = destination_error-none account counter in
    (λ h e. there h, λ h. back (h refl))

module _ {Rate : Type 0} where
  assert_valid-none : (txn : Transaction Rate) → (assert_valid txn ≡ none) ↔ IsRecordable txn
  unfolding assert_valid
  assert_valid-none txn = (there, back)
    where
      there : assert_valid txn ≡ none → IsRecordable txn
      there h = record {
        positive = ground arith;
        has_account = ground (arith, is_empty-false txn.account_id);
        dated = ground arith;
        moves =
            (transfer_error-none txn.kind txn.account_id txn.counter_account_id).0 (ground arith);
      }

      back : IsRecordable txn → assert_valid txn ≡ none
      back h = ground (
        arith,
        h.positive,
        h.dated,
        (is_empty-false txn.account_id).1 h.has_account,
        (transfer_error-none txn.kind txn.account_id txn.counter_account_id).1 h.moves,
      )

  -- The outcomes of `save`: the transaction, with a stamp, can be read back under its id; or it is
  -- refused; or the clock fails.
  abbrev pub Outcome :
      Transaction Rate → Ledger (AnyEntity Rate) → Result Rate × Ledger (AnyEntity Rate) → Type 0
  Outcome txn l (r, l') =
      (IsRecordable txn
        × ((stamp : Text) × (r ≡ ok (transaction_row (record txn { updated_at = stamp })))
            × (get_row (transactions, txn.id) l'.tables
                ≡ some (transaction_row (record txn { updated_at = stamp })))))
      ⊎ ((IsRecordable txn → ⊥) × ((x : Rejection) × (r ≡ invalid x)) × (l' ≡ l))
      ⊎ (IsRecordable txn × ((x : Ledger.Error) × (r ≡ failed x)) × (l' ≡ l))

  module _ (now wall : ℕ) (draft : TransactionDraft Rate) (l : Ledger (AnyEntity Rate)) where
    refused_run :
        (x : Rejection)
        → assert_valid (completed now draft) ≡ some x
        → save now wall draft l ≡ (invalid x, l)
    unfolding save record_valid
    refused_run x h = rw h refl

    recorded_run :
        assert_valid (completed now draft) ≡ none
        → save now wall draft l ≡ (
            let (r, l') =
              put any_entity wall transactions (transaction_row (completed now draft)) l in
            (of_put r, l'))
    unfolding save record_valid
    recorded_run h = rw h refl

    pub save_outcomes : Outcome (completed now draft) l (save now wall draft l)
    unfolding of_put
    save_outcomes = by_test (assert_valid (completed now draft)) refl
      where
        txn : Transaction Rate
        txn = completed now draft

        not_some : {x : Rejection} → none ≢ some x
        not_some e = cc

        by_test :
            (t : Option Rejection) → assert_valid txn ≡ t → Outcome txn l (save now wall draft l)
        by_test (some x) h =
            rw (refused_run x h)
              (inr (inl (λ v. not_some (sym ((assert_valid-none txn).1 v) ∙ h), (x, refl), refl)))
        by_test none h =
            let valid = (assert_valid-none txn).0 h in
            rw (recorded_run h)
              (elim (put-returns any_entity wall transactions (transaction_row txn) l) [
                | inl (stamp, returned, held) ↦ inl (valid, (stamp, ap of_put returned, held))
                | inr (x, returned, same) ↦ inr (inr (valid, (x, ap of_put returned), same))
              ])
