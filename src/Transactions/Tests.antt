-- ===== src/Transactions/Tests.antt =====
-- A dinner is recorded, and a card's bill is paid.
use easy_docket.Base.{ℕ, ◌≡◌, refl, false, none, some, []}
use easy_docket.Base.Int.{pos, negsuc}
use easy_docket.Base.Text.{Text, codes, eq_text}
use easy_docket.Hlc.{tick, encode}
use easy_docket.Models.{transactions}
use easy_docket.Models.Records.{Account, bank, Transaction, expense}
use easy_docket.Db.{get_row}
use easy_docket.Ledger.{Ledger, put}
use easy_docket.Rows.{AnyEntity, transaction_row}
use easy_docket.Schedule.{is_date_text}
use easy_docket.Dates.{is_digit}
use easy_docket.Money.{upper}
use easy_docket.Transactions.{
  TransactionDraft, ok, invalid, not_positive, PayBillRequest, completed, or_default, save,
  assert_valid, transfer_error, destination_error, is_empty, pay, payment, refusal,
}
use easy_docket.Transactions.Valid.{IsRecordable}
use easy_docket.Transactions.Payment.{Settles, pay-Settles}

abbrev fresh : Ledger (AnyEntity ℕ)
fresh = record {
  tables = [];
  oplog = [];
  saved_clock = none;
  clock =
      some (record { device = codes "3f9a2c17"; state = record { physical = 10; counter = 0 } });
}

abbrev dinner : TransactionDraft ℕ
dinner = record {
  id = codes "t1";
  kind = expense;
  amount = negsuc 1199;
  currency = codes "USD";
  account_id = codes "cash";
  date = codes "2026-03-10";
  counter_account_id = none;
  category_id = none;
  payee = codes "Luigi";
  note = none;
  tags = none;
  cleared = none;
  rate = none;
  rate_date = none;
  created_at = none;
  updated_at = none;
}

nothing_refused : (save 7 20 (record dinner { amount = pos 0 }) fresh).0 ≡ invalid not_positive
unfolding save completed assert_valid
nothing_refused = refl

abbrev an_account : Account
an_account = record {
  id = codes "checking";
  name = codes "Checking";
  kind = bank;
  currency = codes "usd";
  opening_balance = pos 100000;
  archived = false;
  colour = [];
  icon = [];
  group_id = none;
  credit_limit = none;
  statement_day = none;
  due_day = none;
  excluded_from_totals = none;
  created_at = 0;
  updated_at = [];
}

abbrev request : PayBillRequest
request = record {
  card = record an_account { id = codes "visa"; name = codes "Visa"; currency = codes "USD" };
  from = an_account;
  amount = pos 12000;
  date = none;
  note = none;
}

abbrev today : Text
today = codes "2026-03-10"

abbrev paid_row : AnyEntity ℕ
paid_row = transaction_row (record (completed 7 (payment (codes "p1") today request)) {
  updated_at = encode (record { physical = 20; counter = 0 }) (codes "3f9a2c17");
})

abbrev after : Ledger (AnyEntity ℕ)
after = (pay (codes "p1") today 7 20 request fresh).1

goes_through : pay (codes "p1") today 7 20 request fresh ≡ (some (ok paid_row), after)
unfolding pay refusal eq_text upper save assert_valid transfer_error destination_error is_empty
    is_date_text is_digit completed payment or_default put tick
goes_through = refl

pay-Settles_example :
    (txn : Transaction ℕ) × (paid_row ≡ transaction_row txn)
    × IsRecordable txn
    × (get_row (transactions, codes "p1") after.tables ≡ some paid_row)
    × Settles request txn
pay-Settles_example = pay-Settles (codes "p1") today 7 20 request fresh after paid_row goes_through
