-- ===== src/Money/Tests.antt =====
-- Amounts and transactions of app/src/app/core/util/money.ts at concrete values.
use easy_docket.Base.{ℕ, ◌≡◌, ◌≢◌, inl, inr, refl, ap, true, some, none, List, [], ◌∷◌, arith}
use easy_docket.Base.Int.{pos, negsuc}
use easy_docket.Base.Text.{Text, codes}
use easy_docket.Models.Records.{TransactionKind, Transaction}
use easy_docket.Money.{parse_amount, format_amount, signed_for}
use easy_docket.Money.RoundTrip.{parse_amount-format_amount}
use easy_docket.Money.Effect.{sum_over, Distinct, transfer_total}

parse_amount-format_amount_example :
    parse_amount (format_amount (negsuc 1233) (codes "usd")) (codes "usd") ≡ some (negsuc 1233)
parse_amount-format_amount_example =
    parse_amount-format_amount (negsuc 1233) (codes "usd") (omega arith)

abbrev rent : Transaction ℕ
rent = record {
  id = codes "t1";
  kind = TransactionKind.expense;
  amount = pos 90000;
  currency = codes "USD";
  account_id = codes "bank";
  counter_account_id = none;
  category_id = some (codes "home");
  date = codes "2024-01-31";
  payee = [];
  note = [];
  tags = [];
  cleared = true;
  rate = none;
  rate_date = none;
  created_at = 0;
  updated_at = codes "a";
}

abbrev pay : Transaction ℕ
pay = record rent { kind = TransactionKind.income }

abbrev withdrawal : Transaction ℕ
withdrawal = record rent {
  kind = TransactionKind.transfer;
  counter_account_id = some (codes "cash");
}

abbrev two_accounts : List Text
two_accounts = codes "cash" ∷ codes "bank" ∷ []

first : Text → ℕ
first [] = 0
first (c ∷ t) = c

apart : codes "cash" ≢ codes "bank"
unfolding first
apart e = absurd (omega (arith, ap first e))

two_accounts-Distinct : Distinct two_accounts
two_accounts-Distinct = (λ m. elim m [ inl e ↦ apart e | inr n ↦ n ], (λ m. m, tt))

transfer_kept : sum_over (λ a. signed_for a withdrawal) two_accounts ≡ pos 0
transfer_kept =
    transfer_total withdrawal two_accounts two_accounts-Distinct (inr (inl refl)) (codes "cash")
      refl refl apart (inl refl)
