-- ===== src/Rows.antt =====
-- The rows of all tables as one type, `AnyEntity` of app/src/app/core/models/domain.ts, with what the
-- ledger uses of each.
use easy_docket.Base.{ℕ, ◌≡◌, refl, Bool, Option, List}
use easy_docket.Base.Text.{Text}
use easy_docket.Models.{Entity}
use easy_docket.Models.Records.{
  Minor, TransactionKind, Transaction, AccountGroup, Account, Category, Budget, ExchangeRate,
}
use easy_docket.Schedule.{Schedule}

-- `RecurringRule`; the fields that the schedule reads are in `schedule`.
pub record RecurringRule : Type 0 where
  pub id : Text
  pub name : Text
  pub kind : TransactionKind
  pub amount : Minor
  pub currency : Text
  pub account_id : Text
  pub counter_account_id : Option Text
  pub category_id : Option Text
  pub payee : Text
  pub note : Text
  pub tags : List Text
  pub schedule : Schedule
  pub archived : Bool
  pub created_at : ℕ
  pub updated_at : Text

-- `VaultSettings`
pub record VaultSettings : Type 0 where
  pub id : Text
  pub reporting_currency : Text
  pub subcategories : Option Bool
  pub created_at : ℕ
  pub updated_at : Text

-- `AnyEntity`
pub data AnyEntity (Rate : Type 0) : Type 0 where
  account_group_row : AccountGroup → AnyEntity Rate
  account_row : Account → AnyEntity Rate
  category_row : Category → AnyEntity Rate
  transaction_row : Transaction Rate → AnyEntity Rate
  budget_row : Budget → AnyEntity Rate
  rule_row : RecurringRule → AnyEntity Rate
  rate_row : ExchangeRate Rate → AnyEntity Rate
  settings_row : VaultSettings → AnyEntity Rate

module _ {Rate : Type 0} where
  abbrev pub id_of : AnyEntity Rate → Text
  id_of (account_group_row r) = r.id
  id_of (account_row r) = r.id
  id_of (category_row r) = r.id
  id_of (transaction_row r) = r.id
  id_of (budget_row r) = r.id
  id_of (rule_row r) = r.id
  id_of (rate_row r) = r.id
  id_of (settings_row r) = r.id

  abbrev pub stamp_of : AnyEntity Rate → Text
  stamp_of (account_group_row r) = r.updated_at
  stamp_of (account_row r) = r.updated_at
  stamp_of (category_row r) = r.updated_at
  stamp_of (transaction_row r) = r.updated_at
  stamp_of (budget_row r) = r.updated_at
  stamp_of (rule_row r) = r.updated_at
  stamp_of (rate_row r) = r.updated_at
  stamp_of (settings_row r) = r.updated_at

  abbrev pub stamped : Text → AnyEntity Rate → AnyEntity Rate
  stamped s (account_group_row r) = account_group_row (record r { updated_at = s })
  stamped s (account_row r) = account_row (record r { updated_at = s })
  stamped s (category_row r) = category_row (record r { updated_at = s })
  stamped s (transaction_row r) = transaction_row (record r { updated_at = s })
  stamped s (budget_row r) = budget_row (record r { updated_at = s })
  stamped s (rule_row r) = rule_row (record r { updated_at = s })
  stamped s (rate_row r) = rate_row (record r { updated_at = s })
  stamped s (settings_row r) = settings_row (record r { updated_at = s })

  pub id_of-stamped : (s : Text) (r : AnyEntity Rate) → id_of (stamped s r) ≡ id_of r
  id_of-stamped s (account_group_row r) = refl
  id_of-stamped s (account_row r) = refl
  id_of-stamped s (category_row r) = refl
  id_of-stamped s (transaction_row r) = refl
  id_of-stamped s (budget_row r) = refl
  id_of-stamped s (rule_row r) = refl
  id_of-stamped s (rate_row r) = refl
  id_of-stamped s (settings_row r) = refl

  pub stamp_of-stamped : (s : Text) (r : AnyEntity Rate) → stamp_of (stamped s r) ≡ s
  stamp_of-stamped s (account_group_row r) = refl
  stamp_of-stamped s (account_row r) = refl
  stamp_of-stamped s (category_row r) = refl
  stamp_of-stamped s (transaction_row r) = refl
  stamp_of-stamped s (budget_row r) = refl
  stamp_of-stamped s (rule_row r) = refl
  stamp_of-stamped s (rate_row r) = refl
  stamp_of-stamped s (settings_row r) = refl

-- What the ledger uses of a row of any table.
abbrev pub any_entity : {Rate : Type 0} → Entity (AnyEntity Rate)
any_entity = record {
  id = id_of;
  updated_at = stamp_of;
  with_stamp = stamped;
  id-with_stamp = id_of-stamped;
  updated_at-with_stamp = stamp_of-stamped;
}
