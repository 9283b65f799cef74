-- ===== src/Models/Records.antt =====
-- The rows of the ledger: app/src/app/core/models/domain.ts. Times of creation are numbers of
-- milliseconds. An exchange rate is a floating-point number, whose type is a parameter.
use easy_docket.Base.{ℕ, Bool, Option, List}
use easy_docket.Base.Int.{ℤ}
use easy_docket.Base.Text.{Text}

-- Integer minor units.
abbrev pub Minor : Type 0
Minor = ℤ

pub data TransactionKind : Type 0 where
  income expense transfer : TransactionKind

-- `Transaction`
pub record Transaction (Rate : Type 0) : Type 0 where
  pub id : Text
  pub kind : TransactionKind
  pub amount : Minor
  pub currency : Text
  pub account_id : Text
  pub counter_account_id : Option Text
  pub category_id : Option Text
  pub date : Text
  pub payee : Text
  pub note : Text
  pub tags : List Text
  pub cleared : Bool
  pub rate : Option Rate
  pub rate_date : Option Text
  pub created_at : ℕ
  pub updated_at : Text

pub data AccountKind : Type 0 where
  cash bank card wallet savings investment : AccountKind

pub data AccountGroupType : Type 0 where
  default credit_card debit_card loan : AccountGroupType

-- `AccountGroup`
pub record AccountGroup : Type 0 where
  pub id : Text
  pub name : Text
  pub type : AccountGroupType
  pub order : ℤ
  pub colour : Text
  pub icon : Text
  pub archived : Bool
  pub created_at : ℕ
  pub updated_at : Text

-- `Account`; a `groupId` that is absent or null is `none`.
pub record Account : Type 0 where
  pub id : Text
  pub name : Text
  pub kind : AccountKind
  pub currency : Text
  pub opening_balance : Minor
  pub archived : Bool
  pub colour : Text
  pub icon : Text
  pub group_id : Option Text
  pub credit_limit : Option Minor
  pub statement_day : Option ℕ
  pub due_day : Option ℕ
  pub excluded_from_totals : Option Bool
  pub created_at : ℕ
  pub updated_at : Text

pub data CategoryKind : Type 0 where
  income_category expense_category : CategoryKind

-- `Category`
pub record Category : Type 0 where
  pub id : Text
  pub name : Text
  pub kind : CategoryKind
  pub parent_id : Option Text
  pub colour : Text
  pub icon : Text
  pub archived : Bool
  pub created_at : ℕ
  pub updated_at : Text

pub data BudgetPeriod : Type 0 where
  weekly monthly yearly : BudgetPeriod

-- `Budget`
pub record Budget : Type 0 where
  pub id : Text
  pub name : Text
  pub category_ids : List Text
  pub period : BudgetPeriod
  pub amount : Minor
  pub currency : Text
  pub start_date : Text
  pub rollover : Bool
  pub archived : Bool
  pub created_at : ℕ
  pub updated_at : Text

pub data RateSource : Type 0 where
  manual fetched : RateSource

-- `ExchangeRate`
pub record ExchangeRate (Rate : Type 0) : Type 0 where
  pub id : Text
  pub base : Text
  pub quote : Text
  pub rate : Rate
  pub date : Text
  pub source : RateSource
  pub created_at : ℕ
  pub updated_at : Text
