-- ===== src/Models.antt =====
-- What the ledger stores and replicates: app/src/app/core/models/oplog.ts, and the entity names of
-- app/src/app/core/models/domain.ts. Rows are a type of their own, behind what the ledger uses of
-- them.
pub mod Records
use easy_docket.Base.{
  ℕ, zero, suc, ◌≡◌, refl, ap, Bool, true, ◌&&◌, Option, List, [], ◌∷◌, arith, ◌==◌,
}
use easy_docket.Base.Text.{Text, eq_text, eq_text→eq, eq_text_refl}

pub data EntityName : Type 0 where
  account_groups accounts categories transactions budgets recurring_rules rates : EntityName
  vault_settings : EntityName

-- `ENTITY_NAMES`
abbrev pub entity_names : List EntityName
entity_names =
    account_groups ∷ accounts ∷ categories ∷ transactions ∷ budgets ∷ recurring_rules ∷ rates
    ∷ vault_settings ∷ []

position : EntityName → ℕ
position account_groups = 0
position accounts = 1
position categories = 2
position transactions = 3
position budgets = 4
position recurring_rules = 5
position rates = 6
position vault_settings = 7

name_at : ℕ → EntityName
name_at zero = account_groups
name_at (suc zero) = accounts
name_at (suc (suc zero)) = categories
name_at (suc (suc (suc zero))) = transactions
name_at (suc (suc (suc (suc zero)))) = budgets
name_at (suc (suc (suc (suc (suc zero))))) = recurring_rules
name_at (suc (suc (suc (suc (suc (suc zero)))))) = rates
name_at (suc (suc (suc (suc (suc (suc (suc n))))))) = vault_settings

name_at-position : (e : EntityName) → name_at (position e) ≡ e
unfolding name_at position
name_at-position account_groups = refl
name_at-position accounts = refl
name_at-position categories = refl
name_at-position transactions = refl
name_at-position budgets = refl
name_at-position recurring_rules = refl
name_at-position rates = refl
name_at-position vault_settings = refl

-- A row of a table is identified by its entity and its id.
abbrev pub Key : Type 0
Key = EntityName × Text

unfoldable pub eq_entity : EntityName → EntityName → Bool
unfolding position
eq_entity e f = position e == position f

unfoldable pub eq_key : Key → Key → Bool
unfolding eq_entity
eq_key (e, i) (f, j) = eq_entity e f && eq_text i j

pub eq_key_refl : (k : Key) → eq_key k k ≡ true
unfolding eq_key
eq_key_refl (e, i) = ground (arith, eq_text_refl i)

pub eq_key→eq : (k j : Key) → eq_key k j ≡ true → k ≡ j
unfolding eq_key
eq_key→eq (e, i) (f, j) h =
    let same : position e ≡ position f = ground arith in
    ground (arith, eq_text→eq i j, ap name_at same, name_at-position e, name_at-position f)

pub data OpKind : Type 0 where
  put delete : OpKind

-- `Operation`
pub record Operation (Row : Type 0) : Type 0 where
  pub hlc : Text
  pub entity : EntityName
  pub entity_id : Text
  pub op : OpKind
  pub value : Option Row
  pub device : Text

-- `LocalOperation`
pub record LocalOperation (Row : Type 0) : Type 0 where
  pub operation : Operation Row
  pub open operation use *
  pub synced : Bool

-- What the ledger uses of a row: its id, and the stamp that it carries.
pub record Entity (Row : Type 0) : Type 0 where
  pub id : Row → Text
  pub updated_at : Row → Text
  -- `{ ...value, updatedAt }`
  pub with_stamp : Text → Row → Row
  pub id-with_stamp : (s : Text) (r : Row) → id (with_stamp s r) ≡ id r
  pub updated_at-with_stamp : (s : Text) (r : Row) → updated_at (with_stamp s r) ≡ s
