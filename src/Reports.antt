-- ===== src/Reports.antt =====
-- Totals of a period: `spendByCategory` and `totalsFor` of app/src/app/core/reports/aggregate.ts. A rate
-- that is no positive number throws, as in the conversion.
pub mod Spending
pub mod Months
pub mod Worth
mod Tests
use easy_docket.Base.{
  ℕ, suc, ◌+◌, Bool, true, false, not, ◌&&◌, Option, none, some, List, [], ◌∷◌, map, if◌then◌else◌,
}
use easy_docket.Base.Int.{ℤ, pos, ◌+ℤ◌, ◌-ℤ◌, ltb_ℤ, leb_ℤ}
use easy_docket.Base.Text.{Text, eq_text}
use easy_docket.Conversion.{Double, Outcome, value, bad_rate, in_reporting, ◌>>=◌}
use easy_docket.Dates.{DateRange, within}
use easy_docket.Models.Records.{Minor, Transaction, TransactionKind, income, expense, transfer}

-- `CategoryTotal`
pub record CategoryTotal : Type 0 where
  pub category_id : Option Text
  pub amount : Minor
  pub share : ℤ
  pub count : ℕ

-- An entry of the map `totals`.
pub record Entry : Type 0 where
  pub key : Option Text
  pub amount : Minor
  pub count : ℕ

unfoldable pub is_expense : TransactionKind → Bool
is_expense income = false
is_expense expense = true
is_expense transfer = false

unfoldable pub same_key : Option Text → Option Text → Bool
same_key none none = true
same_key none (some b) = false
same_key (some a) none = false
same_key (some a) (some b) = eq_text a b

-- `totals.get(key) ?? ...` and `totals.set(key, entry)`
unfoldable pub add_to : Option Text → Minor → List Entry → List Entry
add_to key amount [] = record { key = key; amount = pos 0 +ℤ amount; count = 1 } ∷ []
add_to key amount (entry ∷ entries) =
    if same_key entry.key key
    then record entry { amount = entry.amount +ℤ amount; count = entry.count + 1 } ∷ entries
    else entry ∷ add_to key amount entries

-- `roots?.get(id) ?? id`; no map is an empty one.
unfoldable pub root_of : List (Text × Text) → Text → Text
root_of [] id = id
root_of ((category, root) ∷ roots) id = if eq_text category id then root else root_of roots id

unfoldable pub root_key : List (Text × Text) → Option Text → Option Text
root_key roots none = none
root_key roots (some id) = some (root_of roots id)

unfoldable pub add_amount : Option Text → Option Minor → List Entry → List Entry
add_amount key none entries = entries
add_amount key (some amount) entries = add_to key amount entries

unfoldable pub entries_total : List Entry → Minor
entries_total [] = pos 0
entries_total (entry ∷ entries) = entry.amount +ℤ entries_total entries

-- `collate`
unfoldable pub collate : (Text → Text → ℤ) → Option Text → Option Text → ℤ
collate locale_compare none none = pos 0
collate locale_compare none (some b) = pos 1
collate locale_compare (some a) none = pos 0 -ℤ pos 1
collate locale_compare (some a) (some b) = if eq_text a b then pos 0 else locale_compare a b

-- The order of the rows: `a` may stand before `b`.
unfoldable pub may_precede : (Text → Text → ℤ) → CategoryTotal → CategoryTotal → Bool
may_precede locale_compare a b =
    if ltb_ℤ b.amount a.amount
    then true
    else if ltb_ℤ a.amount b.amount
    then false
    else leb_ℤ (collate locale_compare a.category_id b.category_id) (pos 0)

unfoldable pub insert_total :
    (Text → Text → ℤ) → CategoryTotal → List CategoryTotal → List CategoryTotal
insert_total locale_compare row [] = row ∷ []
insert_total locale_compare row (other ∷ rows) =
    if may_precede locale_compare row other
    then row ∷ other ∷ rows
    else other ∷ insert_total locale_compare row rows

unfoldable pub sort_totals : (Text → Text → ℤ) → List CategoryTotal → List CategoryTotal
sort_totals locale_compare [] = []
sort_totals locale_compare (row ∷ rows) =
    insert_total locale_compare row (sort_totals locale_compare rows)

-- The totals of a range.
pub record Totals : Type 0 where
  pub income : Minor
  pub expense : Minor
  pub net : Minor

-- What a round of the loop of `totalsFor` does with a converted amount.
unfoldable pub add_kind : TransactionKind → Option Minor → Minor × Minor → Minor × Minor
add_kind kind none sums = sums
add_kind TransactionKind.income (some amount) (earned, spent) = (earned +ℤ amount, spent)
add_kind TransactionKind.expense (some amount) (earned, spent) = (earned, spent +ℤ amount)
add_kind TransactionKind.transfer (some amount) sums = sums

module _ {W : Type 0} (double : Double W) (reporting : Text) (range : DateRange) where
  -- The loop of `spendByCategory`.
  unfoldable pub spend_from :
      List (Text × Text) → List (Transaction W) → List Entry → Outcome (List Entry)
  spend_from roots [] entries = value entries
  spend_from roots (t ∷ ts) entries =
      if is_expense t.kind && within t.date range
      then (in_reporting double t reporting >>= λ converted.
          spend_from roots ts (add_amount (root_key roots t.category_id) converted entries))
      else spend_from roots ts entries

  -- `Math.round((entry.amount / total) * 100)`
  unfoldable pub share_of : Minor → Minor → ℤ
  share_of total amount =
      if ltb_ℤ (pos 0) total
      then double.to_minor (
          double.rounded (
            double.times (double.over (double.of_minor amount) (double.of_minor total))
              (double.of_minor (pos 100))))
      else pos 0

  unfoldable pub row_of_entry : Minor → Entry → CategoryTotal
  row_of_entry total entry = record {
    category_id = entry.key;
    amount = entry.amount;
    share = share_of total entry.amount;
    count = entry.count;
  }

  -- `spendByCategory`; `sort` is stable.
  unfoldable pub spend_by_category :
      (Text → Text → ℤ) → List (Text × Text) → List (Transaction W) → Outcome (List CategoryTotal)
  spend_by_category locale_compare roots ts = spend_from roots ts [] >>= λ entries.
      value (sort_totals locale_compare (map (row_of_entry (entries_total entries)) entries))

  -- The loop of `totalsFor`.
  unfoldable pub totals_from : List (Transaction W) → Minor × Minor → Outcome (Minor × Minor)
  totals_from [] sums = value sums
  totals_from (t ∷ ts) sums =
      if within t.date range
      then (in_reporting double t reporting >>= λ converted.
          totals_from ts (add_kind t.kind converted sums))
      else totals_from ts sums

  -- `totalsFor`
  unfoldable pub totals_for : List (Transaction W) → Outcome Totals
  totals_for ts = totals_from ts (pos 0, pos 0) >>= λ sums.
      value (record { income = sums.0; expense = sums.1; net = sums.0 -ℤ sums.1 })
