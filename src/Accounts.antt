-- ===== src/Accounts.antt =====
-- The accounts screen's arithmetic: app/src/app/core/accounts/classification.ts, totals.ts and
-- sections.ts.
pub mod Filed
pub mod Worth
pub mod Net
mod Tests
use easy_docket.Base.{
  ℕ, ◌+◌, Bool, true, false, not, Option, none, some, List, [], ◌∷◌, ◌++◌, if◌then◌else◌, filter,
  any,
}
use easy_docket.Base.Int.{ℤ, pos, neg, ◌+ℤ◌, ◌-ℤ◌}
use easy_docket.Base.Text.{Text, eq_text}
use easy_docket.Models.Records.{
  Minor, Account, AccountGroup, AccountGroupType, default, credit_card, debit_card, loan,
}
use easy_docket.Money.{upper}
use easy_docket.Conversion.{Double, Outcome, value, bad_rate, ◌>>=◌, same_currency, convert}

pub data BalanceSheetSide : Type 0 where
  asset liability : BalanceSheetSide

-- `sideOfType`
unfoldable pub side_of_type : AccountGroupType → BalanceSheetSide
side_of_type default = asset
side_of_type credit_card = liability
side_of_type debit_card = asset
side_of_type loan = liability

-- `sideOf`
unfoldable pub side_of : Option AccountGroup → BalanceSheetSide
side_of none = asset
side_of (some group) = side_of_type group.type

unfoldable pub is_liability : BalanceSheetSide → Bool
is_liability asset = false
is_liability liability = true

-- `readsAsOwed`
unfoldable pub reads_as_owed : AccountGroupType → Bool
reads_as_owed type = is_liability (side_of_type type)

-- `countsInTotals`
unfoldable pub counts_in_totals : Account → Bool
counts_in_totals account = elim account.excluded_from_totals [
  | none ↦ true
  | some excluded ↦ not excluded
]

-- `AccountSection`
pub record AccountSection : Type 0 where
  pub group : Option AccountGroup
  pub accounts : List Account
  pub subtotal : Minor
  pub owed : Bool
  pub side : BalanceSheetSide
  pub unconverted : List Text
  pub excluded : ℕ

-- `SectionInput`
pub record SectionInput (W : Type 0) : Type 0 where
  pub accounts : List Account
  pub groups : List AccountGroup
  pub balances : Text → Option Minor
  pub reporting : Text
  pub rate_for : Text → Option W

-- `displayBalance`
unfoldable pub display_balance : Minor → Bool → Minor
display_balance balance owed = if owed then neg balance else balance

-- `byId.get`: of two groups with one id the map has the later.
unfoldable pub find_group : Text → List AccountGroup → Option AccountGroup
find_group id [] = none
find_group id (group ∷ groups) =
    let rest = find_group id groups in
    elim rest [ some later ↦ some later | none ↦ if eq_text group.id id then some group else none ]

lookup_group : Option Text → List AccountGroup → Option AccountGroup
lookup_group none groups = none
lookup_group (some []) groups = none
lookup_group (some (c ∷ id)) groups = find_group (c ∷ id) groups

-- The group of an account; an empty id is none.
unfoldable pub group_of : List AccountGroup → Account → Option AccountGroup
unfolding lookup_group
group_of groups account = lookup_group account.group_id groups

-- Whether the loop over the accounts files one under a group.
unfoldable pub belongs : List AccountGroup → AccountGroup → Account → Bool
belongs groups group account = elim (group_of groups account) [
  | none ↦ false
  | some found ↦ eq_text found.id group.id
]

unfoldable pub is_ungrouped : List AccountGroup → Account → Bool
is_ungrouped groups account = elim (group_of groups account) [ none ↦ true | some found ↦ false ]

-- `[...new Set(names)]`
unfoldable pub unique : List Text → List Text
unique [] = []
unique (t ∷ ts) = let rest = unique ts in t ∷ filter (λ u. not (eq_text t u)) rest

-- `total`, `excluded` and `missing` of `sectionFor`.
pub record Tally : Type 0 where
  pub total : Minor
  pub excluded : ℕ
  pub missing : List Text

-- The balance of an account.
unfoldable pub balance_of : (Text → Option Minor) → Account → Minor
balance_of balances account = elim (balances account.id) [
  | none ↦ account.opening_balance
  | some b ↦ b
]

-- Whether a section reads as owed.
unfoldable pub owed_by : Option AccountGroup → Bool
owed_by none = false
owed_by (some group) = reads_as_owed group.type

module _ {W : Type 0} (double : Double W) (input : SectionInput W) where
  add_at_rate : Account → Option W → Tally → Outcome Tally
  add_at_rate account none t =
      value (record t { missing = t.missing ++ upper account.currency ∷ [] })
  add_at_rate account (some rate) t =
      convert double (balance_of input.balances account) rate account.currency input.reporting
      >>= λ amount. value (record t { total = t.total +ℤ amount })

  -- A round of the loop of `sectionFor`.
  unfoldable pub add_account : Account → Tally → Outcome Tally
  unfolding add_at_rate
  add_account account t =
      if not (counts_in_totals account)
      then value (record t { excluded = t.excluded + 1 })
      else if same_currency account.currency input.reporting
      then value (record t { total = t.total +ℤ balance_of input.balances account })
      else add_at_rate account (input.rate_for account.currency) t

  unfoldable pub tally_from : List Account → Tally → Outcome Tally
  tally_from [] t = value t
  tally_from (account ∷ accounts) t = add_account account t >>= λ u. tally_from accounts u

  -- `sectionFor`
  unfoldable pub section_for :
      Option AccountGroup → List Account → BalanceSheetSide → Outcome AccountSection
  section_for group in_section side =
      tally_from in_section (record { total = pos 0; excluded = 0; missing = [] }) >>= λ t.
      value (record {
        group = group;
        accounts = in_section;
        subtotal = display_balance t.total (owed_by group);
        owed = owed_by group;
        side = side;
        unconverted = unique t.missing;
        excluded = t.excluded;
      })

  -- A section that has accounts, before the sections that follow.
  unfoldable pub push_section :
      Option AccountGroup
      → List Account
      → BalanceSheetSide
      → Outcome (List AccountSection)
      → Outcome (List AccountSection)
  push_section group [] side rest = rest
  push_section group (account ∷ accounts) side rest =
      section_for group (account ∷ accounts) side >>= λ section.
      rest >>= λ sections. value (section ∷ sections)

  -- The loop over the groups, and the ungrouped accounts after it.
  unfoldable pub sections_from : List AccountGroup → Outcome (List AccountSection)
  sections_from [] =
      push_section none (filter (is_ungrouped input.groups) input.accounts) asset (value [])
  sections_from (group ∷ groups) =
      push_section (some group) (filter (belongs input.groups group) input.accounts)
        (side_of_type group.type) (sections_from groups)

  -- `buildSections`
  unfoldable pub build_sections : Outcome (List AccountSection)
  build_sections = sections_from input.groups

-- `BalanceSheet`
pub record BalanceSheet : Type 0 where
  pub assets : Minor
  pub liabilities : Minor
  pub net : Minor

unfoldable pub add_section : AccountSection → Minor × Minor → Minor × Minor
add_section section (assets, liabilities) =
    if is_liability section.side
    then (assets, liabilities +ℤ section.subtotal)
    else (assets +ℤ section.subtotal, liabilities)

unfoldable pub sides_from : List AccountSection → Minor × Minor → Minor × Minor
sides_from [] sides = sides
sides_from (section ∷ sections) sides = sides_from sections (add_section section sides)

-- `balanceSheet`
unfoldable pub balance_sheet : List AccountSection → BalanceSheet
balance_sheet sections =
    let (assets, liabilities) = sides_from sections (pos 0, pos 0) in
    record { assets = assets; liabilities = liabilities; net = assets -ℤ liabilities }
