-- ===== src/Accounts/Tests.antt =====
-- A balance sheet of app/src/app/core/accounts/sections.ts over two accounts in one group.
use easy_docket.Base.{ℕ, ◌≡◌, false, none, some, List, [], ◌∷◌, arith}
use easy_docket.Base.Int.{ℤ, pos, negsuc}
use easy_docket.Base.Text.{Text, codes}
use easy_docket.Models.Records.{bank, Account, credit_card, AccountGroup}
use easy_docket.Conversion.{value, is_rate}
use easy_docket.Conversion.Whole.{whole}
use easy_docket.Base.Int.Sums.{sum_by}
use easy_docket.Accounts.{AccountSection, SectionInput, build_sections, balance_sheet}
use easy_docket.Accounts.Worth.{GoodRates, worth}
use easy_docket.Accounts.Net.{balance_sheet-build_sections}

abbrev cards : AccountGroup
cards = record {
  id = codes "g1";
  name = codes "Cards";
  type = credit_card;
  order = pos 0;
  colour = [];
  icon = [];
  archived = false;
  created_at = 0;
  updated_at = [];
}

-- An account that is filed in a group, or in none where the group is not known.
abbrev account_in : Text → Text → ℤ → Account
account_in group currency balance = record {
  id = group;
  name = group;
  kind = bank;
  currency = currency;
  opening_balance = balance;
  archived = false;
  colour = [];
  icon = [];
  group_id = some group;
  credit_limit = none;
  statement_day = none;
  due_day = none;
  excluded_from_totals = none;
  created_at = 0;
  updated_at = [];
}

abbrev screen : SectionInput ℕ
screen = record {
  accounts =
      account_in (codes "g1") (codes "USD") (negsuc 123999)
      ∷ account_in (codes "g2") (codes "EUR") (pos 200000)
      ∷ [];
  groups = cards ∷ [];
  balances = λ id. none;
  reporting = codes "USD";
  rate_for = λ currency. some 2;
}

screen-GoodRates : GoodRates whole screen
unfolding is_rate
screen-GoodRates currency rate e = ground arith

balance_sheet-build_sections_example :
    (sections : List AccountSection) × (build_sections whole screen ≡ value sections)
    × ((balance_sheet sections).net ≡ sum_by (worth whole screen) screen.accounts)
balance_sheet-build_sections_example =
    balance_sheet-build_sections whole screen screen-GoodRates ((λ m. m), tt)
