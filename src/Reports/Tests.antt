-- ===== src/Reports/Tests.antt =====
-- Two lunches and a salary: the rows of the categories and the totals of a month.
use easy_docket.Base.{map, arith, ℕ, ◌≡◌, refl, false, none, some, List, [], ◌∷◌}
use easy_docket.Base.Int.{pos, ◌+ℤ◌, ◌-ℤ◌}
use easy_docket.Base.Int.Sums.{sum_by}
use easy_docket.Base.Text.{Text, codes, eq_text, ltb_text}
use easy_docket.Conversion.{
  value, in_reporting, same_currency, convert, is_rate, round_half_away_from_zero,
}
use easy_docket.Conversion.Whole.{whole}
use easy_docket.Dates.{DateRange, within}
use easy_docket.Models.Records.{Account, AccountKind, Transaction, income, expense}
use easy_docket.Money.{upper}
use easy_docket.Reports.{
  CategoryTotal, Totals, spend_by_category, totals_for, totals_from, add_kind,
}
use easy_docket.Base.Digits.{to_string, pad_start}
use easy_docket.Dates.Civil.{Ymd, month_length}
use easy_docket.Dates.Shift.{IsStart}
use easy_docket.Dates.Written.{written}
use easy_docket.Dates.{format}
use easy_docket.Reports.Months.{MonthlyFlow, flow_by_month}
use easy_docket.Reports.Months.Each.{flow_of}
use easy_docket.Reports.Months.Flows.{Dated, flow_by_month-totals_for}
use easy_docket.Dates.Ranges.{months_in}
use easy_docket.Reports.Worth.Amounts.{Worth}
use easy_docket.Reports.Worth.LastDays.{LastDays}
use easy_docket.Reports.Spending.{spend_by_category-totals_for}

abbrev march : DateRange
march = record { from = codes "2026-03-01"; to = codes "2026-03-31" }

abbrev lunch : Transaction ℕ
lunch = record {
  id = codes "t1";
  kind = expense;
  amount = pos 1200;
  currency = codes "USD";
  account_id = codes "cash";
  counter_account_id = none;
  category_id = some (codes "lunch");
  date = codes "2026-03-10";
  payee = [];
  note = [];
  tags = [];
  cleared = false;
  rate = none;
  rate_date = none;
  created_at = 0;
  updated_at = [];
}

abbrev lunch_abroad : Transaction ℕ
lunch_abroad = record lunch {
  currency = codes "EUR";
  rate = some 2;
  category_id = some (codes "food");
}

abbrev salary : Transaction ℕ
salary = record lunch { kind = income; amount = pos 90000; category_id = none }

abbrev month : List (Transaction ℕ)
month = lunch ∷ salary ∷ lunch_abroad ∷ []

abbrev roots : List (Text × Text)
roots = (codes "lunch", codes "food") ∷ []

abbrev month_totals : Totals
month_totals = record { income = pos 90000; expense = pos 3600; net = pos 86400 }

month_totals_lem : totals_for whole (codes "USD") march month ≡ value month_totals
unfolding totals_for totals_from within ltb_text in_reporting same_currency eq_text upper convert
    is_rate add_kind ◌-ℤ◌ ◌+ℤ◌ round_half_away_from_zero
month_totals_lem = refl

spend_by_category-totals_for_example :
    (rows : List CategoryTotal) × (spend_by_category whole
        (codes "USD")
        march
        (λ a b. pos 0)
        roots
        month
      ≡ value rows)
    × (sum_by (λ r. r.amount) rows ≡ pos 3600)
spend_by_category-totals_for_example =
    spend_by_category-totals_for whole (codes "USD") march (λ a b. pos 0) roots month month_totals
      month_totals_lem

abbrev march_first : Ymd
march_first = record { year = 2026; month = 3; day = 1 }

abbrev lunch_day : Ymd
lunch_day = record { year = 2026; month = 3; day = 10 }

abbrev april_last : Ymd
april_last = record { year = 2026; month = 4; day = 30 }

abbrev spring : DateRange
spring = record { from = written march_first; to = written april_last }

spring_totals_lem : totals_for whole (codes "USD") spring month ≡ value month_totals
unfolding totals_for totals_from within ltb_text in_reporting same_currency eq_text upper convert
    is_rate add_kind ◌-ℤ◌ ◌+ℤ◌ round_half_away_from_zero format pad_start to_string
spring_totals_lem = refl

march_first-IsStart : IsStart march_first
unfolding month_length
march_first-IsStart = record {
  date = record {
    year_min = omega arith;
    month_min = omega arith;
    month_max = omega arith;
    day_min = omega arith;
    day_max = omega arith;
  };
  year_max = omega arith;
}

lunch_day-IsStart : IsStart lunch_day
unfolding month_length
lunch_day-IsStart = record {
  date = record {
    year_min = omega arith;
    month_min = omega arith;
    month_max = omega arith;
    day_min = omega arith;
    day_max = omega arith;
  };
  year_max = omega arith;
}

april_last-IsStart : IsStart april_last
unfolding month_length
april_last-IsStart = record {
  date = record {
    year_min = omega arith;
    month_min = omega arith;
    month_max = omega arith;
    day_min = omega arith;
    day_max = omega arith;
  };
  year_max = omega arith;
}

on_lunch_day : (t : Transaction ℕ) → t.date ≡ lunch.date → Dated t
unfolding format pad_start to_string
on_lunch_day t e = record { day = lunch_day; start = lunch_day-IsStart; shown = e }

flow_by_month-totals_for_example :
    (months : List Text) × (flows : List MonthlyFlow) × (months_in spring ≡ some months)
    × (flow_by_month whole (codes "USD") spring month ≡ some (value flows))
    × (flows ≡ map (flow_of whole (codes "USD") spring month) months)
    × (sum_by (λ f. f.income) flows ≡ pos 90000)
    × (sum_by (λ f. f.expense) flows ≡ pos 3600)
flow_by_month-totals_for_example =
    flow_by_month-totals_for whole (codes "USD") march_first april_last month month_totals
      march_first-IsStart april_last-IsStart (omega arith)
      (on_lunch_day lunch refl, (on_lunch_day salary refl, (on_lunch_day lunch_abroad refl, tt)))
      spring_totals_lem

abbrev cash : Account
cash = record {
  id = codes "cash";
  name = codes "Cash";
  kind = AccountKind.cash;
  currency = codes "USD";
  opening_balance = pos 5000;
  archived = false;
  colour = [];
  icon = [];
  group_id = none;
  credit_limit = none;
  statement_day = none;
  due_day = none;
  excluded_from_totals = none;
  created_at = 0;
  updated_at = [];
}
