-- ===== src/Cards/Tests.antt =====
-- A card that closes on the 31st and is due on the 20th, in February.
use easy_docket.Base.{ℕ, ◌≡◌, ◌⊎◌, refl, true, false, none, some, [], ◌∷◌, ◌-◌, arith, suc}
use easy_docket.Base.Int.{pos}
use easy_docket.Base.Text.{codes, ltb_text}
use easy_docket.Base.Digits.{to_string, pad_start}
use easy_docket.Dates.{format, parts, is_digit, digit, days_in_month, add_months}
use easy_docket.Dates.Civil.{Ymd, is_leap, month_length, full_year}
use easy_docket.Dates.Shift.{IsStart}
use easy_docket.Dates.Written.{written}
use easy_docket.Models.Records.{Account, card, Transaction, income}
use easy_docket.Cards.{
  StatementSummary, day_of_month, statement_close, last_statement_date, summarise_statement,
}
use easy_docket.Cards.Closes.{month_index, in_month, last_statement_date-latest}
use easy_docket.Cards.Bills.{Bills}
use easy_docket.Cards.Owed.{AddsUp, summarise_statement_lem}

abbrev day_in_march : Ymd
day_in_march = record { year = 2026; month = 3; day = 10 }

day_in_march-IsStart : IsStart day_in_march
unfolding month_length is_leap
day_in_march-IsStart = record {
  date = record {
    year_min = omega arith;
    month_min = omega arith;
    month_max = omega arith;
    day_min = omega arith;
    day_max = ground arith;
  };
  year_max = omega arith;
}

abbrev visa : Account
visa = record {
  id = codes "visa";
  name = codes "Visa";
  kind = card;
  currency = codes "USD";
  opening_balance = pos 0;
  archived = false;
  colour = [];
  icon = [];
  group_id = none;
  credit_limit = none;
  statement_day = some 31;
  due_day = some 20;
  excluded_from_totals = none;
  created_at = 0;
  updated_at = [];
}

month_of_the_close :
    (m : ℕ) × (last_statement_date 31 (written day_in_march) ≡ some (written (in_month m 31)))
    × ((m ≡ month_index day_in_march) ⊎ (suc m ≡ month_index day_in_march))
    × (ltb_text (written day_in_march) (written (in_month m 31)) ≡ false)
    × (ltb_text (written day_in_march) (written (in_month (suc m) 31)) ≡ true)
month_of_the_close =
    last_statement_date-latest day_in_march 31 day_in_march-IsStart (omega arith) (omega arith)

-- An amount that came in after the close.
abbrev repaid : Transaction ℕ
repaid = record {
  id = codes "t1";
  kind = income;
  amount = pos 1200;
  currency = codes "USD";
  account_id = codes "visa";
  counter_account_id = none;
  category_id = none;
  date = codes "2026-03-05";
  payee = [];
  note = [];
  tags = [];
  cleared = false;
  rate = none;
  rate_date = none;
  created_at = 0;
  updated_at = [];
}

summarise_statement_lem_example :
    (s : StatementSummary) × (m : ℕ) × (n : ℕ) × (summarise_statement visa
        (repaid ∷ [])
        (written day_in_march)
      ≡ some (some s))
    × (s.closed_on ≡ written (in_month m 31))
    × (ltb_text (written day_in_march) s.closed_on ≡ false)
    × (ltb_text (written day_in_march) (written (in_month (suc m) 31)) ≡ true)
    × (s.due_on ≡ written (in_month n 20))
    × (ltb_text s.closed_on s.due_on ≡ true)
    × (ltb_text s.closed_on (written (in_month (n - 1) 20)) ≡ false)
    × Bills visa (repaid ∷ []) (written day_in_march) s
    × AddsUp visa (repaid ∷ []) (written day_in_march) s
summarise_statement_lem_example =
    summarise_statement_lem visa (repaid ∷ []) day_in_march 31 20 day_in_march-IsStart (omega arith)
      (omega arith) refl refl

clamps : last_statement_date 31 (codes "2026-03-10") ≡ some (codes "2026-02-28")
unfolding last_statement_date ltb_text to_string parts format is_digit day_of_month pad_start digit
    days_in_month month_length full_year add_months statement_close is_leap
clamps = refl
