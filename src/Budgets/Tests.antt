-- ===== src/Budgets/Tests.antt =====
-- Budgets of app/src/app/core/budgets at concrete dates.
use easy_docket.Base.{ℕ, ◌+◌, ◌≡◌, refl, ap, true, false, none, some, [], ◌∷◌, arith}
use easy_docket.Base.Int.{pos, ◌+ℤ◌, ◌-ℤ◌}
use easy_docket.Base.Text.{codes, eq_text, ltb_text}
use easy_docket.Dates.Civil.{
  Ymd, is_leap, month_length, civil, day_number, ordinal, before_month, before_year, full_year,
  month_of, year_of,
}
use easy_docket.Base.Digits.{pad_start, to_string, digit_char}
use easy_docket.Dates
use easy_docket.Budgets.Spend
use easy_docket.Money.{upper}
use easy_docket.Conversion.{in_reporting, same_currency, add_converted}
use easy_docket.Dates.Civil.RoundTrip.{civil-day_number}
use easy_docket.Dates.Written.{written}
use easy_docket.Dates.Shift.{IsStart}
use easy_docket.Dates.{add_days, add_months, parts, is_digit, digit, days_in_month}
use easy_docket.Models.Records.{monthly, expense, Transaction, Budget}
use easy_docket.Conversion.Whole.{whole}
use easy_docket.Budgets.{
  BudgetWindow, day_before, window_start, window_for, window_by_index, anchor_of,
}
use easy_docket.Budgets.FirstDays.{anchored, HasRoom}
use easy_docket.Budgets.Windows.{window_for-holds}
use easy_docket.Budgets.Spend.{
  BudgetProgress, progress_in, spend_detail, progress_of, carried_into, carry_over, detail_from,
  is_in, counts_towards, is_expense, covers_category, covers, includes, share_of,
}
use easy_docket.Budgets.Carry.{progress_in_carries}

abbrev payday : Ymd
payday = record { year = 2024; month = 1; day = 31 }

abbrev march : Ymd
march = record { year = 2024; month = 3; day = 5 }

payday-IsStart : IsStart payday
unfolding month_length is_leap
payday-IsStart = record {
  date = record {
    year_min = omega arith;
    month_min = omega arith;
    month_max = omega arith;
    day_min = omega arith;
    day_max = omega arith;
  };
  year_max = omega arith;
}

march-IsStart : IsStart march
unfolding month_length is_leap
march-IsStart = record {
  date = record {
    year_min = omega arith;
    month_min = omega arith;
    month_max = omega arith;
    day_min = omega arith;
    day_max = omega arith;
  };
  year_max = omega arith;
}

abbrev week_later : Ymd
week_later = record { year = 2024; month = 3; day = 12 }

week_later-IsStart : IsStart week_later
unfolding month_length is_leap
week_later-IsStart = record {
  date = record {
    year_min = omega arith;
    month_min = omega arith;
    month_max = omega arith;
    day_min = omega arith;
    day_max = omega arith;
  };
  year_max = omega arith;
}

week_year : (civil (day_number march + 7)).year ≡ 2024
unfolding day_number ordinal before_month before_year full_year is_leap month_length
week_year = ap (λ (v : Ymd). v.year) (civil-day_number week_later week_later-IsStart.date)

march-HasRoom : HasRoom march
march-HasRoom = record { year_room = omega arith; week_room = omega (arith, week_year) }

not_before : ltb_text (written march) (written payday) ≡ false
unfolding ltb_text Dates.format pad_start to_string
not_before = refl

window_for-holds_example :
    (w : BudgetWindow) × (window_for (anchored monthly payday) (written march) ≡ some (some w))
    × (ltb_text (written march) w.from ≡ false)
    × (ltb_text w.to (written march) ≡ false)
    × (window_start (anchored monthly payday) w.index ≡ some w.from)
    × (window_start (anchored monthly payday) (w.index + 1) ≡ add_days w.to (pos 1))
window_for-holds_example =
    window_for-holds monthly payday march payday-IsStart march-IsStart march-HasRoom not_before

abbrev food : Budget
food = record {
  id = codes "b1";
  name = codes "Food";
  category_ids = codes "c1" ∷ [];
  period = monthly;
  amount = pos 30000;
  currency = codes "EUR";
  start_date = codes "2024-01-31";
  rollover = true;
  archived = false;
  created_at = 0;
  updated_at = [];
}

abbrev first_window : BudgetWindow
first_window = record { from = codes "2024-01-31"; to = codes "2024-02-28"; index = 0 }

abbrev second_window : BudgetWindow
second_window = record { from = codes "2024-02-29"; to = codes "2024-03-30"; index = 1 }

abbrev lunch : Transaction ℕ
lunch = record {
  id = codes "t1";
  kind = expense;
  amount = pos 1200;
  currency = codes "EUR";
  account_id = codes "cash";
  counter_account_id = none;
  category_id = some (codes "c1");
  date = codes "2024-02-03";
  payee = [];
  note = [];
  tags = [];
  cleared = false;
  rate = none;
  rate_date = none;
  created_at = 0;
  updated_at = [];
}

abbrev first_progress : BudgetProgress
first_progress = record {
  budget = food;
  unconverted = 0;
  window = first_window;
  limit = pos 30000;
  carried = pos 0;
  allowance = pos 30000;
  spent = pos 1200;
  remaining = pos 28800;
  share = pos 0;
  over = false;
}

first_here : window_by_index (anchor_of food) 0 ≡ some first_window
unfolding window_by_index window_start anchor_of day_before add_months add_days parts is_digit digit
    Dates.format pad_start to_string digit_char days_in_month month_length full_year is_leap
    day_number ordinal before_month before_year civil month_of year_of
first_here = refl

first_progress_lem : progress_in whole food none (lunch ∷ []) first_window ≡ some first_progress
unfolding progress_in progress_of carried_into carry_over spend_detail detail_from is_in
    counts_towards is_expense covers_category covers includes eq_text ltb_text Spend.lift
    in_reporting same_currency upper add_converted share_of ◌+ℤ◌ ◌-ℤ◌
first_progress_lem = refl

second_spent : spend_detail whole food none second_window (lunch ∷ []) ≡ some (pos 0, 0)
unfolding spend_detail detail_from is_in counts_towards is_expense covers_category covers includes
    eq_text ltb_text
second_spent = refl

progress_in_carries_example :
    (q : BudgetProgress) × (progress_in whole food none (lunch ∷ []) second_window ≡ some q)
    × (q.carried ≡ pos 28800)
    × (q.allowance ≡ pos 30000 +ℤ pos 28800)
    × (q.remaining ≡ q.allowance -ℤ pos 0)
progress_in_carries_example =
    progress_in_carries whole food none (lunch ∷ []) first_window second_window first_progress
      (pos 0, 0) refl first_here refl first_progress_lem second_spent
