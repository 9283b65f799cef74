-- ===== src/Schedule/Tests.antt =====
-- Recurring rules of app/src/app/core/recurring/schedule.ts at concrete dates.
use easy_docket.Base.{
  ℕ, zero, suc, ◌≤◌, ◌<◌, ◌≡◌, refl, ap, ◌∙◌, true, false, some, none, List, [], ◌∷◌, length, All,
  arith, if◌then◌else◌, take,
}
use easy_docket.Base.Text.{Text, codes, ltb_text, eq_text, ltb_text_irrefl}
use easy_docket.Base.Digits.{to_string, pad_start}
use easy_docket.Dates.Civil.{Ymd, full_year, is_leap, month_length}
use easy_docket.Dates.Written.{written}
use easy_docket.Dates.Shift.{IsStart}
use easy_docket.Dates.{format, days_in_month}
use easy_docket.Schedule.{
  Schedule, Every, is_counted, is_before_end, within_limits, is_skipped, is_passed,
  occurrences_up_to, next_occurrence,
}
use easy_docket.Schedule.Due.{is_due, due_from}
use easy_docket.Schedule.Next.{Before, next_occurrence_first}
use easy_docket.Schedule.Plans.{date_of, Reaches, at_date_of}
use easy_docket.Schedule.Listed.{Increasing, IsWanted, occurrences_listed, occurrences_in_order}

abbrev january_end : Ymd
january_end = record { year = 2024; month = 1; day = 31 }

january_end-IsStart : IsStart january_end
unfolding month_length is_leap
january_end-IsStart = record {
  date = record {
    year_min = omega arith;
    month_min = omega arith;
    month_max = omega arith;
    day_min = omega arith;
    day_max = omega arith;
  };
  year_max = omega arith;
}

-- Rent at the end of each month.
abbrev rent : Schedule
rent = record {
  interval = 1;
  unit = Every.month;
  start_date = written january_end;
  end_date = none;
  max_occurrences = none;
  skipped = codes "2024-02-29" ∷ [];
}

abbrev mid_april : Text
mid_april = codes "2024-04-15"

rent_past : ltb_text mid_april (date_of Every.month 1 january_end 3) ≡ true
unfolding ltb_text format days_in_month full_year is_leap month_length to_string pad_start
rent_past = refl

rent-Reaches : Reaches rent january_end mid_april 3
rent-Reaches = record {
  starts = refl;
  start = january_end-IsStart;
  interval_min = omega arith;
  in_time = omega arith;
  past = rent_past;
}

rent_due :
    due_from rent mid_april none (date_of Every.month 1 january_end) 0 3
    ≡ codes "2024-01-31" ∷ codes "2024-03-31" ∷ []
unfolding due_from is_due within_limits is_counted is_before_end is_passed is_skipped eq_text
    ltb_text format days_in_month full_year is_leap month_length to_string pad_start
rent_due = refl

occurrences_listed_example :
    occurrences_up_to rent mid_april 500 none
    ≡ some (take 500 (due_from rent mid_april none (date_of Every.month 1 january_end) 0 3))
occurrences_listed_example =
    occurrences_listed rent january_end mid_april 3 500 rent-Reaches (omega arith) (omega arith)
      none

rent_dates :
    occurrences_up_to rent mid_april 500 none ≡ some (codes "2024-01-31" ∷ codes "2024-03-31" ∷ [])
rent_dates = occurrences_listed_example ∙ ap (λ ds. some (take 500 ds)) rent_due

abbrev paid : List Text
paid = codes "2024-01-31" ∷ codes "2024-03-31" ∷ []

listed_in_order : Increasing paid × All (IsWanted rent mid_april none) paid × (length paid ≤ 500)
listed_in_order =
    occurrences_in_order rent january_end mid_april 3 500 rent-Reaches (omega arith) (omega arith)
      none paid rent_dates

abbrev unskipped : Schedule
unskipped = record rent { skipped = [] }

unskipped_first : Before unskipped (written january_end) (date_of Every.month 1 january_end) 1
unfolding format days_in_month full_year is_leap month_length to_string pad_start
unskipped_first zero lt = (
  at_date_of Every.month unskipped january_end 0 refl refl january_end-IsStart,
  ltb_text_irrefl (written january_end),
)
unskipped_first (suc i) lt = absurd (omega arith)

unskipped_within :
    (i : ℕ) → i < 1 → within_limits unskipped i (date_of Every.month 1 january_end i) ≡ true
unfolding within_limits is_counted is_before_end
unskipped_within i lt = refl

february_later : ltb_text (written january_end) (date_of Every.month 1 january_end 1) ≡ true
unfolding ltb_text format days_in_month full_year is_leap month_length to_string pad_start
february_later = refl

february_unskipped : is_skipped unskipped (date_of Every.month 1 january_end 1) ≡ false
unfolding is_skipped
february_unskipped = refl

february_next :
    next_occurrence unskipped (written january_end)
    ≡ some (
        if within_limits unskipped 1 (date_of Every.month 1 january_end 1)
        then some (date_of Every.month 1 january_end 1)
        else none)
february_next =
    next_occurrence_first unskipped (written january_end) (date_of Every.month 1 january_end) 1
      unskipped_first unskipped_within
      (at_date_of Every.month unskipped january_end 1 refl refl january_end-IsStart) february_later
      february_unskipped (omega arith) (omega arith)
