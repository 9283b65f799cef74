-- ===== src/Dates/Tests.antt =====
-- The dates of app/src/app/core/util/dates.ts at concrete days.
use easy_docket.Base.{ℕ, ◌+◌, ◌<◌, ◌≡◌, refl, ap, ◌∙◌, arith}
use easy_docket.Dates.Civil.{
  Ymd, full_year, is_leap, month_length, before_month, before_year, ordinal, day_number, civil,
}
use easy_docket.Dates.Civil.RoundTrip.{IsDate, civil-day_number, day_number-civil}
use easy_docket.Dates.Shift.{IsStart}

abbrev january_end : Ymd
january_end = record { year = 2024; month = 1; day = 31 }

abbrev leap_day : Ymd
leap_day = record { year = 2024; month = 2; day = 29 }

january_end-IsStart : IsStart january_end
unfolding month_length is_leap
january_end-IsStart = record {
  date = record {
    year_min = omega arith;
    month_min = omega arith;
    month_max = omega arith;
    day_min = omega arith;
    day_max = omega arith;
  };
  year_max = omega arith;
}

leap_day-IsDate : IsDate leap_day
unfolding month_length is_leap
leap_day-IsDate = record {
  year_min = omega arith;
  month_min = omega arith;
  month_max = omega arith;
  day_min = omega arith;
  day_max = omega arith;
}

leap_day_number : day_number january_end + 29 ≡ day_number leap_day
unfolding day_number ordinal full_year before_year before_month month_length is_leap
leap_day_number = refl

-- The date some days on is known by its number.
lands : (w : Ymd) (n : ℕ) → IsDate w → n ≡ day_number w → civil n ≡ w
lands w n h e = ap civil e ∙ civil-day_number w h

year_at : (w : Ymd) (n : ℕ) → IsDate w → n ≡ day_number w → w.year < 10000 → (civil n).year < 10000
year_at w n h e y = omega (arith, ap (λ (v : Ymd). v.year) (lands w n h e))

civil-day_number_example : civil (day_number leap_day) ≡ leap_day
civil-day_number_example = civil-day_number leap_day leap_day-IsDate

day_number-civil_example : day_number (civil 739282) ≡ 739282
day_number-civil_example = day_number-civil 739282 (omega arith)
