-- ===== src/Schedule/Ids.antt =====
-- `occurrenceId` and `parseOccurrenceId` of app/src/app/core/recurring/schedule.ts.
use easy_docket.Base.{
  ◌-◌, ◌≤◌, ◌≡◌, refl, true, false, some, ◌∷◌, ◌++◌, length, length-append, take-append,
  drop-append, any, arith,
}
use easy_docket.Base.Text.{Text}
use easy_docket.Base.Digits.{fixed}
use easy_docket.Dates.Civil.{Ymd}
use easy_docket.Dates.Written.{Fits, written, format-fixed, is_digit-digit_char}
use easy_docket.Schedule.{occurrence_id, is_date_text, ends_line, matched, parse_occurrence_id}

is_date_text-written : (v : Ymd) → Fits v → is_date_text (written v) ≡ true
unfolding is_date_text fixed
is_date_text-written v h = rw (format-fixed v h) (simp is_digit-digit_char refl)

length-written : (v : Ymd) → Fits v → length (written v) ≡ 10
unfolding fixed
length-written v h = rw (format-fixed v h) refl

-- The rule and the date are read back from an id, for a rule's id that is not empty and has no end of
-- line.
pub parse_occurrence_id-occurrence_id :
    (rule_id : Text) (v : Ymd)
    → Fits v
    → 1 ≤ length rule_id
    → any ends_line rule_id ≡ false
    → parse_occurrence_id (occurrence_id rule_id (written v)) ≡ some (rule_id, written v)
unfolding parse_occurrence_id occurrence_id
parse_occurrence_id-occurrence_id rule_id v h one no_end =
    rw (rest, take-append rule_id tail, drop-append rule_id tail)
      (unfold matched in ground (arith, is_date_text-written v h))
  where
    tail : Text
    tail = b':' ∷ written v

    rest : length (rule_id ++ tail) - 11 ≡ length rule_id
    rest = omega (arith, length-append rule_id tail, length-written v h)
