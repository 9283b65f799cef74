-- ===== src/Cards/Closes.antt =====
-- Closes and due dates of app/src/app/core/cards/statement.ts on dates of the calendar.
use easy_docket.Base.{
  ℕ, suc, ◌+◌, ◌-◌, ◌*◌, ◌/◌, ◌%◌, ◌≤◌, ◌<◌, ◌≡◌, ◌⊎◌, inl, inr, refl, ap, ◌∙◌, true, false, some,
  max, arith, Bool-cases, ◌>>=◌,
}
use easy_docket.Base.Int.{pos, negsuc}
use easy_docket.Base.Text.{ltb_text, ltb_text_asym}
use easy_docket.Dates.{add_months}
use easy_docket.Dates.Civil.{Ymd}
use easy_docket.Dates.Civil.RoundTrip.{IsDate}
use easy_docket.Dates.Written.{written, format_order}
use easy_docket.Dates.Shift.{IsStart, IsDate-Fits, parts-written}
use easy_docket.Dates.Months.{clamped, clamped-IsDate, add_months-clamped}
use easy_docket.Cards.{day_of_month, statement_close, last_statement_date, due_date_for}

-- The months from the year 0 on.
abbrev pub month_index : Ymd → ℕ
month_index v = v.year * 12 + v.month - 1

-- The day `day` of the month, or the nearest that the month has.
abbrev pub in_month : ℕ → ℕ → Ymd
in_month m day = clamped m (max day 1)

day_of_month-in_month :
    (v : Ymd) (day : ℕ)
    → IsDate v
    → day_of_month v.year v.month day ≡ written (in_month (month_index v) day)
unfolding day_of_month
day_of_month-in_month v day h =
    let y : (month_index v) / 12 ≡ v.year = omega (arith, h.month_min, h.month_max) in
    let m : (month_index v) % 12 + 1 ≡ v.month = omega (arith, h.month_min, h.month_max) in
    rw (y, m) refl

pub in_month-IsStart : (m day : ℕ) → 1200 ≤ m → m < 120000 → IsStart (in_month m day)
in_month-IsStart m day lo hi = record {
  date = clamped-IsDate m (max day 1) lo (omega arith);
  year_max = omega arith;
}

pub index_of_in_month : (m day : ℕ) → month_index (in_month m day) ≡ m
index_of_in_month m day = omega arith

-- An earlier month gives an earlier text.
pub earlier_month :
    (v w : Ymd)
    → IsStart v
    → IsStart w
    → month_index v < month_index w
    → ltb_text (written v) (written w) ≡ true
earlier_month v w h k lt = ground (
  arith,
  format_order v w (IsDate-Fits v h.date h.year_max) (IsDate-Fits w k.date k.year_max),
  h.date.month_min,
  h.date.month_max,
  k.date.month_min,
  k.date.month_max,
)

add_months_back :
    (v : Ymd)
    → IsStart v
    → add_months (written v) (negsuc 0) ≡ some (written (clamped (month_index v - 1) v.day))
unfolding add_months
add_months_back v h =
    let e : v.year * 12 + v.month - 2 ≡ month_index v - 1 = omega arith in
    rw (parts-written v h) (ground (arith, h.date.month_min, h.date.year_min, e))

statement_close-in_month :
    (w : Ymd) (day : ℕ)
    → IsStart w
    → statement_close day (written w) ≡ some (written (in_month (month_index w) day))
unfolding statement_close
statement_close-in_month w day h =
    rw (parts-written w h) (ap (λ t. some t) (day_of_month-in_month w day h.date))

-- The close of the month before, and the due day of the month after.
close_before :
    (m day : ℕ)
    → 1201 ≤ m
    → m < 120000
    → (add_months (written (in_month m day)) (negsuc 0) >>= statement_close day)
      ≡ some (written (in_month (m - 1) day))
close_before m day lo hi =
    let start = in_month-IsStart m day (omega arith) hi in
    let w = clamped (month_index (in_month m day) - 1) (in_month m day).day in
    let index : month_index w ≡ m - 1 = omega arith in
    let w_start : IsStart w = record {
      date =
          clamped-IsDate (month_index (in_month m day) - 1) (in_month m day).day (omega arith)
            start.date.day_min;
      year_max = omega arith;
    } in
    rw (add_months_back (in_month m day) start)
      (statement_close-in_month w day w_start ∙ ap (λ n. some (written (in_month n day))) index)

due_after :
    (v : Ymd) (day : ℕ)
    → IsStart v
    → v.year < 9999
    → (add_months (written v) (pos 1) >>= statement_close day)
      ≡ some (written (in_month (suc (month_index v)) day))
due_after v day h hi =
    let n = v.year * 12 + v.month + 1 - 1 in
    let w = clamped n v.day in
    let index : month_index w ≡ suc (month_index v) = omega (arith, h.date.month_min) in
    let w_start : IsStart w = record {
      date = clamped-IsDate n v.day (omega (arith, h.date.year_min)) h.date.day_min;
      year_max = omega (arith, h.date.month_max);
    } in
    rw (add_months-clamped v 1 h)
      (statement_close-in_month w day w_start ∙ ap (λ k. some (written (in_month k day))) index)

module _ (v : Ymd) (day : ℕ) (h : IsStart v) (lo : 101 ≤ v.year) (hi : v.year < 9999) where
  at_month : (m : ℕ) → 1200 ≤ m → m < 120000 → IsStart (in_month m day)
  at_month m = in_month-IsStart m day

  -- A month after that of the date, and one before it.
  month_after : ltb_text (written v) (written (in_month (suc (month_index v)) day)) ≡ true
  month_after =
      earlier_month v (in_month (suc (month_index v)) day) h
        (at_month (suc (month_index v)) (omega (arith, h.date.month_min))
          (omega (arith, h.date.month_max)))
        (omega (arith, index_of_in_month (suc (month_index v)) day))

  month_before : ltb_text (written v) (written (in_month (month_index v - 1) day)) ≡ false
  month_before = ltb_text_asym _ _ (
      earlier_month (in_month (month_index v - 1) day) v
        (at_month (month_index v - 1) (omega (arith, h.date.month_min))
          (omega (arith, h.date.month_max)))
        h (omega (arith, index_of_in_month (month_index v - 1) day, h.date.month_min)))

  -- The last statement date for a date of the years 101 to 9998 is the day of its month or of the month
  -- before, or the last one that the month has; it is not after the date, and the day of the month that
  -- follows is after it.
  pub last_statement_date-latest :
      (m : ℕ) × (last_statement_date day (written v) ≡ some (written (in_month m day)))
      × ((m ≡ month_index v) ⊎ (suc m ≡ month_index v))
      × (ltb_text (written v) (written (in_month m day)) ≡ false)
      × (ltb_text (written v) (written (in_month (suc m) day)) ≡ true)
  unfolding last_statement_date
  last_statement_date-latest =
      let m = month_index v in
      let this = day_of_month-in_month v day h.date in
      let back : suc (m - 1) ≡ m = omega (arith, h.date.month_min, h.date.year_min) in
      elim (Bool-cases (ltb_text (written v) (written (in_month m day)))) [
        | inr past ↦ (m, rw (parts-written v h, this, past) refl, inl refl, past, month_after)
        | inl ahead ↦ (
          m - 1,
          rw (parts-written v h, this, ahead)
              (close_before m day (omega (arith, h.date.month_min))
                (omega (arith, h.date.month_max))),
          inr back,
          month_before,
          ap (λ n. ltb_text (written v) (written (in_month n day))) back ∙ ahead,
        )
      ]

  -- The due date of a statement of the years 101 to 9998 is the day of a month, or the last one that the
  -- month has; it is after the statement, and the day of the month that precedes is not.
  pub due_date_for-first :
      (m : ℕ) × (due_date_for day (written v) ≡ some (written (in_month m day)))
      × (ltb_text (written v) (written (in_month m day)) ≡ true)
      × (ltb_text (written v) (written (in_month (m - 1) day)) ≡ false)
  unfolding due_date_for
  due_date_for-first =
      let m = month_index v in
      let back : suc m - 1 ≡ m = omega arith in
      let this = day_of_month-in_month v day h.date in
      elim (Bool-cases (ltb_text (written v) (written (in_month m day)))) [
        | inl ahead ↦ (m, rw (parts-written v h, this, ahead) refl, ahead, month_before)
        | inr past ↦ (
          suc m,
          rw (parts-written v h, this, past) (due_after v day h hi),
          month_after,
          ap (λ n. ltb_text (written v) (written (in_month n day))) back ∙ past,
        )
      ]
