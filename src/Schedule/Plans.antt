-- ===== src/Schedule/Plans.antt =====
-- The dates of a recurring rule, by its unit: `occurrenceAt` of
-- app/src/app/core/recurring/schedule.ts.
use easy_docket.Base.{ℕ, suc, ◌+◌, ◌-◌, ◌*◌, ◌≤◌, ◌<◌, ◌≡◌, refl, true, some, arith}
use easy_docket.Base.Text.{Text, ltb_text}
use easy_docket.Dates.Civil.{Ymd, day_number, civil}
use easy_docket.Dates.Civil.RoundTrip.{civil_year_mono}
use easy_docket.Dates.Written.{written}
use easy_docket.Dates.Shift.{IsStart, add_days-civil, add_days_mono}
use easy_docket.Dates.Months.{clamped, add_months-clamped, add_months_mono}
use easy_docket.Schedule.{Schedule, Every, day, week, month, year, occurrence_at}
use easy_docket.Schedule.Due.{Plan}

abbrev pub days_on : Ymd → ℕ → Text
days_on v k = written (civil (day_number v + k))

abbrev pub months_on : Ymd → ℕ → Text
months_on v k = written (clamped (v.year * 12 + v.month + k - 1) v.day)

-- The days or the months from the start of a rule to an occurrence.
abbrev pub offset : Every → ℕ → ℕ → ℕ
offset unit interval i = elim unit [
  | day ↦ interval * i
  | week ↦ interval * i * 7
  | month ↦ interval * i
  | year ↦ interval * i * 12
]

-- The date of an occurrence of a rule that starts on `v`.
abbrev pub date_of : Every → ℕ → Ymd → ℕ → Text
date_of unit interval v i = elim unit [
  | day ↦ days_on v (offset day interval i)
  | week ↦ days_on v (offset week interval i)
  | month ↦ months_on v (offset month interval i)
  | year ↦ months_on v (offset year interval i)
]

-- A date some days or months on is before the year 10000.
abbrev pub InTime : Every → Ymd → ℕ → Type 0
InTime unit v k = elim unit [
  | day ↦ (civil (day_number v + k)).year < 10000
  | week ↦ (civil (day_number v + k)).year < 10000
  | month ↦ v.year * 12 + v.month + k ≤ 120000
  | year ↦ v.year * 12 + v.month + k ≤ 120000
]

mul_suc : (m i : ℕ) → m * suc i ≡ m * i + m
mul_suc m i = omega arith

mul_le : (m i n : ℕ) → i ≤ n → m * i ≤ m * n
mul_le m i n h = grind arith

offset_le : (unit : Every) (m i n : ℕ) → i ≤ n → offset unit m i ≤ offset unit m n
offset_le day m i n h = mul_le m i n h
offset_le week m i n h = omega (arith, mul_le m i n h)
offset_le month m i n h = mul_le m i n h
offset_le year m i n h = omega (arith, mul_le m i n h)

offset-suc : (unit : Every) (m i : ℕ) → 1 ≤ m → offset unit m i < offset unit m (suc i)
offset-suc day m i h = omega (arith, mul_suc m i)
offset-suc week m i h = omega (arith, mul_suc m i)
offset-suc month m i h = omega (arith, mul_suc m i)
offset-suc year m i h = omega (arith, mul_suc m i)

pub at_date_of :
    (unit : Every) (s : Schedule) (v : Ymd) (i : ℕ)
    → s.unit ≡ unit
    → s.start_date ≡ written v
    → IsStart v
    → occurrence_at s i ≡ some (date_of unit s.interval v i)
unfolding occurrence_at
at_date_of day s v i u e h = rw (u, e) (add_days-civil v (s.interval * i) h)
at_date_of week s v i u e h = rw (u, e) (add_days-civil v (s.interval * i * 7) h)
at_date_of month s v i u e h = rw (u, e) (add_months-clamped v (s.interval * i) h)
at_date_of year s v i u e h = rw (u, e) (add_months-clamped v (s.interval * i * 12) h)

later :
    (unit : Every) (m : ℕ) (v : Ymd) (i : ℕ)
    → IsStart v
    → 1 ≤ m
    → InTime unit v (offset unit m (suc i))
    → ltb_text (date_of unit m v i) (date_of unit m v (suc i)) ≡ true
later day m v i h one t =
    add_days_mono v (offset day m i) (offset day m (suc i)) _ _ h (offset-suc day m i one) t
      (add_days-civil v _ h) (add_days-civil v _ h)
later week m v i h one t =
    add_days_mono v (offset week m i) (offset week m (suc i)) _ _ h (offset-suc week m i one) t
      (add_days-civil v _ h) (add_days-civil v _ h)
later month m v i h one t =
    add_months_mono v (offset month m i) (offset month m (suc i)) _ _ h (offset-suc month m i one) t
      (add_months-clamped v _ h) (add_months-clamped v _ h)
later year m v i h one t =
    add_months_mono v (offset year m i) (offset year m (suc i)) _ _ h (offset-suc year m i one) t
      (add_months-clamped v _ h) (add_months-clamped v _ h)

InTime-down :
    (unit : Every) (m : ℕ) (v : Ymd) (i n : ℕ)
    → i ≤ n
    → InTime unit v (offset unit m n)
    → InTime unit v (offset unit m i)
InTime-down day m v i n le t = omega (
  arith,
  offset_le day m i n le,
  civil_year_mono (day_number v + offset day m i) (day_number v + offset day m n),
)
InTime-down week m v i n le t = omega (
  arith,
  offset_le week m i n le,
  civil_year_mono (day_number v + offset week m i) (day_number v + offset week m n),
)
InTime-down month m v i n le t = omega (arith, offset_le month m i n le)
InTime-down year m v i n le t = omega (arith, offset_le year m i n le)

-- The start of a rule, and its first occurrence behind a day.
pub record Reaches (s : Schedule) (v : Ymd) (as_of : Text) (n : ℕ) : Type 0 where
  pub starts : s.start_date ≡ written v
  pub start : IsStart v
  pub interval_min : 1 ≤ s.interval
  pub in_time : InTime s.unit v (offset s.unit s.interval n)
  pub past : ltb_text as_of (date_of s.unit s.interval v n) ≡ true

pub Reaches-Plan :
    (s : Schedule) (v : Ymd) (as_of : Text) (n : ℕ)
    → Reaches s v as_of n
    → Plan s as_of (date_of s.unit s.interval v) n
Reaches-Plan s v as_of n h = record {
  each = λ i le. at_date_of s.unit s v i refl h.starts h.start;
  increasing = λ i lt.
      later s.unit s.interval v i h.start h.interval_min
        (InTime-down s.unit s.interval v (suc i) n (omega arith) h.in_time);
  past = h.past;
}
