-- ===== src/Dates/Written.antt =====
-- `parts` and `format` of app/src/app/core/util/dates.ts: reading back, and the order of the texts.
use easy_docket.Base.{
  ℕ, ◌+◌, ◌*◌, ◌/◌, ◌%◌, ap, ◌<◌, ◌≡◌, refl, ◌∙◌, true, some, [], ◌∷◌, ◌++◌, append-nil, arith, ltb,
  ◌==◌, if◌then◌else◌,
}
use easy_docket.Base.Text.{Text, ltb_text, ltb_text_irrefl, ltb_text-append_same}
use easy_docket.Base.Digits.{digit_char, fixed}
use easy_docket.Base.Digits.Laws.{ltb_text-fixed, pad_start-to_string}
use easy_docket.Dates.Civil.{Ymd}
use easy_docket.Dates.{is_digit, digit, parts, format}

-- The dates that have room in `YYYY-MM-DD`.
pub record Fits (v : Ymd) : Type 0 where
  pub year_fits : v.year < 10000
  pub month_fits : v.month < 100
  pub day_fits : v.day < 100

abbrev pub written : Ymd → Text
written v = format v.year v.month v.day

pub format-fixed :
    (v : Ymd)
    → Fits v
    → written v
      ≡ fixed 10 4 v.year ++ (b'-' ∷ (fixed 10 2 v.month ++ (b'-' ∷ (fixed 10 2 v.day ++ []))))
unfolding format
format-fixed v h = rw (pad_start-to_string 10 (omega arith) 3 v.year (omega arith)) (
    rw (pad_start-to_string 10 (omega arith) 1 v.month (omega arith))
      (rw (pad_start-to_string 10 (omega arith) 1 v.day (omega arith), append-nil) refl))

-- Comparing two dates as texts compares the years, then the months, then the days.
pub format_order :
    (v w : Ymd)
    → Fits v
    → Fits w
    → ltb_text (written v) (written w) ≡ (
        if v.year == w.year
        then (if v.month == w.month then ltb v.day w.day else ltb v.month w.month)
        else ltb v.year w.year)
format_order v w h k =
    rw (format-fixed v h, format-fixed w k)
      (ltb_text-fixed 10 (omega arith) 4 v.year w.year _ _ (omega arith) (omega arith)
        ∙ ground (
          arith,
          ltb_text-append_same (b'-' ∷ []) (fixed 10 2 v.month ++ (b'-' ∷ (fixed 10 2 v.day ++ [])))
              (fixed 10 2 w.month ++ (b'-' ∷ (fixed 10 2 w.day ++ []))),
          ltb_text-fixed 10 (omega arith) 2 v.month w.month (b'-' ∷ (fixed 10 2 v.day ++ []))
              (b'-' ∷ (fixed 10 2 w.day ++ [])) (omega arith) (omega arith),
          ltb_text-append_same (b'-' ∷ []) (fixed 10 2 v.day ++ []) (fixed 10 2 w.day ++ []),
          ltb_text-fixed 10 (omega arith) 2 v.day w.day [] [] (omega arith) (omega arith),
          ltb_text_irrefl [],
        ))

pub is_digit-digit_char : (n : ℕ) → is_digit (digit_char (n % 10)) ≡ true
unfolding is_digit digit_char
is_digit-digit_char n = ground arith

digit-digit_char : (n : ℕ) → digit (digit_char (n % 10)) ≡ n % 10
unfolding digit digit_char
digit-digit_char n = ground arith

two_digits : (n : ℕ) → n < 100 → n / 10 % 10 * 10 + n % 10 ≡ n
two_digits n h = omega arith

year_digits :
    (n : ℕ)
    → n < 10000
    → n / 10 / 10 / 10 % 10 * 1000 + n / 10 / 10 % 10 * 100 + n / 10 % 10 * 10 + n % 10 ≡ n
year_digits n h = omega arith

-- A date with room in the format is read back from its text.
pub parts-format : (v : Ymd) → Fits v → parts (written v) ≡ some v
unfolding parts fixed
parts-format v h = rw (format-fixed v h) (
    simp (is_digit-digit_char, digit-digit_char)
      (ap (λ w. some w)
        (λ i. record {
          year = year_digits v.year h.year_fits i;
          month = two_digits v.month h.month_fits i;
          day = two_digits v.day h.day_fits i;
        })))
