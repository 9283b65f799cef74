-- ===== src/Reports/Worth/LastDays.antt =====
-- The ends of the months that app/src/app/core/reports/aggregate.ts reports the net worth for.
use easy_docket.Base.{
  ℕ, suc, ◌+◌, ◌*◌, ◌-◌, ◌≤◌, ◌<◌, ◌≡◌, ◌⊎◌, inl, inr, refl, sym, ◌∙◌, true, false, some, List, [],
  ◌∷◌, append_assoc, arith, Bool-cases, length,
}
use easy_docket.Base.Digits.{fixed, to_string, pad_start}
use easy_docket.Base.Digits.Laws.{parse_digits-fixed}
use easy_docket.Base.Text.{
  Text, ltb_text, leb_text, not_below_trans, ltb_text_asym, ltb_text_irrefl, ltb_text-append,
}
use easy_docket.Dates.Civil.{Ymd, is_leap, month_length}
use easy_docket.Dates.Months.{days_in_month_lem}
use easy_docket.Dates.Shift.{IsStart}
use easy_docket.Dates.Written.{written}
use easy_docket.Dates.{DateRange, format, days_in_month}
use easy_docket.Dates.Ranges.{month_text, months_from, max_months, months_in, year_of, month_of}
use easy_docket.Dates.Ranges.Cover.{month_text-fixed, earlier_month, months_in-forward, months_mono}
use easy_docket.Dates.Ranges.Apart.{CalendarMonth, months_from-induct}
use easy_docket.Reports.Worth.{clamp, month_end, end_in, last_day_of, join_ends, cutoffs}
use easy_docket.Reports.Worth.Order.{Above}

-- The date is the last day of the month, or the last day of the range where that is earlier.
pub record LastDay (to month date : Text) : Type 0 where
  pub day : Ymd
  pub calendar : CalendarMonth day.year day.month
  pub own : month ≡ month_text day.year day.month
  pub whole : day.day ≡ month_length (is_leap day.year) (day.month - 1)
  pub shown :
      ((date ≡ written day) × (ltb_text to (written day) ≡ false))
      ⊎ ((date ≡ to) × (ltb_text to (written day) ≡ true))

-- Each date is the last day of the month in its place.
abbrev pub LastDays : Text → List Text → List Text → Type 0
LastDays to [] [] = Unit
LastDays to [] (date ∷ dates) = ⊥
LastDays to (month ∷ months) [] = ⊥
LastDays to (month ∷ months) (date ∷ dates) = LastDay to month date × LastDays to months dates

-- The end of a month by its numbers.
end_of : DateRange → ℕ → ℕ → Text
end_of range y m = clamp (month_end (month_text y m) y m) range

year_of-month_text : (y m : ℕ) → y < 10000 → m < 100 → year_of (month_text y m) ≡ some y
unfolding year_of fixed
year_of-month_text y m h k =
    rw (month_text-fixed y m h k) (parse_digits-fixed 10 (omega arith) (omega arith) 3 y h)

month_of-month_text : (y m : ℕ) → y < 10000 → m < 100 → month_of (month_text y m) ≡ some m
unfolding month_of fixed
month_of-month_text y m h k =
    rw (month_text-fixed y m h k) (parse_digits-fixed 10 (omega arith) (omega arith) 1 m k)

last_day_of-month_text :
    (range : DateRange) (y m : ℕ)
    → y < 10000
    → m < 100
    → last_day_of (month_text y m) range ≡ some (end_of range y m)
unfolding last_day_of end_in end_of
last_day_of-month_text range y m h k =
    rw (year_of-month_text y m h k, month_of-month_text y m h k) refl

clamp_mono :
    (range : DateRange) (a b : Text)
    → leb_text a b ≡ true
    → leb_text (clamp a range) (clamp b range) ≡ true
unfolding clamp
clamp_mono range a b h = ground (
  arith,
  not_below_trans b a range.to,
  not_below_trans range.to b a,
  ltb_text_asym range.to a,
  ltb_text_irrefl range.to,
)

length-month_text : (y m : ℕ) → y < 10000 → m < 100 → length (month_text y m) ≡ 7
unfolding fixed
length-month_text y m h k = rw (month_text-fixed y m h k) refl

-- Later months have later ends.
end_of_mono :
    (range : DateRange) (y m y' m' : ℕ)
    → y < 10000
    → y' < 10000
    → m < 100
    → m' < 100
    → leb_text (month_text y' m') (month_text y m) ≡ false
    → leb_text (end_of range y m) (end_of range y' m') ≡ true
unfolding end_of month_end
end_of_mono range y m y' m' hy hy' hm hm' lt =
    let earlier : ltb_text (month_end (month_text y m) y m) (month_end (month_text y' m') y' m')
        ≡ true =
      ltb_text-append (month_text y m) (month_text y' m') _ _
        (length-month_text y m hy hm ∙ sym (length-month_text y' m' hy' hm')) (ground arith) in
    clamp_mono range _ _ (ground (arith, ltb_text_asym _ _ earlier))

cutoffs-cons :
    (range : DateRange) (month end : Text) (months ends : List Text)
    → last_day_of month range ≡ some end
    → cutoffs months range ≡ some ends
    → cutoffs (month ∷ months) range ≡ some (end ∷ ends)
unfolding cutoffs join_ends
cutoffs-cons range month end months ends h k = rw (h, k) refl

month_end-written :
    (y m : ℕ)
    → month_end (month_text y m) y m
      ≡ written (record { year = y; month = m; day = days_in_month y m })
unfolding month_end month_text format
month_end-written y m =
    append_assoc (pad_start 4 b'0' (to_string 10 y)) (b'-' ∷ pad_start 2 b'0' (to_string 10 m))
      (b'-' ∷ pad_start 2 b'0' (to_string 10 (days_in_month y m)))

end_of-LastDay :
    (range : DateRange) (y m : ℕ)
    → 100 ≤ y
    → CalendarMonth y m
    → LastDay range.to (month_text y m) (end_of range y m)
unfolding end_of clamp
end_of-LastDay range y m old h =
    let day : Ymd = record { year = y; month = m; day = days_in_month y m } in
    record {
      day = day;
      calendar = h;
      own = refl;
      whole = days_in_month_lem y m old h.first h.last;
      shown = elim (Bool-cases (ltb_text range.to (written day))) [
        | inl over ↦ inr (rw (month_end-written y m, over) refl, over)
        | inr under ↦ inl (rw (month_end-written y m, under) refl, under)
      ];
    }

-- The ends of some months in order, none below a bound.
pub record Ends (range : DateRange) (bound : Text) (months : List Text) : Type 0 where
  pub ends : List Text
  pub found : cutoffs months range ≡ some ends
  pub above : Above bound ends
  pub dated : LastDays range.to months ends

no_more : (range : DateRange) (bound : Text) → Ends range bound []
unfolding cutoffs
no_more range bound = record { ends = []; found = refl; above = tt; dated = tt }

one_more :
    (range : DateRange) (bound : Text) (y m : ℕ) (months : List Text)
    → 100 ≤ y
    → CalendarMonth y m
    → leb_text bound (end_of range y m) ≡ true
    → Ends range (end_of range y m) months
    → Ends range bound (month_text y m ∷ months)
one_more range bound y m months old h le rest = record {
  ends = end_of range y m ∷ rest.ends;
  found =
      cutoffs-cons range (month_text y m) _ months rest.ends
        (last_day_of-month_text range y m h.fits (omega (arith, h.last))) rest.found;
  above = (le, rest.above);
  dated = (end_of-LastDay range y m old h, rest.dated);
}

leb_text_refl : (t : Text) → leb_text t t ≡ true
leb_text_refl t = rw (ltb_text_irrefl t) refl

-- From a month on, above any bound that its end is above.
EndsFrom : DateRange → ℕ → ℕ → List Text → Type 0
EndsFrom range y m months =
    (bound : Text) → 100 ≤ y → leb_text bound (end_of range y m) ≡ true → Ends range bound months

next_end :
    (range : DateRange) (y m y' m' : ℕ) (months : List Text)
    → CalendarMonth y m
    → CalendarMonth y' m'
    → y' * 12 + m' ≡ suc (y * 12 + m)
    → EndsFrom range y' m' months
    → EndsFrom range y m (month_text y m ∷ months)
unfolding EndsFrom
next_end range y m y' m' months a b next rest bound old le =
    let later = earlier_month y m y' m' b.fits a.last b.last a.first b.first (omega arith) in
    one_more range bound y m months old a le (
      rest (end_of range y m) (omega (arith, a.last, b.first, a.first, b.last)) (
        end_of_mono range y m y' m' a.fits b.fits (omega (arith, a.last)) (omega (arith, b.last))
          later))

pub months_in-Ends :
    (from to : Ymd)
    → IsStart from
    → IsStart to
    → let range : DateRange = record { from = written from; to = written to } in
      (months : List Text) × (bound : Text) × (months_in range ≡ some months)
      × Ends range bound months
unfolding EndsFrom
months_in-Ends from to f t =
    let range : DateRange = record { from = written from; to = written to } in
    elim (Bool-cases (ltb_text (written to) (written from))) [
      | inl back ↦ ([], [], unfold months_in in rw back refl, no_more range [])
      | inr on ↦
          (let start = end_of range from.year from.month in
            (
              months_from max_months (month_text to.year to.month) from.year from.month,
              start,
              months_in-forward from to f t on,
              months_from-induct (EndsFrom range) to.year to.month
                  (record { fits = t.year_max; first = t.date.month_min; last = t.date.month_max })
                  (λ y m bound old le. no_more range bound) (next_end range)
                  (λ y m h bound old le.
                    one_more range bound y m [] old h le (no_more range (end_of range y m)))
                  max_months from.year from.month f.date.month_min f.date.month_max
                  (months_mono from to f t (ground arith)) start f.date.year_min
                  (leb_text_refl start),
            ))
    ]
