-- ===== src/Dates/Ranges/Apart.antt =====
-- Induction over the months of `monthsIn` of app/src/app/core/util/dates.ts, and that they differ.
use easy_docket.Base.{
  ℕ, zero, suc, ◌+◌, ◌*◌, ◌≤◌, ◌<◌, ◌≡◌, inl, inr, refl, sym, ap, ◌∙◌, true, false, some, List, [],
  ◌∷◌, ltb, All, All-of, All-In, subst, arith, Bool-cases,
}
use easy_docket.Base.Text.{Text, eq_text, eq_text→eq, ltb_text, leb_text, ltb_text_irrefl}
use easy_docket.Dates.Civil.{Ymd}
use easy_docket.Dates.Shift.{IsStart}
use easy_docket.Dates.Written.{written}
use easy_docket.Dates.Ranges.{month_text, months_from, months_in, max_months}
use easy_docket.Dates.Ranges.Cover.{month_order, earlier_month, months_in-forward, months_mono}

-- A month of the years before 10000.
pub record CalendarMonth (y m : ℕ) : Type 0 where
  pub fits : y < 10000
  pub first : 1 ≤ m
  pub last : m ≤ 12

later_month :
    (y m z n : ℕ)
    → CalendarMonth y m
    → CalendarMonth z n
    → y * 12 + m ≤ z * 12 + n
    → leb_text (month_text z n) (month_text y m) ≡ false
    → y * 12 + m < z * 12 + n
later_month y m z n a b le more =
    let order = month_order y m z n a.fits b.fits (omega (arith, a.last)) (omega (arith, b.last)) in
    ground (arith, order)

-- What holds of no months, and of a month in front of the months from the next one on, holds of the
-- months that the loop lists.
module _ (P : ℕ → ℕ → List Text → Type 0) (z n : ℕ) (end : CalendarMonth z n)
    (stop : (y m : ℕ) → P y m [])
    (on : (y m y' m' : ℕ) (months : List Text)
      → CalendarMonth y m
      → CalendarMonth y' m'
      → y' * 12 + m' ≡ suc (y * 12 + m)
      → P y' m' months
      → P y m (month_text y m ∷ months))
    (only : (y m : ℕ) → CalendarMonth y m → P y m (month_text y m ∷ [])) where
  pub months_from-induct :
      (rounds y m : ℕ)
      → 1 ≤ m
      → m ≤ 12
      → y * 12 + m ≤ z * 12 + n
      → P y m (months_from rounds (month_text z n) y m)
  unfolding months_from
  months_from-induct zero y m lo hi le = stop y m
  months_from-induct (suc rounds) y m lo hi le =
      let here : CalendarMonth y m = record {
        fits = omega (arith, end.fits, end.last);
        first = lo;
        last = hi;
      } in
      elim (Bool-cases (leb_text (month_text z n) (month_text y m))) [
        | inl last ↦ rw last (only y m here)
        | inr more ↦
            (let lt = later_month y m z n here end le more in
              rw more (elim (Bool-cases (ltb 12 (m + 1))) [
                | inl over ↦
                    (let december : m ≡ 12 = ground arith in
                      rw over (
                        on y m (y + 1) 1 _ here
                          (record {
                            fits = omega (arith, end.fits, end.last);
                            first = omega arith;
                            last = omega arith;
                          })
                          (omega arith)
                          (months_from-induct rounds (y + 1) 1 (omega arith) (omega arith)
                            (omega arith))))
                | inr under ↦
                    (let short : m + 1 ≤ 12 = ground arith in
                      rw under (
                        on y m y (m + 1) _ here
                          (record { fits = here.fits; first = omega arith; last = short })
                          (omega arith)
                          (months_from-induct rounds y (m + 1) (omega arith) short (omega arith))))
              ]))
      ]

-- No two of the texts are equal.
abbrev pub Apart : List Text → Type 0
Apart [] = Unit
Apart (x ∷ xs) = All (λ o. eq_text x o ≡ false) xs × Apart xs

-- The text is a month no earlier.
From : ℕ → ℕ → Text → Type 0
From y m o =
    (z : ℕ) × (n : ℕ) × CalendarMonth z n × (o ≡ month_text z n) × (y * 12 + m ≤ z * 12 + n)

Listed : ℕ → ℕ → List Text → Type 0
Listed y m months = All (From y m) months × Apart months

months_differ :
    (y m z n : ℕ)
    → CalendarMonth y m
    → CalendarMonth z n
    → y * 12 + m < z * 12 + n
    → eq_text (month_text y m) (month_text z n) ≡ false
months_differ y m z n a b lt = elim (Bool-cases (eq_text (month_text y m) (month_text z n))) [
  | inr other ↦ other
  | inl same ↦
      (let later = earlier_month y m z n b.fits a.last b.last a.first b.first lt in
        let e = eq_text→eq _ _ same in absurd (no_less (month_text y m) (month_text z n) e later))
]
  where
    no_less : (a b : Text) → a ≡ b → leb_text b a ≡ false → ⊥
    no_less a b e h = ground (arith, ltb_text_irrefl a)

next_month :
    (y m y' m' : ℕ) (months : List Text)
    → CalendarMonth y m
    → CalendarMonth y' m'
    → y' * 12 + m' ≡ suc (y * 12 + m)
    → Listed y' m' months
    → Listed y m (month_text y m ∷ months)
unfolding Listed From
next_month y m y' m' months a b next (from, apart) = (
  (
    (y, m, a, refl, omega arith),
    All-of (From y m) months (λ o i.
        let (z, n, c, e, le) = All-In (From y' m') o months from i in (z, n, c, e, omega arith)),
  ),
  (
    All-of (λ o. eq_text (month_text y m) o ≡ false) months
        (λ o i.
          let (z, n, c, e, le) = All-In (From y' m') o months from i in
          ap (λ k. eq_text (month_text y m) k) e ∙ months_differ y m z n a c (omega arith)),
    apart,
  ),
)

-- The months of a range are all different.
pub months_in-Apart :
    (from to : Ymd) (months : List Text)
    → IsStart from
    → IsStart to
    → months_in (record { from = written from; to = written to }) ≡ some months
    → Apart months
unfolding Listed From
months_in-Apart from to months f t e = elim (Bool-cases (ltb_text (written to) (written from))) [
  | inl back ↦ subst Apart (some_path (nothing back ∙ e)) tt
  | inr on ↦
      subst Apart (some_path (sym (months_in-forward from to f t on) ∙ e))
        (months_from-induct Listed to.year to.month
          (record { fits = t.year_max; first = t.date.month_min; last = t.date.month_max })
          (λ y m. (tt, tt)) next_month (λ y m h. (((y, m, h, refl, omega arith), tt), (tt, tt)))
          max_months from.year from.month f.date.month_min f.date.month_max
          (months_mono from to f t (ground arith))).1
]
  where
    some_path : {x y : List Text} → some x ≡ some y → x ≡ y
    some_path h = cc

    nothing :
        ltb_text (written to) (written from) ≡ true
        → some [] ≡ months_in (record { from = written from; to = written to })
    nothing back = unfold months_in in rw back refl
