-- ===== src/Dates/Ranges/Cover.antt =====
-- The months of `monthsIn` of app/src/app/core/util/dates.ts and the dates of its range.
use easy_docket.Base.{
  ℕ, zero, suc, ◌+◌, ◌*◌, ◌≤◌, ◌<◌, ◌≡◌, ◌∙◌, refl, sym, inl, inr, true, false, some, List, [], ◌∷◌,
  ◌++◌, if◌then◌else◌, ltb, ◌==◌, subst, In, append-nil, arith, Bool-cases,
}
use easy_docket.Base.Text.{
  Text, ltb_text, leb_text, ltb_text_irrefl, not_below_trans, ltb_text-append_same,
}
use easy_docket.Base.Digits.{fixed}
use easy_docket.Base.Digits.Laws.{ltb_text-fixed, pad_start-to_string, parse_digits-fixed}
use easy_docket.Dates.Civil.{Ymd}
use easy_docket.Dates.Shift.{IsStart, IsDate-Fits}
use easy_docket.Dates.Written.{Fits, written, format-fixed, format_order}
use easy_docket.Dates.{DateRange, within, month_key}
use easy_docket.Dates.Ranges.{month_text, months_from, year_of, month_of, months_in, max_months}

-- The count of months from the year 0.
abbrev pub month_number : Ymd → ℕ
month_number v = v.year * 12 + v.month

pub month_text-fixed :
    (y m : ℕ) → y < 10000 → m < 100 → month_text y m ≡ fixed 10 4 y ++ (b'-' ∷ (fixed 10 2 m ++ []))
unfolding month_text
month_text-fixed y m h k =
    rw (pad_start-to_string 10 (omega arith) 3 y (omega arith))
      (rw (pad_start-to_string 10 (omega arith) 1 m (omega arith), append-nil) refl)

-- Comparing two months as texts compares the years, then the months.
pub month_order :
    (y m z n : ℕ)
    → y < 10000
    → z < 10000
    → m < 100
    → n < 100
    → ltb_text (month_text y m) (month_text z n) ≡ (if y == z then ltb m n else ltb y z)
month_order y m z n hy hz hm hn =
    rw (month_text-fixed y m hy hm, month_text-fixed z n hz hn)
      (ltb_text-fixed 10 (omega arith) 4 y z _ _ (omega arith) (omega arith)
        ∙ ground (
          arith,
          ltb_text-append_same (b'-' ∷ []) (fixed 10 2 m ++ []) (fixed 10 2 n ++ []),
          ltb_text-fixed 10 (omega arith) 2 m n [] [] (omega arith) (omega arith),
          ltb_text_irrefl [],
        ))

pub earlier_month :
    (y m z n : ℕ)
    → z < 10000
    → m ≤ 12
    → n ≤ 12
    → 1 ≤ m
    → 1 ≤ n
    → y * 12 + m < z * 12 + n
    → leb_text (month_text z n) (month_text y m) ≡ false
earlier_month y m z n fits m_hi n_hi m_lo n_lo lt =
    rw (month_order y m z n (omega arith) fits (omega arith) (omega arith)) (ground arith)

-- The loop comes to every month up to the last.
months_from-In :
    (rounds y m z n z' n' : ℕ)
    → z < 10000
    → 1 ≤ m
    → m ≤ 12
    → 1 ≤ n
    → n ≤ 12
    → 1 ≤ n'
    → n' ≤ 12
    → y * 12 + m ≤ z' * 12 + n'
    → z' * 12 + n' ≤ z * 12 + n
    → z * 12 + n < y * 12 + m + rounds
    → In (month_text z' n') (months_from rounds (month_text z n) y m)
unfolding months_from
months_from-In zero y m z n z' n' fits m_lo m_hi n_lo n_hi lo hi above below enough =
    absurd (omega arith)
months_from-In (suc rounds) y m z n z' n' fits m_lo m_hi n_lo n_hi lo hi above below enough =
    elim (Bool-cases (ltb (y * 12 + m) (z' * 12 + n'))) [
      | inr same ↦
          (let years : z' ≡ y = ground arith in
            let months : n' ≡ m = ground arith in inl (λ i. month_text (years i) (months i)))
      | inl later ↦
          (let behind : y * 12 + m < z' * 12 + n' = ground arith in
            inr (
              rw (earlier_month y m z n fits m_hi n_hi m_lo n_lo (omega arith))
                (elim (Bool-cases (ltb 12 (m + 1))) [
                  | inl over ↦
                      (let december : m ≡ 12 = ground arith in
                        rw over (
                          months_from-In rounds (y + 1) 1 z n z' n' fits (omega arith) (omega arith)
                            n_lo n_hi lo hi (omega arith) below (omega arith)))
                  | inr under ↦
                      (let short : m + 1 ≤ 12 = ground arith in
                        rw under (
                          months_from-In rounds y (m + 1) z n z' n' fits (omega arith) short n_lo
                            n_hi lo hi (omega arith) below (omega arith)))
                ])))
    ]

month_key-written : (v : Ymd) → Fits v → month_key (written v) ≡ month_text v.year v.month
unfolding month_key fixed
month_key-written v h =
    rw (format-fixed v h, month_text-fixed v.year v.month h.year_fits h.month_fits) refl

year_of-written : (v : Ymd) → Fits v → year_of (written v) ≡ some v.year
unfolding year_of fixed
year_of-written v h =
    rw (format-fixed v h) (parse_digits-fixed 10 (omega arith) (omega arith) 3 v.year h.year_fits)

month_of-written : (v : Ymd) → Fits v → month_of (written v) ≡ some v.month
unfolding month_of fixed
month_of-written v h =
    rw (format-fixed v h) (parse_digits-fixed 10 (omega arith) (omega arith) 1 v.month h.month_fits)

-- A date that is no later is of no later month.
pub months_mono :
    (v w : Ymd)
    → IsStart v
    → IsStart w
    → leb_text (written v) (written w) ≡ true
    → month_number v ≤ month_number w
months_mono v w h k le =
    let order =
      format_order w v (IsDate-Fits w k.date k.year_max) (IsDate-Fits v h.date h.year_max) in
    ground (arith, order, h.date.month_max, k.date.month_min)

pub months_in-forward :
    (from to : Ymd)
    → IsStart from
    → IsStart to
    → ltb_text (written to) (written from) ≡ false
    → months_in (record { from = written from; to = written to })
      ≡ some (months_from max_months (month_text to.year to.month) from.year from.month)
unfolding months_in
months_in-forward from to h k on =
    let fits = IsDate-Fits from h.date h.year_max in
    rw
      (
        on,
        year_of-written from fits,
        month_of-written from fits,
        month_key-written to (IsDate-Fits to k.date k.year_max),
      )
      refl

-- There are months for every range between two dates.
pub months_in-some :
    (from to : Ymd)
    → IsStart from
    → IsStart to
    → (months : List Text) × (months_in (record { from = written from; to = written to })
        ≡ some months)
months_in-some from to h k = elim (Bool-cases (ltb_text (written to) (written from))) [
  | inl back ↦ ([], unfold months_in in rw back refl)
  | inr on ↦ (
    months_from max_months (month_text to.year to.month) from.year from.month,
    months_in-forward from to h k on,
  )
]

-- The range's tests, one by one.
within_parts :
    (date : Text) (range : DateRange)
    → within date range ≡ true
    → (leb_text range.from date ≡ true) × (leb_text date range.to ≡ true)
unfolding within
within_parts date range h = ground arith

-- A date of the range between two dates of the calendar, less than 1,200 months apart, has its month
-- among the months of the range.
pub months_in-In :
    (from to v : Ymd) (months : List Text)
    → IsStart from
    → IsStart to
    → IsStart v
    → month_number to < month_number from + max_months
    → let range : DateRange = record { from = written from; to = written to } in
      months_in range ≡ some months
      → within (written v) range ≡ true
      → In (month_key (written v)) months
months_in-In from to v months f t d near e here =
    let (above, below) =
      within_parts (written v) (record { from = written from; to = written to }) here in
    let on : ltb_text (written to) (written from) ≡ false =
      not_below_trans (written to) (written v) (written from) (ground arith) (ground arith) in
    let listed : months_from max_months (month_text to.year to.month) from.year from.month
        ≡ months =
      some_path (sym (months_in-forward from to f t on) ∙ e) in
    subst (λ ms. In (month_key (written v)) ms) listed
      (subst
        (λ key. In key (months_from max_months (month_text to.year to.month) from.year from.month))
        (sym (month_key-written v (IsDate-Fits v d.date d.year_max)))
        (months_from-In max_months from.year from.month to.year to.month v.year v.month t.year_max
          f.date.month_min f.date.month_max t.date.month_min t.date.month_max d.date.month_min
          d.date.month_max (months_mono from v f d above) (months_mono v to d t below) near))
  where
    some_path : {x y : List Text} → some x ≡ some y → x ≡ y
    some_path h = cc
