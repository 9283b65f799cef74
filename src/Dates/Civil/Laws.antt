-- ===== src/Dates/Civil/Laws.antt =====
-- Counting days and reading dates back are inverse.
use easy_docket.Base.{
  ℕ, zero, suc, ◌+◌, ◌-◌, ◌*◌, ◌/◌, ◌≤◌, ◌<◌, ◌≡◌, refl, ap, sym, Bool, true, false, arith,
  if◌then◌else◌,
}
use easy_docket.Dates.Civil.{
  is_leap, month_length, before_month, before_year, year_from, year_of, month_from, month_of,
}

pub year_length : ℕ → ℕ
year_length y = if is_leap y then 366 else 365

pub before_year-suc : (y : ℕ) → before_year (suc y) ≡ before_year y + year_length y
unfolding before_year year_length is_leap
before_year-suc y = ground arith

pub before_month_year : (leap : Bool) → before_month leap 12 ≡ (if leap then 366 else 365)
unfolding before_month month_length
before_month_year true = refl
before_month_year false = refl

-- A year has the days before its thirteenth month.
pub year_length_lem : (y : ℕ) → year_length y ≡ before_month (is_leap y) 12
year_length_lem y = unfold year_length in sym (before_month_year (is_leap y))

add_suc : (y k : ℕ) → y + suc k ≡ suc (y + k)
add_suc y k = omega arith

add_sub : (x y : ℕ) → x ≤ y → x + (y - x) ≡ y
add_sub x y h = omega arith

before_year_mono : (k y : ℕ) → before_year y ≤ before_year (y + k)
before_year_mono zero y = ground arith
before_year_mono (suc k) y =
    ground (arith, before_year_mono k y, before_year-suc (y + k), ap before_year (add_suc y k))

pub before_year_le : (x y : ℕ) → x ≤ y → before_year x ≤ before_year y
before_year_le x y h = ground (arith, before_year_mono (y - x) x, ap before_year (add_sub x y h))

le-before_year : (y : ℕ) → 365 * y ≤ before_year y
unfolding before_year
le-before_year y = omega arith

before_year-le : (y : ℕ) → before_year y ≤ 366 * y
unfolding before_year
before_year-le y = omega arith

-- The search for the year ends at the year that the day is in.
year_from_lem :
    (f y n : ℕ)
    → before_year y ≤ n
    → n < y + f
    → (before_year (year_from f y n) ≤ n) × (n < before_year (suc (year_from f y n)))
unfolding year_from
year_from_lem zero y n lo fuel = absurd (omega (arith, le-before_year y))
year_from_lem (suc f) y n lo fuel = ground (arith, year_from_lem f (suc y) n)

pub year_of_lem : (n : ℕ) → (before_year (year_of n) ≤ n) × (n < before_year (suc (year_of n)))
unfolding year_of
year_of_lem n =
    year_from_lem (suc n) (n / 366) n (omega (arith, before_year-le (n / 366))) (omega arith)

-- A day between the start of a year and that of the next is in that year.
pub year_of-ordinal : (y r : ℕ) → r < year_length y → year_of (before_year y + r) ≡ y
year_of-ordinal y r h = ground (
  arith,
  year_of_lem (before_year y + r),
  before_year-suc y,
  before_year_le (suc (year_of (before_year y + r))) y,
  before_year_le (suc y) (year_of (before_year y + r)),
)

add_zero : (m : ℕ) → m + 0 ≡ m
add_zero m = omega arith

module _ (leap : Bool) where
  pub before_month-suc :
      (m : ℕ) → before_month leap (suc m) ≡ before_month leap m + month_length leap m
  unfolding before_month
  before_month-suc m = refl

  month_from_lem :
      (f m n : ℕ)
      → f + m ≡ 12
      → before_month leap m + n < before_month leap 12
      → let (p, d) = month_from leap f m n in
        (before_month leap p + d ≡ before_month leap m + n) × (d < month_length leap p) × (p < 12)
  unfolding month_from before_month
  month_from_lem zero m n e h =
      let last : m ≡ 12 = omega arith in absurd (omega (arith, ap (before_month leap) last))
  month_from_lem (suc f) m n e h =
      ground (arith, month_from_lem f (suc m) (n - month_length leap m))

  before_month_zero : before_month leap 0 ≡ 0
  unfolding before_month
  before_month_zero = refl

  before_month_mono : (k m : ℕ) → before_month leap m ≤ before_month leap (m + k)
  before_month_mono zero m = ground (arith, ap (before_month leap) (add_zero m))
  before_month_mono (suc k) m =
      ground (
        arith,
        before_month_mono k m,
        before_month-suc (m + k),
        ap (before_month leap) (add_suc m k),
      )

  pub before_month_le : (m p : ℕ) → m ≤ p → before_month leap m ≤ before_month leap p
  before_month_le m p h =
      ground (arith, before_month_mono (p - m) m, ap (before_month leap) (add_sub m p h))

  -- A day between the start of a month and that of the next is in that month.
  month_from-before :
      (f m n p d : ℕ)
      → n + before_month leap m ≡ before_month leap p + d
      → d < month_length leap p
      → m ≤ p
      → p < f + m
      → month_from leap f m n ≡ (p, d)
  unfolding month_from
  month_from-before zero m n p d e h le lt = absurd (omega arith)
  month_from-before (suc f) m n p d e h le lt = ground (
    arith,
    month_from-before f (suc m) (n - month_length leap m) p d,
    before_month-suc m,
    before_month_le (suc m) p,
  )

  pub month_of_lem :
      (n : ℕ)
      → n < before_month leap 12
      → let (p, d) = month_of leap n in
        (before_month leap p + d ≡ n) × (d < month_length leap p) × (p < 12)
  unfolding month_of
  month_of_lem n h =
      let start = before_month_zero in
      let (a, b, c) = month_from_lem 12 0 n (omega arith) (omega (arith, start)) in
      (omega (arith, a, start), b, c)

  pub month_of-before :
      (p d : ℕ)
      → d < month_length leap p
      → p < 12
      → month_of leap (before_month leap p + d) ≡ (p, d)
  unfolding month_of
  month_of-before p d h lt =
      month_from-before 12 0 (before_month leap p + d) p d (omega (arith, before_month_zero)) h
        (omega arith) (omega arith)
