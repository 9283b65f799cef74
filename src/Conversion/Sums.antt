-- ===== src/Conversion/Sums.antt =====
-- Totals of app/src/app/core/money/conversion.ts.
use easy_docket.Base.{
  ℕ, ◌+◌, ◌≡◌, refl, sym, ap, ◌∙◌, Option, none, some, List, [], ◌∷◌, ◌++◌, arith,
}
use easy_docket.Base.Int.{pos, ◌+ℤ◌}
use easy_docket.Base.Int.Laws.{plus_zero, plus_assoc}
use easy_docket.Base.Text.{Text}
use easy_docket.Models.Records.{Minor, Transaction}
use easy_docket.Conversion.{
  Double, Outcome, value, bad_rate, ◌>>=◌, in_reporting, add_converted, sum_from, sum_in_reporting,
}

abbrev pub plus : Minor × ℕ → Minor × ℕ → Minor × ℕ
plus (a, m) (b, n) = (a +ℤ b, m + n)

plus_unit : (s : Minor × ℕ) → plus s (pos 0, 0) ≡ s
plus_unit (a, m) = let e : m + 0 ≡ m = omega arith in λ i. (plus_zero a i, e i)

plus-add_converted :
    (o : Option Minor) (s t : Minor × ℕ) → plus s (add_converted o t) ≡ add_converted o (plus s t)
unfolding add_converted
plus-add_converted none (a, m) (b, n) =
    let e : m + (n + 1) ≡ m + n + 1 = omega arith in λ i. (a +ℤ b, e i)
plus-add_converted (some x) (a, m) (b, n) = λ i. (sym (plus_assoc a b x) i, m + n)

module _ {W : Type 0} (double : Double W) where
  -- Sums that start from earlier ones are these plus the sums that start from nothing.
  sum_from-plus :
      (reporting : Text) (ts : List (Transaction W)) (s t : Minor × ℕ)
      → sum_from double reporting ts (plus s t)
        ≡ (sum_from double reporting ts t >>= λ u. value (plus s u))
  unfolding sum_from
  sum_from-plus reporting [] s t = refl
  sum_from-plus reporting (t' ∷ ts) s t =
      round (in_reporting double t' reporting)
        (λ o. sum_from-plus reporting ts s (add_converted o t))
    where
      round :
          (r : Outcome (Option Minor))
          → ((o : Option Minor)
              → sum_from double reporting ts (plus s (add_converted o t))
                ≡ (sum_from double reporting ts (add_converted o t) >>= λ u. value (plus s u)))
          → (r >>= λ o. sum_from double reporting ts (add_converted o (plus s t))) ≡ (
              (r >>= λ o. sum_from double reporting ts (add_converted o t)) >>= λ u.
              value (plus s u))
      round (value o) rest =
          ap (sum_from double reporting ts) (sym (plus-add_converted o s t)) ∙ rest o
      round bad_rate rest = refl

  sum_from-append :
      (reporting : Text) (xs ys : List (Transaction W)) (s : Minor × ℕ)
      → sum_from double reporting (xs ++ ys) s
        ≡ (sum_from double reporting xs s >>= λ t. sum_from double reporting ys t)
  unfolding sum_from
  sum_from-append reporting [] ys s = refl
  sum_from-append reporting (x ∷ xs) ys s =
      round (in_reporting double x reporting)
        (λ o. sum_from-append reporting xs ys (add_converted o s))
    where
      round :
          (r : Outcome (Option Minor))
          → ((o : Option Minor)
              → sum_from double reporting (xs ++ ys) (add_converted o s) ≡ (
                  sum_from double reporting xs (add_converted o s) >>= λ t.
                  sum_from double reporting ys t))
          → (r >>= λ o. sum_from double reporting (xs ++ ys) (add_converted o s)) ≡ (
              (r >>= λ o. sum_from double reporting xs (add_converted o s)) >>= λ t.
              sum_from double reporting ys t)
      round (value o) rest = rest o
      round bad_rate rest = refl

  -- The sums of two lists together are the sums of each added up, both the total and the number of the
  -- transactions left out; they fail where one of the two does, with any rates.
  pub sum_in_reporting-append :
      (xs ys : List (Transaction W)) (reporting : Text)
      → sum_in_reporting double (xs ++ ys) reporting ≡ (
          sum_in_reporting double xs reporting >>= λ s.
          sum_in_reporting double ys reporting >>= λ t. value (s.0 +ℤ t.0, s.1 + t.1))
  unfolding sum_in_reporting
  sum_in_reporting-append xs ys reporting =
      sum_from-append reporting xs ys (pos 0, 0) ∙ ends (sum_from double reporting xs (pos 0, 0))
    where
      ends :
          (r : Outcome (Minor × ℕ))
          → (r >>= λ t. sum_from double reporting ys t) ≡ (
              r >>= λ s.
              sum_from double reporting ys (pos 0, 0) >>= λ t. value (s.0 +ℤ t.0, s.1 + t.1))
      ends (value s) =
          ap (sum_from double reporting ys) (sym (plus_unit s))
          ∙ sum_from-plus reporting ys s (pos 0, 0)
      ends bad_rate = refl
