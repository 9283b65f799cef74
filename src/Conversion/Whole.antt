-- ===== src/Conversion/Whole.antt =====
-- Whole numbers in place of floating-point ones, for the tests of app/src/app/core/money/conversion.ts:
-- all currencies have minor units of one size here.
use easy_docket.Base.{ℕ, ◌/◌, ◌*◌, true, false, ltb}
use easy_docket.Base.Int.{ℤ, pos, negsuc}
use easy_docket.Conversion.{Double}

abbrev pub size : ℤ → ℕ
size (pos n) = n
size (negsuc n) = 0

abbrev pub whole : Double ℕ
whole = record {
  of_minor = size;
  to_minor = pos;
  times = λ a b. a * b;
  over = λ a b. a / b;
  ten_to = λ n. 1;
  rounded = λ a. a;
  negated = λ a. a;
  is_negative = λ a. false;
  is_positive = ltb 0;
  is_finite = λ a. true;
}
