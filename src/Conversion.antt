-- ===== src/Conversion.antt =====
-- Conversion between currencies: app/src/app/core/money/conversion.ts. A rate is a floating-point
-- number; what the code does with such numbers is a record of operations.
pub mod Latest
pub mod Sums
pub mod Whole
mod Tests
use easy_docket.Base.{
  ℕ, ◌+◌, Bool, true, false, not, ◌&&◌, ◌||◌, Option, none, some, List, [], ◌∷◌, ◌++◌,
  if◌then◌else◌,
}
use easy_docket.Base.Int.{ℤ, pos, ◌+ℤ◌, ◌-ℤ◌}
use easy_docket.Base.Text.{Text, codes, eq_text, ltb_text}
use easy_docket.Models.Records.{Minor, Transaction, ExchangeRate}
use easy_docket.Money.{upper, minor_unit_exponent}

-- JavaScript's numbers, as far as the code computes with them; `to_minor` is the integer that a rounded
-- number is.
pub record Double (W : Type 0) : Type 0 where
  pub of_minor : ℤ → W
  pub to_minor : W → ℤ
  pub times : W → W → W
  pub over : W → W → W
  -- `10 ** n`
  pub ten_to : ℤ → W
  -- `Math.round`
  pub rounded : W → W
  pub negated : W → W
  pub is_negative : W → Bool
  pub is_positive : W → Bool
  pub is_finite : W → Bool

-- A result, or the error that a rate is no positive number.
pub data Outcome (A : Type 0) : Type 0 where
  value : A → Outcome A
  bad_rate : Outcome A

infixl 5 ◌>>=◌
abbrev pub ◌>>=◌ : {A B : Type 0} → Outcome A → (A → Outcome B) → Outcome B
(value a) >>= f = f a
bad_rate >>= f = bad_rate

-- `rateId`
unfoldable pub rate_id : Text → Text → Text → Text
rate_id base quote date = upper base ++ (codes ":" ++ (upper quote ++ (codes ":" ++ date)))

-- `sameCurrency`
unfoldable pub same_currency : Text → Text → Bool
same_currency a b = eq_text (upper a) (upper b)

-- What a round of the loop of `sumInReporting` does with a converted amount.
unfoldable pub add_converted : Option Minor → Minor × ℕ → Minor × ℕ
add_converted none (total, unconverted) = (total, unconverted + 1)
add_converted (some amount) (total, unconverted) = (total +ℤ amount, unconverted)

module _ {W : Type 0} (double : Double W) where
  -- `PRECISION`
  abbrev pub precision : W
  precision = double.ten_to (pos 9)

  -- `roundHalfAwayFromZero`
  unfoldable pub round_half_away_from_zero : W → ℤ
  round_half_away_from_zero x =
      let snapped = double.over (double.rounded (double.times x precision)) precision in
      double.to_minor (
        if double.is_negative snapped
        then double.negated (double.rounded (double.negated snapped))
        else double.rounded snapped)

  -- The test of `convert` and `invertRate`.
  unfoldable pub is_rate : W → Bool
  is_rate rate = double.is_finite rate && double.is_positive rate

  -- `convert`
  unfoldable pub convert : Minor → W → Text → Text → Outcome Minor
  convert amount rate from to =
      if not (is_rate rate)
      then bad_rate
      else if same_currency from to
      then value amount
      else let scale =
          double.ten_to (pos (minor_unit_exponent to) -ℤ pos (minor_unit_exponent from)) in
        value (
          round_half_away_from_zero
            (double.times (double.times (double.of_minor amount) rate) scale))

  -- What `inReporting` does with the rate of a transaction in another currency.
  convert_stored : Minor → Option W → Text → Text → Outcome (Option Minor)
  convert_stored amount none currency reporting = value none
  convert_stored amount (some rate) currency reporting =
      convert amount rate currency reporting >>= λ converted. value (some converted)

  -- `inReporting`; `value none` is its null.
  unfoldable pub in_reporting : Transaction W → Text → Outcome (Option Minor)
  unfolding convert_stored
  in_reporting t reporting =
      if same_currency t.currency reporting
      then value (some t.amount)
      else convert_stored t.amount t.rate t.currency reporting

  -- `invertRate`
  unfoldable pub invert_rate : W → Outcome W
  invert_rate rate =
      if is_rate rate then value (double.over (double.of_minor (pos 1)) rate) else bad_rate

  -- The loop of `sumInReporting`.
  unfoldable pub sum_from : Text → List (Transaction W) → Minor × ℕ → Outcome (Minor × ℕ)
  sum_from reporting [] sums = value sums
  sum_from reporting (t ∷ ts) sums =
      in_reporting t reporting >>= λ converted. sum_from reporting ts (add_converted converted sums)

  -- `sumInReporting`: the total and the number of those left out.
  unfoldable pub sum_in_reporting : List (Transaction W) → Text → Outcome (Minor × ℕ)
  sum_in_reporting ts reporting = sum_from reporting ts (pos 0, 0)

module _ {W : Type 0} where
  -- A quote for the pair, of the date or before it.
  unfoldable pub is_usable : Text → Text → Text → ExchangeRate W → Bool
  is_usable base quote date r =
      same_currency r.base base && same_currency r.quote quote && not (ltb_text date r.date)

  unfoldable pub better : Option (ExchangeRate W) → ExchangeRate W → Option (ExchangeRate W)
  better none r = some r
  better (some best) r = if ltb_text best.date r.date then some r else some best

  -- The loop of `rateFor`.
  unfoldable pub rate_from :
      (ExchangeRate W → Bool)
      → Option (ExchangeRate W)
      → List (ExchangeRate W)
      → Option (ExchangeRate W)
  rate_from usable best [] = best
  rate_from usable best (r ∷ rates) =
      rate_from usable (if usable r then better best r else best) rates

  -- `rateFor`
  unfoldable pub rate_for : List (ExchangeRate W) → Text → Text → Text → Option (ExchangeRate W)
  rate_for rates base quote date =
      if same_currency base quote then none else rate_from (is_usable base quote date) none rates
