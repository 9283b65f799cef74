-- ===== src/Accounts/Worth.antt =====
-- What an account adds to a total of app/src/app/core/accounts/sections.ts.
use easy_docket.Base.{
  ◌+◌, ◌≡◌, refl, sym, ap, ◌∙◌, Bool, true, false, not, Option, none, some, List, [], ◌∷◌,
  if◌then◌else◌,
}
use easy_docket.Base.Int.{ℤ, pos, ◌+ℤ◌}
use easy_docket.Base.Int.Laws.{plus_zero, plus_assoc}
use easy_docket.Base.Int.Sums.{sum_by}
use easy_docket.Base.Text.{Text}
use easy_docket.Models.Records.{Minor, Account}
use easy_docket.Conversion.{Double, Outcome, value, bad_rate, same_currency, is_rate, convert}
use easy_docket.Accounts.{
  counts_in_totals, SectionInput, Tally, balance_of, add_account, add_at_rate, tally_from,
}

-- Every known rate is a positive number.
abbrev pub GoodRates : {W : Type 0} → Double W → SectionInput W → Type 0
GoodRates {W} double input =
    (currency : Text) (rate : W) → input.rate_for currency ≡ some rate → is_rate double rate ≡ true

either : (b : Bool) (x y : Minor) → (m : Minor) × ((if b then value x else value y) ≡ value m)
either true x y = (x, refl)
either false x y = (y, refl)

module _ {W : Type 0} (double : Double W) (input : SectionInput W) where
  -- What an amount at a rate adds.
  at_rate : Minor → Text → Option W → ℤ
  at_rate amount currency none = pos 0
  at_rate amount currency (some rate) = elim (convert double amount rate currency input.reporting) [
    | value converted ↦ converted
    | bad_rate ↦ pos 0
  ]

  -- What an account adds to what someone is worth: nothing where the user excluded it or no rate for its
  -- currency is known, and else its balance in the reporting currency.
  unfoldable pub worth : Account → ℤ
  unfolding at_rate
  worth account =
      if not (counts_in_totals account)
      then pos 0
      else if same_currency account.currency input.reporting
      then balance_of input.balances account
      else at_rate (balance_of input.balances account) account.currency
          (input.rate_for account.currency)

  -- A tally with a sum added to the total, and any count and names.
  unfoldable pub Adds : ℤ → Tally → Outcome Tally → Type 0
  Adds x t r = (u : Tally) × (r ≡ value u) × (u.total ≡ t.total +ℤ x)

  convert_good :
      (amount : Minor) (rate : W) (currency : Text)
      → is_rate double rate ≡ true
      → (m : Minor) × (convert double amount rate currency input.reporting ≡ value m)
  unfolding convert
  convert_good amount rate currency h =
      rw h (either (same_currency currency input.reporting) amount _)

  add_account-Adds :
      GoodRates double input
      → (a : Account) (t : Tally) → Adds (worth a) t (add_account double input a t)
  unfolding add_account add_at_rate at_rate worth Adds
  add_account-Adds good a t = by_count (counts_in_totals a)
    where
      by_rate :
          (o : Option W)
          → input.rate_for a.currency ≡ o
          → Adds
              (at_rate (balance_of input.balances a) a.currency o)
              t
              (add_at_rate double input a o t)
      by_rate none e = (_, refl, sym (plus_zero t.total))
      by_rate (some rate) e =
          let (m, c) =
            convert_good (balance_of input.balances a) rate a.currency (good a.currency rate e) in
          (record t { total = t.total +ℤ m }, rw c refl, rw (at_rate, c) refl)

      by_currency :
          (b : Bool)
          → Adds
              (if b
                then balance_of input.balances a
                else at_rate (balance_of input.balances a) a.currency (input.rate_for a.currency))
              t
              (if b
                then value (record t { total = t.total +ℤ balance_of input.balances a })
                else add_at_rate double input a (input.rate_for a.currency) t)
      by_currency true = (_, refl, refl)
      by_currency false = by_rate (input.rate_for a.currency) refl

      by_count :
          (b : Bool)
          → Adds
              (if not b
                then pos 0
                else if same_currency a.currency input.reporting
                then balance_of input.balances a
                else at_rate (balance_of input.balances a) a.currency (input.rate_for a.currency))
              t
              (if not b
                then value (record t { excluded = t.excluded + 1 })
                else if same_currency a.currency input.reporting
                then value (record t { total = t.total +ℤ balance_of input.balances a })
                else add_at_rate double input a (input.rate_for a.currency) t)
      by_count true = by_currency (same_currency a.currency input.reporting)
      by_count false = (_, refl, sym (plus_zero t.total))

  pub tally_from-Adds :
      GoodRates double input
      → (accounts : List Account) (t : Tally)
      → Adds (sum_by worth accounts) t (tally_from double input accounts t)
  unfolding tally_from Adds
  tally_from-Adds good [] t = (t, refl, sym (plus_zero t.total))
  tally_from-Adds good (a ∷ accounts) t =
      let (u, first, x) = add_account-Adds good a t in
      let (w, rest, y) = tally_from-Adds good accounts u in
      (
        w,
        rw first rest,
        y
            ∙ ap (λ z. z +ℤ sum_by worth accounts) x
            ∙ plus_assoc t.total (worth a) (sum_by worth accounts),
      )
