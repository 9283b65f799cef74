-- ===== src/Conversion/Tests.antt =====
-- Conversion of app/src/app/core/money/conversion.ts at concrete rates.
use easy_docket.Base.{ℕ, List, [], ◌∷◌}
use easy_docket.Base.Text.{Text, codes}
use easy_docket.Models.Records.{manual, ExchangeRate}
use easy_docket.Conversion.{rate_for}
use easy_docket.Conversion.Latest.{Found, rate_for-Found}

abbrev quote_on : Text → ℕ → ExchangeRate ℕ
quote_on date rate = record {
  id = date;
  base = codes "EUR";
  quote = codes "usd";
  rate = rate;
  date = date;
  source = manual;
  created_at = 0;
  updated_at = [];
}

abbrev quotes : List (ExchangeRate ℕ)
quotes = quote_on (codes "2024-01-02") 2 ∷ quote_on (codes "2024-01-05") 3 ∷ []

-- A Saturday takes the quote of the day before.
rate_for-Found_example :
    Found quotes
      (codes "eur")
      (codes "USD")
      (codes "2024-01-06")
      (rate_for quotes (codes "eur") (codes "USD") (codes "2024-01-06"))
rate_for-Found_example = rate_for-Found quotes (codes "eur") (codes "USD") (codes "2024-01-06")
