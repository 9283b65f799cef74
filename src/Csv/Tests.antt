-- ===== src/Csv/Tests.antt =====
-- CSV of app/src/app/core/reports/csv.ts and app/src/app/core/import/csv-parse.ts on a small table.
use easy_docket.Base.{◌≡◌, refl, none, some, Option, List, [], ◌∷◌, map}
use easy_docket.Base.Text.{Text, codes}
use easy_docket.Csv.{
  drop_mark, to_csv, join, to_line, escape_field, quote_field, guarded, starts_formula, is_special,
  doubled, parse_csv, is_kept,
}
use easy_docket.Csv.RoundTrip.{field_of, is_row, parse_csv-to_csv}

abbrev headers : List (Option Text)
headers = some (codes "Date") ∷ some (codes "Payee") ∷ []

abbrev quoted_payee : List (Option Text)
quoted_payee = none ∷ some (codes "Anne, \"the\" baker") ∷ []

abbrev guarded_payee : List (Option Text)
guarded_payee = some (codes "=1") ∷ none ∷ []

no_mark :
    drop_mark (to_csv (headers ∷ quoted_payee ∷ guarded_payee ∷ []))
    ≡ to_csv (headers ∷ quoted_payee ∷ guarded_payee ∷ [])
unfolding drop_mark to_csv join to_line escape_field quote_field guarded starts_formula is_special
    doubled
no_mark = refl

parse_csv-to_csv_example :
    parse_csv (to_csv (headers ∷ quoted_payee ∷ guarded_payee ∷ []))
    ≡ map (map field_of) (headers ∷ quoted_payee ∷ guarded_payee ∷ [])
unfolding is_row is_kept field_of guarded starts_formula
parse_csv-to_csv_example =
    parse_csv-to_csv headers (quoted_payee ∷ guarded_payee ∷ []) (refl, (refl, (refl, tt))) no_mark
