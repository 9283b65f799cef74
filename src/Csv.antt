-- ===== src/Csv.antt =====
-- CSV: the writing of tables in app/src/app/core/reports/csv.ts, and the reading of files in
-- app/src/app/core/import/csv-parse.ts. A value is its text under `String`, or absent.
pub mod RoundTrip
mod Tests
use easy_docket.Base.{
  ℕ, Bool, true, false, ◌&&◌, ◌||◌, not, Option, none, some, List, [], ◌∷◌, ◌++◌, map,
  if◌then◌else◌, ltb, ◌==◌, length, any,
}
use easy_docket.Base.Text.{Text}

-- `/^[=+\-@\t\r]/`
unfoldable pub starts_formula : Text → Bool
starts_formula [] = false
starts_formula (c ∷ t) = c == b'=' || c == b'+' || c == b'-' || c == b'@' || c == 9 || c == 13

unfoldable pub guarded : Text → Text
guarded text = if starts_formula text then b'\'' ∷ text else text

-- `[",\r\n]`
unfoldable pub is_special : ℕ → Bool
is_special c = c == b'"' || c == b',' || c == 13 || c == 10

-- `t.split('"').join('""')`
unfoldable pub doubled : Text → Text
doubled [] = []
doubled (c ∷ t) = if c == b'"' then b'"' ∷ (b'"' ∷ doubled t) else c ∷ doubled t

unfoldable pub quote_field : Text → Text
quote_field text = if any is_special text then b'"' ∷ (doubled text ++ b'"' ∷ []) else text

-- `escapeField`
unfoldable pub escape_field : Option Text → Text
escape_field none = []
escape_field (some text) = quote_field (guarded text)

-- `parts.join(sep)`
unfoldable pub join : Text → List Text → Text
join sep [] = []
join sep (t ∷ []) = t
join sep (t ∷ (u ∷ ts)) = t ++ (sep ++ join sep (u ∷ ts))

unfoldable pub to_line : List (Option Text) → Text
to_line row = join (b',' ∷ []) (map escape_field row)

-- `toCsv`, on the row of the headers and the rows.
unfoldable pub to_csv : List (List (Option Text)) → Text
to_csv table = join (13 ∷ (10 ∷ [])) (map to_line table)

-- What `parseCsv` keeps between two characters; `skip` stands for the second step of `i`.
pub record Reader : Type 0 where
  pub rows : List (List Text)
  pub row : List Text
  pub field : Text
  pub quoted : Bool
  pub started : Bool
  pub skip : Bool

-- `endField`
unfoldable pub end_field : Reader → Reader
end_field r = record r { row = r.row ++ r.field ∷ []; field = []; started = false }

unfoldable pub is_kept : List Text → Bool
is_kept [] = true
is_kept ([] ∷ []) = false
is_kept ((c ∷ t) ∷ []) = true
is_kept (f ∷ (g ∷ fs)) = true

-- `endRow`
unfoldable pub end_row : Reader → Reader
end_row r =
    let e = end_field r in
    record e { rows = if is_kept e.row then e.rows ++ e.row ∷ [] else e.rows; row = [] }

unfoldable pub next_is : ℕ → Text → Bool
next_is c [] = false
next_is c (d ∷ t) = d == c

unfoldable pub add_char : ℕ → Reader → Reader
add_char c r = record r { field = r.field ++ c ∷ [] }

unfoldable pub is_empty : Text → Bool
is_empty [] = true
is_empty (c ∷ t) = false

-- A round of the loop inside quotes.
unfoldable pub quoted_round : ℕ → Text → Reader → Reader
quoted_round c next r =
    if not (c == b'"')
    then add_char c r
    else if next_is b'"' next
    then record (add_char b'"' r) { skip = true }
    else record r { quoted = false }

-- A round of the loop outside quotes.
unfoldable pub plain_round : ℕ → Text → Reader → Reader
plain_round c next r =
    if c == b'"'
    then (if not r.started && is_empty r.field
        then record r { quoted = true; started = true }
        else record (add_char c r) { started = true })
    else if c == b','
    then end_field r
    else if c == 13
    then record (end_row r) { skip = next_is 10 next }
    else if c == 10
    then end_row r
    else record (add_char c r) { started = true }

-- A round at a character and the text behind it.
unfoldable pub round : ℕ → Text → Reader → Reader
round c next r =
    if r.skip
    then record r { skip = false }
    else if r.quoted
    then quoted_round c next r
    else plain_round c next r

unfoldable pub read : Text → Reader → Reader
read [] r = r
read (c ∷ t) r = read t (round c t r)

-- The last row, where it has something.
unfoldable pub finish : Reader → List (List Text)
finish r = if not (is_empty r.field) || ltb 0 (length r.row) then (end_row r).rows else r.rows

unfoldable pub drop_mark : Text → Text
drop_mark [] = []
drop_mark (c ∷ t) = if c == 0xfeff then t else c ∷ t

abbrev pub empty_reader : Reader
empty_reader = record {
  rows = [];
  row = [];
  field = [];
  quoted = false;
  started = false;
  skip = false;
}

-- `parseCsv`
unfoldable pub parse_csv : Text → List (List Text)
parse_csv text = finish (read (drop_mark text) empty_reader)
