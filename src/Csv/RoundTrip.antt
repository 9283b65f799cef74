-- ===== src/Csv/RoundTrip.antt =====
-- What app/src/app/core/reports/csv.ts writes, app/src/app/core/import/csv-parse.ts reads.
use easy_docket.Base.{
  ℕ, ◌≡◌, refl, sym, ap, ◌∙◌, inl, inr, Bool, true, false, ◌||◌, not, Option, none, some, List, [],
  ◌∷◌, ◌++◌, append-nil, append_assoc, map, ltb, ◌==◌, length, any, All, Bool-cases, arith,
}
use easy_docket.Base.Text.{Text}
use easy_docket.Csv.{
  guarded, is_special, doubled, quote_field, escape_field, join, to_line, to_csv, Reader, end_field,
  is_kept, end_row, next_is, add_char, is_empty, quoted_round, plain_round, round, read, finish,
  drop_mark, parse_csv,
}

-- The reader outside quotes and inside them.
abbrev at : List (List Text) → List Text → Text → Bool → Reader
at rows row field started = record {
  rows = rows;
  row = row;
  field = field;
  quoted = false;
  started = started;
  skip = false;
}

abbrev inside : List (List Text) → List Text → Text → Reader
inside rows row field = record {
  rows = rows;
  row = row;
  field = field;
  quoted = true;
  started = true;
  skip = false;
}

-- The text of a value, as the spreadsheet guard leaves it.
unfoldable pub field_of : Option Text → Text
field_of none = []
field_of (some text) = guarded text

kept_row :
    (row : List Text) (f : Text)
    → is_kept (row ++ f ∷ []) ≡ true
    → (not (is_empty f) || ltb 0 (length row)) ≡ true
unfolding is_kept is_empty
kept_row [] [] h = ground arith
kept_row [] (c ∷ f) h = refl
kept_row (r ∷ row) f h = ground arith

module _ (rows : List (List Text)) (row : List Text) where
  read-plain_char :
      (c : ℕ) (next f : Text) (st : Bool)
      → is_special c ≡ false
      → read (c ∷ next) (at rows row f st) ≡ read next (at rows row (f ++ c ∷ []) true)
  unfolding read round plain_round add_char is_special
  read-plain_char c next f st h = ap (read next) (ground arith)

  read-plain :
      (t rest f : Text) (st : Bool)
      → any is_special t ≡ false
      → (s : Bool) × (read (t ++ rest) (at rows row f st) ≡ read rest (at rows row (f ++ t) s))
  read-plain [] rest f st h = (st, ap (λ g. read rest (at rows row g st)) (sym (append-nil f)))
  read-plain (c ∷ t) rest f st h =
      let (s, e) = read-plain t rest (f ++ c ∷ []) true (ground arith) in
      (
        s,
        read-plain_char c (t ++ rest) f st (ground arith)
            ∙ e
            ∙ ap (λ g. read rest (at rows row g s)) (append_assoc f (c ∷ []) t),
      )

  read-inside_char :
      (c : ℕ) (next f : Text)
      → (c == b'"') ≡ false
      → read (c ∷ next) (inside rows row f) ≡ read next (inside rows row (f ++ c ∷ []))
  unfolding read round quoted_round add_char
  read-inside_char c next f h = ap (read next) (ground arith)

  read-doubled :
      (t rest f : Text)
      → next_is b'"' rest ≡ false
      → read (doubled t ++ b'"' ∷ rest) (inside rows row f) ≡ read rest (at rows row (f ++ t) true)
  unfolding read round quoted_round doubled add_char next_is
  read-doubled [] rest f h = rw (h, append-nil f) refl
  read-doubled (c ∷ t) rest f h = elim (Bool-cases (c == b'"')) [
    | inl e ↦ rw e (
        read-doubled t rest (f ++ b'"' ∷ []) h
        ∙ ap (λ g. read rest (at rows row g true))
            (append_assoc f (b'"' ∷ []) t ∙ ap (λ q. f ++ q ∷ t) (ground arith)))
    | inr e ↦ rw e (
        read-inside_char c (doubled t ++ b'"' ∷ rest) f e
        ∙ read-doubled t rest (f ++ c ∷ []) h
        ∙ ap (λ g. read rest (at rows row g true)) (append_assoc f (c ∷ []) t))
  ]

  read-quote_field :
      (t rest : Text)
      → next_is b'"' rest ≡ false
      → (s : Bool) × (read (quote_field t ++ rest) (at rows row [] false)
          ≡ read rest (at rows row t s))
  unfolding quote_field round plain_round is_empty
  read-quote_field t rest h = elim (Bool-cases (any is_special t)) [
    | inl e ↦ (true, rw (e, append_assoc (doubled t)) (unfold read in read-doubled t rest [] h))
    | inr e ↦ rw e (read-plain t rest [] false e)
  ]

  read-escape_field :
      (v : Option Text) (rest : Text)
      → next_is b'"' rest ≡ false
      → (s : Bool) × (read (escape_field v ++ rest) (at rows row [] false)
          ≡ read rest (at rows row (field_of v) s))
  unfolding escape_field field_of
  read-escape_field none rest h = (false, refl)
  read-escape_field (some t) rest h = read-quote_field (guarded t) rest h

  read-comma :
      (rest f : Text) (st : Bool)
      → read (b',' ∷ rest) (at rows row f st) ≡ read rest (at rows (row ++ f ∷ []) [] false)
  unfolding read round plain_round end_field
  read-comma rest f st = refl

  read-line_end :
      (rest f : Text) (st : Bool)
      → is_kept (row ++ f ∷ []) ≡ true
      → read (13 ∷ (10 ∷ rest)) (at rows row f st)
        ≡ read rest (at (rows ++ (row ++ f ∷ []) ∷ []) [] [] false)
  unfolding read round plain_round end_row end_field next_is
  read-line_end rest f st h = rw h refl

  finish-last :
      (f : Text) (st : Bool)
      → is_kept (row ++ f ∷ []) ≡ true
      → finish (at rows row f st) ≡ rows ++ (row ++ f ∷ []) ∷ []
  unfolding finish end_row end_field is_empty
  finish-last f st h = rw (kept_row row f h, h) refl

-- The fields of a line reach the reader, the last one as the field that is not ended yet.
read-to_line :
    (rows : List (List Text)) (row : List Text) (v : Option Text) (vs : List (Option Text))
    (rest : Text)
    → next_is b'"' rest ≡ false
    → (done : List Text) × (f : Text) × (s : Bool) × (read
          (to_line (v ∷ vs) ++ rest)
          (at rows row [] false)
        ≡ read rest (at rows done f s))
      × (done ++ f ∷ [] ≡ row ++ map field_of (v ∷ vs))
unfolding to_line join next_is
read-to_line rows row v [] rest h =
    let (s, e) = read-escape_field rows row v rest h in (row, field_of v, s, e, refl)
read-to_line rows row v (w ∷ vs) rest h =
    let more = b',' ∷ (to_line (w ∷ vs) ++ rest) in
    let (s, e) = read-escape_field rows row v more refl in
    let (done, f, s', e', all) = read-to_line rows (row ++ field_of v ∷ []) w vs rest h in
    (
      done,
      f,
      s',
      rw (append_assoc (escape_field v))
          (e ∙ read-comma rows row (to_line (w ∷ vs) ++ rest) (field_of v) s ∙ e'),
      all ∙ append_assoc row (field_of v ∷ []) (map field_of (w ∷ vs)),
    )

-- A row has a field, and is not one empty field alone: such a row the reader drops.
unfoldable pub is_row : List (Option Text) → Bool
is_row [] = false
is_row (v ∷ vs) = is_kept (map field_of (v ∷ vs))

read-table :
    (rows : List (List Text)) (line : List (Option Text)) (lines : List (List (Option Text)))
    → All (λ l. is_row l ≡ true) (line ∷ lines)
    → finish (read (to_csv (line ∷ lines)) (at rows [] [] false))
      ≡ rows ++ map (map field_of) (line ∷ lines)
unfolding to_csv join is_row next_is read
read-table rows [] lines (h, hs) = absurd (ground arith)
read-table rows (v ∷ vs) [] (h, hs) =
    let (done, f, s, e, all) = read-to_line rows [] v vs [] refl in
    ap (λ t. finish (read t (at rows [] [] false))) (sym (append-nil (to_line (v ∷ vs))))
    ∙ ap finish e
    ∙ finish-last rows done f s (ap is_kept all ∙ h)
    ∙ ap (λ r. rows ++ r ∷ []) all
read-table rows (v ∷ vs) (line ∷ lines) (h, hs) =
    let rest = to_csv (line ∷ lines) in
    let (done, f, s, e, all) = read-to_line rows [] v vs (13 ∷ (10 ∷ rest)) refl in
    ap finish e
    ∙ ap finish (read-line_end rows done rest f s (ap is_kept all ∙ h))
    ∙ read-table (rows ++ (done ++ f ∷ []) ∷ []) line lines hs
    ∙ append_assoc rows ((done ++ f ∷ []) ∷ []) (map (map field_of) (line ∷ lines))
    ∙ ap (λ r. rows ++ r ∷ map (map field_of) (line ∷ lines)) all

-- A table is read back from its CSV, whatever commas, quotes and line breaks its values hold: each
-- absent value as an empty text, and each text with the guard against formulas. It holds where each
-- row has a field and is not one empty field alone, and the CSV does not begin with a byte-order mark.
pub parse_csv-to_csv :
    (line : List (Option Text)) (lines : List (List (Option Text)))
    → All (λ l. is_row l ≡ true) (line ∷ lines)
    → drop_mark (to_csv (line ∷ lines)) ≡ to_csv (line ∷ lines)
    → parse_csv (to_csv (line ∷ lines)) ≡ map (map field_of) (line ∷ lines)
unfolding parse_csv
parse_csv-to_csv line lines h mark = rw mark (read-table [] line lines h)
