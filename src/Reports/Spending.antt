-- ===== src/Reports/Spending.antt =====
-- `spendByCategory` and `totalsFor` of app/src/app/core/reports/aggregate.ts side by side.
use easy_docket.Base.{
  ◌≡◌, ◌≢◌, ◌⊎◌, inl, inr, refl, sym, ◌∙◌, ap, true, false, Option, none, some, List, [], ◌∷◌, map,
  arith, Bool-cases,
}
use easy_docket.Base.Int.{ℤ, pos, ◌+ℤ◌, ◌-ℤ◌, +ℤ_parts, eq_of_parts}
use easy_docket.Base.Int.Laws.{plus_assoc, plus_comm, plus_zero}
use easy_docket.Base.Int.Sums.{sum_by}
use easy_docket.Base.Text.{Text}
use easy_docket.Conversion.{Double, Outcome, value, bad_rate, in_reporting}
use easy_docket.Dates.{DateRange, within}
use easy_docket.Models.Records.{Minor, Transaction, TransactionKind, income, expense, transfer}
use easy_docket.Reports.{
  Entry, CategoryTotal, Totals, is_expense, same_key, add_to, add_amount, root_key, entries_total,
  may_precede, insert_total, sort_totals, add_kind, spend_from, spend_by_category, row_of_entry,
  totals_from, totals_for,
}

pub move_in : (a b c : ℤ) → (a +ℤ b) +ℤ c ≡ (a +ℤ c) +ℤ b
move_in a b c =
    eq_of_parts _ _
      (omega (arith, +ℤ_parts a b, +ℤ_parts (a +ℤ b) c, +ℤ_parts a c, +ℤ_parts (a +ℤ c) b))

-- A new amount is in the total, whichever entry takes it.
add_to_total :
    (key : Option Text) (amount : Minor) (entries : List Entry)
    → entries_total (add_to key amount entries) ≡ entries_total entries +ℤ amount
unfolding add_to entries_total
add_to_total key amount [] = plus_zero (pos 0 +ℤ amount)
add_to_total key amount (entry ∷ entries) = elim (Bool-cases (same_key entry.key key)) [
  | inl same ↦ rw same (move_in entry.amount amount (entries_total entries))
  | inr other ↦ rw other (
      ap (λ x. entry.amount +ℤ x) (add_to_total key amount entries)
      ∙ sym (plus_assoc entry.amount (entries_total entries) amount))
]

insert_total_sum :
    (locale_compare : Text → Text → ℤ) (row : CategoryTotal) (rows : List CategoryTotal)
    → sum_by (λ r. r.amount) (insert_total locale_compare row rows)
      ≡ row.amount +ℤ sum_by (λ r. r.amount) rows
unfolding insert_total
insert_total_sum locale_compare row [] = refl
insert_total_sum locale_compare row (other ∷ rows) =
    elim (Bool-cases (may_precede locale_compare row other)) [
      | inl first ↦ rw first refl
      | inr behind ↦ rw behind (
          ap (λ x. other.amount +ℤ x) (insert_total_sum locale_compare row rows)
          ∙ sym (plus_assoc other.amount row.amount _)
          ∙ ap (λ x. x +ℤ sum_by (λ r. r.amount) rows) (plus_comm other.amount row.amount)
          ∙ plus_assoc row.amount other.amount _)
    ]

sort_totals_sum :
    (locale_compare : Text → Text → ℤ) (rows : List CategoryTotal)
    → sum_by (λ r. r.amount) (sort_totals locale_compare rows) ≡ sum_by (λ r. r.amount) rows
unfolding sort_totals
sort_totals_sum locale_compare [] = refl
sort_totals_sum locale_compare (row ∷ rows) =
    insert_total_sum locale_compare row (sort_totals locale_compare rows)
    ∙ ap (λ x. row.amount +ℤ x) (sort_totals_sum locale_compare rows)

-- One converted amount in the entries and in the sums.
add_spent :
    (kind : TransactionKind) (key : Option Text) (converted : Option Minor) (entries : List Entry)
    (sums : Minor × Minor)
    → is_expense kind ≡ true
    → entries_total entries ≡ sums.1
    → entries_total (add_amount key converted entries) ≡ (add_kind kind converted sums).1
unfolding is_expense add_amount add_kind
add_spent expense key none entries sums k h = h
add_spent expense key (some amount) entries sums k h =
    add_to_total key amount entries ∙ ap (λ x. x +ℤ amount) h
add_spent income key converted entries sums k h = cc
add_spent transfer key converted entries sums k h = cc

add_other :
    (kind : TransactionKind) (converted : Option Minor) (sums : Minor × Minor)
    → is_expense kind ≡ false
    → sums.1 ≡ (add_kind kind converted sums).1
unfolding is_expense add_kind
add_other kind none sums k = refl
add_other income (some amount) sums k = refl
add_other expense (some amount) sums k = cc
add_other transfer (some amount) sums k = refl

pub Outcome-cases : {A : Type 0} (o : Outcome A) → ((a : A) × (o ≡ value a)) ⊎ (o ≡ bad_rate)
Outcome-cases (value a) = inl (a, refl)
Outcome-cases bad_rate = inr refl

pub value_inj : {A : Type 0} {a b : A} → value a ≡ value b → a ≡ b
value_inj e = cc

pub not_bad : {A : Type 0} {a : A} → bad_rate ≢ value a
not_bad e = cc

module _ {W : Type 0} (double : Double W) (reporting : Text) (range : DateRange) where
  rows_sum :
      (total : Minor) (entries : List Entry)
      → sum_by (λ r. r.amount) (map (row_of_entry double reporting range total) entries)
        ≡ entries_total entries
  unfolding row_of_entry entries_total
  rows_sum total [] = refl
  rows_sum total (entry ∷ entries) = ap (λ x. entry.amount +ℤ x) (rows_sum total entries)

  module _ (roots : List (Text × Text)) (t : Transaction W) (ts : List (Transaction W)) where
    abbrev key : Option Text
    key = root_key roots t.category_id

    pub outside :
        (entries : List Entry) (sums : Minor × Minor)
        → within t.date range ≡ false
        → (totals_from double reporting range (t ∷ ts) sums
            ≡ totals_from double reporting range ts sums)
          × (spend_from double reporting range roots (t ∷ ts) entries
              ≡ spend_from double reporting range roots ts entries)
    unfolding totals_from spend_from
    outside entries sums out = (
      rw out refl,
      elim (Bool-cases (is_expense t.kind)) [ inl k ↦ rw (k, out) refl | inr k ↦ rw k refl ],
    )

    pub counted :
        (converted : Option Minor) (sums : Minor × Minor)
        → within t.date range ≡ true
        → in_reporting double t reporting ≡ value converted
        → totals_from double reporting range (t ∷ ts) sums
          ≡ totals_from double reporting range ts (add_kind t.kind converted sums)
    unfolding totals_from
    counted converted sums here e = rw (here, e) refl

    pub thrown :
        (sums : Minor × Minor)
        → within t.date range ≡ true
        → in_reporting double t reporting ≡ bad_rate
        → totals_from double reporting range (t ∷ ts) sums ≡ bad_rate
    unfolding totals_from
    thrown sums here e = rw (here, e) refl

    spent_here :
        (converted : Option Minor) (entries : List Entry)
        → within t.date range ≡ true
        → is_expense t.kind ≡ true
        → in_reporting double t reporting ≡ value converted
        → spend_from double reporting range roots (t ∷ ts) entries
          ≡ spend_from double reporting range roots ts (add_amount key converted entries)
    unfolding spend_from
    spent_here converted entries here k e = rw (k, here, e) refl

    passed_over :
        (entries : List Entry)
        → is_expense t.kind ≡ false
        → spend_from double reporting range roots (t ∷ ts) entries
          ≡ spend_from double reporting range roots ts entries
    unfolding spend_from
    passed_over entries k = rw k refl

  spend_from-totals_from :
      (roots : List (Text × Text)) (ts : List (Transaction W)) (entries : List Entry)
      (sums sums' : Minor × Minor)
      → entries_total entries ≡ sums.1
      → totals_from double reporting range ts sums ≡ value sums'
      → (es : List Entry) × (spend_from double reporting range roots ts entries ≡ value es)
        × (entries_total es ≡ sums'.1)
  unfolding spend_from totals_from
  spend_from-totals_from roots [] entries sums sums' h e =
      (entries, refl, h ∙ ap (λ s. s.1) (value_inj e))
  spend_from-totals_from roots (t ∷ ts) entries sums sums' h e =
      elim (Bool-cases (within t.date range)) [
        | inr out ↦
            (let (f, g) = outside roots t ts entries sums out in
              let (es, run, total) =
                spend_from-totals_from roots ts entries sums sums' h (sym f ∙ e) in
              (es, g ∙ run, total))
        | inl here ↦ elim (Outcome-cases (in_reporting double t reporting)) [
          | inr bad ↦ absurd (not_bad (sym (thrown roots t ts sums here bad) ∙ e))
          | inl (converted, c) ↦
              (let rest = sym (counted roots t ts converted sums here c) ∙ e in
                elim (Bool-cases (is_expense t.kind)) [
                  | inl k ↦
                      (let (es, run, total) =
                          spend_from-totals_from roots ts
                            (add_amount (root_key roots t.category_id) converted entries)
                            (add_kind t.kind converted sums) sums'
                            (add_spent t.kind (root_key roots t.category_id) converted entries sums
                              k h)
                            rest in
                        (es, spent_here roots t ts converted entries here k c ∙ run, total))
                  | inr k ↦
                      (let (es, run, total) =
                          spend_from-totals_from roots ts entries (add_kind t.kind converted sums)
                            sums' (h ∙ add_other t.kind converted sums k) rest in
                        (es, passed_over roots t ts entries k ∙ run, total))
                ])
        ]
      ]

  pub totals_thrown :
      (ts : List (Transaction W))
      → totals_from double reporting range ts (pos 0, pos 0) ≡ bad_rate
      → totals_for double reporting range ts ≡ bad_rate
  unfolding totals_for
  totals_thrown ts bad = rw bad refl

  pub totals_after :
      (ts : List (Transaction W)) (sums : Minor × Minor)
      → totals_from double reporting range ts (pos 0, pos 0) ≡ value sums
      → totals_for double reporting range ts
        ≡ value (record { income = sums.0; expense = sums.1; net = sums.0 -ℤ sums.1 })
  unfolding totals_for
  totals_after ts sums run = rw run refl

  -- When the totals of a range come out, so do its rows by category, in whatever collation and with
  -- whatever roll-up of categories; their amounts add up to the expense of the totals.
  pub spend_by_category-totals_for :
      (locale_compare : Text → Text → ℤ) (roots : List (Text × Text)) (ts : List (Transaction W))
      (totals : Totals)
      → totals_for double reporting range ts ≡ value totals
      → (rows : List CategoryTotal) × (spend_by_category double reporting range locale_compare roots
            ts
          ≡ value rows)
        × (sum_by (λ r. r.amount) rows ≡ totals.expense)
  unfolding spend_by_category entries_total
  spend_by_category-totals_for locale_compare roots ts totals e =
      elim (Outcome-cases (totals_from double reporting range ts (pos 0, pos 0))) [
        | inr bad ↦ absurd (not_bad (sym (totals_thrown ts bad) ∙ e))
        | inl (sums, run) ↦
            (let (es, spent, total) =
                spend_from-totals_from roots ts [] (pos 0, pos 0) sums refl run in
              let shares = map (row_of_entry double reporting range (entries_total es)) es in
              (
                sort_totals locale_compare shares,
                rw spent refl,
                sort_totals_sum locale_compare shares
                    ∙ rows_sum (entries_total es) es
                    ∙ total
                    ∙ ap (λ t. t.expense) (value_inj (sym (totals_after ts sums run) ∙ e)),
              ))
      ]
