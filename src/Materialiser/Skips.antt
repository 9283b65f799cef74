-- ===== src/Materialiser/Skips.antt =====
-- What `skip` of app/src/app/core/recurring/materialiser.service.ts leaves.
use easy_docket.Base.{
  ℕ, ◌≡◌, ◌≢◌, inl, inr, refl, sym, ◌∙◌, ap, Bool, true, false, Option, none, some, List, [], ◌∷◌,
  ◌++◌, arith, any, if◌then◌else◌, Option-cases,
}
use easy_docket.Base.Text.{Text, eq_text, eq_text_refl}
use easy_docket.Models.{eq_key, eq_key_refl, eq_entity, transactions, recurring_rules}
use easy_docket.Db.{get_row}
use easy_docket.Ledger.{Ledger, put, remove}
use easy_docket.Ledger
use easy_docket.Ledger.Puts.{put-returns, remove-returns}
use easy_docket.Rows.{AnyEntity, RecurringRule, rule_row, any_entity}
use easy_docket.Schedule.{is_skipped, occurrence_id}
use easy_docket.Materialiser.{insert_text, sort_texts, with_skipped, drop_row, skip_rule, skip}

any-insert_text :
    (p : Text → Bool) (t : Text) (texts : List Text)
    → any p (insert_text t texts) ≡ any p (t ∷ texts)
unfolding insert_text
any-insert_text p t [] = refl
any-insert_text p t (u ∷ texts) = ground (arith, any-insert_text p t texts)

any-sort_texts : (p : Text → Bool) (texts : List Text) → any p (sort_texts texts) ≡ any p texts
unfolding sort_texts
any-sort_texts p [] = refl
any-sort_texts p (t ∷ texts) =
    ground (arith, any-insert_text p t (sort_texts texts), any-sort_texts p texts)

any-snoc :
    (p : Text → Bool) (texts : List Text) (t : Text) → p t ≡ true → any p (texts ++ t ∷ []) ≡ true
any-snoc p [] t h = ground arith
any-snoc p (u ∷ texts) t h = ground (arith, any-snoc p texts t)

is_skipped-with_skipped :
    (r : RecurringRule) (date : Text) → is_skipped ((with_skipped r date).schedule) date ≡ true
unfolding is_skipped with_skipped
is_skipped-with_skipped r date =
    any-sort_texts (λ d. eq_text d date) (r.schedule.skipped ++ date ∷ [])
    ∙ any-snoc (λ d. eq_text d date) r.schedule.skipped date (eq_text_refl date)

other_table : (i j : Text) → eq_key (transactions, i) (recurring_rules, j) ≡ false
unfolding eq_key eq_entity
other_table i j = refl

module _ {Rate : Type 0} where
  drop_none :
      (wall : ℕ) (id : Text) (l : Ledger (AnyEntity Rate))
      → get_row (transactions, id) l.tables ≡ none
      → drop_row wall id l ≡ (Ledger.ok tt, l)
  unfolding drop_row
  drop_none wall id l e = rw (e, drop_row) refl

  drop_some :
      (wall : ℕ) (id : Text) (row : AnyEntity Rate) (l : Ledger (AnyEntity Rate))
      → get_row (transactions, id) l.tables ≡ some row
      → drop_row wall id l ≡ remove wall transactions id l
  unfolding drop_row
  drop_some wall id row l e = rw (e, drop_row) refl

  -- The row of the occurrence is gone, and the rules are as they were.
  abbrev Dropped : Text → Ledger (AnyEntity Rate) → Ledger (AnyEntity Rate) → Type 0
  Dropped id l l' =
      (get_row (transactions, id) l'.tables ≡ none)
      × ((rule_id : Text)
          → get_row (recurring_rules, rule_id) l'.tables
            ≡ get_row (recurring_rules, rule_id) l.tables)

  drop_row-Dropped :
      (wall : ℕ) (id : Text) (l l' : Ledger (AnyEntity Rate))
      → drop_row wall id l ≡ (Ledger.ok tt, l')
      → Dropped id l l'
  drop_row-Dropped wall id l l' h = elim (Option-cases (get_row (transactions, id) l.tables)) [
    | inl empty ↦
        (let same = ap (λ s. s.1) (sym (drop_none wall id l empty) ∙ h) in
          (
            ap (λ t. get_row (transactions, id) t.tables) (sym same) ∙ empty,
            λ rule_id. ap (λ t. get_row (recurring_rules, rule_id) t.tables) (sym same),
          ))
    | inr (row, held) ↦
        (let gone =
            remove-returns wall transactions id l l' (sym (drop_some wall id row l held) ∙ h) in
          (
            gone (transactions, id) ∙ rw (eq_key_refl (transactions, id)) refl,
            λ rule_id. gone (recurring_rules, rule_id) ∙ unlike id rule_id _ _,
          ))
  ]
    where
      unlike :
          (i j : Text) (a b : Option (AnyEntity Rate))
          → (if eq_key (transactions, i) (recurring_rules, j) then a else b) ≡ b
      unlike i j a b = rw (other_table i j) refl

  module _ (wall later : ℕ) (rule_id date : Text) (r : RecurringRule)
      (l l' : Ledger (AnyEntity Rate)) (fresh : is_skipped r.schedule date ≡ false) where
    abbrev stored : Ledger.Step (AnyEntity Rate) (AnyEntity Rate)
    stored = put any_entity wall recurring_rules (rule_row (with_skipped r date)) l

    skip_run :
        (row : AnyEntity Rate)
        → get_row (recurring_rules, rule_id) l.tables ≡ some (rule_row r)
        → stored.0 ≡ Ledger.ok row
        → skip wall later rule_id date l ≡ drop_row later (occurrence_id rule_id date) stored.1
    unfolding skip skip_rule
    skip_run row held e = rw (held, fresh, e) refl

    skip_fails :
        (x : Ledger.Error)
        → get_row (recurring_rules, rule_id) l.tables ≡ some (rule_row r)
        → stored.0 ≡ Ledger.err x
        → (skip wall later rule_id date l).0 ≡ Ledger.err x
    unfolding skip skip_rule
    skip_fails x held e = rw (held, fresh, e) refl

    -- Skipping a date of a rule that is in the table under its id and has not skipped it, if it goes
    -- through, leaves no row of the occurrence, and a rule that counts the date as skipped.
    pub skip_drops :
        r.id ≡ rule_id
        → get_row (recurring_rules, rule_id) l.tables ≡ some (rule_row r)
        → skip wall later rule_id date l ≡ (Ledger.ok tt, l')
        → (get_row (transactions, occurrence_id rule_id date) l'.tables ≡ none)
          × ((r' : RecurringRule) × (get_row (recurring_rules, rule_id) l'.tables
                ≡ some (rule_row r'))
              × (is_skipped r'.schedule date ≡ true))
    unfolding with_skipped
    skip_drops own held h =
        elim (put-returns any_entity wall recurring_rules (rule_row (with_skipped r date)) l) [
          | inl (stamp, returned, kept) ↦
              (let (gone, rules) =
                  drop_row-Dropped later (occurrence_id rule_id date) stored.1 l'
                    (sym (skip_run _ held returned) ∙ h) in
                (
                  gone,
                  (
                    record (with_skipped r date) { updated_at = stamp },
                    rules rule_id
                        ∙ ap (λ i. get_row (recurring_rules, i) stored.1.tables) (sym own)
                        ∙ kept,
                    is_skipped-with_skipped r date,
                  ),
                ))
          | inr (x, thrown, same) ↦
              absurd (not_err (sym (skip_fails x held thrown) ∙ ap (λ s. s.0) h))
        ]
      where
        not_err : {x : Ledger.Error} → Ledger.err x ≢ Ledger.ok tt
        not_err e = cc
