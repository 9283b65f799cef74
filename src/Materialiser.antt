-- ===== src/Materialiser.antt =====
-- Transactions from recurring rules: app/src/app/core/recurring/materialiser.service.ts. A run goes over
-- the rules in the order of their ids, as the table lists them.
pub mod Keeps
pub mod Creates
pub mod Skips
mod Tests
use easy_docket.Base.{
  ℕ, ◌+◌, Bool, true, false, ◌&&◌, Option, none, some, List, [], ◌∷◌, ◌++◌, if◌then◌else◌, ◌==◌,
  any, length,
}
use easy_docket.Base.Text.{Text, eq_text, ltb_text}
use easy_docket.Models.{Key, transactions, recurring_rules}
use easy_docket.Models.Records.{Transaction}
use easy_docket.Db.{get_row}
use easy_docket.Ledger.{Ledger, has_history, latest_entity_id_with_prefix, put, remove}
use easy_docket.Ledger
use easy_docket.Money.{is_space}
use easy_docket.Rows.{AnyEntity, RecurringRule, rule_row, transaction_row, any_entity}
use easy_docket.Schedule.{
  Schedule, occurrence_id, occurrences_up_to, parse_occurrence_id, is_skipped,
}

-- `MaterialisationResult`
pub record MaterialisationResult : Type 0 where
  pub created : ℕ
  pub incomplete : List Text

-- A run throws where a rule starts on a text that is no date, or where the ledger throws.
pub data Fault : Type 0 where
  bad_date : Fault
  failed : Ledger.Error → Fault

pub data Result (A : Type 0) : Type 0 where
  ok : A → Result A
  err : Fault → Result A

-- `trim`
unfoldable pub trim_start : Text → Text
trim_start [] = []
trim_start (c ∷ t) = if is_space c then trim_start t else c ∷ t

unfoldable pub keep_unless_empty : ℕ → Text → Text
keep_unless_empty c [] = if is_space c then [] else c ∷ []
keep_unless_empty c (d ∷ t) = c ∷ d ∷ t

unfoldable pub trim_end : Text → Text
trim_end [] = []
trim_end (c ∷ t) = keep_unless_empty c (trim_end t)

unfoldable pub or_else : Text → Text → Text
or_else [] default = default
or_else (c ∷ t) default = c ∷ t

-- `toTransaction`, at the time `now`. A rule has no exchange rate.
unfoldable pub to_transaction : {Rate : Type 0} → ℕ → RecurringRule → Text → Text → Transaction Rate
to_transaction now rule id date = record {
  id = id;
  kind = rule.kind;
  amount = rule.amount;
  currency = rule.currency;
  account_id = rule.account_id;
  counter_account_id = rule.counter_account_id;
  category_id = rule.category_id;
  date = date;
  payee = or_else (trim_end (trim_start rule.payee)) rule.name;
  note = rule.note;
  tags = rule.tags;
  cleared = false;
  rate = none;
  rate_date = none;
  created_at = now;
  updated_at = [];
}

-- `furthest ? (parseOccurrenceId(furthest)?.date ?? null) : null`
unfoldable pub date_reached : Option Text → Option Text
date_reached none = none
date_reached (some []) = none
date_reached (some (c ∷ id)) = elim (parse_occurrence_id (c ∷ id)) [
  | none ↦ none
  | some p ↦ some p.1
]

-- The rules of the table in the order of their ids.
unfoldable pub insert_rule : RecurringRule → List RecurringRule → List RecurringRule
insert_rule r [] = r ∷ []
insert_rule r (s ∷ rules) = if ltb_text s.id r.id then s ∷ insert_rule r rules else r ∷ s ∷ rules

unfoldable pub insert_active : RecurringRule → List RecurringRule → List RecurringRule
insert_active r rules = if r.archived then rules else insert_rule r rules

-- The default order of `sort`.
unfoldable pub insert_text : Text → List Text → List Text
insert_text t [] = t ∷ []
insert_text t (u ∷ texts) = if ltb_text u t then u ∷ insert_text t texts else t ∷ u ∷ texts

unfoldable pub sort_texts : List Text → List Text
sort_texts [] = []
sort_texts (t ∷ texts) = insert_text t (sort_texts texts)

module _ {Rate : Type 0} where
  -- `recurringRules.filter((rule) => !rule.archived)`
  unfoldable pub active_rules : List (Key × AnyEntity Rate) → List RecurringRule
  active_rules [] = []
  active_rules (((recurring_rules, id), rule_row r) ∷ table) = insert_active r (active_rules table)
  active_rules (row ∷ table) = active_rules table

  -- Where the rule's ids that the log holds end.
  unfoldable pub resume_after : RecurringRule → Ledger (AnyEntity Rate) → Option Text
  resume_after rule l =
      date_reached (latest_entity_id_with_prefix transactions (rule.id ++ b':' ∷ []) l)

-- A run writes an occurrence at the times that its id is given: the time of the row and of the clock.
module _ {Rate : Type 0} (now wall : Text → ℕ) where
  abbrev pub occurrence_row : RecurringRule → Text → AnyEntity Rate
  occurrence_row rule date =
      let id = occurrence_id rule.id date in transaction_row (to_transaction (now id) rule id date)

  -- The loop over the due dates, with the number of rows created.
  unfoldable pub create_dates :
      RecurringRule → List Text → ℕ → Ledger (AnyEntity Rate) → Result ℕ × Ledger (AnyEntity Rate)
  create_dates rule [] created l = (ok created, l)
  create_dates rule (date ∷ dates) created l =
      let id = occurrence_id rule.id date in
      let s = put any_entity (wall id) transactions (occurrence_row rule date) l in
      let skipped = create_dates rule dates created l in
      let rest = create_dates rule dates (created + 1) s.1 in
      if has_history (transactions, id) l.oplog
      then skipped
      else elim s.0 [ Ledger.ok row ↦ rest | Ledger.err e ↦ (err (failed e), s.1) ]

  -- The loop over the rules.
  unfoldable pub run_rules :
      Text
      → ℕ
      → List RecurringRule
      → MaterialisationResult
      → Ledger (AnyEntity Rate)
      → Result MaterialisationResult × Ledger (AnyEntity Rate)
  run_rules as_of limit [] done l = (ok done, l)
  run_rules as_of limit (rule ∷ rules) done l =
      elim (occurrences_up_to rule.schedule as_of limit (resume_after rule l)) [
        | none ↦ (err bad_date, l)
        | some due ↦
            (let s = create_dates rule due done.created l in
              elim s.0 [
                | ok created ↦
                    run_rules as_of limit rules
                      (record {
                        created = created;
                        incomplete =
                            if length due == limit
                            then done.incomplete ++ rule.id ∷ []
                            else done.incomplete;
                      })
                      s.1
                | err e ↦ (err e, s.1)
              ])
      ]

  -- `run`
  unfoldable pub run :
      Text → ℕ → Ledger (AnyEntity Rate) → Result MaterialisationResult × Ledger (AnyEntity Rate)
  run as_of limit l =
      run_rules as_of limit (active_rules l.tables) (record { created = 0; incomplete = [] }) l

unfoldable pub with_skipped : RecurringRule → Text → RecurringRule
with_skipped r date = record r {
  schedule = record (r.schedule) { skipped = sort_texts (r.schedule.skipped ++ date ∷ []) };
}

module _ {Rate : Type 0} where
  -- What `skip` does once the rule is written: the row of the occurrence goes, if there is one.
  unfoldable pub drop_row :
      ℕ → Text → Ledger (AnyEntity Rate) → Ledger.Step (AnyEntity Rate) (Unit {0})
  drop_row wall id l = elim (get_row (transactions, id) l.tables) [
    | none ↦ (Ledger.ok tt, l)
    | some row ↦ remove wall transactions id l
  ]

  unfoldable pub skip_rule :
      ℕ
      → ℕ
      → Text
      → Text
      → Option (AnyEntity Rate)
      → Ledger (AnyEntity Rate)
      → Ledger.Step (AnyEntity Rate) (Unit {0})
  skip_rule wall later rule_id date (some (rule_row r)) l =
      if is_skipped r.schedule date
      then (Ledger.ok tt, l)
      else (let s = put any_entity wall recurring_rules (rule_row (with_skipped r date)) l in
          elim s.0 [
            | Ledger.ok row ↦ drop_row later (occurrence_id rule_id date) s.1
            | Ledger.err e ↦ (Ledger.err e, s.1)
          ])
  skip_rule wall later rule_id date row l = (Ledger.ok tt, l)

  -- `skip`, whose two writes take the times `wall` and `later`.
  unfoldable pub skip :
      ℕ → ℕ → Text → Text → Ledger (AnyEntity Rate) → Ledger.Step (AnyEntity Rate) (Unit {0})
  skip wall later rule_id date l =
      skip_rule wall later rule_id date (get_row (recurring_rules, rule_id) l.tables) l
