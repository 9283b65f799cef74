-- ===== src/Materialiser/Keeps.antt =====
-- A run of app/src/app/core/recurring/materialiser.service.ts leaves alone whatever has a history: rows
-- that were edited, and rows that were deleted.
use easy_docket.Base.{
  ℕ, ◌^◌, ◌<◌, ◌+◌, ◌≡◌, ◌≢◌, ◌⊎◌, inl, inr, refl, sym, ◌∙◌, ap, true, false, none, some, List, [],
  ◌∷◌, arith, Option-cases, Bool-cases, if◌then◌else◌, length, ◌==◌, ◌++◌,
}
use easy_docket.Base.Text.{Text}
use easy_docket.Models.{Key, transactions, Operation, eq_key, eq_key→eq}
use easy_docket.Db.{key_of, get_row}
use easy_docket.Ledger.{Ledger, has_history, put}
use easy_docket.Ledger.Lww.{winner, row_of}
use easy_docket.Ledger.Latest.{hlc_of}
use easy_docket.Ledger.Pending.{is_some, has_history-winner}
use easy_docket.Ledger.Puts.{Ready, put-Ready}
use easy_docket.Rows.{AnyEntity, RecurringRule, any_entity}
use easy_docket.Schedule.{occurrence_id, occurrences_up_to}
use easy_docket.Materialiser.{
  MaterialisationResult, Fault, Result, ok, err, bad_date, occurrence_row, create_dates, run_rules,
  run, active_rules, resume_after, to_transaction,
}

not_some : is_some none ≢ true
unfolding is_some
not_some e = cc

module _ {Row : Type 0} where
  -- What has a newest operation keeps it.
  abbrev pub Keeps : List (Operation Row) → List (Operation Row) → Type 0
  Keeps ops ops' = (k : Key) (o : Operation Row) → winner k ops ≡ some o → winner k ops' ≡ some o

  winner-Ready :
      (l : Ledger Row) (ops : List (Operation Row)) (k : Key)
      → Ready l ops
      → has_history k l.oplog ≡ is_some (hlc_of (winner k ops))
  winner-Ready l ops k h =
      has_history-winner k l.oplog ∙ ap (λ w. is_some (hlc_of w)) (h.knows.newest k)

  pub history-winner :
      (l : Ledger Row) (ops : List (Operation Row)) (k : Key)
      → Ready l ops
      → has_history k l.oplog ≡ true
      → (o : Operation Row) × (winner k ops ≡ some o)
  history-winner l ops k h e = elim (Option-cases (winner k ops)) [
    | inl empty ↦
        absurd
          (not_some (ap (λ w. is_some (hlc_of w)) (sym empty) ∙ sym (winner-Ready l ops k h) ∙ e))
    | inr found ↦ found
  ]

  pub winner-history :
      (l : Ledger Row) (ops : List (Operation Row)) (k : Key) (o : Operation Row)
      → Ready l ops
      → winner k ops ≡ some o
      → has_history k l.oplog ≡ true
  unfolding is_some
  winner-history l ops k o h e = winner-Ready l ops k h ∙ ap (λ w. is_some (hlc_of w)) e

  -- A new operation about a row without a history.
  pub Keeps-new :
      (l : Ledger Row) (ops : List (Operation Row)) (o : Operation Row)
      → Ready l ops
      → has_history (key_of o) l.oplog ≡ false
      → Keeps ops (o ∷ ops)
  unfolding winner
  Keeps-new l ops o h fresh k p e = elim (Bool-cases (eq_key (key_of o) k)) [
    | inr other ↦ rw other e
    | inl same ↦
        absurd (both (winner-history l ops k p h e) (rw (eq_key→eq (key_of o) k same) at fresh))
  ]
    where
      both : has_history k l.oplog ≡ true → has_history k l.oplog ≢ false
      both x y = cc

Result-cases : {A : Type 0} (r : Result A) → ((a : A) × (r ≡ ok a)) ⊎ ((x : Fault) × (r ≡ err x))
Result-cases (ok a) = inl (a, refl)
Result-cases (err x) = inr (x, refl)

-- What a step of a run leaves: a ledger that knows more operations, and the newest ones of before.
abbrev pub Extends :
    {Rate : Type 0} → List (Operation (AnyEntity Rate)) → Ledger (AnyEntity Rate) → Type 0
Extends ops l' = (ops' : List (Operation _)) × Ready l' ops' × Keeps ops ops'

Extends-here :
    {Rate : Type 0} (ops : List (Operation (AnyEntity Rate))) (l : Ledger (AnyEntity Rate))
    → Ready l ops
    → Extends ops l
Extends-here ops l h = (ops, h, λ k o e. e)

module _ {Rate : Type 0} (now wall : Text → ℕ) (fits : (id : Text) → wall id < 2 ^ 53) where
  pub create_dates-Extends :
      (rule : RecurringRule) (dates : List Text) (created : ℕ) (l : Ledger (AnyEntity Rate))
      (ops : List (Operation (AnyEntity Rate)))
      → Ready l ops
      → Extends ops (create_dates now wall rule dates created l).1
  unfolding create_dates to_transaction
  create_dates-Extends rule [] created l ops h = Extends-here ops l h
  create_dates-Extends rule (date ∷ dates) created l ops h =
      let id = occurrence_id rule.id date in
      let s = put any_entity (wall id) transactions (occurrence_row now wall rule date) l in
      elim (Bool-cases (has_history (transactions, id) l.oplog)) [
        | inl old ↦ rw old (create_dates-Extends rule dates created l ops h)
        | inr fresh ↦
            rw fresh
              (elim (put-Ready any_entity (wall id) transactions (occurrence_row now wall rule date)
                l ops (fits id) h) [
                  | inl (x, thrown, same) ↦ rw (thrown, same) (Extends-here ops l h)
                  | inr (o, key, (row, returned), after) ↦
                      (let (ops', h', keeps) =
                          create_dates-Extends rule dates (created + 1) s.1 (o ∷ ops) after in
                        let new = Keeps-new l ops o h (rw key fresh) in
                        rw returned (ops', h', λ k p e. keeps k p (new k p e)))
                ])
      ]

  module _ (as_of : Text) (limit : ℕ) (rule : RecurringRule) (rules : List RecurringRule)
      (done : MaterialisationResult) (l : Ledger (AnyEntity Rate)) where
    abbrev next_done : List Text → ℕ → MaterialisationResult
    next_done due created = record {
      created = created;
      incomplete = if length due == limit then done.incomplete ++ rule.id ∷ [] else done.incomplete;
    }

    rule_throws :
        occurrences_up_to rule.schedule as_of limit (resume_after rule l) ≡ none
        → run_rules now wall as_of limit (rule ∷ rules) done l ≡ (err bad_date, l)
    unfolding run_rules
    rule_throws e = ground arith

    rule_done :
        (due : List Text) (created : ℕ)
        → occurrences_up_to rule.schedule as_of limit (resume_after rule l) ≡ some due
        → (create_dates now wall rule due done.created l).0 ≡ ok created
        → run_rules now wall as_of limit (rule ∷ rules) done l
          ≡ run_rules now wall as_of limit rules
              (next_done due created)
              (create_dates now wall rule due done.created l).1
    unfolding run_rules
    rule_done due created e f = ground arith

    rule_fails :
        (due : List Text) (x : Fault)
        → occurrences_up_to rule.schedule as_of limit (resume_after rule l) ≡ some due
        → (create_dates now wall rule due done.created l).0 ≡ err x
        → run_rules now wall as_of limit (rule ∷ rules) done l
          ≡ (err x, (create_dates now wall rule due done.created l).1)
    unfolding run_rules
    rule_fails due x e f = ground arith

  run_rules-Extends :
      (as_of : Text) (limit : ℕ) (rules : List RecurringRule) (done : MaterialisationResult)
      (l : Ledger (AnyEntity Rate)) (ops : List (Operation (AnyEntity Rate)))
      → Ready l ops
      → Extends ops (run_rules now wall as_of limit rules done l).1
  run_rules-Extends as_of limit [] done l ops h = unfold run_rules in Extends-here ops l h
  run_rules-Extends as_of limit (rule ∷ rules) done l ops h =
      elim (Option-cases (occurrences_up_to rule.schedule as_of limit (resume_after rule l))) [
        | inl thrown ↦ rw (rule_throws as_of limit rule rules done l thrown) (Extends-here ops l h)
        | inr (due, listed) ↦
            (let (ops', h', keeps) = create_dates-Extends rule due done.created l ops h in
              let s = create_dates now wall rule due done.created l in
              elim (Result-cases s.0) [
                | inl (created, e) ↦
                    (let (ops'', h'', keeps') =
                        run_rules-Extends as_of limit rules
                          (next_done as_of limit rule rules done l due created) s.1 ops' h' in
                      rw (rule_done as_of limit rule rules done l due created listed e)
                        (ops'', h'', λ k o f. keeps' k o (keeps k o f)))
                | inr (x, e) ↦
                    rw (rule_fails as_of limit rule rules done l due x listed e) (ops', h', keeps)
              ])
      ]

  -- A run from a ledger that knows some operations, with a clock at or past them, leaves such a ledger,
  -- whatever it returns or throws; and each row with a history, also that of a deleted row, is as it was.
  pub run_keeps :
      (as_of : Text) (limit : ℕ) (l : Ledger (AnyEntity Rate))
      (ops : List (Operation (AnyEntity Rate)))
      → Ready l ops
      → let l' = (run now wall as_of limit l).1 in
        ((ops' : List (Operation (AnyEntity Rate))) × Ready l' ops')
        × ((k : Key)
            → has_history k l.oplog ≡ true
            → (get_row k l'.tables ≡ get_row k l.tables) × (has_history k l'.oplog ≡ true))
  unfolding run
  run_keeps as_of limit l ops h =
      let (ops', h', keeps) =
        run_rules-Extends as_of limit (active_rules l.tables)
          (record { created = 0; incomplete = [] }) l ops h in
      (
        (ops', h'),
        λ k old.
            (let (o, e) = history-winner l ops k h old in
              (
                h'.knows.rows k ∙ ap row_of (keeps k o e ∙ sym e) ∙ sym (h.knows.rows k),
                winner-history _ ops' k o h' (keeps k o e),
              )),
      )
