-- ===== src/Materialiser/Creates.antt =====
-- The due dates of a rule, once a run of app/src/app/core/recurring/materialiser.service.ts has gone over
-- them.
use easy_docket.Base.{
  ℕ, ◌^◌, ◌<◌, ◌+◌, ◌≡◌, ◌≢◌, inl, inr, refl, sym, subst, ◌∙◌, ap, true, false, Option, none, some,
  List, [], ◌∷◌, All, Bool-cases,
}
use easy_docket.Base.Text.{Text, ltb_text}
use easy_docket.Models.{Key, transactions, Operation, eq_key_refl}
use easy_docket.Db.{key_of}
use easy_docket.Ledger.{Ledger, has_history, put}
use easy_docket.Ledger
use easy_docket.Ledger.Lww.{winner, later}
use easy_docket.Ledger.Puts.{Ready, put-Ready}
use easy_docket.Rows.{AnyEntity, RecurringRule, any_entity}
use easy_docket.Schedule.{occurrence_id}
use easy_docket.Materialiser.{Fault, failed, ok, err, occurrence_row, create_dates, to_transaction}
use easy_docket.Materialiser.Keeps.{history-winner, winner-history, create_dates-Extends}

-- The newest operation of a log that has one more about the row.
newest_exists :
    {Row : Type 0} (o : Operation Row) (ops : List (Operation Row))
    → (p : Operation Row) × (winner (key_of o) (o ∷ ops) ≡ some p)
unfolding winner
newest_exists {Row = Row} o ops = rw (eq_key_refl (key_of o)) (later_some (winner (key_of o) ops))
  where
    later_some : (w : Option (Operation Row)) → (p : Operation Row) × (later o w ≡ some p)
    later_some none = (o, refl)
    later_some (some p) = elim (Bool-cases (ltb_text o.hlc p.hlc)) [
      | inl above ↦ (p, rw above refl)
      | inr below ↦ (o, rw below refl)
    ]

module _ {Rate : Type 0} where
  -- The log has something about each of the occurrences.
  abbrev pub AllRecorded : RecurringRule → List Text → Ledger (AnyEntity Rate) → Type 0
  AllRecorded rule dates l =
      All (λ date. has_history (transactions, occurrence_id rule.id date) l.oplog ≡ true) dates

  module _ (now wall : Text → ℕ) where
    again_from :
        (rule : RecurringRule) (dates : List Text) (l : Ledger (AnyEntity Rate)) (n : ℕ)
        → AllRecorded rule dates l
        → create_dates now wall rule dates n l ≡ (ok n, l)
    unfolding create_dates
    again_from rule [] l n h = refl
    again_from rule (date ∷ dates) l n h = rw (h.0) (again_from rule dates l n h.1)

    module _ (rule : RecurringRule) (date : Text) (dates : List Text) (n : ℕ)
        (l : Ledger (AnyEntity Rate)) where
      abbrev key : Key
      key = (transactions, occurrence_id rule.id date)

      abbrev written_row : Ledger.Step (AnyEntity Rate) (AnyEntity Rate)
      written_row =
          put any_entity (wall (occurrence_id rule.id date)) transactions
            (occurrence_row now wall rule date) l

      date_old :
          has_history key l.oplog ≡ true
          → create_dates now wall rule (date ∷ dates) n l ≡ create_dates now wall rule dates n l
      unfolding create_dates
      date_old h = rw h refl

      date_new :
          (row : AnyEntity Rate)
          → has_history key l.oplog ≡ false
          → written_row.0 ≡ Ledger.ok row
          → create_dates now wall rule (date ∷ dates) n l
            ≡ create_dates now wall rule dates (n + 1) written_row.1
      unfolding create_dates
      date_new row h e = rw (h, e) refl

      date_fails :
          (x : Ledger.Error)
          → has_history key l.oplog ≡ false
          → written_row.0 ≡ Ledger.err x
          → (create_dates now wall rule (date ∷ dates) n l).0 ≡ err (failed x)
      unfolding create_dates
      date_fails x h e = rw (h, e) refl

    module _ (fits : (id : Text) → wall id < 2 ^ 53) where
      kept :
          (rule : RecurringRule) (dates : List Text) (n : ℕ) (l : Ledger (AnyEntity Rate))
          (ops : List (Operation (AnyEntity Rate))) (k : Key)
          → Ready l ops
          → has_history k l.oplog ≡ true
          → (l' : Ledger (AnyEntity Rate)) (m : ℕ)
          → create_dates now wall rule dates n l ≡ (ok m, l')
          → has_history k l'.oplog ≡ true
      kept rule dates n l ops k h old l' m run =
          let (ops', h', keeps) = create_dates-Extends now wall fits rule dates n l ops h in
          let (o, found) = history-winner l ops k h old in
          ap (λ s. has_history k s.1.oplog) (sym run)
          ∙ winner-history _ ops' k o h' (keeps k o found)

      create_dates_all :
          (rule : RecurringRule) (dates : List Text) (n m : ℕ) (l l' : Ledger (AnyEntity Rate))
          (ops : List (Operation (AnyEntity Rate)))
          → Ready l ops
          → create_dates now wall rule dates n l ≡ (ok m, l')
          → AllRecorded rule dates l'
      unfolding to_transaction
      create_dates_all rule [] n m l l' ops h e = tt
      create_dates_all rule (date ∷ dates) n m l l' ops h e =
          elim (Bool-cases (has_history (transactions, occurrence_id rule.id date) l.oplog)) [
            | inl old ↦
                (let run = sym (date_old rule date dates n l old) ∙ e in
                  (
                    kept rule dates n l ops _ h old l' m run,
                    create_dates_all rule dates n m l l' ops h run,
                  ))
            | inr fresh ↦
                elim (put-Ready any_entity (wall (occurrence_id rule.id date)) transactions
                  (occurrence_row now wall rule date) l ops (fits (occurrence_id rule.id date)) h) [
                    | inl (x, thrown, same) ↦ absurd (
                        not_err
                          (sym (date_fails rule date dates n l x fresh thrown) ∙ ap (λ s. s.0) e))
                    | inr (o, at_key, (row, returned), after) ↦
                        (let run = sym (date_new rule date dates n l row fresh returned) ∙ e in
                          let s = written_row rule date dates n l in
                          let (p, found) = newest_exists o ops in
                          let here = winner-history s.1 (o ∷ ops) (key_of o) p after found in
                          (
                            kept rule dates (n + 1) s.1 (o ∷ ops) _ after
                                (subst (λ k. has_history k s.1.oplog ≡ true) at_key here) l' m run,
                            create_dates_all rule dates (n + 1) m s.1 l' (o ∷ ops) after run,
                          ))
                  ]
          ]
        where
          not_err : {x : Fault} → err x ≢ ok m
          not_err f = cc

    -- A run over due dates that goes through leaves none of them without a history, and going over them
    -- again creates nothing and changes nothing.
    pub create_dates_once :
        (rule : RecurringRule) (dates : List Text) (n m : ℕ) (l l' : Ledger (AnyEntity Rate))
        (ops : List (Operation (AnyEntity Rate)))
        → ((id : Text) → wall id < 2 ^ 53)
        → Ready l ops
        → create_dates now wall rule dates n l ≡ (ok m, l')
        → AllRecorded rule dates l' × ((k : ℕ) → create_dates now wall rule dates k l' ≡ (ok k, l'))
    create_dates_once rule dates n m l l' ops fits h e =
        let all = create_dates_all fits rule dates n m l l' ops h e in
        (all, λ k. again_from rule dates l' k all)
