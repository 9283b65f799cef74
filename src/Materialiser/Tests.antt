-- ===== src/Materialiser/Tests.antt =====
-- Rent on the first of each month.
use easy_docket.Base.{ℕ, ◌≡◌, refl, true, false, none, some, List, [], ◌∷◌, arith}
use easy_docket.Base.Int.{pos}
use easy_docket.Base.Text.{Text, codes, eq_text}
use easy_docket.Hlc.{Clock, tick}
use easy_docket.Models.{Key, transactions, recurring_rules, Operation, eq_key}
use easy_docket.Models.Records.{expense}
use easy_docket.Db.{get_row, put_row}
use easy_docket.Ledger.{Ledger, put, has_history, latest_stamp_for, latest_from, ok}
use easy_docket.Ledger.Lww.{winner}
use easy_docket.Ledger.Puts.{Ready}
use easy_docket.Rows.{AnyEntity, RecurringRule, rule_row}
use easy_docket.Schedule.{month, is_skipped, occurrence_id}
use easy_docket.Materialiser.{
  create_dates, run, skip, skip_rule, drop_row, with_skipped, sort_texts, insert_text,
}
use easy_docket.Materialiser
use easy_docket.Materialiser.Keeps.{run_keeps}
use easy_docket.Materialiser.Creates.{AllRecorded, create_dates_once}
use easy_docket.Materialiser.Skips.{skip_drops}

abbrev rent : RecurringRule
rent = record {
  id = codes "r1";
  name = codes "Rent";
  kind = expense;
  amount = pos 90000;
  currency = codes "USD";
  account_id = codes "checking";
  counter_account_id = none;
  category_id = none;
  payee = [];
  note = [];
  tags = [];
  schedule = record {
    interval = 1;
    unit = month;
    start_date = codes "2026-01-01";
    end_date = none;
    max_occurrences = none;
    skipped = [];
  };
  archived = false;
  created_at = 0;
  updated_at = [];
}

abbrev ten : Clock
ten = record { device = codes "3f9a2c17"; state = record { physical = 10; counter = 0 } }

abbrev empty : Ledger (AnyEntity ℕ)
empty = record { tables = []; oplog = []; saved_clock = none; clock = some ten }

abbrev with_rent : Ledger (AnyEntity ℕ)
with_rent = record empty { tables = ((recurring_rules, codes "r1"), rule_row rent) ∷ [] }

empty-Ready : Ready empty []
unfolding winner get_row
empty-Ready = record {
  clock = ten;
  ready = refl;
  valid = record { physical_fits = omega arith; counter_fits = omega arith };
  ahead = λ o m. absurd m;
  ident = λ o p m n e. absurd m;
  knows = record { logged = λ o m. m; newest = λ k. refl; rows = λ k. refl };
}

abbrev noon : Text → ℕ
noon id = 20

run_keeps_example :
    let l' = (run noon noon (codes "2026-03-10") 500 empty).1 in
    ((ops' : List (Operation (AnyEntity ℕ))) × Ready l' ops')
    × ((k : Key)
        → has_history k empty.oplog ≡ true
        → (get_row k l'.tables ≡ get_row k empty.tables) × (has_history k l'.oplog ≡ true))
run_keeps_example =
    run_keeps noon noon (λ id. omega arith) (codes "2026-03-10") 500 empty [] empty-Ready

abbrev january : List Text
january = codes "2026-01-01" ∷ []

abbrev after_january : Ledger (AnyEntity ℕ)
after_january = (create_dates noon noon rent january 0 empty).1

january_created : create_dates noon noon rent january 0 empty ≡ (Materialiser.ok 1, after_january)
unfolding create_dates has_history latest_stamp_for latest_from put tick
january_created = refl

create_dates_once_example :
    AllRecorded rent january after_january
    × ((k : ℕ)
        → create_dates noon noon rent january k after_january ≡ (Materialiser.ok k, after_january))
create_dates_once_example =
    create_dates_once noon noon rent january 0 1 empty after_january [] (λ id. omega arith)
      empty-Ready january_created

abbrev skipped : Ledger (AnyEntity ℕ)
skipped = (skip 20 21 (codes "r1") (codes "2026-02-01") with_rent).1

skips : skip 20 21 (codes "r1") (codes "2026-02-01") with_rent ≡ (ok tt, skipped)
unfolding skip skip_rule drop_row get_row eq_key eq_text is_skipped put tick put_row with_skipped
skips = refl

finds_rent : get_row (recurring_rules, codes "r1") with_rent.tables ≡ some (rule_row rent)
unfolding get_row eq_key eq_text
finds_rent = refl

not_skipped : is_skipped rent.schedule (codes "2026-02-01") ≡ false
unfolding is_skipped
not_skipped = refl

skip_drops_example :
    (get_row (transactions, occurrence_id (codes "r1") (codes "2026-02-01")) skipped.tables ≡ none)
    × ((r' : RecurringRule) × (get_row (recurring_rules, codes "r1") skipped.tables
          ≡ some (rule_row r'))
        × (is_skipped r'.schedule (codes "2026-02-01") ≡ true))
skip_drops_example =
    skip_drops 20 21 (codes "r1") (codes "2026-02-01") rent with_rent skipped not_skipped refl
      finds_rent skips
