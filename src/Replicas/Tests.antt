-- ===== src/Replicas/Tests.antt =====
-- A phone writes a row, and a laptop receives it.
use easy_docket.Base.{◌≡◌, inl, refl, true, some, [], ◌∷◌, arith, In}
use easy_docket.Base.Text.{Text, codes, split, ltb_text, eq_text, ltb_text_irrefl}
use easy_docket.Base.Digits.{to_string, pad_start, parse_digits}
use easy_docket.Hlc.{HlcState, encode, tick, observe, decode}
use easy_docket.Models.{transactions, eq_key, Operation, Entity}
use easy_docket.Db.{key_of, get_row, put_row}
use easy_docket.Ledger.{Ledger, ok, put, merge, initialise, observe_stamps}
use easy_docket.Ledger.Lww.{Identified, SameOps}
use easy_docket.Ledger.Saved.{merge_clock}
use easy_docket.Ledger.Write.{put_operation}
use easy_docket.Replicas.{
  Replica, World, Move, wrote, received, set, new_replica, Reach, start, later,
}
use easy_docket.Replicas.Converge.{stamps_unique, replicas_converge, rows_written, writes_above}

record Note : Type 0 where
  id : Text
  updated_at : Text

abbrev note_entity : Entity Note
note_entity = record {
  id = λ r. r.id;
  updated_at = λ r. r.updated_at;
  with_stamp = λ s r. record r { updated_at = s };
  id-with_stamp = λ s r. refl;
  updated_at-with_stamp = λ s r. refl;
}

abbrev phone : Text
phone = codes "3f9a2c17"

abbrev laptop : Text
laptop = codes "0b00c5a1"

abbrev lunch : Note
lunch = record { id = codes "t1"; updated_at = [] }

abbrev at_twenty : HlcState
at_twenty = record { physical = 20; counter = 0 }

abbrev put_lunch : Operation Note
put_lunch =
    put_operation note_entity transactions (note_entity.with_stamp (encode at_twenty phone) lunch)
      phone

abbrev phone_after : Replica Note
phone_after = record {
  ledger = (put note_entity 20 transactions lunch (new_replica phone).ledger).1;
  learned = put_lunch ∷ [];
}

abbrev observed_laptop : Ledger Note
observed_laptop = (observe_stamps 25 (put_lunch.hlc ∷ []) (new_replica laptop).ledger).1

abbrev laptop_after : Replica Note
laptop_after = record {
  ledger = (merge note_entity (put_lunch ∷ []) observed_laptop).1;
  learned = put_lunch ∷ [];
}

abbrev both : World Note
both = record {
  replica = set laptop laptop_after (set phone phone_after new_replica);
  written = put_lunch ∷ [];
}

phone_writes : Move note_entity [] phone (new_replica phone) phone_after (put_lunch ∷ [])
phone_writes =
    wrote 20 transactions lunch (encode at_twenty phone)
      (record { device = phone; state = record { physical = 0; counter = 0 } })
      (record { device = phone; state = at_twenty }) put_lunch (unfold initialise in refl)
      (omega arith) (unfold tick in refl) refl refl refl

observes :
    observe_stamps 25 (put_lunch.hlc ∷ []) (new_replica laptop).ledger ≡ (ok tt, observed_laptop)
unfolding observe_stamps initialise observe decode encode to_string pad_start split parse_digits
observes = refl

laptop_receives :
    Move note_entity
      (put_lunch ∷ [])
      laptop
      (set phone phone_after new_replica laptop)
      laptop_after
      []
unfolding eq_text ltb_text
laptop_receives =
    received 25 (put_lunch.hlc ∷ []) (put_lunch ∷ []) observed_laptop (omega arith)
      ((put_lunch, inl refl, refl), tt)
      ((inl refl, (put_lunch.hlc, inl refl, ltb_text_irrefl put_lunch.hlc)), tt) observes refl refl

both_Reach : Reach note_entity both
both_Reach =
    later (record { replica = set phone phone_after new_replica; written = put_lunch ∷ [] }) laptop
      laptop_after []
      (later (record { replica = new_replica; written = [] }) phone phone_after (put_lunch ∷ [])
        start (ground arith) phone_writes)
      (ground arith) laptop_receives

same_learned : SameOps (both.replica phone).learned (both.replica laptop).learned
unfolding eq_text
same_learned o = ground arith

replicas_converge_example :
    get_row (transactions, codes "t1") (both.replica phone).ledger.tables
    ≡ get_row (transactions, codes "t1") (both.replica laptop).ledger.tables
replicas_converge_example =
    replicas_converge note_entity both phone laptop both_Reach same_learned
      (transactions, codes "t1")

stamps_unique_example : Identified both.written
stamps_unique_example = stamps_unique note_entity both both_Reach

phone_holds :
    get_row (transactions, codes "t1") (both.replica phone).ledger.tables
    ≡ some (note_entity.with_stamp (encode at_twenty phone) lunch)
unfolding eq_text put initialise tick get_row put_row eq_key
phone_holds = refl

rows_written_example :
    let row = note_entity.with_stamp (encode at_twenty phone) lunch in
    (o : Operation Note) × In o (both.replica phone).learned
    × In o both.written
    × (key_of o ≡ (transactions, codes "t1"))
    × (o.value ≡ some row)
rows_written_example =
    rows_written note_entity both phone (transactions, codes "t1")
      (note_entity.with_stamp (encode at_twenty phone) lunch) both_Reach phone_holds

abbrev at_thirty : HlcState
at_thirty = record { physical = 30; counter = 0 }

abbrev put_again : Operation Note
put_again =
    put_operation note_entity transactions (note_entity.with_stamp (encode at_thirty laptop) lunch)
      laptop

abbrev laptop_later : Replica Note
laptop_later = record {
  ledger = (put note_entity 30 transactions lunch laptop_after.ledger).1;
  learned = put_again ∷ put_lunch ∷ [];
}

observed_clock :
    observed_laptop.clock
    ≡ some (record { device = laptop; state = record { physical = 25; counter = 0 } })
unfolding observe_stamps initialise observe decode encode to_string pad_start split parse_digits
observed_clock = refl

laptop_clock :
    laptop_after.ledger.clock
    ≡ some (record { device = laptop; state = record { physical = 25; counter = 0 } })
laptop_clock = (merge_clock note_entity put_lunch [] observed_laptop _ observed_clock).0

laptop_writes :
    Move note_entity (put_lunch ∷ []) laptop (both.replica laptop) laptop_later (put_again ∷ [])
unfolding eq_text
laptop_writes =
    wrote 30 transactions lunch (encode at_thirty laptop)
      (record { device = laptop; state = record { physical = 25; counter = 0 } })
      (record { device = laptop; state = at_thirty }) put_again laptop_clock (omega arith)
      (unfold tick in refl) refl refl refl

writes_above_example : ltb_text put_lunch.hlc put_again.hlc ≡ true
unfolding eq_text
writes_above_example =
    writes_above note_entity both laptop laptop_later (put_again ∷ []) both_Reach (ground arith)
      laptop_writes put_again put_lunch (inl refl) (inl refl)
