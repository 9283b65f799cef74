-- ===== src/Ledger/Tests.antt =====
-- The ledger of app/src/app/core/repositories/ledger.service.ts at concrete operations.
use easy_docket.Base.{ℕ, ◌≡◌, inl, inr, refl, none, some, [], ◌∷◌, arith}
use easy_docket.Base.Text.{Text, codes, ltb_text, eq_text}
use easy_docket.Hlc.{HlcState, Clock, encode, tick}
use easy_docket.Models.{eq_key, transactions, Operation, OpKind, Entity}
use easy_docket.Db.{get_row, put_row, delete_row, put_op}
use easy_docket.Ledger.{
  Ledger, ok, put, merge_all, merge_one, latest_stamp_for, latest_from, newer, is_stale, apply_op,
  remove, merge,
}
use easy_docket.Ledger.Lww.{winner, Identified, SameOps}
use easy_docket.Ledger.Knows.{Knows}
use easy_docket.Ledger.Merge.{WellFormed}
use easy_docket.Ledger.Converge.{merge-Knows, merge_converges, merge_again}
use easy_docket.Ledger.Write.{Ahead, put_operation, delete_operation, put-Knows, remove-Knows}

-- A row with an id, a stamp and an amount.
record Note : Type 0 where
  id : Text
  updated_at : Text
  amount : Text

abbrev note_entity : Entity Note
note_entity = record {
  id = λ r. r.id;
  updated_at = λ r. r.updated_at;
  with_stamp = λ s r. record r { updated_at = s };
  id-with_stamp = λ s r. refl;
  updated_at-with_stamp = λ s r. refl;
}

abbrev phone : Text
phone = codes "3f9a2c17"

abbrev laptop : Text
laptop = codes "0b00c5a1"

abbrev at_ten : HlcState
at_ten = record { physical = 10; counter = 0 }

abbrev lunch : Note
lunch = record { id = codes "t1"; updated_at = codes "a"; amount = codes "12" }

abbrev put_lunch : Operation Note
put_lunch = record {
  hlc = codes "a";
  entity = transactions;
  entity_id = codes "t1";
  op = OpKind.put;
  value = some lunch;
  device = phone;
}

abbrev drop_lunch : Operation Note
drop_lunch = record {
  hlc = codes "b";
  entity = transactions;
  entity_id = codes "t1";
  op = OpKind.delete;
  value = none;
  device = laptop;
}

abbrev fresh : Ledger Note
fresh = record {
  tables = [];
  oplog = [];
  saved_clock = none;
  clock = some (record { device = phone; state = at_ten });
}

abbrev after_both : Ledger Note
after_both = (merge note_entity (drop_lunch ∷ put_lunch ∷ []) fresh).1

fresh-Knows : Knows fresh []
unfolding winner get_row
fresh-Knows = record { logged = λ o m. m; newest = λ k. refl; rows = λ k. refl }

both-Identified : Identified (put_lunch ∷ drop_lunch ∷ [])
both-Identified o p (inl e) (inl f) same = ground arith
both-Identified o p m n same = ground arith

swapped-Identified : Identified (drop_lunch ∷ put_lunch ∷ [])
swapped-Identified o p (inl e) (inl f) same = ground arith
swapped-Identified o p m n same = ground arith

twice-Identified : Identified (drop_lunch ∷ put_lunch ∷ drop_lunch ∷ [])
twice-Identified o p (inl e) (inl f) same = ground arith
twice-Identified o p m n same = ground arith

swapped : SameOps (put_lunch ∷ drop_lunch ∷ []) (drop_lunch ∷ put_lunch ∷ drop_lunch ∷ [])
swapped o = ground arith

put_lunch-WellFormed : WellFormed note_entity put_lunch
put_lunch-WellFormed = record { has_stamp = λ e. cc; own_id = λ row e. ground arith }

drop_lunch-WellFormed : WellFormed note_entity drop_lunch
drop_lunch-WellFormed = record { has_stamp = λ e. cc; own_id = λ row e. cc }

merge-Knows_example :
    ((n : ℕ) × ((merge note_entity (drop_lunch ∷ put_lunch ∷ []) fresh).0 ≡ ok n))
    × Knows (merge note_entity (drop_lunch ∷ put_lunch ∷ []) fresh).1 (drop_lunch ∷ put_lunch ∷ [])
merge-Knows_example =
    merge-Knows note_entity (drop_lunch ∷ put_lunch ∷ []) [] fresh
      (record { device = phone; state = at_ten }) refl swapped-Identified
      (drop_lunch-WellFormed, (put_lunch-WellFormed, tt)) fresh-Knows

-- One device gets the two operations in order, the other in the other order and one of them twice.
merge_converges_example :
    get_row
      (transactions, codes "t1")
      (merge note_entity (put_lunch ∷ drop_lunch ∷ []) fresh).1.tables
    ≡ get_row
        (transactions, codes "t1")
        (merge note_entity (drop_lunch ∷ put_lunch ∷ drop_lunch ∷ []) fresh).1.tables
merge_converges_example =
    merge_converges note_entity (put_lunch ∷ drop_lunch ∷ []) []
      (drop_lunch ∷ put_lunch ∷ drop_lunch ∷ []) [] fresh fresh
      (record { device = phone; state = at_ten }) (record { device = phone; state = at_ten }) refl
      refl (put_lunch-WellFormed, (drop_lunch-WellFormed, tt))
      (drop_lunch-WellFormed, (put_lunch-WellFormed, (drop_lunch-WellFormed, tt))) both-Identified
      twice-Identified fresh-Knows fresh-Knows swapped (transactions, codes "t1")

abbrev first_tick : HlcState
first_tick = record { physical = 20; counter = 0 }

abbrev ten_clock : Clock
ten_clock = record { device = phone; state = at_ten }

abbrev twenty_clock : Clock
twenty_clock = record { device = phone; state = first_tick }

both_clock : after_both.clock ≡ some ten_clock
unfolding merge merge_all merge_one latest_stamp_for latest_from newer is_stale apply_op put_op
    eq_key eq_text ltb_text
both_clock = refl

-- Merging again what is known.
learned_twice :
    let l = (merge note_entity (drop_lunch ∷ put_lunch ∷ []) fresh).1 in
    ((merge note_entity (put_lunch ∷ []) l).0 ≡ ok 0)
    × ((merge note_entity (put_lunch ∷ []) l).1.tables ≡ l.tables)
    × ((merge note_entity (put_lunch ∷ []) l).1.oplog ≡ l.oplog)
learned_twice =
    merge_again note_entity (put_lunch ∷ []) (drop_lunch ∷ put_lunch ∷ [])
      (merge note_entity (drop_lunch ∷ put_lunch ∷ []) fresh).1 ten_clock both_clock
      merge-Knows_example.1 (((λ e. cc), inr (inl refl)), tt)

put-Knows_example :
    let row = note_entity.with_stamp (encode first_tick phone) lunch in
    let o = put_operation note_entity transactions row phone in
    let (r, l') = put note_entity 20 transactions lunch fresh in
    (r ≡ ok row)
    × Knows l' (o ∷ [])
    × Ahead twenty_clock (o ∷ [])
    × (l'.clock ≡ some twenty_clock)
    × (l'.saved_clock ≡ some first_tick)
    × (get_row (transactions, codes "t1") l'.tables ≡ some row)
put-Knows_example =
    put-Knows note_entity 20 transactions lunch (encode first_tick phone) ten_clock twenty_clock
      fresh [] refl (omega arith) (omega arith) (unfold tick in refl) (λ o m. absurd m)
      (λ o p m n e. absurd m) fresh-Knows

remove-Knows_example :
    let o : Operation Note =
      delete_operation transactions (codes "t1") (encode first_tick phone) phone in
    let (r, l') = remove 20 transactions (codes "t1") fresh in
    (r ≡ ok tt)
    × Knows l' (o ∷ [])
    × Ahead twenty_clock (o ∷ [])
    × (l'.clock ≡ some twenty_clock)
    × (l'.saved_clock ≡ some first_tick)
    × (get_row (transactions, codes "t1") l'.tables ≡ none)
remove-Knows_example =
    remove-Knows 20 transactions (codes "t1") (encode first_tick phone) ten_clock twenty_clock fresh
      [] refl (omega arith) (omega arith) (unfold tick in refl) (λ o m. absurd m)
      (λ o p m n e. absurd m) fresh-Knows

-- A later delete wins over an earlier put that arrives after it, and no row comes back.
tombstone_wins :
    get_row
      (transactions, codes "t1")
      (merge note_entity (put_lunch ∷ []) (merge note_entity (drop_lunch ∷ []) fresh).1).1.tables
    ≡ none
unfolding merge merge_all merge_one latest_stamp_for latest_from newer is_stale apply_op get_row
    put_row delete_row put_op eq_key eq_text ltb_text
tombstone_wins = refl
