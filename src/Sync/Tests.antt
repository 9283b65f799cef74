-- ===== src/Sync/Tests.antt =====
-- The sync of app/src/app/core/sync/sync.service.ts between two devices and a destination in memory.
use easy_docket.Base.{
  ℕ, ◌≡◌, ◌≢◌, ◌⊎◌, inl, refl, true, false, none, some, List, [], ◌∷◌, arith, In, ◌++◌, filter,
}
use easy_docket.Base.Text.{Text, codes, eq_text, eq_text→eq, ltb_text, split}
use easy_docket.Hlc.{observe, decode}
use easy_docket.Base.Digits.{parse_digits}
use easy_docket.Models.{transactions, Operation, OpKind}
use easy_docket.Db.{get_row}
use easy_docket.Ledger
use easy_docket.Ledger.{Ledger, observe_stamps, pending_operations, mark_synced}
use easy_docket.Ledger.Lww.{winner, Identified}
use easy_docket.Ledger.Merge.{WellFormed}
use easy_docket.Dates.{is_digit}
use easy_docket.Ledger.Knows.{Knows}
use easy_docket.Sync.Names.{
  ops_prefix, ops_object_name, snapshot_prefix, covered_by, stamp_from_object_name, last_part,
  strip_suffix, is_stamp, is_stamp_parts, every, is_hex, is_alnum,
}
use easy_docket.Sync.Remote.{ok, LedgerSnapshot, Device, ◌>>=◌}
use easy_docket.Sync.Push.{
  push, pending_limit, stamps_of, push_from, push_slice, header_of, batch_of, last_stamp,
}
use easy_docket.Sync.Push.Delivers.{Delivered, push-mark_synced, push-Delivered}
use easy_docket.Sync.{initial_status, run_cycle}
use easy_docket.Sync.Pull.{is_covered, fresh_names, newest_name, pull, apply_opened}
use easy_docket.Sync.Pull.Learns.{
  Batches, is_foreign, learned, learned_heads, vault_names, pull-Knows,
}
use easy_docket.Sync.Snapshot.{prune}
use easy_docket.Sync.Snapshot.Safety.{Keeps, Separate, apply_opened-get_row, prune-covered}
use easy_docket.Sync.Relay.{push-pull}
use easy_docket.Db.Log.{ops_of}
use easy_docket.Ledger.Converge.{complete}
use easy_docket.Sync.Cycle.{Rested, run_cycle_rests}
use easy_docket.Sync.Memory.{
  Note, note_entity, plain, Objects, names_under, object_at, without, memory, memory-Keeps,
  memory-Serves, phone, laptop, home, phone_vault, laptop_vault, ten, lunch, put_lunch, at_five,
  on_phone, on_laptop, lunch_batch, lunch_header, lunch_name, at_destination,
}

push-mark_synced_example :
    let (r, d', s') = push plain memory phone_vault on_phone [] in
    (r ≡ ok 1)
    × (d'.ledger
        ≡ record on_phone.ledger { oplog = record { operation = put_lunch; synced = true } ∷ [] })
unfolding eq_text
push-mark_synced_example =
    push-mark_synced plain memory phone_vault object_at memory-Keeps on_phone []

push-Delivered_example :
    let (r, d', s') = push plain memory phone_vault on_phone [] in
    Delivered plain memory phone_vault object_at memory-Keeps
      (stamps_of (pending_operations pending_limit on_phone.ledger))
      s'
      put_lunch
push-Delivered_example =
    push-Delivered plain memory phone_vault object_at memory-Keeps on_phone [] put_lunch
      (unfold pending_operations in ((λ m. m), tt)) (unfold pending_operations in (inl refl))

nothing-Knows : Knows on_laptop.ledger []
unfolding winner get_row
nothing-Knows = record { logged = λ o m. m; newest = λ k. refl; rows = λ k. refl }

one-Identified : Identified (put_lunch ∷ [])
one-Identified o p m n same = ground arith

put_lunch-WellFormed : WellFormed note_entity put_lunch
put_lunch-WellFormed = record { has_stamp = λ e. cc; own_id = λ row e. ground arith }

-- What every object opens to, for names of no object too.
abbrev objects : Batches Note
objects name = (lunch_header, lunch_batch)

observed : (observe_stamps 20 (ten ∷ []) on_laptop.ledger).0 ≡ Ledger.ok tt
unfolding observe_stamps observe decode split parse_digits
observed = refl

pull-Knows_example :
    (n : ℕ) × (l : Ledger Note) × (applied : List Text) × (pull note_entity plain memory 20
        laptop_vault on_laptop at_destination
      ≡ (ok n, record on_laptop { ledger = l; applied = applied }, at_destination))
    × Knows l (put_lunch ∷ [])
    × ((name : Text) → In name (lunch_name ∷ []) → In name applied)
unfolding newest_name snapshot_prefix fresh_names ops_prefix is_covered eq_text learned_heads
    is_foreign learned vault_names
pull-Knows_example =
    pull-Knows note_entity plain memory 20 laptop_vault objects
      (λ prefix. names_under prefix at_destination) on_laptop at_destination at_five []
      (λ prefix. refl) (inl refl) ((_, refl, refl), tt) refl observed one-Identified
      (put_lunch-WellFormed, tt) nothing-Knows

-- What the phone writes reaches the laptop.
push-pull_example :
    let pending = pending_operations pending_limit on_phone.ledger in
    let (pushed, from, s) = push plain memory phone_vault on_phone [] in
    let fresh = fresh_names [] none (names_under (ops_prefix home) s) in
    let news = filter complete (learned laptop_vault objects fresh) in
    ((n : ℕ) × (l : Ledger Note) × (applied : List Text) × (pull note_entity plain memory 20
          laptop_vault on_laptop s
        ≡ (ok n, record on_laptop { ledger = l; applied = applied }, s))
      × Knows l (news ++ []))
    × ((p : Operation Note) → In p (ops_of pending) → complete p ≡ true → In p news)
unfolding push eq_text push_from pending_operations ◌>>=◌ push_slice ops_object_name header_of
    batch_of ops_prefix last_stamp newest_name snapshot_prefix fresh_names is_covered learned_heads
    is_foreign learned
push-pull_example =
    push-pull note_entity plain (λ h p. refl) memory object_at memory-Keeps phone_vault laptop_vault
      refl refl objects 20 on_phone on_laptop [] (λ prefix. names_under prefix at_destination)
      at_five [] (unfold pending_operations in ((λ m. m), tt)) (memory-Serves at_destination)
      (λ t m. refl) (inl refl) ((_, refl, refl), tt) refl observed one-Identified
      (put_lunch-WellFormed, tt) nothing-Knows

-- A snapshot that a third device took after lunch was entered.
abbrev after_lunch : LedgerSnapshot Note
after_lunch = record {
  vault_id = home;
  device = phone;
  watermark = ten;
  entities = (transactions, lunch ∷ []) ∷ [];
  operation_count = 1;
}

-- The laptop has a row that the snapshot does not have, because it was deleted.
abbrev dinner : Note
dinner = record { id = codes "t2"; updated_at = codes "a"; amount = codes "30" }

abbrev put_dinner : Operation Note
put_dinner = record {
  hlc = codes "a";
  entity = transactions;
  entity_id = codes "t2";
  op = OpKind.put;
  value = some dinner;
  device = laptop;
}

abbrev with_dinner : Device Note
with_dinner = record {
  ledger = record {
    tables = ((transactions, codes "t2"), dinner) ∷ [];
    oplog = record { operation = put_dinner; synced = true } ∷ [];
    saved_clock = none;
    clock = some at_five;
  };
  applied = [];
  last_sync = none;
  last_snapshot = none;
}

apply_opened-get_row_example :
    let (r, d', s') =
      apply_opened note_entity plain memory 20 laptop_vault lunch_name after_lunch with_dinner [] in
    Keeps note_entity after_lunch (transactions, codes "t2") with_dinner.ledger d'.ledger
apply_opened-get_row_example =
    apply_opened-get_row note_entity plain memory 20 laptop_vault lunch_name after_lunch with_dinner
      [] (transactions, codes "t2")

-- Removing by name leaves the objects with other names.
object_at-without :
    (name other : Text) (s : Objects)
    → name ≢ other
    → object_at (without name s) other ≡ object_at s other
object_at-without name other [] h = refl
object_at-without name other ((third, b) ∷ s) h =
    ground (arith, object_at-without name other s h, eq_text→eq third name, eq_text→eq third other)

memory-Separate : Separate memory object_at
memory-Separate = record {
  content-remove = object_at-without;
  content-list = λ prefix other s. refl;
}

-- An earlier watermark than that of the object.
not_covered : covered_by lunch_name (codes "0000000000000000009-0000-3f9a2c17") ≡ false
unfolding covered_by stamp_from_object_name last_part strip_suffix is_stamp is_stamp_parts every
    is_hex is_alnum is_digit split eq_text ltb_text
not_covered = refl

prune-covered_example :
    object_at
      (prune plain memory phone_vault
        (codes "0000000000000000009-0000-3f9a2c17")
        on_phone
        at_destination).2
      lunch_name
    ≡ object_at at_destination lunch_name
prune-covered_example =
    prune-covered plain memory phone_vault object_at memory-Separate
      (codes "0000000000000000009-0000-3f9a2c17") lunch_name on_phone at_destination not_covered

run_cycle_rests_example :
    let (st', d', s') =
      run_cycle note_entity plain memory
        (λ s. (ok tt, s))
        20
        30
        (some phone_vault)
        initial_status
        on_phone
        at_destination in
    Rested note_entity plain memory
      (λ s. (ok tt, s))
      20
      30
      (some phone_vault)
      on_phone
      at_destination
      st'
      d'
      s'
    × (st'.last_sync_at ≡ d'.last_sync)
    × ((d'.last_sync ≡ none) ⊎ (d'.last_sync ≡ some 30))
run_cycle_rests_example =
    run_cycle_rests note_entity plain memory (λ s. (ok tt, s)) 20 30 (some phone_vault)
      initial_status on_phone at_destination refl
