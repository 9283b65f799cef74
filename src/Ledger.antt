-- ===== src/Ledger.antt =====
-- The ledger service, app/src/app/core/repositories/ledger.service.ts, over the tables of
-- app/src/app/core/db/docket-db.ts. A transaction of the database is one step, its reads and writes
-- do not fail, and `Date.now` is an argument.
pub mod Lww
pub mod Latest
pub mod Knows
pub mod Merge
pub mod Converge
pub mod Write
pub mod Pending
pub mod Observe
pub mod Preserved
pub mod Saved
pub mod Puts
mod Tests
use easy_docket.Base.{
  ℕ, ◌+◌, Bool, true, false, not, Option, none, some, List, [], ◌∷◌, ◌++◌, if◌then◌else◌, filter,
  take, ◌&&◌,
}
use easy_docket.Base.Text.{Text, ltb_text, leb_text, eq_text}
use easy_docket.Hlc.{HlcState, Clock}
use easy_docket.Hlc
use easy_docket.Models.{
  EntityName, Key, eq_key, eq_entity, OpKind, Operation, LocalOperation, Entity,
}
use easy_docket.Db.{key_of, put_row, delete_row, put_op}

pub data Error : Type 0 where
  not_initialised : Error
  clock_error : Hlc.Error → Error

pub data Result (A : Type 0) : Type 0 where
  ok : A → Result A
  err : Error → Result A

-- One round of the loop of `latestStampFor`; an empty stamp counts as none.
unfoldable pub newer : Option Text → Text → Option Text
newer none stamp = some stamp
newer (some []) stamp = some stamp
newer (some (c ∷ m)) stamp = if ltb_text (c ∷ m) stamp then some stamp else some (c ∷ m)

later_id : Option Text → Text → Option Text
later_id none id = some id
later_id (some best) id = if ltb_text best id then some id else some best

-- `latest && compareHlc(op.hlc, latest) <= 0`; an empty stamp counts as none.
unfoldable pub is_stale : Text → Option Text → Bool
is_stale hlc none = false
is_stale hlc (some []) = false
is_stale hlc (some (c ∷ latest)) = leb_text hlc (c ∷ latest)

module _ {Row : Type 0} where
  unfoldable pub latest_from : Option Text → Key → List (LocalOperation Row) → Option Text
  latest_from best k [] = best
  latest_from best k (o ∷ log) =
      latest_from (if eq_key (key_of o.operation) k then newer best o.hlc else best) k log

  -- `latestStampFor`
  unfoldable pub latest_stamp_for : Key → List (LocalOperation Row) → Option Text
  latest_stamp_for k log = latest_from none k log

  -- `hasHistory`
  unfoldable pub has_history : Key → List (LocalOperation Row) → Bool
  has_history k log = elim (latest_stamp_for k log) [ none ↦ false | some _ ↦ true ]

-- The database and the clock of the service; `saved_clock` is the row that `persistClock` writes.
pub record Ledger (Row : Type 0) : Type 0 where
  pub tables : List (Key × Row)
  pub oplog : List (LocalOperation Row)
  pub saved_clock : Option HlcState
  pub clock : Option Clock

abbrev pub Step : Type 0 → Type 0 → Type 0
Step Row A = Result A × Ledger Row

module _ {Row : Type 0} where
  -- `initialise`
  unfoldable pub initialise : Text → Ledger Row → Ledger Row
  initialise device l = record l {
    clock = some (record {
      device = device;
      state = elim l.saved_clock [ none ↦ record { physical = 0; counter = 0 } | some s ↦ s ];
    });
  }

  -- What `put` and `remove` do once the clock has given a stamp, in one transaction.
  commit : Operation Row → List (Key × Row) → Clock → Ledger Row → Ledger Row
  commit o tables k l = record {
    tables = tables;
    oplog = put_op (record { operation = o; synced = false }) l.oplog;
    saved_clock = some k.state;
    clock = some k;
  }

  -- A write runs with the stamp of a tick; `write` builds the operation and the tables from it.
  pub with_stamp :
      {A : Type 0} → ℕ → (Text → Clock → Ledger Row → Step Row A) → Ledger Row → Step Row A
  with_stamp wall write l = elim l.clock [
    | none ↦ (err not_initialised, l)
    | some k ↦
        (let (r, k') = Hlc.tick wall k in
          elim r [
            | Hlc.ok stamp ↦ write stamp k' l
            | Hlc.err e ↦ (err (clock_error e), record l { clock = some k' })
          ])
  ]

-- The transaction of `put`.
write_put :
    {Row : Type 0} → Entity Row → EntityName → Row → Text → Clock → Ledger Row → Step Row Row
unfolding commit
write_put e entity value stamp k l =
    let row = e.with_stamp stamp value in
    (
      ok row,
      commit
          (record {
            hlc = e.updated_at row;
            entity = entity;
            entity_id = e.id row;
            op = OpKind.put;
            value = some row;
            device = k.device;
          })
          (put_row (entity, e.id row) row l.tables) k l,
    )

-- The transaction of `remove`, which leaves a tombstone in the log.
write_remove : {Row : Type 0} → EntityName → Text → Text → Clock → Ledger Row → Step Row (Unit {0})
unfolding commit
write_remove entity id stamp k l = (
  ok tt,
  commit
      (record {
        hlc = stamp;
        entity = entity;
        entity_id = id;
        op = OpKind.delete;
        value = none;
        device = k.device;
      })
      (delete_row (entity, id) l.tables) k l,
)

-- `put`
unfoldable pub put : {Row : Type 0} → Entity Row → ℕ → EntityName → Row → Ledger Row → Step Row Row
unfolding with_stamp write_put
put e wall entity value = with_stamp wall (write_put e entity value)

-- `remove`
unfoldable pub remove : {Row : Type 0} → ℕ → EntityName → Text → Ledger Row → Step Row (Unit {0})
unfolding with_stamp write_remove
remove wall entity id = with_stamp wall (write_remove entity id)

module _ {Row : Type 0} where
  insert_sorted : Operation Row → List (Operation Row) → List (Operation Row)
  insert_sorted o [] = o ∷ []
  insert_sorted o (p ∷ ops) =
      if ltb_text p.hlc o.hlc then p ∷ insert_sorted o ops else o ∷ (p ∷ ops)

  -- `[...ops].sort(...)`, which is stable: the operations by their stamps.
  unfoldable pub sort_ops : List (Operation Row) → List (Operation Row)
  unfolding insert_sorted
  sort_ops [] = []
  sort_ops (o ∷ ops) = insert_sorted o (sort_ops ops)

module _ {Row : Type 0} (e : Entity Row) where
  -- What an operation does to the tables; `none` for a `put` with no value. A row is put under its
  -- own id.
  unfoldable pub apply_op : OpKind → Option Row → Key → List (Key × Row) → Option (List (Key × Row))
  apply_op OpKind.delete value k tables = some (delete_row k tables)
  apply_op OpKind.put (some row) (entity, id) tables = some (put_row (entity, e.id row) row tables)
  apply_op OpKind.put none k tables = none

  -- One round of the loop of `merge`, on the count and the ledger.
  unfoldable pub merge_one : Operation Row → ℕ × Ledger Row → ℕ × Ledger Row
  merge_one o (applied, l) =
      if is_stale o.hlc (latest_stamp_for (key_of o) l.oplog)
      then (applied, l)
      else elim (apply_op o.op o.value (key_of o) l.tables) [
        | none ↦ (applied, l)
        | some tables ↦ (
          applied + 1,
          record l {
            tables = tables;
            oplog = put_op (record { operation = o; synced = true }) l.oplog;
          },
        )
      ]

  unfoldable pub merge_all : List (Operation Row) → ℕ × Ledger Row → ℕ × Ledger Row
  merge_all [] acc = acc
  merge_all (o ∷ ops) acc = merge_all ops (merge_one o acc)

  pub merge_sorted : List (Operation Row) → Clock → Ledger Row → Step Row ℕ
  unfolding merge_all
  merge_sorted ops k l =
      let (applied, l') = merge_all ops (0, l) in
      (ok applied, record l' { saved_clock = some k.state })

  -- `merge`
  unfoldable pub merge : List (Operation Row) → Ledger Row → Step Row ℕ
  unfolding merge_sorted sort_ops
  merge [] l = (ok 0, l)
  merge (o ∷ ops) l = elim l.clock [
    | none ↦ (err not_initialised, l)
    | some k ↦ merge_sorted (sort_ops (o ∷ ops)) k l
  ]

module _ {Row : Type 0} where
  -- The loop of `observeStamps`. The stamps before one that the clock refuses stay folded in.
  unfoldable pub observe_from : ℕ → List Text → Clock → Ledger Row → Step Row (Unit {0})
  observe_from wall [] k l = (ok tt, record l { clock = some k })
  observe_from wall (stamp ∷ stamps) k l =
      let (r, k') = Hlc.observe wall stamp k in
      let rest = observe_from wall stamps k' l in
      elim r [ Hlc.ok _ ↦ rest | Hlc.err e ↦ (err (clock_error e), record l { clock = some k' }) ]

  -- `observeStamps`
  unfoldable pub observe_stamps : ℕ → List Text → Ledger Row → Step Row (Unit {0})
  unfolding observe_from
  observe_stamps wall stamps l = elim l.clock [
    | none ↦ (err not_initialised, l)
    | some k ↦ observe_from wall stamps k l
  ]

  -- `pendingOperations`
  unfoldable pub pending_operations : ℕ → Ledger Row → List (LocalOperation Row)
  pending_operations limit l = take limit (filter (λ o. not o.synced) l.oplog)

  -- `oplog.update(hlc, { synced: 1 })`
  mark_one : Text → List (LocalOperation Row) → List (LocalOperation Row)
  mark_one hlc [] = []
  mark_one hlc (o ∷ log) =
      (if eq_text o.hlc hlc then record o { synced = true } else o) ∷ mark_one hlc log

  mark_from : List Text → List (LocalOperation Row) → List (LocalOperation Row)
  mark_from [] log = log
  mark_from (hlc ∷ stamps) log = mark_from stamps (mark_one hlc log)

  -- `markSynced`
  unfoldable pub mark_synced : List Text → Ledger Row → Ledger Row
  unfolding mark_one mark_from
  mark_synced stamps l = record l { oplog = mark_from stamps l.oplog }

  -- `latestEntityIdWithPrefix`; the range ends at the prefix followed by `\uffff`.
  prefix_from : Option Text → EntityName → Text → List (LocalOperation Row) → Option Text
  prefix_from best entity prefix [] = best
  prefix_from best entity prefix (o ∷ log) =
      prefix_from
        (if eq_entity o.entity entity
            && (leb_text prefix o.entity_id && leb_text o.entity_id (prefix ++ 0xffff ∷ []))
          then later_id best o.entity_id
          else best)
        entity prefix log

  unfoldable pub latest_entity_id_with_prefix : EntityName → Text → Ledger Row → Option Text
  unfolding prefix_from later_id
  latest_entity_id_with_prefix entity prefix l = prefix_from none entity prefix l.oplog

  -- `allOperations`
  unfoldable pub all_operations : Ledger Row → List (LocalOperation Row)
  all_operations l = l.oplog
