-- ===== src/Db.antt =====
-- The tables of app/src/app/core/db/docket-db.ts as the ledger uses them: the rows of all entities as
-- one map from keys, and the operation log, which is kept in the order of its primary key.
pub mod Log
use easy_docket.Base.{Option, none, some, List, [], ◌∷◌, if◌then◌else◌}
use easy_docket.Base.Text.{Text, ltb_text, eq_text}
use easy_docket.Models.{Key, eq_key, Operation, LocalOperation}

module _ {Row : Type 0} where
  -- `op.entity` and `op.entityId`: the row that an operation is about.
  abbrev pub key_of : Operation Row → Key
  key_of o = (o.entity, o.entity_id)

  -- `table.get`, on all tables.
  unfoldable pub get_row : Key → List (Key × Row) → Option Row
  get_row k [] = none
  get_row k ((j, r) ∷ t) = if eq_key j k then some r else get_row k t

  -- `table.put`
  unfoldable pub put_row : Key → Row → List (Key × Row) → List (Key × Row)
  put_row k r [] = (k, r) ∷ []
  put_row k r ((j, s) ∷ t) = if eq_key j k then (k, r) ∷ t else (j, s) ∷ put_row k r t

  -- `table.delete`
  unfoldable pub delete_row : Key → List (Key × Row) → List (Key × Row)
  delete_row k [] = []
  delete_row k ((j, s) ∷ t) =
      let rest = delete_row k t in if eq_key j k then rest else (j, s) ∷ rest

  -- `oplog.put`: the log is kept in the order of its primary key, the stamp, and an operation with
  -- the stamp of another takes its place.
  unfoldable pub put_op : LocalOperation Row → List (LocalOperation Row) → List (LocalOperation Row)
  put_op o [] = o ∷ []
  put_op o (p ∷ log) =
      if eq_text o.hlc p.hlc
      then o ∷ log
      else if ltb_text o.hlc p.hlc
      then o ∷ (p ∷ log)
      else p ∷ put_op o log
