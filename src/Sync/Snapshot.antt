-- ===== src/Sync/Snapshot.antt =====
-- Snapshots: `maybeSnapshot` and `prune` of app/src/app/core/sync/sync.service.ts.
pub mod Safety
use easy_docket.Base.{
  ℕ, Bool, true, false, not, Option, none, some, List, [], ◌∷◌, ◌++◌, if◌then◌else◌, filter, length,
  ltb,
}
use easy_docket.Base.Text.{Text, eq_text, ltb_text}
use easy_docket.Models.{EntityName, entity_names, Key, eq_entity, LocalOperation}
use easy_docket.Ledger.{Ledger}
use easy_docket.Sync.Names.{
  ops_prefix, snapshot_prefix, snapshot_object_name, stamp_from_object_name, covered_by,
}
use easy_docket.Sync.Remote.{
  Reply, ok, err, Adapter, Header, LedgerSnapshot, snapshot, Cipher, Vault, Device, M, ◌>>=◌, ◌>>◌,
  return, remote, local, mark_applied,
}

abbrev pub snapshot_after_operations : ℕ
snapshot_after_operations = 200

-- `last`: the stamp of the last snapshot, or the empty text.
unfoldable pub last_watermark : Option Text → Text
last_watermark none = []
last_watermark (some watermark) = watermark

later_stamp : Text → Text → Text
later_stamp best stamp = if ltb_text best stamp then stamp else best

module _ {Row : Type 0} where
  -- The operations past a stamp.
  unfoldable pub operations_since : Text → List (LocalOperation Row) → ℕ
  operations_since last log = length (filter (λ o. ltb_text last o.hlc) log)

  -- The stamp of the last operation in the order of the stamps, or the empty text.
  unfoldable pub newest_stamp : List (LocalOperation Row) → Text
  unfolding later_stamp
  newest_stamp [] = []
  newest_stamp (o ∷ log) = let rest = newest_stamp log in later_stamp rest o.hlc

  -- `db[name].toArray()`
  unfoldable pub rows_of : EntityName → List (Key × Row) → List Row
  rows_of name [] = []
  rows_of name (((entity, id), row) ∷ tables) =
      let rest = rows_of name tables in if eq_entity entity name then row ∷ rest else rest

  unfoldable pub all_entities : List EntityName → List (Key × Row) → List (EntityName × List Row)
  all_entities [] tables = []
  all_entities (name ∷ names) tables = (name, rows_of name tables) ∷ all_entities names tables

  unfoldable pub snapshot_of : Vault → Text → Ledger Row → LedgerSnapshot Row
  snapshot_of v watermark l = record {
    vault_id = v.vault_id;
    device = v.device_id;
    watermark = watermark;
    entities = all_entities entity_names l.tables;
    operation_count = length l.oplog;
  }

-- An older snapshot than the one just written.
unfoldable pub is_older : Text → Text → Bool
is_older watermark name = elim (stamp_from_object_name name) [
  | none ↦ false
  | some stamp ↦ ltb_text stamp watermark
]

unfoldable pub superseded : Text → List Text → List Text → List Text
superseded watermark ops snapshots =
    filter (λ name. covered_by name watermark) ops ++ filter (is_older watermark) snapshots

-- `remoteObjects.delete`
unfoldable pub forget : Text → List Text → List Text
forget name = filter (λ other. not (eq_text name other))

module _ {Row Bytes : Type 0} (c : Cipher Row Bytes) (a : Adapter Bytes) (v : Vault) where
  -- The loop over the superseded objects.
  unfoldable pub remove_all : List Text → M Row a.Store (Unit {0})
  remove_all [] = return tt
  remove_all (name ∷ names) =
      remote (a.remove name)
      >> (local (λ d. record d { applied = forget name d.applied }) >> remove_all names)

  -- The two listings, both of which are asked for.
  unfoldable pub list_both : M Row a.Store (List Text × List Text)
  list_both d s =
      let (ops, s') = a.list (ops_prefix v.vault_id) s in
      let (snapshots, s'') = a.list (snapshot_prefix v.vault_id) s' in
      elim ops [
        | err e ↦ (err e, d, s'')
        | ok xs ↦ elim snapshots [ err e ↦ (err e, d, s'') | ok ys ↦ (ok (xs, ys), d, s'') ]
      ]

  unfoldable pub prune_superseded : Text → M Row a.Store (Unit {0})
  prune_superseded watermark =
      list_both >>= λ listed. remove_all (superseded watermark listed.0 listed.1)

  -- `prune`; what fails in it is swallowed.
  unfoldable pub prune : Text → M Row a.Store (Unit {0})
  prune watermark d s = let (r, d', s') = prune_superseded watermark d s in (ok tt, d', s')

  unfoldable pub write_snapshot : Text → Ledger Row → M Row a.Store (Unit {0})
  write_snapshot watermark l =
      let x = snapshot_of v watermark l in
      let name = snapshot_object_name v.vault_id watermark in
      let header : Header = record { vault = v.vault_id; device = x.device; stamp = watermark } in
      remote (a.put name (c.seal_json header (snapshot x)))
      >> (mark_applied (name ∷ [])
          >> (local (λ d. record d { last_snapshot = some watermark }) >> prune watermark))

  unfoldable pub snapshot_at : Text → Ledger Row → M Row a.Store (Unit {0})
  snapshot_at [] l = return tt
  snapshot_at (ch ∷ watermark) l = write_snapshot (ch ∷ watermark) l

  -- `maybeSnapshot`
  unfoldable pub maybe_snapshot : M Row a.Store (Unit {0})
  unfolding snapshot_at
  maybe_snapshot d s =
      let log = d.ledger.oplog in
      if ltb (operations_since (last_watermark d.last_snapshot) log) snapshot_after_operations
      then (ok tt, d, s)
      else snapshot_at (newest_stamp log) d.ledger d s
