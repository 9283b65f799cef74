-- ===== src/Sync/Pull.antt =====
-- Pulling: `pull` and `applySnapshot` of app/src/app/core/sync/sync.service.ts.
pub mod Learns
use easy_docket.Base.{
  ℕ, Bool, true, false, not, ◌&&◌, ◌||◌, Option, none, some, List, [], ◌∷◌, ◌++◌, map,
  if◌then◌else◌, filter,
}
use easy_docket.Base.Text.{Text, eq_text}
use easy_docket.Models.{EntityName, entity_names, eq_entity, Operation, OpKind, Entity}
use easy_docket.Ledger.{merge, observe_stamps}
use easy_docket.Sync.Names.{ops_prefix, snapshot_prefix, covered_by}
use easy_docket.Sync.Remote.{
  Fault, locked, bad_envelope, bad_payload, Reply, ok, err, Adapter, Header, OperationBatch,
  LedgerSnapshot, Payload, batch, snapshot, Cipher, Vault, Device, has_name, M, ◌>>=◌, ◌>>◌, return,
  throw, remote, local, on_ledger, mark_applied,
}

-- A name at or below the watermark.
unfoldable pub is_covered : Option Text → Text → Bool
is_covered none name = false
is_covered (some watermark) name = covered_by name watermark

-- The loop over the listed objects: the fresh ones of them, and the covered ones.
unfoldable pub fresh_names : List Text → Option Text → List Text → List Text
fresh_names seen watermark =
    filter (λ name. not (has_name seen name) && not (is_covered watermark name))

unfoldable pub covered_names : List Text → Option Text → List Text → List Text
covered_names seen watermark =
    filter (λ name. not (has_name seen name) && is_covered watermark name)

-- `ops`, `applied` and `heads` of the loop over the fresh objects.
pub record Fetched (Row : Type 0) : Type 0 where
  pub ops : List (Operation Row)
  pub applied : List Text
  pub heads : List Text

abbrev pub nothing_fetched : {Row : Type 0} → Fetched Row
nothing_fetched = record { ops = []; applied = []; heads = [] }

module _ {Row : Type 0} where
  -- What the loop does with an opened object; `none` where the value has no operations.
  unfoldable pub take_object :
      Vault → Text → Header × Payload Row → Fetched Row → Option (Fetched Row)
  take_object v name (h, p) f =
      if not (eq_text h.vault v.vault_id)
      then some f
      else if eq_text h.device v.device_id
      then some (record f { applied = f.applied ++ name ∷ [] })
      else elim p [
        | batch b ↦ some (record {
          ops = f.ops ++ b.ops;
          applied = f.applied ++ name ∷ [];
          heads = f.heads ++ h.stamp ∷ [];
        })
        | snapshot x ↦ none
      ]

module _ {Row : Type 0} (e : Entity Row) where
  unfoldable pub row_operations : EntityName → Text → List Row → List (Operation Row)
  row_operations entity device [] = []
  row_operations entity device (row ∷ rows) =
      record {
        hlc = e.updated_at row;
        entity = entity;
        entity_id = e.id row;
        op = OpKind.put;
        value = some row;
        device = device;
      }
      ∷ row_operations entity device rows

  -- `value.entities[name] ?? []`
  unfoldable pub entity_rows : EntityName → List (EntityName × List Row) → List Row
  entity_rows name [] = []
  entity_rows name ((other, rows) ∷ entities) =
      if eq_entity other name then rows else entity_rows name entities

  unfoldable pub operations_from : List EntityName → LedgerSnapshot Row → List (Operation Row)
  operations_from [] x = []
  operations_from (name ∷ names) x =
      row_operations name x.device (entity_rows name x.entities) ++ operations_from names x

  -- The operations that a snapshot stands for.
  unfoldable pub snapshot_operations : LedgerSnapshot Row → List (Operation Row)
  snapshot_operations x = operations_from entity_names x

-- The last of the listed names.
unfoldable pub newest_name : List Text → Option Text
newest_name [] = none
newest_name (name ∷ []) = some name
newest_name (name ∷ (other ∷ names)) = newest_name (other ∷ names)

module _ {Row Bytes : Type 0} (e : Entity Row) (c : Cipher Row Bytes) (a : Adapter Bytes) (wall : ℕ)
    (v : Vault) where
  -- `adapter.get` and `openJson`
  unfoldable pub download : Text → M Row a.Store (Header × Payload Row)
  download name = remote (a.get name) >>= λ bytes. elim (c.open_json bytes) [
    | none ↦ throw bad_envelope
    | some opened ↦ return opened
  ]

  unfoldable pub fetch : List Text → Fetched Row → M Row a.Store (Fetched Row)
  fetch [] f = return f
  fetch (name ∷ names) f = download name >>= λ opened. elim (take_object v name opened f) [
    | none ↦ throw bad_payload
    | some g ↦ fetch names g
  ]

  unfoldable pub merge_fetched : Fetched Row → M Row a.Store ℕ
  merge_fetched f =
      on_ledger (observe_stamps wall f.heads)
      >> (on_ledger (merge e f.ops) >>= λ count. mark_applied f.applied >> return count)

  -- What `applySnapshot` does with an opened snapshot of the vault.
  unfoldable pub apply_opened : Text → LedgerSnapshot Row → M Row a.Store (Option Text)
  apply_opened name x =
      on_ledger (observe_stamps wall (x.watermark ∷ []))
      >> (on_ledger (merge e (snapshot_operations e x))
          >> (mark_applied (name ∷ [])
              >> (local (λ d. record d { last_snapshot = some x.watermark })
                  >> return (some x.watermark))))

  unfoldable pub check_snapshot : Text → Header × Payload Row → M Row a.Store (Option Text)
  check_snapshot name (h, p) =
      if not (eq_text h.vault v.vault_id)
      then return none
      else elim p [ batch b ↦ throw bad_payload | snapshot x ↦ apply_opened name x ]

  unfoldable pub apply_newest : List Text → Option Text → M Row a.Store (Option Text)
  apply_newest seen none = return none
  apply_newest seen (some name) =
      if has_name seen name then return none else download name >>= check_snapshot name

  -- `applySnapshot`: the watermark, if a snapshot was applied.
  unfoldable pub apply_snapshot : List Text → M Row a.Store (Option Text)
  apply_snapshot seen = remote (a.list (snapshot_prefix v.vault_id)) >>= λ names.
      apply_newest seen (newest_name names)

  unfoldable pub pull_fresh : List Text → M Row a.Store ℕ
  pull_fresh [] = return 0
  pull_fresh (name ∷ names) = fetch (name ∷ names) nothing_fetched >>= merge_fetched

  -- `pull` behind the listing of the operations.
  unfoldable pub pull_listed : List Text → Option Text → List Text → M Row a.Store ℕ
  pull_listed seen watermark names =
      mark_applied (covered_names seen watermark names)
      >> pull_fresh (fresh_names seen watermark names)

  -- `pull`. The name of an applied snapshot joins the names seen; no operation has it.
  unfoldable pub pull : M Row a.Store ℕ
  pull d =
      (apply_snapshot d.applied >>= λ watermark.
      remote (a.list (ops_prefix v.vault_id)) >>= λ names. pull_listed d.applied watermark names)
        d
