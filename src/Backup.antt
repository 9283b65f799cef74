-- ===== src/Backup.antt =====
-- Backups: app/src/app/core/backup/backup.ts, and `build`, `export`, `inspect` and `restore` of
-- backup.service.ts. The rows of a
-- backup are the rows of the model, so each has an id; what a file that holds anything else gives is not
-- modelled.
pub mod Restores
pub mod Complete
pub mod RoundTrip
mod Tests
use easy_docket.Base.{
  ℕ, ◌+◌, ◌==◌, not, Bool, true, false, Option, none, some, List, [], ◌∷◌, if◌then◌else◌, length,
}
use easy_docket.Base.Text.{Text, ltb_text, eq_text}
use easy_docket.Models.{EntityName, entity_names, Key}
use easy_docket.Db.{get_row}
use easy_docket.Ledger.{Ledger, put}
use easy_docket.Ledger
use easy_docket.Rows.{AnyEntity, id_of, stamp_of, any_entity}
use easy_docket.Sync.Pull.{entity_rows}
use easy_docket.Sync.Snapshot.{all_entities}

-- `BACKUP_FORMAT`
abbrev pub backup_format : ℕ
backup_format = 1

-- `BackupPayload`
pub record BackupPayload (Rate : Type 0) : Type 0 where
  pub format : ℕ
  pub taken_at : ℕ
  pub vault_id : Text
  pub entities : List (EntityName × List (AnyEntity Rate))

module _ {Rate : Type 0} where
  unfoldable pub count_entities : List (EntityName × List (AnyEntity Rate)) → ℕ
  count_entities [] = 0
  count_entities ((name, rows) ∷ entities) = length rows + count_entities entities

  -- `countRows`
  unfoldable pub count_rows : BackupPayload Rate → ℕ
  count_rows payload = count_entities payload.entities

  -- `build` at the time `now`, under the vault's id.
  unfoldable pub build : ℕ → Text → Ledger (AnyEntity Rate) → BackupPayload Rate
  build now vault_id l = record {
    format = backup_format;
    taken_at = now;
    vault_id = vault_id;
    entities = all_entities entity_names l.tables;
  }

-- Why a file is refused.
pub data BackupFormatError : Type 0 where
  unreadable no_vault other_vault : BackupFormatError
  other_format : ℕ → BackupFormatError

pub data Inspected (Rate : Type 0) : Type 0 where
  accepted : BackupPayload Rate → Inspected Rate
  refused : BackupFormatError → Inspected Rate

module _ {Rate : Type 0} where
  -- `validateBackup`, on a payload whose sections are rows of the model.
  unfoldable pub validate_backup : BackupPayload Rate → Inspected Rate
  validate_backup payload =
      if not (payload.format == backup_format)
      then refused (other_format payload.format)
      else if eq_text payload.vault_id []
      then refused no_vault
      else accepted (record payload { format = backup_format })

  unfoldable pub check_vault : Text → Inspected Rate → Inspected Rate
  check_vault vault_id (refused x) = refused x
  check_vault vault_id (accepted payload) =
      if eq_text payload.vault_id vault_id then accepted payload else refused other_vault

  unfoldable pub inspect_opened : Text → Option (BackupPayload Rate) → Inspected Rate
  inspect_opened vault_id none = refused unreadable
  inspect_opened vault_id (some payload) = check_vault vault_id (validate_backup payload)

  -- `inspect`; files, and decoding and opening them, are parameters.
  unfoldable pub inspect :
      {File : Type 0} → (File → Option (BackupPayload Rate)) → Text → File → Inspected Rate
  inspect open_file vault_id contents = inspect_opened vault_id (open_file contents)

  -- `export`: the sealed file and the number of its rows. The name of the file is cosmetic.
  unfoldable pub export :
      {File : Type 0} → (BackupPayload Rate → File) → ℕ → Text → Ledger (AnyEntity Rate) → File × ℕ
  export seal_file now vault_id l =
      let payload = build now vault_id l in (seal_file payload, count_rows payload)

-- `RestoreResult`
pub record RestoreResult : Type 0 where
  pub restored : ℕ
  pub skipped : ℕ

-- What a restore returns or throws, and the ledger.
abbrev pub Restore : Type 0 → Type 0
Restore Rate = Ledger.Step (AnyEntity Rate) RestoreResult

module _ {Rate : Type 0} where
  -- `existing !== undefined && existing.updatedAt > row.updatedAt`
  unfoldable pub supersedes : Option (AnyEntity Rate) → AnyEntity Rate → Bool
  supersedes none row = false
  supersedes (some existing) row = ltb_text (stamp_of row) (stamp_of existing)

  -- `isNewerLocally`
  unfoldable pub is_newer_locally : EntityName → AnyEntity Rate → Ledger (AnyEntity Rate) → Bool
  is_newer_locally name row l = supersedes (get_row (name, id_of row) l.tables) row

  -- The loop over the rows of an entity, each written at the time that `wall` gives it.
  unfoldable pub restore_rows :
      (Key → ℕ)
      → EntityName
      → List (AnyEntity Rate)
      → RestoreResult
      → Ledger (AnyEntity Rate)
      → Restore Rate
  restore_rows wall name [] done l = (Ledger.ok done, l)
  restore_rows wall name (row ∷ rows) done l =
      let s = put any_entity (wall (name, id_of row)) name row l in
      let left = restore_rows wall name rows (record done { skipped = done.skipped + 1 }) l in
      let rest = restore_rows wall name rows (record done { restored = done.restored + 1 }) s.1 in
      if is_newer_locally name row l
      then left
      else elim s.0 [ Ledger.ok written ↦ rest | Ledger.err e ↦ (Ledger.err e, s.1) ]

  -- The loop over the entities.
  unfoldable pub restore_entities :
      (Key → ℕ)
      → List EntityName
      → BackupPayload Rate
      → RestoreResult
      → Ledger (AnyEntity Rate)
      → Restore Rate
  restore_entities wall [] payload done l = (Ledger.ok done, l)
  restore_entities wall (name ∷ names) payload done l =
      let s = restore_rows wall name (entity_rows any_entity name payload.entities) done l in
      elim s.0 [
        | Ledger.ok done' ↦ restore_entities wall names payload done' s.1
        | Ledger.err e ↦ (Ledger.err e, s.1)
      ]

  -- `restore`
  unfoldable pub restore : (Key → ℕ) → BackupPayload Rate → Ledger (AnyEntity Rate) → Restore Rate
  restore wall payload =
      restore_entities wall entity_names payload (record { restored = 0; skipped = 0 })
