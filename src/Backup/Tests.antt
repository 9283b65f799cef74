-- ===== src/Backup/Tests.antt =====
-- A backup of one group, restored where the group has changed since.
use easy_docket.Base.{ℕ, ◌≡◌, ◌⊎◌, inl, inr, refl, sym, true, false, none, some, [], ◌∷◌}
use easy_docket.Base.Int.{pos}
use easy_docket.Base.Text.{Text, codes, eq_text, ltb_text}
use easy_docket.Models.{Key, account_groups, eq_key}
use easy_docket.Models.Records.{AccountGroup, default}
use easy_docket.Db.{get_row}
use easy_docket.Ledger.{Ledger}
use easy_docket.Ledger
use easy_docket.Rows.{AnyEntity, account_group_row, stamped, stamp_of}
use easy_docket.Sync.Pull.{entity_rows}
use easy_docket.Backup.{
  BackupPayload, restore, restore_entities, restore_rows, is_newer_locally, supersedes,
}
use easy_docket.Hlc.{tick}
use easy_docket.Sync.Snapshot.{all_entities, rows_of}
use easy_docket.Models.{eq_entity}
use easy_docket.Base.{subst}
use easy_docket.Rows.{id_of}
use easy_docket.Backup.{build, inspect, accepted, export}
use easy_docket.Backup.RoundTrip.{IsKeyed, export-restore}
use easy_docket.Backup.Restores.{Replaces, restore-Spares}

abbrev savings : AccountGroup
savings = record {
  id = codes "g1";
  name = codes "Savings";
  type = default;
  order = pos 0;
  colour = [];
  icon = [];
  archived = false;
  created_at = 0;
  updated_at = codes "a";
}

abbrev payload : BackupPayload ℕ
payload = record {
  format = 1;
  taken_at = 0;
  vault_id = codes "v";
  entities = (account_groups, account_group_row savings ∷ []) ∷ [];
}

abbrev edited : Ledger (AnyEntity ℕ)
edited = record {
  tables =
      (
        (account_groups, codes "g1"),
        account_group_row (record savings { name = codes "Rainy days"; updated_at = codes "b" }),
      )
      ∷ [];
  oplog = [];
  saved_clock = none;
  clock = some (record { device = codes "p"; state = record { physical = 10; counter = 0 } });
}

abbrev at_noon : Key → ℕ
at_noon k = 20

restore-Spares_example :
    let k : Key = (account_groups, codes "g1") in
    (get_row k (restore at_noon payload edited).1.tables ≡ get_row k edited.tables)
    ⊎ Replaces at_noon payload edited k
restore-Spares_example = restore-Spares at_noon payload edited (account_groups, codes "g1")

edit_stays :
    restore at_noon payload edited ≡ (Ledger.ok (record { restored = 0; skipped = 1 }), edited)
unfolding restore restore_entities restore_rows is_newer_locally supersedes get_row eq_key eq_text
    ltb_text entity_rows
edit_stays = refl

-- A device that still has the group as it was.
abbrev behind : Ledger (AnyEntity ℕ)
behind = record edited { tables = ((account_groups, codes "g1"), account_group_row savings) ∷ [] }

abbrev rainy : AnyEntity ℕ
rainy = account_group_row (record savings { name = codes "Rainy days"; updated_at = codes "b" })

edited-IsKeyed : IsKeyed edited.tables
unfolding get_row eq_key eq_text
edited-IsKeyed k row (inl e) = (
  subst (λ (x : Key × AnyEntity ℕ). get_row (x.0) edited.tables ≡ some (x.1)) (sym e) refl,
  subst (λ (x : Key × AnyEntity ℕ). id_of (x.1) ≡ x.0.1) (sym e) refl,
)
edited-IsKeyed k row (inr m) = absurd m

one_restored :
    (restore at_noon (build 7 (codes "v") edited) behind).0
    ≡ Ledger.ok (record { restored = 1; skipped = 0 })
unfolding restore restore_entities restore_rows entity_rows build all_entities eq_entity rows_of
    is_newer_locally supersedes get_row eq_key eq_text ltb_text Ledger.put tick
one_restored = refl

export-restore_example :
    let backup = build 7 (codes "v") edited in
    let k : Key = (account_groups, codes "g1") in
    (inspect {File = BackupPayload ℕ}
        (λ p. some p)
        (codes "v")
        (export {File = BackupPayload ℕ} (λ p. p) 7 (codes "v") edited).0
      ≡ accepted backup)
    × ((r : AnyEntity ℕ) × (get_row k (restore at_noon backup behind).1.tables ≡ some r)
        × (((stamp : Text) × (r ≡ stamped stamp rainy))
            ⊎ ((get_row k behind.tables ≡ some r)
                × (ltb_text (stamp_of rainy) (stamp_of r) ≡ true))))
unfolding eq_text get_row eq_key
export-restore_example =
    export-restore 7 (codes "v") edited {File = BackupPayload ℕ} (λ p. some p) (λ p. p) at_noon
      behind (record { restored = 1; skipped = 0 }) (account_groups, codes "g1") rainy (λ p. refl)
      refl edited-IsKeyed one_restored refl
