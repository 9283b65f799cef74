-- ===== src/Backup/Restores.antt =====
-- `restore` of app/src/app/core/backup/backup.service.ts does not undo what is newer than the backup.
use easy_docket.Base.{
  ℕ, ◌+◌, ◌≡◌, ◌⊎◌, inl, inr, refl, sym, ◌∙◌, ap, false, Option, none, some, List, [], ◌∷◌, In,
  Bool-cases, subst,
}
use easy_docket.Base.Text.{ltb_text}
use easy_docket.Models.{EntityName, entity_names, Key, eq_key, eq_key→eq}
use easy_docket.Db.{get_row}
use easy_docket.Ledger.{Ledger, put}
use easy_docket.Ledger
use easy_docket.Ledger.Puts.{put_other}
use easy_docket.Rows.{AnyEntity, id_of, stamp_of, any_entity}
use easy_docket.Sync.Pull.{entity_rows}
use easy_docket.Backup.{
  BackupPayload, RestoreResult, supersedes, is_newer_locally, restore_rows, restore_entities,
  restore,
}

pub Result-cases :
    {A : Type 0} (r : Ledger.Result A)
    → ((a : A) × (r ≡ Ledger.ok a)) ⊎ ((x : Ledger.Error) × (r ≡ Ledger.err x))
Result-cases (Ledger.ok a) = inl (a, refl)
Result-cases (Ledger.err x) = inr (x, refl)

module _ {Rate : Type 0} where
  -- There is no row, or one with a stamp that is not above that of the backup's row.
  abbrev pub NotNewer : Option (AnyEntity Rate) → AnyEntity Rate → Type 0
  NotNewer none row = Unit
  NotNewer (some existing) row = ltb_text (stamp_of row) (stamp_of existing) ≡ false

  supersedes-NotNewer :
      (existing : Option (AnyEntity Rate)) (row : AnyEntity Rate)
      → supersedes existing row ≡ false
      → NotNewer existing row
  unfolding supersedes
  supersedes-NotNewer none row h = tt
  supersedes-NotNewer (some existing) row h = h

module _ {Rate : Type 0} (wall : Key → ℕ) (payload : BackupPayload Rate)
    (l0 : Ledger (AnyEntity Rate)) where
  -- The backup has a row under the key, and the ledger had no newer one.
  abbrev pub Replaces : Key → Type 0
  Replaces k =
      (row : AnyEntity Rate) × In row (entity_rows any_entity (k.0) payload.entities)
      × (id_of row ≡ k.1)
      × NotNewer (get_row k l0.tables) row

  -- Each row is as it was, or replaced by the backup.
  abbrev pub Spares : Ledger (AnyEntity Rate) → Type 0
  Spares l = (k : Key) → (get_row k l.tables ≡ get_row k l0.tables) ⊎ Replaces k

  restore_one :
      (name : EntityName) (row : AnyEntity Rate) (l : Ledger (AnyEntity Rate))
      → In row (entity_rows any_entity name payload.entities)
      → is_newer_locally name row l ≡ false
      → Spares l
      → Spares (put any_entity (wall (name, id_of row)) name row l).1
  unfolding is_newer_locally
  restore_one name row l m fresh h k = elim (Bool-cases (eq_key (name, id_of row) k)) [
    | inr other ↦ elim (h k) [
      | inl same ↦ inl (put_other any_entity (wall (name, id_of row)) name row l k other ∙ same)
      | inr gone ↦ inr gone
    ]
    | inl own ↦ elim (h k) [
      | inl same ↦ inr (here k (eq_key→eq (name, id_of row) k own) same)
      | inr gone ↦ inr gone
    ]
  ]
    where
      here :
          (j : Key) → (name, id_of row) ≡ j → get_row j l.tables ≡ get_row j l0.tables → Replaces j
      here j e same =
          subst (λ i. get_row i l.tables ≡ get_row i l0.tables → Replaces i) e
            (λ f. (
              row,
              m,
              refl,
              supersedes-NotNewer _ row (ap (λ r. supersedes r row) (sym f) ∙ fresh),
            ))
            same

  restore_rows-Spares :
      (name : EntityName) (rows : List (AnyEntity Rate)) (done : RestoreResult)
      (l : Ledger (AnyEntity Rate))
      → ((row : AnyEntity Rate)
          → In row rows
          → In row (entity_rows any_entity name payload.entities))
      → Spares l
      → Spares (restore_rows wall name rows done l).1
  unfolding restore_rows
  restore_rows-Spares name [] done l from h = h
  restore_rows-Spares name (row ∷ rows) done l from h =
      let s = put any_entity (wall (name, id_of row)) name row l in
      elim (Bool-cases (is_newer_locally name row l)) [
        | inl newer ↦ rw newer (
            restore_rows-Spares name rows (record done { skipped = done.skipped + 1 }) l
              (λ r m. from r (inr m)) h)
        | inr older ↦
            (let h' = restore_one name row l (from row (inl refl)) older h in
              elim (Result-cases s.0) [
                | inl (written, e) ↦
                    rw (older, e)
                      (restore_rows-Spares name rows (record done { restored = done.restored + 1 })
                        s.1 (λ r m. from r (inr m)) h')
                | inr (x, e) ↦ rw (older, e) h'
              ])
      ]

  pub entity_done :
      (name : EntityName) (names : List EntityName) (done done' : RestoreResult)
      (l : Ledger (AnyEntity Rate))
      → let s = restore_rows wall name (entity_rows any_entity name payload.entities) done l in
        s.0 ≡ Ledger.ok done'
        → restore_entities wall (name ∷ names) payload done l
          ≡ restore_entities wall names payload done' s.1
  unfolding restore_entities
  entity_done name names done done' l e = rw (e, restore_entities) refl

  pub entity_fails :
      (name : EntityName) (names : List EntityName) (done : RestoreResult)
      (l : Ledger (AnyEntity Rate)) (x : Ledger.Error)
      → let s = restore_rows wall name (entity_rows any_entity name payload.entities) done l in
        s.0 ≡ Ledger.err x
        → restore_entities wall (name ∷ names) payload done l ≡ (Ledger.err x, s.1)
  unfolding restore_entities
  entity_fails name names done l x e = rw (e, restore_entities) refl

  restore_entities-Spares :
      (names : List EntityName) (done : RestoreResult) (l : Ledger (AnyEntity Rate))
      → Spares l
      → Spares (restore_entities wall names payload done l).1
  restore_entities-Spares [] done l h = unfold restore_entities in h
  restore_entities-Spares (name ∷ names) done l h =
      let s = restore_rows wall name (entity_rows any_entity name payload.entities) done l in
      let h' =
        restore_rows-Spares name (entity_rows any_entity name payload.entities) done l (λ r m. m)
          h in
      elim (Result-cases s.0) [
        | inl (done', e) ↦
            rw (entity_done name names done done' l e) (restore_entities-Spares names done' s.1 h')
        | inr (x, e) ↦ rw (entity_fails name names done l x e) h'
      ]

  -- Whatever a restore returns or throws, each row of the ledger is as it was, or the backup has a row with
  -- its entity and id, and the ledger had none under them or one that is not newer than that of the backup.
  pub restore-Spares : Spares (restore wall payload l0).1
  unfolding restore
  restore-Spares =
      restore_entities-Spares entity_names (record { restored = 0; skipped = 0 }) l0 (λ k. inl refl)
