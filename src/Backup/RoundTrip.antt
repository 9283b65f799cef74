-- ===== src/Backup/RoundTrip.antt =====
-- Backups of app/src/app/core/backup/backup.service.ts from building to restoring.
use easy_docket.Base.{
  ℕ, ◌≡◌, ◌⊎◌, inl, inr, refl, sym, ◌∙◌, ap, true, false, Option, some, List, [], ◌∷◌, In,
  Bool-cases, subst, arith,
}
use easy_docket.Base.Text.{Text, eq_text, eq_text_refl, ltb_text}
use easy_docket.Models.{
  EntityName, account_groups, accounts, categories, transactions, budgets, recurring_rules, rates,
  vault_settings, entity_names, Key, eq_entity, eq_key, eq_key_refl, eq_key→eq,
}
use easy_docket.Db.{get_row}
use easy_docket.Ledger.{Ledger}
use easy_docket.Ledger
use easy_docket.Rows.{AnyEntity, id_of, stamp_of, stamped, any_entity}
use easy_docket.Sync.Pull.{entity_rows}
use easy_docket.Sync.Snapshot.{rows_of, all_entities}
use easy_docket.Backup.{
  BackupPayload, RestoreResult, accepted, build, validate_backup, check_vault, inspect_opened,
  inspect, export, restore,
}
use easy_docket.Backup.Complete.{restore-Placed}

eq_entity_refl : (name : EntityName) → eq_entity name name ≡ true
unfolding eq_key
eq_entity_refl name = ground (arith, eq_key_refl (name, []))

eq_entity→eq : (a b : EntityName) → eq_entity a b ≡ true → a ≡ b
unfolding eq_key
eq_entity→eq a b h =
    ap (λ (k : Key). k.0) (eq_key→eq (a, []) (b, []) (ground (arith, eq_text_refl [])))

module _ {Rate : Type 0} where
  -- The rows of a table have different keys, and each has its key's id.
  abbrev pub IsKeyed : List (Key × AnyEntity Rate) → Type 0
  IsKeyed tables =
      (k : Key) (row : AnyEntity Rate)
      → In (k, row) tables
      → (get_row k tables ≡ some row) × (id_of row ≡ k.1)

  get_row-In :
      (k : Key) (row : AnyEntity Rate) (tables : List (Key × AnyEntity Rate))
      → get_row k tables ≡ some row
      → In (k, row) tables
  unfolding get_row
  get_row-In k row [] h = cc
  get_row-In k row ((j, other) ∷ tables) h = elim (Bool-cases (eq_key j k)) [
    | inl own ↦ inl (λ i. (sym (eq_key→eq j k own) i, some_path (sym (rw own at h)) i))
    | inr apart ↦ inr (get_row-In k row tables (rw apart at h))
  ]
    where
      some_path : {a b : AnyEntity Rate} → some a ≡ some b → a ≡ b
      some_path e = cc

  rows_of-In :
      (k : Key) (row : AnyEntity Rate) (tables : List (Key × AnyEntity Rate))
      → In (k, row) tables
      → In row (rows_of (k.0) tables)
  unfolding rows_of
  rows_of-In k row [] m = absurd m
  rows_of-In k row (((entity, id), other) ∷ tables) (inl e) =
      rw
        (subst (λ n. eq_entity n (k.0) ≡ true) (ap (λ (x : Key × AnyEntity Rate). x.0.0) e)
          (eq_entity_refl (k.0)))
        (inl (ap (λ (x : Key × AnyEntity Rate). x.1) e))
  rows_of-In k row (((entity, id), other) ∷ tables) (inr m) =
      let rest = rows_of-In k row tables m in
      elim (Bool-cases (eq_entity entity (k.0))) [
        | inl own ↦ rw own (inr rest)
        | inr apart ↦ rw apart rest
      ]

  In-rows_of :
      (name : EntityName) (row : AnyEntity Rate) (tables : List (Key × AnyEntity Rate))
      → In row (rows_of name tables)
      → (id : Text) × In ((name, id), row) tables
  unfolding rows_of
  In-rows_of name row [] m = absurd m
  In-rows_of name row (((entity, id), other) ∷ tables) m =
      elim (Bool-cases (eq_entity entity name)) [
        | inr apart ↦
            (let (id', there) = In-rows_of name row tables (rw apart at m) in (id', inr there))
        | inl own ↦
            (let listed : In row (other ∷ rows_of name tables) = rw own at m in
              elim listed [
                | inl e ↦ (id, inl (λ i. ((sym (eq_entity→eq entity name own) i, id), e i)))
                | inr later ↦
                    (let (id', there) = In-rows_of name row tables later in (id', inr there))
              ])
      ]

  entity_rows-all_entities :
      (name : EntityName) (tables : List (Key × AnyEntity Rate))
      → entity_rows any_entity name (all_entities entity_names tables) ≡ rows_of name tables
  unfolding entity_rows all_entities eq_entity
  entity_rows-all_entities account_groups tables = refl
  entity_rows-all_entities accounts tables = refl
  entity_rows-all_entities categories tables = refl
  entity_rows-all_entities transactions tables = refl
  entity_rows-all_entities budgets tables = refl
  entity_rows-all_entities recurring_rules tables = refl
  entity_rows-all_entities rates tables = refl
  entity_rows-all_entities vault_settings tables = refl

module _ {Rate : Type 0} (now : ℕ) (vault_id : Text) (l : Ledger (AnyEntity Rate)) where
  inspect-build :
      {File : Type 0} (open_file : File → Option (BackupPayload Rate))
      (seal_file : BackupPayload Rate → File)
      → ((payload : BackupPayload Rate) → open_file (seal_file payload) ≡ some payload)
      → eq_text vault_id [] ≡ false
      → inspect open_file vault_id (export seal_file now vault_id l).0
        ≡ accepted (build now vault_id l)
  unfolding inspect inspect_opened check_vault validate_backup export build
  inspect-build open_file seal_file opens named =
      rw (opens (build now vault_id l), named, eq_text_refl vault_id) refl

  build-In :
      (k : Key) (row : AnyEntity Rate)
      → get_row k l.tables ≡ some row
      → In row (entity_rows any_entity (k.0) (build now vault_id l).entities)
  unfolding build
  build-In k row h =
      rw (entity_rows-all_entities (k.0) l.tables)
        (rows_of-In k row l.tables (get_row-In k row l.tables h))

  -- The rows of the built backup are told apart by their entity and id.
  build-only :
      (name : EntityName) (row other : AnyEntity Rate)
      → IsKeyed l.tables
      → In row (entity_rows any_entity name (build now vault_id l).entities)
      → In other (entity_rows any_entity name (build now vault_id l).entities)
      → id_of other ≡ id_of row
      → other ≡ row
  unfolding build
  build-only name row other keyed m n same =
      let (i, here) = In-rows_of name row l.tables (listed row m) in
      let (j, there) = In-rows_of name other l.tables (listed other n) in
      let (found, own) = keyed (name, i) row here in
      let (found', own') = keyed (name, j) other there in
      let ids : j ≡ i = sym own' ∙ same ∙ own in
      some_path (sym found' ∙ ap (λ x. get_row (name, x) l.tables) ids ∙ found)
    where
      listed :
          (r : AnyEntity Rate)
          → In r (entity_rows any_entity name (build now vault_id l).entities)
          → In r (rows_of name l.tables)
      listed r p = subst (λ rows. In r rows) (entity_rows-all_entities name l.tables) p

      some_path : {a b : AnyEntity Rate} → some a ≡ some b → a ≡ b
      some_path e = cc

  -- Where a sealed file opens to what was sealed, the vault has an id, and the rows of each table have
  -- different keys, which are their ids: the exported file of a ledger is accepted by the vault as the
  -- backup that was built, and when this backup is restored into any ledger and the restore returns,
  -- each row of the first ledger is in the second one, with some stamp, unless the second one had a
  -- newer row there, which stays.
  pub export-restore :
      {File : Type 0} (open_file : File → Option (BackupPayload Rate))
      (seal_file : BackupPayload Rate → File) (wall : Key → ℕ) (l0 : Ledger (AnyEntity Rate))
      (done : RestoreResult) (k : Key) (row : AnyEntity Rate)
      → ((payload : BackupPayload Rate) → open_file (seal_file payload) ≡ some payload)
      → eq_text vault_id [] ≡ false
      → IsKeyed l.tables
      → let payload = build now vault_id l in
        let l' = (restore wall payload l0).1 in
        (restore wall payload l0).0 ≡ Ledger.ok done
        → get_row k l.tables ≡ some row
        → (inspect open_file vault_id (export seal_file now vault_id l).0 ≡ accepted payload)
          × ((r : AnyEntity Rate) × (get_row k l'.tables ≡ some r)
              × (((stamp : Text) × (r ≡ stamped stamp row))
                  ⊎ ((get_row k l0.tables ≡ some r)
                      × (ltb_text (stamp_of row) (stamp_of r) ≡ true))))
  export-restore open_file seal_file wall l0 done k row opens named keyed e found =
      let payload = build now vault_id l in
      let l' = (restore wall payload l0).1 in
      let own : id_of row ≡ k.1 = (keyed k row (get_row-In k row l.tables found)).1 in
      let held = build-In k row found in
      (
        inspect-build open_file seal_file opens named,
        subst
            (λ id.
              (r : AnyEntity Rate) × (get_row (k.0, id) l'.tables ≡ some r)
              × (((stamp : Text) × (r ≡ stamped stamp row))
                  ⊎ ((get_row (k.0, id) l0.tables ≡ some r)
                      × (ltb_text (stamp_of row) (stamp_of r) ≡ true))))
            own
            (restore-Placed wall payload l0 row (k.0)
              (λ other n same. build-only (k.0) row other keyed held n same) done held e),
      )
