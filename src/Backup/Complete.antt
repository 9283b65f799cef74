-- ===== src/Backup/Complete.antt =====
-- Where `restore` of app/src/app/core/backup/backup.service.ts puts the rows of a backup.
use easy_docket.Base.{
  ℕ, ◌+◌, ◌≡◌, ◌⊎◌, inl, inr, refl, sym, ◌∙◌, ap, true, Option, none, some, List, [], ◌∷◌, In,
  Bool-cases, subst,
}
use easy_docket.Base.Text.{Text, ltb_text}
use easy_docket.Models.{
  EntityName, account_groups, accounts, categories, transactions, budgets, recurring_rules, rates,
  vault_settings, entity_names, Key, eq_key, eq_key→eq,
}
use easy_docket.Db.{get_row}
use easy_docket.Ledger.{Ledger, put}
use easy_docket.Ledger
use easy_docket.Ledger.Puts.{put_other, put-returns}
use easy_docket.Rows.{AnyEntity, id_of, stamp_of, stamped, any_entity}
use easy_docket.Sync.Pull.{entity_rows}
use easy_docket.Backup.{
  BackupPayload, RestoreResult, supersedes, is_newer_locally, restore_rows, restore_entities,
  restore,
}
use easy_docket.Backup.Restores.{Result-cases, entity_done, entity_fails}

ok_inj : {A : Type 0} {a b : A} → Ledger.ok a ≡ Ledger.ok b → a ≡ b
ok_inj e = cc

err_clash :
    {A B : Type 0} {x : Ledger.Error} {a : A}
    → ◌≡◌ {A = Ledger.Result A} (Ledger.err x) (Ledger.ok a)
    → B
err_clash e = cc

-- A row that is newer is there.
supersedes-found :
    {Rate : Type 0} (existing : Option (AnyEntity Rate)) (row : AnyEntity Rate)
    → supersedes existing row ≡ true
    → (r : AnyEntity Rate) × (existing ≡ some r) × (ltb_text (stamp_of row) (stamp_of r) ≡ true)
unfolding supersedes
supersedes-found none row h = cc
supersedes-found (some r) row h = (r, refl, h)

module _ {Rate : Type 0} (wall : Key → ℕ) (payload : BackupPayload Rate)
    (l0 : Ledger (AnyEntity Rate)) (row : AnyEntity Rate) (name : EntityName)
    (only : (other : AnyEntity Rate)
      → In other (entity_rows any_entity name payload.entities)
      → id_of other ≡ id_of row
      → other ≡ row) where
  abbrev key : Key
  key = (name, id_of row)

  -- Under the row's key is the row with a stamp, or what the ledger had, which is newer.
  abbrev pub Placed : Ledger (AnyEntity Rate) → Type 0
  Placed l =
      (r : AnyEntity Rate) × (get_row key l.tables ≡ some r)
      × (((stamp : Text) × (r ≡ stamped stamp row))
          ⊎ ((get_row key l0.tables ≡ some r) × (ltb_text (stamp_of row) (stamp_of r) ≡ true)))

  abbrev Pending : Ledger (AnyEntity Rate) → Type 0
  Pending l = (get_row key l.tables ≡ get_row key l0.tables) ⊎ Placed l

  -- From one ledger to a later one.
  record Goes (l l' : Ledger (AnyEntity Rate)) : Type 0 where
    still_pending : Pending l → Pending l'
    still_placed : Placed l → Placed l'

  no_step : (l : Ledger (AnyEntity Rate)) → Goes l l
  no_step l = record { still_pending = λ h. h; still_placed = λ h. h }

  both_steps : (l l' l'' : Ledger (AnyEntity Rate)) → Goes l l' → Goes l' l'' → Goes l l''
  both_steps l l' l'' a b = record {
    still_pending = λ h. b.still_pending (a.still_pending h);
    still_placed = λ h. b.still_placed (a.still_placed h);
  }

  -- Where the row under the key is as before, nothing is lost.
  same-Goes :
      (l l' : Ledger (AnyEntity Rate)) → get_row key l'.tables ≡ get_row key l.tables → Goes l l'
  same-Goes l l' e =
      let stays : Placed l → Placed l' = λ (r, found, h). (r, e ∙ found, h) in
      record {
        still_pending = λ h. elim h [ inl same ↦ inl (e ∙ same) | inr p ↦ inr (stays p) ];
        still_placed = stays;
      }

  Placed-Goes : (l l' : Ledger (AnyEntity Rate)) → Placed l' → Goes l l'
  Placed-Goes l l' p = record { still_pending = λ h. inr p; still_placed = λ h. p }

  -- A row of the backup that is written is put under its key.
  put-Placed :
      (table : EntityName) (other written : AnyEntity Rate) (l : Ledger (AnyEntity Rate))
      → let s = put any_entity (wall (table, id_of other)) table other l in
        table ≡ name → other ≡ row → s.0 ≡ Ledger.ok written → Placed s.1
  put-Placed table other written l t same e =
      let s = put any_entity (wall (table, id_of other)) table other l in
      elim (put-returns any_entity (wall (table, id_of other)) table other l) [
        | inr (x, bad, _) ↦ err_clash (sym bad ∙ e)
        | inl (stamp, _, read) ↦ (
          stamped stamp other,
          subst (λ (k : Key). get_row k s.1.tables ≡ some (stamped stamp other))
              (λ i. (t i, id_of (same i))) read,
          inl (stamp, ap (λ r. stamped stamp r) same),
        )
      ]

  -- A row of the backup with the key is the row.
  is_row :
      (table : EntityName) (other : AnyEntity Rate)
      → In other (entity_rows any_entity table payload.entities)
      → ◌≡◌ {A = Key} (table, id_of other) key
      → (table ≡ name) × (other ≡ row)
  is_row table other m q =
      let t : table ≡ name = ap (λ (k : Key). k.0) q in
      (
        t,
        only other (subst (λ n. In other (entity_rows any_entity n payload.entities)) t m)
            (ap (λ (k : Key). k.1) q),
      )

  put-Goes :
      (table : EntityName) (other written : AnyEntity Rate) (l : Ledger (AnyEntity Rate))
      → In other (entity_rows any_entity table payload.entities)
      → let s = put any_entity (wall (table, id_of other)) table other l in
        s.0 ≡ Ledger.ok written → Goes l s.1
  put-Goes table other written l m e =
      let s = put any_entity (wall (table, id_of other)) table other l in
      elim (Bool-cases (eq_key (table, id_of other) key)) [
        | inr apart ↦
            same-Goes l s.1
              (put_other any_entity (wall (table, id_of other)) table other l key apart)
        | inl own ↦
            (let (t, same) = is_row table other m (eq_key→eq (table, id_of other) key own) in
              Placed-Goes l s.1 (put-Placed table other written l t same e))
      ]

  -- A row that is left out because what is there is newer.
  newer-Placed :
      (table : EntityName) (other : AnyEntity Rate) (l : Ledger (AnyEntity Rate))
      → table ≡ name
      → other ≡ row
      → is_newer_locally table other l ≡ true
      → Pending l
      → Placed l
  unfolding is_newer_locally
  newer-Placed table other l t same newer (inr p) = p
  newer-Placed table other l t same newer (inl untouched) =
      let here : supersedes (get_row key l.tables) row ≡ true =
        subst (λ (k : Key). supersedes (get_row k l.tables) row ≡ true) (λ i. (t i, id_of (same i)))
          (subst (λ r. supersedes (get_row (table, id_of other) l.tables) r ≡ true) same newer) in
      let (r, found, above) = supersedes-found (get_row key l.tables) row here in
      (r, found, inr (sym untouched ∙ found, above))

  -- What a loop that returns does.
  record Loop (table : EntityName) (rows : List (AnyEntity Rate)) (l l' : Ledger (AnyEntity Rate))
      : Type 0 where
    goes : Goes l l'
    places : table ≡ name → In row rows → Pending l → Placed l'

  restore_rows-Loop :
      (table : EntityName) (rows : List (AnyEntity Rate)) (done done' : RestoreResult)
      (l : Ledger (AnyEntity Rate))
      → ((r : AnyEntity Rate) → In r rows → In r (entity_rows any_entity table payload.entities))
      → (restore_rows wall table rows done l).0 ≡ Ledger.ok done'
      → Loop table rows l (restore_rows wall table rows done l).1
  unfolding restore_rows
  restore_rows-Loop table [] done done' l from e = record {
    goes = no_step l;
    places = λ t m. absurd m;
  }
  restore_rows-Loop table (other ∷ rows) done done' l from e =
      let s = put any_entity (wall (table, id_of other)) table other l in
      let skipping : RestoreResult = record done { skipped = done.skipped + 1 } in
      let counting : RestoreResult = record done { restored = done.restored + 1 } in
      elim (Bool-cases (is_newer_locally table other l)) [
        | inl newer ↦
            (let rest =
                restore_rows-Loop table rows skipping done' l (λ r m. from r (inr m))
                  (rw newer at e) in
              rw newer (record {
                goes = rest.goes;
                places = λ t m p. elim m [
                  | inl same ↦
                      rest.goes.still_placed (newer-Placed table other l t (sym same) newer p)
                  | inr later ↦ rest.places t later p
                ];
              }))
        | inr older ↦ elim (Result-cases s.0) [
          | inr (x, bad) ↦ err_clash (rw (older, bad) at e)
          | inl (written, fine) ↦
              (let rest =
                  restore_rows-Loop table rows counting done' s.1 (λ r m. from r (inr m))
                    (rw (older, fine) at e) in
                let one = put-Goes table other written l (from other (inl refl)) fine in
                rw (older, fine)
                  (record {
                    goes = both_steps l s.1 _ one rest.goes;
                    places = λ t m p. elim m [
                      | inl same ↦
                          rest.goes.still_placed
                            (put-Placed table other written l t (sym same) fine)
                      | inr later ↦ rest.places t later (one.still_pending p)
                    ];
                  }))
        ]
      ]

  restore_entities-Loop :
      (names : List EntityName) (done done' : RestoreResult) (l : Ledger (AnyEntity Rate))
      → (restore_entities wall names payload done l).0 ≡ Ledger.ok done'
      → Goes l (restore_entities wall names payload done l).1
        × (In name names
            → In row (entity_rows any_entity name payload.entities)
            → Pending l
            → Placed (restore_entities wall names payload done l).1)
  restore_entities-Loop [] done done' l e = unfold restore_entities in (no_step l, λ m. absurd m)
  restore_entities-Loop (table ∷ names) done done' l e =
      let rows = entity_rows any_entity table payload.entities in
      let s = restore_rows wall table rows done l in
      elim (Result-cases s.0) [
        | inr (x, bad) ↦
            err_clash
              (sym (ap (λ s. s.0) (entity_fails wall payload l0 table names done l x bad)) ∙ e)
        | inl (counted, fine) ↦
            (let next = entity_done wall payload l0 table names done counted l fine in
              let one = restore_rows-Loop table rows done counted l (λ r m. m) fine in
              let (goes, places) =
                restore_entities-Loop names counted done' s.1 (sym (ap (λ s. s.0) next) ∙ e) in
              rw next (
                both_steps l s.1 _ one.goes goes,
                λ m held p. elim m [
                  | inl same ↦ goes.still_placed (
                      one.places (sym same)
                        (subst (λ n. In row (entity_rows any_entity n payload.entities)) same held)
                        p)
                  | inr later ↦ places later held (one.goes.still_pending p)
                ],
              ))
      ]

  every_entity : In name entity_names
  every_entity = by_name name
    where
      by_name : (n : EntityName) → In n entity_names
      by_name account_groups = inl refl
      by_name accounts = inr (inl refl)
      by_name categories = inr (inr (inl refl))
      by_name transactions = inr (inr (inr (inl refl)))
      by_name budgets = inr (inr (inr (inr (inl refl))))
      by_name recurring_rules = inr (inr (inr (inr (inr (inl refl)))))
      by_name rates = inr (inr (inr (inr (inr (inr (inl refl))))))
      by_name vault_settings = inr (inr (inr (inr (inr (inr (inr (inl refl)))))))

  -- A restore that returns places each row that is the only one of its entity and id in the backup.
  pub restore-Placed :
      (done : RestoreResult)
      → In row (entity_rows any_entity name payload.entities)
      → (restore wall payload l0).0 ≡ Ledger.ok done
      → Placed (restore wall payload l0).1
  unfolding restore
  restore-Placed done held e =
      (restore_entities-Loop entity_names (record { restored = 0; skipped = 0 }) done l0 e).1
        every_entity held (inl refl)
