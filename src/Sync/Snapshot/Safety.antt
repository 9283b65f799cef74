-- ===== src/Sync/Snapshot/Safety.antt =====
-- What the snapshots of app/src/app/core/sync/sync.service.ts leave alone.
use easy_docket.Base.{
  ℕ, ◌≡◌, ◌≢◌, ◌⊎◌, Bool-cases, if◌then◌else◌, inl, inr, refl, sym, ap, ◌∙◌, subst, true, false,
  Option, none, some, List, [], ◌∷◌, filter, In, append-In, filter-In, arith,
}
use easy_docket.Base.Text.{Text, ltb_text_asym}
use easy_docket.Models.{EntityName, entity_names, Key, eq_key, eq_key→eq, OpKind, Operation, Entity}
use easy_docket.Db.{key_of, get_row}
use easy_docket.Ledger
use easy_docket.Ledger.{Ledger, Result, apply_op, merge, observe_stamps}
use easy_docket.Ledger.Lww.{row_by}
use easy_docket.Ledger.Merge.{apply_op-get_row}
use easy_docket.Ledger.Preserved.{observe_stamps-tables, merge-kept}
use easy_docket.Sync.Names.{stamp_from_object_name, covered_by, ops_prefix, snapshot_prefix}
use easy_docket.Sync.Remote.{
  Reply, ok, err, Adapter, LedgerSnapshot, Cipher, Vault, Device, M, ◌>>=◌, on_ledger,
}
use easy_docket.Sync.Pull.{
  row_operations, entity_rows, operations_from, snapshot_operations, apply_opened,
}
use easy_docket.Sync.Snapshot.{is_older, superseded, remove_all, list_both, prune_superseded, prune}

module _ {Row : Type 0} (e : Entity Row) (x : LedgerSnapshot Row) where
  -- The operation puts a row of the snapshot under the row's key.
  record PutOf (o : Operation Row) : Type 0 where
    name : EntityName
    row : Row
    held : In row (entity_rows e name x.entities)
    own_key : key_of o ≡ (name, e.id row)
    own_value : o.value ≡ some row
    is_put : o.op ≡ OpKind.put

  row_operations-PutOf :
      (name : EntityName) (rows : List Row) (o : Operation Row)
      → ((row : Row) → In row rows → In row (entity_rows e name x.entities))
      → In o (row_operations e name x.device rows)
      → PutOf o
  unfolding row_operations
  row_operations-PutOf name [] o from m = absurd m
  row_operations-PutOf name (row ∷ rows) o from (inl same) = record {
    name = name;
    row = row;
    held = from row (inl refl);
    own_key = ap key_of same;
    own_value = ap (λ p. p.value) same;
    is_put = ap (λ p. p.op) same;
  }
  row_operations-PutOf name (row ∷ rows) o from (inr m) =
      row_operations-PutOf name rows o (λ r n. from r (inr n)) m

  operations_from-PutOf :
      (names : List EntityName) (o : Operation Row) → In o (operations_from e names x) → PutOf o
  unfolding operations_from
  operations_from-PutOf [] o m = absurd m
  operations_from-PutOf (name ∷ names) o m =
      elim (append-In o (row_operations e name x.device (entity_rows e name x.entities)) _ m) [
        | inl here ↦ row_operations-PutOf name (entity_rows e name x.entities) o (λ r n. n) here
        | inr later ↦ operations_from-PutOf names o later
      ]

module _ {Row : Type 0} (e : Entity Row) (x : LedgerSnapshot Row) (key : Key)
    (before : Ledger Row) where
  -- The row under the key is as it was before, or is a row of the snapshot with this key.
  abbrev pub Keeps : Ledger Row → Type 0
  Keeps l =
      (get_row key l.tables ≡ get_row key before.tables)
      ⊎ ((row : Row) × In row (entity_rows e key.0 x.entities)
          × (e.id row ≡ key.1)
          × (get_row key l.tables ≡ some row))

  same-Keeps : (l l' : Ledger Row) → l'.tables ≡ l.tables → Keeps l → Keeps l'
  same-Keeps l l' same h = elim h [
    | inl k ↦ inl (ap (λ t. get_row key t) same ∙ k)
    | inr (row, m, own, k) ↦ inr (row, m, own, ap (λ t. get_row key t) same ∙ k)
  ]

  put-Keeps :
      (o : Operation Row) (l l' : Ledger Row) (t : List (Key × Row))
      → PutOf e x o
      → apply_op e o.op o.value (key_of o) l.tables ≡ some t
      → l'.tables ≡ t
      → Keeps l
      → Keeps l'
  put-Keeps o l l' t p done same h =
      let row = p.row in
      let id : (key_of o).1 ≡ e.id row = ap (λ (k : Key). k.1) p.own_key in
      let read : get_row key t
          ≡ (if eq_key (key_of o) key then row_by o.op o.value else get_row key l.tables) =
        apply_op-get_row e o.op o.value (key_of o) key l.tables t
          (λ r v. ap e.id (some_path (sym v ∙ p.own_value)) ∙ sym id) done in
      elim (Bool-cases (eq_key (key_of o) key)) [
        | inr other ↦
            same-Keeps (record l { tables = t }) l' same
              (elim h [
                | inl k ↦ inl (read ∙ rw other k)
                | inr (r, m, own, k) ↦ inr (r, m, own, read ∙ rw other k)
              ])
        | inl own ↦
            (let here = eq_key→eq (key_of o) key own in
              let at : (p.name, e.id row) ≡ key = sym p.own_key ∙ here in
              inr (
                row,
                subst (λ n. In row (entity_rows e n x.entities)) (ap (λ (k : Key). k.0) at) p.held,
                ap (λ (k : Key). k.1) at,
                ap (λ u. get_row key u) same ∙ read ∙ rw (own, p.is_put, p.own_value) refl,
              ))
      ]
    where
      some_path : {a b : Row} → some a ≡ some b → a ≡ b
      some_path q = cc

  merge_snapshot-Keeps : (l : Ledger Row) → Keeps l → Keeps (merge e (snapshot_operations e x) l).1
  merge_snapshot-Keeps l h =
      merge-kept e Keeps (snapshot_operations e x) same-Keeps
        (λ o l0 l1 m done k.
          put-Keeps o l0 l1 _
            (operations_from-PutOf e x entity_names o (unfold snapshot_operations in m)) done refl
            k)
        l h

module _ {Row Store : Type 0} (P : Ledger Row → Type 0) where
  -- The step keeps what holds of the ledger, whether it succeeds or fails.
  abbrev Stays : {A : Type 0} → M Row Store A → Type 0
  Stays m = (d : Device Row) (s : Store) → P d.ledger → P (m d s).1.ledger

  Stays-bind :
      {A C : Type 0} (m : M Row Store A) (f : A → M Row Store C)
      → Stays m
      → ((x : A) → Stays (f x))
      → Stays (m >>= f)
  unfolding ◌>>=◌
  Stays-bind {A = A} m f hm hf d s h = after (m d s).0 (m d s).1 (m d s).2 (hm d s h)
    where
      after :
          (r : Reply A) (d' : Device Row) (s' : Store)
          → P d'.ledger
          → P (((λ d0 s0. (r, d', s')) >>= f) d s).1.ledger
      after (ok x) d' s' k = hf x d' s' k
      after (err f') d' s' k = k

  on_ledger-Stays :
      {A : Type 0} (step : Ledger Row → Ledger.Result A × Ledger Row)
      → ((l : Ledger Row) → P l → P (step l).1)
      → Stays (on_ledger step)
  unfolding on_ledger
  on_ledger-Stays step k d s h = k d.ledger h

module _ {Row Bytes : Type 0} (e : Entity Row) (c : Cipher Row Bytes) (a : Adapter Bytes) (wall : ℕ)
    (v : Vault) where
  -- Whatever the snapshot holds and however applying it ends, what a row reads afterwards is what it
  -- read before, or it is the snapshot's row with this key: applying removes no row and changes none
  -- that the snapshot does not carry.
  pub apply_opened-get_row :
      (name : Text) (x : LedgerSnapshot Row) (d : Device Row) (s : a.Store) (key : Key)
      → Keeps e x key d.ledger (apply_opened e c a wall v name x d s).1.ledger
  unfolding apply_opened
  apply_opened-get_row name x d s key =
      let P = Keeps e x key d.ledger in
      Stays-bind P _ _
        (on_ledger-Stays P (observe_stamps wall (x.watermark ∷ [])) (λ l k.
          same-Keeps e x key d.ledger l (observe_stamps wall (x.watermark ∷ []) l).1
            (observe_stamps-tables wall (x.watermark ∷ []) l) k))
        (λ u.
          Stays-bind P _ _
            (on_ledger-Stays P (merge e (snapshot_operations e x))
              (merge_snapshot-Keeps e x key d.ledger))
            (λ n.
              Stays-bind P _ _ (λ d0 s0 k. k)
                (λ w. Stays-bind P _ _ (λ d0 s0 k. k) (λ z d0 s0 k. k))))
        d s (inl refl)

-- A destination on which removing an object touches no other, and listing touches none, whether the
-- calls succeed or fail.
pub record Separate {Bytes : Type 0} (a : Adapter Bytes) (content : a.Store → Text → Option Bytes)
    : Type 0 where
  pub content-remove :
      (name other : Text) (s : a.Store)
      → name ≢ other
      → content (a.remove name s).1 other ≡ content s other
  pub content-list :
      (prefix other : Text) (s : a.Store) → content (a.list prefix s).1 other ≡ content s other

older-covered :
    (name watermark : Text) → is_older watermark name ≡ true → covered_by name watermark ≡ true
unfolding is_older covered_by
older-covered name watermark h = helper (stamp_from_object_name name) refl
  where
    helper : (o : Option Text) → stamp_from_object_name name ≡ o → covered_by name watermark ≡ true
    helper none same = ground arith
    helper (some stamp) same = ground (arith, ltb_text_asym stamp watermark)

superseded-covered :
    (watermark : Text) (ops snapshots : List Text) (name : Text)
    → In name (superseded watermark ops snapshots)
    → covered_by name watermark ≡ true
unfolding superseded
superseded-covered watermark ops snapshots name m =
    elim (append-In name (filter (λ n. covered_by n watermark) ops) _ m) [
      | inl l ↦ (filter-In (λ n. covered_by n watermark) name ops l).1
      | inr r ↦ older-covered name watermark (filter-In (is_older watermark) name snapshots r).1
    ]

module _ {Row Bytes : Type 0} (c : Cipher Row Bytes) (a : Adapter Bytes) (v : Vault)
    (content : a.Store → Text → Option Bytes) (separate : Separate a content) where
  -- The step leaves an object of the destination as it was.
  abbrev Leaves : Text → {A : Type 0} → M Row a.Store A → Type 0
  Leaves other m = (d : Device Row) (s : a.Store) → content (m d s).2 other ≡ content s other

  Leaves-bind :
      (other : Text) {A C : Type 0} (m : M Row a.Store A) (f : A → M Row a.Store C)
      → Leaves other m
      → ((x : A) (d : Device Row) (s : a.Store) → (m d s).0 ≡ ok x → Leaves other (f x))
      → Leaves other (m >>= f)
  unfolding ◌>>=◌
  Leaves-bind other {A} {C} m f hm hf d s = after (m d s).0 (m d s).1 (m d s).2 refl (hm d s)
    where
      after :
          (r : Reply A) (d' : Device Row) (s' : a.Store)
          → (m d s).0 ≡ r
          → content s' other ≡ content s other
          → content (((λ d0 s0. (r, d', s')) >>= f) d s).2 other ≡ content s other
      after (ok x) d' s' e h = hf x d s e d' s' ∙ h
      after (err f') d' s' e h = h

  remove_all-Leaves :
      (names : List Text) (other : Text)
      → (In other names → ⊥)
      → Leaves other (remove_all c a v names)
  unfolding remove_all
  remove_all-Leaves [] other h = λ d s. refl
  remove_all-Leaves (name ∷ names) other h =
      Leaves-bind other _ _ (λ d s. separate.content-remove name other s (λ e. h (inl (sym e))))
        (λ u d0 s0 e0.
          Leaves-bind other _ _ (λ d s. refl)
            (λ w d1 s1 e1. remove_all-Leaves names other (λ m. h (inr m))))

  list_both-Leaves : (other : Text) → Leaves other (list_both c a v)
  unfolding list_both
  list_both-Leaves other d s = ground (
    arith,
    separate.content-list (ops_prefix v.vault_id) other s,
    separate.content-list (snapshot_prefix v.vault_id) other (a.list (ops_prefix v.vault_id) s).1,
  )

  -- Whatever fails on the way, pruning leaves each object at the destination that the watermark does
  -- not cover.
  pub prune-covered :
      (watermark other : Text) (d : Device Row) (s : a.Store)
      → covered_by other watermark ≡ false
      → content (prune c a v watermark d s).2 other ≡ content s other
  unfolding prune prune_superseded
  prune-covered watermark other d s h =
      Leaves-bind other (list_both c a v) (λ x. remove_all c a v (superseded watermark x.0 x.1))
        (list_both-Leaves other)
        (λ x d0 s0 e0.
          remove_all-Leaves (superseded watermark x.0 x.1) other
            (λ m. ground (arith, superseded-covered watermark x.0 x.1 other m)))
        d s
