-- ===== src/Ledger/Write.antt =====
-- `put` and `remove` of app/src/app/core/repositories/ledger.service.ts: each leaves the row and the
-- operation together, and later merges see it as the newest.
use easy_docket.Base.{
  ◌≡◌, ◌^◌, ◌<◌, inl, inr, refl, sym, ◌∙◌, ap, true, false, Option, none, some, List, ◌∷◌, arith,
  if◌then◌else◌, In, ℕ,
}
use easy_docket.Base.Text.{
  Text, ltb_text, ltb_text_irrefl, ltb_text_asym, ltb_text_trans, ltb_text_connex,
}
use easy_docket.Hlc.{Clock, encode, tick}
use easy_docket.Hlc
use easy_docket.Hlc.Order.{IsValid}
use easy_docket.Hlc.Progress.{tick_progress}
use easy_docket.Models.{EntityName, Key, eq_key, eq_key_refl, Operation, OpKind, Entity}
use easy_docket.Db.{key_of, get_row, put_row, put_op}
use easy_docket.Db.Log.{get_row-put_row, get_row-delete_row}
use easy_docket.Ledger.{Ledger, Step, with_stamp, write_put, write_remove, ok, put, remove}
use easy_docket.Ledger.Lww.{winner, later, row_by, Identified, winner_sound}
use easy_docket.Ledger.Merge.{winner_add}
use easy_docket.Ledger.Knows.{Knows, Knows-write}

-- The clock is at or past every operation of the set.
abbrev pub Ahead : {Row : Type 0} → Clock → List (Operation Row) → Type 0
Ahead k ops = (o : Operation _) → In o ops → ltb_text (encode k.state k.device) o.hlc ≡ false

-- The operation that `put` records for a row.
abbrev pub put_operation : {Row : Type 0} (e : Entity Row) → EntityName → Row → Text → Operation Row
put_operation e entity row device = record {
  hlc = e.updated_at row;
  entity = entity;
  entity_id = e.id row;
  op = OpKind.put;
  value = some row;
  device = device;
}

-- The operation that `remove` records.
abbrev pub delete_operation : {Row : Type 0} → EntityName → Text → Text → Text → Operation Row
delete_operation entity id stamp device = record {
  hlc = stamp;
  entity = entity;
  entity_id = id;
  op = OpKind.delete;
  value = none;
  device = device;
}

le_lt : (a b c : Text) → ltb_text b a ≡ false → ltb_text b c ≡ true → ltb_text a c ≡ true
le_lt a b c h k = ground (arith, ltb_text_trans a b c, ltb_text_connex a b)

module _ {Row : Type 0} (o : Operation Row) (l : Ledger Row) (ops : List (Operation Row)) where
  abbrev pub Above : Type 0
  Above = (p : Operation Row) → In p ops → ltb_text p.hlc o.hlc ≡ true

  pub Identified-above : Above → Identified ops → Identified (o ∷ ops)
  Identified-above above ident p q (inl e) (inl f) same = e ∙ sym f
  Identified-above above ident p q (inl e) (inr m) same =
      absurd (differ q (above q m) (ap (λ x. x.hlc) (sym e) ∙ same))
    where
      differ : (q : Operation Row) → ltb_text q.hlc o.hlc ≡ true → o.hlc ≡ q.hlc → ⊥
      differ q lt e = ground (arith, ltb_text_irrefl o.hlc)
  Identified-above above ident p q (inr m) (inl f) same =
      absurd (differ p (above p m) (ap (λ x. x.hlc) (sym f) ∙ sym same))
    where
      differ : (q : Operation Row) → ltb_text q.hlc o.hlc ≡ true → o.hlc ≡ q.hlc → ⊥
      differ q lt e = ground (arith, ltb_text_irrefl o.hlc)
  Identified-above above ident p q (inr m) (inr n) same = ident p q m n same

  later_above :
      Above → (w : Option (Operation Row)) → winner (key_of o) ops ≡ w → later o w ≡ some o
  later_above above none e = refl
  later_above above (some p) e =
      rw (ltb_text_asym p.hlc o.hlc (above p (winner_sound (key_of o) p ops e).0))

  -- Writing an operation above all others, and its row, learns it.
  write-Knows :
      (l' : Ledger Row)
      → Above
      → Identified ops
      → l'.oplog ≡ put_op (record { operation = o; synced = false }) l.oplog
      → ((j : Key)
          → get_row j l'.tables
            ≡ (if eq_key (key_of o) j then row_by o.op o.value else get_row j l.tables))
      → Knows l ops
      → Knows l' (o ∷ ops)
  write-Knows l' above ident el et h =
      Knows-write l l' (record { operation = o; synced = false }) ops (Identified-above above ident)
        el
        (λ j.
          et j
          ∙ ground
              (arith, winner_add j o ops, later_above above (winner (key_of o) ops) refl, h.rows j))
        h

-- What a successful tick means for an operation with its stamp.
module _ {Row : Type 0} (wall : ℕ) (k k' : Clock) (o : Operation Row) (l : Ledger Row)
    (ops : List (Operation Row)) (fits : wall < 2 ^ 53) (v : IsValid k.state)
    (ticked : tick wall k ≡ (Hlc.ok o.hlc, k')) (ahead : Ahead k ops) where
  pub Above-tick : Above o l ops
  Above-tick p m =
      le_lt p.hlc (encode k.state k.device) o.hlc (ahead p m)
        (tick_progress wall k k' o.hlc fits v ticked).4

  Ahead-tick : Ahead k' (o ∷ ops)
  Ahead-tick p (inl e) =
      let (_, _, same, written, _) = tick_progress wall k k' o.hlc fits v ticked in
      rw (e, same, ← written) (ltb_text_irrefl o.hlc)
  Ahead-tick p (inr m) =
      let (_, _, same, written, _) = tick_progress wall k k' o.hlc fits v ticked in
      rw (same, ← written) (ltb_text_asym p.hlc o.hlc (Above-tick p m))

pub with_stamp_run :
    {Row A : Type 0} (wall : ℕ) (write : Text → Clock → Ledger Row → Step Row A) (stamp : Text)
    (k k' : Clock) (l : Ledger Row)
    → l.clock ≡ some k
    → tick wall k ≡ (Hlc.ok stamp, k')
    → with_stamp wall write l ≡ write stamp k' l
unfolding with_stamp
with_stamp_run wall write stamp k k' l ready ticked = ground arith

pub get_row-put_row_own :
    {Row : Type 0} (e : Entity Row) (entity : EntityName) (value : Row) (stamp : Text)
    (t : List (Key × Row))
    → let row = e.with_stamp stamp value in
      get_row (entity, e.id value) (put_row (entity, e.id row) row t) ≡ some row
get_row-put_row_own e entity value stamp t =
    let row = e.with_stamp stamp value in
    let k : Key = (entity, e.id row) in
    ap (λ i. get_row (entity, i) (put_row k row t)) (sym (e.id-with_stamp stamp value))
    ∙ get_row-put_row k k row t
    ∙ rw (eq_key_refl k)

module _ {Row : Type 0} (e : Entity Row) where
  -- A `put` whose clock tick succeeds, on a ledger that knows `ops` with a clock at or past all of
  -- them, returns the row with the new stamp, saves the clock, and the ledger then knows that
  -- operation too; the clock is at or past it, and the row can be read back.
  pub put-Knows :
      (wall : ℕ) (entity : EntityName) (value : Row) (stamp : Text) (k k' : Clock) (l : Ledger Row)
      (ops : List (Operation Row))
      → l.clock ≡ some k
      → wall < 2 ^ 53
      → IsValid k.state
      → tick wall k ≡ (Hlc.ok stamp, k')
      → Ahead k ops
      → Identified ops
      → Knows l ops
      → let row = e.with_stamp stamp value in
        let o = put_operation e entity row k'.device in
        let (r, l') = put e wall entity value l in
        (r ≡ ok row)
        × Knows l' (o ∷ ops)
        × Ahead k' (o ∷ ops)
        × (l'.clock ≡ some k')
        × (l'.saved_clock ≡ some k'.state)
        × (get_row (entity, e.id value) l'.tables ≡ some row)
  put-Knows wall entity value stamp k k' l ops ready fits v ticked ahead ident h =
      let row = e.with_stamp stamp value in
      let o = put_operation e entity row k'.device in
      let ticked' : tick wall k ≡ (Hlc.ok o.hlc, k') =
        ticked ∙ ap (λ (s : Text). (Hlc.ok s, k')) (sym (e.updated_at-with_stamp stamp value)) in
      unfold put in
      rw (with_stamp_run wall (write_put e entity value) stamp k k' l ready ticked) (
        unfold write_put in
        (
          refl,
          write-Knows o l ops _ (Above-tick wall k k' o l ops fits v ticked' ahead) ident refl
              (λ j. get_row-put_row j (key_of o) row l.tables) h,
          Ahead-tick wall k k' o l ops fits v ticked' ahead,
          refl,
          refl,
          get_row-put_row_own e entity value stamp l.tables,
        ))

module _ {Row : Type 0} where
  -- A `remove` whose clock tick succeeds, on a ledger that knows `ops` with a clock at or past all
  -- of them, succeeds, saves the clock, and the ledger then knows the tombstone too; the clock is at
  -- or past it, and the row is gone.
  pub remove-Knows :
      (wall : ℕ) (entity : EntityName) (id stamp : Text) (k k' : Clock) (l : Ledger Row)
      (ops : List (Operation Row))
      → l.clock ≡ some k
      → wall < 2 ^ 53
      → IsValid k.state
      → tick wall k ≡ (Hlc.ok stamp, k')
      → Ahead k ops
      → Identified ops
      → Knows l ops
      → let o : Operation Row = delete_operation entity id stamp k'.device in
        let (r, l') = remove wall entity id l in
        (r ≡ ok tt)
        × Knows l' (o ∷ ops)
        × Ahead k' (o ∷ ops)
        × (l'.clock ≡ some k')
        × (l'.saved_clock ≡ some k'.state)
        × (get_row (entity, id) l'.tables ≡ none)
  remove-Knows wall entity id stamp k k' l ops ready fits v ticked ahead ident h =
      let o : Operation Row = delete_operation entity id stamp k'.device in
      unfold remove in
      rw (with_stamp_run wall (write_remove entity id) stamp k k' l ready ticked) (
        unfold write_remove in
        (
          refl,
          write-Knows o l ops _ (Above-tick wall k k' o l ops fits v ticked ahead) ident refl
              (λ j. get_row-delete_row j (key_of o) l.tables) h,
          Ahead-tick wall k k' o l ops fits v ticked ahead,
          refl,
          refl,
          get_row-delete_row (entity, id) (entity, id) l.tables ∙ rw (eq_key_refl (entity, id)),
        ))
