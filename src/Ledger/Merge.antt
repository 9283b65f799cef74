-- ===== src/Ledger/Merge.antt =====
-- `merge` of app/src/app/core/repositories/ledger.service.ts learns the operations that it is given.
use easy_docket.Base.{
  ◌≡◌, ◌≢◌, ◌↔◌, inl, inr, refl, sym, ◌∙◌, ap, Bool, true, false, Option, none, some, List, [], ◌∷◌,
  arith, if◌then◌else◌, Bool-cases, Option-cases, ℕ,
}
use easy_docket.Base.Text.{Text, ltb_text, ltb_text_connex, ltb_text_asym}
use easy_docket.Models.{Key, eq_key, eq_key→eq, Operation, OpKind, put, delete, Entity}
use easy_docket.Db.{key_of, get_row, put_op}
use easy_docket.Db.Log.{get_row-put_row, get_row-delete_row}
use easy_docket.Ledger.{Ledger, is_stale, apply_op, merge_one, latest_stamp_for}
use easy_docket.Ledger.Lww.{winner, later, row_by, row_of, Identified, winner_sound}
use easy_docket.Ledger.Latest.{hlc_of, latest_stamp_for-winner}
use easy_docket.Ledger.Knows.{Knows, Knows-write}

stale_none : (a : Text) → is_stale a none ≢ true
unfolding is_stale
stale_none a h = cc

stale_le : (a b : Text) → is_stale a (some b) ≡ true → ltb_text b a ≡ false
unfolding is_stale
stale_le a [] h = cc
stale_le a (c ∷ b) h = ground arith

fresh_lt : (a b : Text) → a ≢ [] → is_stale a (some b) ≡ false → ltb_text a b ≡ false
unfolding is_stale ltb_text
fresh_lt [] b ne h = absurd (ne refl)
fresh_lt (x ∷ a) [] ne h = refl
fresh_lt (x ∷ a) (c ∷ b) ne h = ground (arith, ltb_text_asym (c ∷ b) (x ∷ a))

pub stale_of_le : (a b : Text) → a ≢ [] → ltb_text b a ≡ false → is_stale a (some b) ≡ true
unfolding is_stale ltb_text
stale_of_le [] b ne h = absurd (ne refl)
stale_of_le (x ∷ a) [] ne h = cc
stale_of_le (x ∷ a) (c ∷ b) ne h = ground arith

module _ {Row : Type 0} where
  -- A `put` that carries its row, or a `delete`.
  abbrev pub is_complete : OpKind → Option Row → Bool
  is_complete put none = false
  is_complete put (some row) = true
  is_complete delete value = true

  later_stale :
      (o p : Operation Row)
      → (o.hlc ≡ p.hlc → o ≡ p)
      → is_stale o.hlc (some p.hlc) ≡ true
      → later o (some p) ≡ some p
  later_stale o p same h = elim (Bool-cases (ltb_text o.hlc p.hlc)) [
    | inl older ↦ rw older
    | inr not_older ↦
        rw not_older
          (ap (λ x. some x) (same (ltb_text_connex o.hlc p.hlc not_older (stale_le o.hlc p.hlc h))))
  ]

  later_fresh :
      (o : Operation Row) (w : Option (Operation Row))
      → o.hlc ≢ []
      → is_stale o.hlc (hlc_of w) ≡ false
      → later o w ≡ some o
  later_fresh o none ne h = refl
  later_fresh o (some p) ne h = rw (fresh_lt o.hlc p.hlc ne h)

  -- How the newest operation about a row changes with one more operation.
  pub winner_add :
      (k : Key) (o : Operation Row) (ops : List (Operation Row))
      → winner k (o ∷ ops)
        ≡ (if eq_key (key_of o) k then later o (winner (key_of o) ops) else winner k ops)
  unfolding winner
  winner_add k o ops = ground (arith, eq_key→eq (key_of o) k)

module _ {Row : Type 0} (e : Entity Row) where
  -- A stamp, and a row whose id is that of the operation.
  pub record WellFormed (o : Operation Row) : Type 0 where
    pub has_stamp : o.hlc ≢ []
    pub own_id : (row : Row) → o.value ≡ some row → e.id row ≡ o.entity_id

  pub apply_op-get_row :
      (kind : OpKind) (value : Option Row) (k j : Key) (tables t : List (Key × Row))
      → ((row : Row) → value ≡ some row → e.id row ≡ k.1)
      → apply_op e kind value k tables ≡ some t
      → get_row j t ≡ (if eq_key k j then row_by kind value else get_row j tables)
  unfolding apply_op
  apply_op-get_row put none k j tables t own h = cc
  apply_op-get_row put (some row) (n, i) j tables t own h =
      ground (arith, own row refl, get_row-put_row j (n, i) row tables)
  apply_op-get_row delete value k j tables t own h = ground (arith, get_row-delete_row j k tables)

  -- `apply_op` refuses only what is not complete.
  apply_op-is_complete :
      (kind : OpKind) (value : Option Row) (k : Key) (tables : List (Key × Row))
      → (apply_op e kind value k tables ≡ none) ↔ (is_complete kind value ≡ false)
  unfolding apply_op
  apply_op-is_complete put none k tables = ground arith
  apply_op-is_complete put (some row) k tables = ground arith
  apply_op-is_complete delete value k tables = ground arith

  apply_op-some :
      (kind : OpKind) (value : Option Row) (k : Key) (tables t : List (Key × Row))
      → apply_op e kind value k tables ≡ some t
      → is_complete kind value ≡ true
  apply_op-some kind value k tables t h = ground (arith, apply_op-is_complete kind value k tables)

  module _ (o : Operation Row) (l : Ledger Row) (ops : List (Operation Row)) (n : ℕ) where
    stale_Knows :
        WellFormed o
        → Identified (o ∷ ops)
        → Knows l ops
        → is_stale o.hlc (hlc_of (winner (key_of o) ops)) ≡ true
        → Knows l (o ∷ ops)
    stale_Knows w ident h stale = record {
      logged = λ p m. inr (h.logged p m);
      newest = λ k. h.newest k ∙ sym (unchanged k);
      rows = λ k. h.rows k ∙ ap row_of (sym (unchanged k));
    }
      where
        kept : later o (winner (key_of o) ops) ≡ winner (key_of o) ops
        kept = elim (Option-cases (winner (key_of o) ops)) [
          | inl e ↦ absurd (stale_none o.hlc (rw e at stale))
          | inr (p, e) ↦ rw e (
              later_stale o p (ident o p (inl refl) (inr (winner_sound (key_of o) p ops e).0))
                (rw e at stale))
        ]

        unchanged : (k : Key) → winner k (o ∷ ops) ≡ winner k ops
        unchanged k = winner_add k o ops ∙ ground (arith, kept, eq_key→eq (key_of o) k)

    fresh_Knows :
        (t : List (Key × Row)) (l' : Ledger Row)
        → WellFormed o
        → Identified (o ∷ ops)
        → Knows l ops
        → is_stale o.hlc (hlc_of (winner (key_of o) ops)) ≡ false
        → apply_op e o.op o.value (key_of o) l.tables ≡ some t
        → l'.tables ≡ t
        → l'.oplog ≡ put_op (record { operation = o; synced = true }) l.oplog
        → Knows l' (o ∷ ops)
    fresh_Knows t l' w ident h fresh applied et el =
        Knows-write l l' (record { operation = o; synced = true }) ops ident el rows h
      where
        rows : (k : Key) → get_row k l'.tables ≡ row_of (winner k (o ∷ ops))
        rows k =
            ap (get_row k) et
            ∙ apply_op-get_row o.op o.value (key_of o) k l.tables t w.own_id applied
            ∙ ground (
              arith,
              winner_add k o ops,
              later_fresh o (winner (key_of o) ops) w.has_stamp fresh,
              h.rows k,
            )

    -- One round of the loop of `merge` learns its operation, if that is complete.
    pub merge_one-Knows :
        WellFormed o
        → Identified (o ∷ ops)
        → Knows l ops
        → Knows (merge_one e o (n, l)).1 (if is_complete o.op o.value then o ∷ ops else ops)
    unfolding merge_one
    merge_one-Knows w ident h =
        let latest : latest_stamp_for (key_of o) l.oplog ≡ hlc_of (winner (key_of o) ops) =
          latest_stamp_for-winner (key_of o) l.oplog ∙ ap hlc_of (h.newest (key_of o)) in
        let refused = apply_op-is_complete o.op o.value (key_of o) l.tables in
        elim (Bool-cases (is_stale o.hlc (hlc_of (winner (key_of o) ops)))) [
          | inl stale ↦
              rw (latest, stale)
                (elim (Bool-cases (is_complete o.op o.value)) [
                  | inl c ↦ rw c (stale_Knows w ident h stale)
                  | inr c ↦ rw c h
                ])
          | inr fresh ↦
              rw (latest, fresh)
                (elim (Option-cases (apply_op e o.op o.value (key_of o) l.tables)) [
                  | inl skipped ↦ rw (skipped, refused.0 skipped) h
                  | inr (t, applied) ↦
                      rw (applied, complete t applied)
                        (fresh_Knows t _ w ident h fresh applied refl refl)
                ])
        ]
      where
        complete :
            (t : List (Key × Row))
            → apply_op e o.op o.value (key_of o) l.tables ≡ some t
            → is_complete o.op o.value ≡ true
        complete t applied = apply_op-some o.op o.value (key_of o) l.tables t applied
