-- ===== src/Ledger/Knows.antt =====
-- The refinement between the database of app/src/app/core/repositories/ledger.service.ts and the
-- set of operations that it has learned: each table row is the one that the newest operation left.
use easy_docket.Base.{◌≡◌, ◌⊎◌, inl, inr, refl, sym, subst, ◌∙◌, ap, List, ◌∷◌, In}
use easy_docket.Models.{Key, Operation, LocalOperation}
use easy_docket.Db.{get_row, put_op}
use easy_docket.Db.Log.{ops_of, mem-put_op, mem-put_op_self, mem-put_op_old}
use easy_docket.Ledger.{Ledger}
use easy_docket.Ledger.Lww.{winner, row_of, Identified, SameOps, winner_same}

module _ {Row : Type 0} where
  -- The ledger has learned just the operations of `ops`: its log holds none but these, and newest ones
  -- for each row, and every row is as the newest operation left it.
  pub record Knows (l : Ledger Row) (ops : List (Operation Row)) : Type 0 where
    pub logged : (o : Operation Row) → In o (ops_of l.oplog) → In o ops
    pub newest : (k : Key) → winner k (ops_of l.oplog) ≡ winner k ops
    pub rows : (k : Key) → get_row k l.tables ≡ row_of (winner k ops)

  pub Knows-same :
      (l : Ledger Row) (xs ys : List (Operation Row))
      → SameOps xs ys
      → Identified ys
      → Knows l xs
      → Knows l ys
  Knows-same l xs ys same ident h = record {
    logged = λ o m. (same o).0 (h.logged o m);
    newest = λ k. h.newest k ∙ winner_same k xs ys same ident;
    rows = λ k. h.rows k ∙ ap row_of (winner_same k xs ys same ident);
  }

  -- Writing to the log adds the operation to the set that it holds.
  SameOps-put_op :
      (o : LocalOperation Row) (log : List (LocalOperation Row))
      → Identified (o.operation ∷ ops_of log)
      → SameOps (ops_of (put_op o log)) (o.operation ∷ ops_of log)
  SameOps-put_op o log ident p = (λ m. mem-put_op p o log m, back)
    where
      old :
          In p (ops_of log)
          → In p (ops_of (put_op o log)) ⊎ (p.hlc ≡ o.hlc)
          → In p (ops_of (put_op o log))
      old m (inl kept) = kept
      old m (inr same) =
          subst (λ q. In q (ops_of (put_op o log)))
            (sym (ident p o.operation (inr m) (inl refl) same)) (mem-put_op_self o log)

      back : In p (o.operation ∷ ops_of log) → In p (ops_of (put_op o log))
      back (inl e) = subst (λ q. In q (ops_of (put_op o log))) (sym e) (mem-put_op_self o log)
      back (inr m) = old m (mem-put_op_old p o log m)

  winner_cons :
      (k : Key) (o : Operation Row) (xs ys : List (Operation Row))
      → winner k xs ≡ winner k ys
      → winner k (o ∷ xs) ≡ winner k (o ∷ ys)
  unfolding winner
  winner_cons k o xs ys e = rw e

  -- Writing an operation to the log, and to the tables what it says, learns it.
  pub Knows-write :
      (l l' : Ledger Row) (o : LocalOperation Row) (ops : List (Operation Row))
      → Identified (o.operation ∷ ops)
      → l'.oplog ≡ put_op o l.oplog
      → ((k : Key) → get_row k l'.tables ≡ row_of (winner k (o.operation ∷ ops)))
      → Knows l ops
      → Knows l' (o.operation ∷ ops)
  Knows-write l l' o ops ident e rows h =
      let within : (p : Operation Row)
          → In p (o.operation ∷ ops_of l.oplog)
          → In p (o.operation ∷ ops) =
        λ p m. elim m [ inl x ↦ inl x | inr y ↦ inr (h.logged p y) ] in
      let ident' : Identified (o.operation ∷ ops_of l.oplog) =
        λ p q mp mq. ident p q (within p mp) (within q mq) in
      let same = SameOps-put_op o l.oplog ident' in
      record {
        logged = λ p m. within p ((same p).0 (rw e at m));
        newest = λ k.
            ap (λ log. winner k (ops_of log)) e
            ∙ winner_same k _ _ same ident'
            ∙ winner_cons k o.operation _ _ (h.newest k);
        rows = rows;
      }
