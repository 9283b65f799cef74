-- ===== src/Db/Log.antt =====
-- Laws of the tables and of the operation log of app/src/app/core/db/docket-db.ts.
use easy_docket.Base.{
  ◌≡◌, ◌⊎◌, inl, inr, refl, none, some, List, [], ◌∷◌, arith, if◌then◌else◌, In, map,
}
use easy_docket.Base.Text.{eq_text→eq}
use easy_docket.Models.{Key, eq_key, eq_key→eq, eq_key_refl, Operation, LocalOperation}
use easy_docket.Db.{get_row, put_row, delete_row, put_op}

module _ {Row : Type 0} where
  pub get_row-put_row :
      (j k : Key) (r : Row) (t : List (Key × Row))
      → get_row j (put_row k r t) ≡ (if eq_key k j then some r else get_row j t)
  unfolding get_row put_row
  get_row-put_row j k r [] = refl
  get_row-put_row j k r ((i, s) ∷ t) = ground (
    arith,
    eq_key→eq i k,
    eq_key→eq k j,
    eq_key→eq i j,
    eq_key_refl j,
    eq_key_refl i,
    get_row-put_row j k r t,
  )

  pub get_row-delete_row :
      (j k : Key) (t : List (Key × Row))
      → get_row j (delete_row k t) ≡ (if eq_key k j then none else get_row j t)
  unfolding get_row delete_row
  get_row-delete_row j k [] = ground arith
  get_row-delete_row j k ((i, s) ∷ t) = ground (
    arith,
    eq_key→eq i k,
    eq_key→eq k j,
    eq_key→eq i j,
    eq_key_refl j,
    eq_key_refl i,
    get_row-delete_row j k t,
  )

  -- The operations of the log.
  abbrev pub ops_of : List (LocalOperation Row) → List (Operation Row)
  ops_of = map (λ o. o.operation)

  -- What a write to the log may leave in it.
  pub mem-put_op :
      (p : Operation Row) (o : LocalOperation Row) (log : List (LocalOperation Row))
      → In p (ops_of (put_op o log))
      → (p ≡ o.operation) ⊎ In p (ops_of log)
  unfolding put_op
  mem-put_op p o [] m = m
  mem-put_op p o (q ∷ log) m = ground (arith, mem-put_op p o log)

  pub mem-put_op_self :
      (o : LocalOperation Row) (log : List (LocalOperation Row))
      → In o.operation (ops_of (put_op o log))
  unfolding put_op
  mem-put_op_self o [] = inl refl
  mem-put_op_self o (q ∷ log) = ground (arith, mem-put_op_self o log)

  -- What was in the log stays, but for an operation with the stamp of the new one.
  pub mem-put_op_old :
      (p : Operation Row) (o : LocalOperation Row) (log : List (LocalOperation Row))
      → In p (ops_of log)
      → In p (ops_of (put_op o log)) ⊎ (p.hlc ≡ o.hlc)
  unfolding put_op
  mem-put_op_old p o [] m = absurd m
  mem-put_op_old p o (q ∷ log) (inl e) = ground (arith, eq_text→eq o.hlc q.hlc)
  mem-put_op_old p o (q ∷ log) (inr m) = ground (arith, mem-put_op_old p o log)
