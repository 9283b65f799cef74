-- ===== src/Ledger/Preserved.antt =====
-- What `merge` and `observeStamps` of app/src/app/core/repositories/ledger.service.ts keep, for any
-- property of the tables.
use easy_docket.Base.{
  ℕ, ◌≡◌, inl, inr, refl, none, some, List, [], ◌∷◌, In, Bool-cases, Option-cases,
}
use easy_docket.Base.Text.{Text}
use easy_docket.Models.{Operation, Entity}
use easy_docket.Db.{key_of}
use easy_docket.Ledger.{
  Ledger, err, not_initialised, apply_op, is_stale, latest_stamp_for, merge_one, merge_all,
  merge_sorted, sort_ops, merge, observe_stamps,
}
use easy_docket.Ledger.Converge.{SameOps-sort_ops, merge_run}
use easy_docket.Ledger.Observe.{observe_stamps_clock}

pub observe_stamps-tables :
    {Row : Type 0} (wall : ℕ) (stamps : List Text) (l : Ledger Row)
    → (observe_stamps wall stamps l).1.tables ≡ l.tables
observe_stamps-tables wall stamps l = elim (Option-cases l.clock) [
  | inl e ↦ (unfold observe_stamps in rw e refl)
  | inr (k, e) ↦ (let (k', same) = observe_stamps_clock wall stamps k l e in λ i. (same i).tables)
]

merge_closed :
    {Row : Type 0} (e : Entity Row) (o : Operation Row) (os : List (Operation Row)) (l : Ledger Row)
    → l.clock ≡ none
    → merge e (o ∷ os) l ≡ (err not_initialised, l)
unfolding merge
merge_closed e o os l none_yet = rw none_yet refl

module _ {Row : Type 0} (e : Entity Row) (P : Ledger Row → Type 0) (ops : List (Operation Row))
    (by_tables : (l l' : Ledger Row) → l'.tables ≡ l.tables → P l → P l')
    (by_op : (o : Operation Row) (l l' : Ledger Row)
      → In o ops
      → apply_op e o.op o.value (key_of o) l.tables ≡ some l'.tables
      → P l
      → P l') where
  merge_one-kept :
      (o : Operation Row) (n : ℕ) (l : Ledger Row) → In o ops → P l → P (merge_one e o (n, l)).1
  unfolding merge_one
  merge_one-kept o n l m h =
      elim (Bool-cases (is_stale o.hlc (latest_stamp_for (key_of o) l.oplog))) [
        | inl stale ↦ rw stale h
        | inr fresh ↦ elim (Option-cases (apply_op e o.op o.value (key_of o) l.tables)) [
          | inl refused ↦ rw (fresh, refused) h
          | inr (t, done) ↦ rw (fresh, done) (by_op o l _ m done h)
        ]
      ]

  merge_all-kept :
      (os : List (Operation Row)) (acc : ℕ × Ledger Row)
      → ((o : Operation Row) → In o os → In o ops)
      → P acc.1
      → P (merge_all e os acc).1
  unfolding merge_all
  merge_all-kept [] acc from h = h
  merge_all-kept (o ∷ os) acc from h =
      merge_all-kept os (merge_one e o acc) (λ p m. from p (inr m))
        (merge_one-kept o acc.0 acc.1 (from o (inl refl)) h)

  merge_from-kept :
      (os : List (Operation Row)) (l : Ledger Row)
      → ((o : Operation Row) → In o os → In o ops)
      → P l
      → P (merge e os l).1
  merge_from-kept [] l from h = unfold merge in h
  merge_from-kept (o ∷ os) l from h = elim (Option-cases l.clock) [
    | inl none_yet ↦ rw (merge_closed e o os l none_yet) h
    | inr (k, ready) ↦ rw (merge_run e o os l k ready) (
        unfold merge_sorted in
        by_tables (merge_all e (sort_ops (o ∷ os)) (0, l)).1 _ refl (
          merge_all-kept (sort_ops (o ∷ os)) (0, l)
            (λ p m. from p ((SameOps-sort_ops (o ∷ os) p).0 m)) h))
  ]

  -- A property of the tables that each applied operation keeps is kept by a merge, on every outcome.
  pub merge-kept : (l : Ledger Row) → P l → P (merge e ops l).1
  merge-kept l h = merge_from-kept ops l (λ o m. m) h
