-- ===== src/Ledger/Converge.antt =====
-- Two devices converge: what `merge` of app/src/app/core/repositories/ledger.service.ts leaves depends
-- only on which operations a device has learned.
use easy_docket.Base.{
  ◌≡◌, ◌≢◌, ◌↔◌, ◌⊎◌, inl, inr, refl, sym, ◌∙◌, ap, Bool, true, false, some, List, [], ◌∷◌, ◌++◌,
  arith, if◌then◌else◌, Option-cases, In, All, filter, ℕ, In-append_left, In-append_right,
  In-filter-append, All-of, All-In,
}
use easy_docket.Hlc.{Clock}
use easy_docket.Models.{Key, Operation, Entity}
use easy_docket.Db.{key_of, get_row}
use easy_docket.Ledger.{
  Ledger, ok, insert_sorted, sort_ops, merge_one, merge_all, merge_sorted, merge, is_stale,
  latest_stamp_for,
}
use easy_docket.Ledger.Lww.{
  Identified, SameOps, row_of, winner, winner_same, winner-none, winner_max,
}
use easy_docket.Ledger.Latest.{hlc_of, latest_stamp_for-winner}
use easy_docket.Ledger.Knows.{Knows, Knows-same}
use easy_docket.Ledger.Merge.{is_complete, WellFormed, merge_one-Knows, stale_of_le}

module _ {Row : Type 0} where
  -- Whether `merge` keeps the operation.
  abbrev pub complete : Operation Row → Bool
  complete o = is_complete o.op o.value

  SameOps-insert_sorted :
      (o p : Operation Row) (ops : List (Operation Row))
      → In p (insert_sorted o ops) ↔ (In p (o ∷ ops))
  unfolding insert_sorted
  SameOps-insert_sorted o p [] = ground arith
  SameOps-insert_sorted o p (q ∷ ops) = ground (arith, SameOps-insert_sorted o p ops)

  pub SameOps-sort_ops : (ops : List (Operation Row)) → SameOps (sort_ops ops) ops
  unfolding sort_ops
  SameOps-sort_ops [] p = ground arith
  SameOps-sort_ops (o ∷ ops) p =
      ground (arith, SameOps-insert_sorted o p (sort_ops ops), SameOps-sort_ops ops p)

  Identified-complete :
      (new ops : List (Operation Row))
      → Identified (new ++ ops)
      → Identified (filter complete new ++ ops)
  Identified-complete new ops ident p q mp mq = ident p q (anywhere p mp) (anywhere q mq)
    where
      anywhere : (p : Operation Row) → In p (filter complete new ++ ops) → In p (new ++ ops)
      anywhere p m = elim ((In-filter-append complete p new ops).0 m) [
        | inl l ↦ In-append_left p new ops l.0
        | inr r ↦ In-append_right p new ops r
      ]

  -- The operations learned after a loop over `os`.
  absorb : List (Operation Row) → List (Operation Row) → List (Operation Row)
  absorb [] ops = ops
  absorb (o ∷ os) ops = absorb os (if complete o then o ∷ ops else ops)

  absorb-In :
      (p : Operation Row) (os ops : List (Operation Row))
      → In p (absorb os ops) ↔ ((In p os × (complete p ≡ true)) ⊎ In p ops)
  unfolding absorb
  absorb-In p [] ops = ground arith
  absorb-In p (o ∷ os) ops = ground (arith, absorb-In p os (if complete o then o ∷ ops else ops))

module _ {Row : Type 0} (e : Entity Row) where
  merge_all-Knows :
      (all os ops : List (Operation Row)) (acc : ℕ × Ledger Row)
      → Identified all
      → ((p : Operation Row) → In p os → In p all)
      → ((p : Operation Row) → In p ops → In p all)
      → All (WellFormed e) os
      → Knows acc.1 ops
      → Knows (merge_all e os acc).1 (absorb os ops)
  unfolding merge_all absorb
  merge_all-Knows all [] ops acc ident new old wf h = h
  merge_all-Knows all (o ∷ os) ops acc ident new old wf h =
      merge_all-Knows all os (if complete o then o ∷ ops else ops) (merge_one e o acc) ident
        (λ p m. new p (inr m)) (extended (complete o)) wf.1
        (merge_one-Knows e o acc.1 ops acc.0 wf.0 (λ p q mp mq. ident p q (first p mp) (first q mq))
          h)
    where
      first : (p : Operation Row) → In p (o ∷ ops) → In p all
      first p (inl x) = new p (inl x)
      first p (inr y) = old p y

      extended : (b : Bool) (p : Operation Row) → In p (if b then o ∷ ops else ops) → In p all
      extended true = first
      extended false = old

  module _ (new ops : List (Operation Row)) (l : Ledger Row) where
    sorted_Knows :
        Identified (new ++ ops)
        → All (WellFormed e) new
        → Knows l ops
        → Knows (merge_all e (sort_ops new) (0, l)).1 (filter complete new ++ ops)
    sorted_Knows ident wf h =
        Knows-same _ (absorb (sort_ops new) ops) (filter complete new ++ ops) same
          (Identified-complete new ops ident)
          (merge_all-Knows (new ++ ops) (sort_ops new) ops (0, l) ident
            (λ p m. In-append_left p new ops ((SameOps-sort_ops new p).0 m))
            (λ p m. In-append_right p new ops m)
            (All-of (WellFormed e) (sort_ops new)
              (λ p m. All-In (WellFormed e) p new wf ((SameOps-sort_ops new p).0 m)))
            h)
      where
        same : SameOps (absorb (sort_ops new) ops) (filter complete new ++ ops)
        same p =
            let a = absorb-In p (sort_ops new) ops in
            let b = In-filter-append complete p new ops in
            let c = SameOps-sort_ops new p in
            (
              λ m. b.1 (elim (a.0 m) [ inl l ↦ inl (c.0 l.0, l.1) | inr r ↦ inr r ]),
              λ m. a.1 (elim (b.0 m) [ inl l ↦ inl (c.1 l.0, l.1) | inr r ↦ inr r ]),
            )

  pub merge_run :
      (o : Operation Row) (new : List (Operation Row)) (l : Ledger Row) (k : Clock)
      → l.clock ≡ some k
      → merge e (o ∷ new) l ≡ merge_sorted e (sort_ops (o ∷ new)) k l
  unfolding merge
  merge_run o new l k ready = rw ready

  -- Merging operations, well formed and identified by their stamps, into a ledger whose clock is set
  -- and that knows `ops` succeeds, and the ledger then knows `ops` and the complete ones of the new
  -- operations.
  pub merge-Knows :
      (new ops : List (Operation Row)) (l : Ledger Row) (k : Clock)
      → l.clock ≡ some k
      → Identified (new ++ ops)
      → All (WellFormed e) new
      → Knows l ops
      → ((n : ℕ) × ((merge e new l).0 ≡ ok n))
        × Knows (merge e new l).1 (filter complete new ++ ops)
  merge-Knows [] ops l k ready ident wf h = unfold merge in ((0, refl), h)
  merge-Knows (o ∷ new) ops l k ready ident wf h =
      let known = sorted_Knows (o ∷ new) ops l ident wf h in
      rw (merge_run o new l k ready) (
        unfold merge_sorted in
        ((_, refl), record { logged = known.logged; newest = known.newest; rows = known.rows }))

  -- Two ledgers that merge batches of operations hold the same rows afterwards if they then have
  -- learned the same operations, in whatever order and batches, and however often they came.
  pub merge_converges :
      (new_a xs new_b ys : List (Operation Row)) (a b : Ledger Row) (k j : Clock)
      → a.clock ≡ some k
      → b.clock ≡ some j
      → All (WellFormed e) new_a
      → All (WellFormed e) new_b
      → Identified (new_a ++ xs)
      → Identified (new_b ++ ys)
      → Knows a xs
      → Knows b ys
      → SameOps (filter complete new_a ++ xs) (filter complete new_b ++ ys)
      → (key : Key)
      → get_row key (merge e new_a a).1.tables ≡ get_row key (merge e new_b b).1.tables
  merge_converges new_a xs new_b ys a b k j ready_a ready_b wf_a wf_b id_a id_b h_a h_b same key =
      let know_a = (merge-Knows new_a xs a k ready_a id_a wf_a h_a).1 in
      let know_b = (merge-Knows new_b ys b j ready_b id_b wf_b h_b).1 in
      know_a.rows key
      ∙ ap row_of (winner_same key _ _ same (Identified-complete new_b ys id_b))
      ∙ sym (know_b.rows key)

  merge_one_known :
      (o : Operation Row) (ops : List (Operation Row)) (l : Ledger Row) (n : ℕ)
      → o.hlc ≢ []
      → Knows l ops
      → In o ops
      → merge_one e o (n, l) ≡ (n, l)
  unfolding merge_one
  merge_one_known o ops l n ne h m = rw stale refl
    where
      latest : latest_stamp_for (key_of o) l.oplog ≡ hlc_of (winner (key_of o) ops)
      latest = latest_stamp_for-winner (key_of o) l.oplog ∙ ap hlc_of (h.newest (key_of o))

      stale : is_stale o.hlc (latest_stamp_for (key_of o) l.oplog) ≡ true
      stale = elim (Option-cases (winner (key_of o) ops)) [
        | inl e' ↦ absurd (winner-none (key_of o) o ops e' m refl)
        | inr (w, e') ↦
            rw (latest, e') (stale_of_le o.hlc w.hlc ne (winner_max (key_of o) w o ops e' m refl))
      ]

  merge_all_known :
      (new ops : List (Operation Row)) (l : Ledger Row) (n : ℕ)
      → Knows l ops
      → All (λ o. (o.hlc ≢ []) × In o ops) new
      → merge_all e new (n, l) ≡ (n, l)
  unfolding merge_all
  merge_all_known [] ops l n h known = refl
  merge_all_known (o ∷ new) ops l n h known =
      ap (merge_all e new) (merge_one_known o ops l n known.0.0 h known.0.1)
      ∙ merge_all_known new ops l n h known.1

  -- Merging again operations that the ledger knows applies none of them, and changes neither the
  -- tables nor the log.
  pub merge_again :
      (new ops : List (Operation Row)) (l : Ledger Row) (k : Clock)
      → l.clock ≡ some k
      → Knows l ops
      → All (λ o. (o.hlc ≢ []) × In o ops) new
      → ((merge e new l).0 ≡ ok 0)
        × ((merge e new l).1.tables ≡ l.tables)
        × ((merge e new l).1.oplog ≡ l.oplog)
  merge_again [] ops l k ready h known = unfold merge in (refl, refl, refl)
  merge_again (o ∷ new) ops l k ready h known =
      let idle = merge_all_known (sort_ops (o ∷ new)) ops l 0 h (
        All-of _ (sort_ops (o ∷ new))
          (λ p m. All-In _ p (o ∷ new) known ((SameOps-sort_ops (o ∷ new) p).0 m))) in
      rw (merge_run o new l k ready) (
        unfold merge_sorted in
        (
          rw idle,
          ap (λ (acc : ℕ × Ledger Row). acc.1.tables) idle,
          ap (λ (acc : ℕ × Ledger Row). acc.1.oplog) idle,
        ))
