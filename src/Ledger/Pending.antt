-- ===== src/Ledger/Pending.antt =====
-- What is left to push, what has a history, and what a restart restores:
-- app/src/app/core/repositories/ledger.service.ts.
use easy_docket.Base.{
  ℕ, ◌<◌, ◌^◌, ◌≡◌, ◌↔◌, inl, inr, refl, sym, ◌∙◌, ap, ◌⊎◌, map, if◌then◌else◌, Bool-cases, Bool,
  true, false, not, ◌&&◌, Option, none, some, List, [], ◌∷◌, ◌++◌, arith, Option-cases, In, filter,
  take, any,
}
use easy_docket.Base.Text.{Text, eq_text, ltb_text}
use easy_docket.Hlc.{Clock, tick}
use easy_docket.Hlc
use easy_docket.Hlc.Order.{IsValid}
use easy_docket.Hlc.Progress.{tick_progress}
use easy_docket.Models.{Key, Operation, LocalOperation}
use easy_docket.Db.{key_of}
use easy_docket.Db.Log.{ops_of}
use easy_docket.Ledger.{
  Ledger, pending_operations, mark_synced, mark_one, mark_from, has_history, initialise,
}
use easy_docket.Ledger.Lww.{winner, winner_sound, winner-none}
use easy_docket.Ledger.Latest.{hlc_of, latest_stamp_for-winner}
use easy_docket.Ledger.Knows.{Knows}

unfoldable pub is_some : Option Text → Bool
is_some none = false
is_some (some s) = true

module _ {Row : Type 0} where
  -- Not pushed, and not under one of the stamps.
  abbrev pub still_pending : List Text → LocalOperation Row → Bool
  still_pending stamps o = not o.synced && not (any (eq_text o.hlc) stamps)

  -- The pending operations after one mark, as those before it under one test more. The marked ones
  -- differ in their mark only, and are left out.
  pending-mark_one :
      (hlc : Text) (stamps : List Text) (log : List (LocalOperation Row))
      → filter (still_pending stamps) (mark_one hlc log) ≡ filter (still_pending (hlc ∷ stamps)) log
  unfolding mark_one
  pending-mark_one hlc stamps [] = refl
  pending-mark_one hlc stamps (o ∷ log) = ground (arith, pending-mark_one hlc stamps log)

  pending_unmarked :
      (log : List (LocalOperation Row))
      → filter (λ o. not o.synced) log ≡ filter (still_pending []) log
  pending_unmarked [] = refl
  pending_unmarked (o ∷ log) = ground (arith, pending_unmarked log)

  pending-mark_from :
      (stamps : List Text) (log : List (LocalOperation Row))
      → filter (λ o. not o.synced) (mark_from stamps log) ≡ filter (still_pending stamps) log
  unfolding mark_from
  pending-mark_from [] log = pending_unmarked log
  pending-mark_from (hlc ∷ stamps) log =
      pending-mark_from stamps (mark_one hlc log) ∙ pending-mark_one hlc stamps log

  -- After `mark_synced`, what is pending is what was pending and has none of the stamps.
  pub pending-mark_synced :
      (limit : ℕ) (stamps : List Text) (l : Ledger Row)
      → pending_operations limit (mark_synced stamps l)
        ≡ take limit (filter (still_pending stamps) l.oplog)
  unfolding pending_operations mark_synced
  pending-mark_synced limit stamps l = ap (take limit) (pending-mark_from stamps l.oplog)

  -- An entry of the log, marked if it has one of the stamps.
  abbrev pub marked : List Text → LocalOperation Row → LocalOperation Row
  marked stamps o = if any (eq_text o.hlc) stamps then record o { synced = true } else o

  marked-nil : (log : List (LocalOperation Row)) → map (marked []) log ≡ log
  marked-nil [] = refl
  marked-nil (o ∷ log) = ap (λ rest. o ∷ rest) (marked-nil log)

  marked_twice :
      (hlc : Text) (stamps : List Text) (o : LocalOperation Row)
      → marked stamps (if eq_text o.hlc hlc then record o { synced = true } else o)
        ≡ marked (hlc ∷ stamps) o
  marked_twice hlc stamps o = elim (Bool-cases (eq_text o.hlc hlc)) [
    | inl own ↦ rw own (same (Bool-cases (any (eq_text o.hlc) stamps)))
    | inr other ↦ rw other refl
  ]
    where
      same :
          (any (eq_text o.hlc) stamps ≡ true) ⊎ (any (eq_text o.hlc) stamps ≡ false)
          → marked stamps (record o { synced = true }) ≡ record o { synced = true }
      same (inl y) = rw y refl
      same (inr n) = rw n refl

  marked-mark_one :
      (hlc : Text) (stamps : List Text) (log : List (LocalOperation Row))
      → map (marked stamps) (mark_one hlc log) ≡ map (marked (hlc ∷ stamps)) log
  unfolding mark_one
  marked-mark_one hlc stamps [] = refl
  marked-mark_one hlc stamps (o ∷ log) =
      λ i. marked_twice hlc stamps o i ∷ marked-mark_one hlc stamps log i

  mark_from-marked :
      (stamps : List Text) (log : List (LocalOperation Row))
      → mark_from stamps log ≡ map (marked stamps) log
  unfolding mark_from
  mark_from-marked [] log = sym (marked-nil log)
  mark_from-marked (hlc ∷ stamps) log =
      mark_from-marked stamps (mark_one hlc log) ∙ marked-mark_one hlc stamps log

  -- `mark_synced` marks the entries with one of the stamps, and changes nothing else.
  pub mark_synced-marked :
      (stamps : List Text) (l : Ledger Row)
      → mark_synced stamps l ≡ record l { oplog = map (marked stamps) l.oplog }
  unfolding mark_synced
  mark_synced-marked stamps l =
      ap (λ log. record l { oplog = log }) (mark_from-marked stamps l.oplog)

  mark_from-append :
      (xs ys : List Text) (log : List (LocalOperation Row))
      → mark_from (xs ++ ys) log ≡ mark_from ys (mark_from xs log)
  unfolding mark_from
  mark_from-append [] ys log = refl
  mark_from-append (x ∷ xs) ys log = mark_from-append xs ys (mark_one x log)

  -- Marking in two steps is marking at once.
  pub mark_synced-append :
      (xs ys : List Text) (l : Ledger Row)
      → mark_synced (xs ++ ys) l ≡ mark_synced ys (mark_synced xs l)
  unfolding mark_synced
  mark_synced-append xs ys l = ap (λ log. record l { oplog = log }) (mark_from-append xs ys l.oplog)

  pub mark_synced-nil : (l : Ledger Row) → mark_synced [] l ≡ l
  unfolding mark_synced mark_from
  mark_synced-nil l = refl

  ops_of-mark_one :
      (hlc : Text) (log : List (LocalOperation Row)) → ops_of (mark_one hlc log) ≡ ops_of log
  unfolding mark_one
  ops_of-mark_one hlc [] = refl
  ops_of-mark_one hlc (o ∷ log) = ground (arith, ops_of-mark_one hlc log)

  ops_of-mark_from :
      (stamps : List Text) (log : List (LocalOperation Row))
      → ops_of (mark_from stamps log) ≡ ops_of log
  unfolding mark_from
  ops_of-mark_from [] log = refl
  ops_of-mark_from (hlc ∷ stamps) log =
      ops_of-mark_from stamps (mark_one hlc log) ∙ ops_of-mark_one hlc log

  -- Marking pushed operations changes no more than their marks: the ledger knows what it knew.
  pub mark_synced-Knows :
      (stamps : List Text) (l : Ledger Row) (ops : List (Operation Row))
      → Knows l ops
      → Knows (mark_synced stamps l) ops
  unfolding mark_synced
  mark_synced-Knows stamps l ops h =
      let same = ops_of-mark_from stamps l.oplog in
      record {
        logged = λ o m. h.logged o (rw same at m);
        newest = λ k. ap (winner k) same ∙ h.newest k;
        rows = h.rows;
      }

  pub has_history-winner :
      (k : Key) (log : List (LocalOperation Row))
      → has_history k log ≡ is_some (hlc_of (winner k (ops_of log)))
  unfolding has_history is_some
  has_history-winner k log = ground (arith, latest_stamp_for-winner k log)

  -- An entity has a history exactly when the log holds an operation about it, deletions included.
  pub has_history_iff :
      (k : Key) (log : List (LocalOperation Row))
      → (has_history k log ≡ true) ↔ ((o : Operation Row) × In o (ops_of log) × (key_of o ≡ k))
  unfolding is_some
  has_history_iff k log = elim (Option-cases (winner k (ops_of log))) [
    | inl e ↦ (
      λ h. absurd (no_history e h),
      λ found. absurd (winner-none k found.0 (ops_of log) e found.1 found.2),
    )
    | inr (o, e) ↦ (
      λ h. let (m, same) = winner_sound k o (ops_of log) e in (o, m, same),
      λ found. has_history-winner k log ∙ rw e refl,
    )
  ]
    where
      no_history : winner k (ops_of log) ≡ none → has_history k log ≡ true → ⊥
      no_history e h = ground (arith, has_history-winner k log)

  -- A restart on the device whose clock was saved brings back the clock that the last write left, so
  -- that its next stamp is above that of the write.
  pub initialise_resumes :
      (wall : ℕ) (stamp : Text) (k k' : Clock) (l : Ledger Row)
      → l.saved_clock ≡ some k.state
      → wall < 2 ^ 53
      → IsValid k.state
      → tick wall k ≡ (Hlc.ok stamp, k')
      → ((initialise k.device l).clock ≡ some k)
        × (ltb_text (Hlc.encode k.state k.device) stamp ≡ true)
  unfolding initialise
  initialise_resumes wall stamp k k' l saved fits v ticked =
      (ground arith, (tick_progress wall k k' stamp fits v ticked).4)
