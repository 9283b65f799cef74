-- ===== src/Replicas.antt =====
-- Devices that write to their ledgers and exchange operations, as a step relation over the calls of
-- app/src/app/core/repositories/ledger.service.ts: what the writes, the merges and the restarts of all
-- devices leave together.
pub mod Clocks
pub mod Invariant
pub mod Moves
pub mod Receives
pub mod Keeps
pub mod Converge
mod Tests
use easy_docket.Base.{
  ℕ, ◌≡◌, ◌^◌, ◌<◌, false, none, some, List, [], ◌∷◌, ◌++◌, if◌then◌else◌, In, All,
}
use easy_docket.Base.Text.{Text, ltb_text, eq_text, Lacks}
use easy_docket.Hlc.{Clock, tick}
use easy_docket.Hlc
use easy_docket.Models.{EntityName, Operation, Entity}
use easy_docket.Ledger.{
  Ledger, Result, ok, put, remove, merge, observe_stamps, mark_synced, initialise,
}
use easy_docket.Ledger.Write.{put_operation, delete_operation}

-- A device's ledger, and the operations that it has written or received.
pub record Replica (Row : Type 0) : Type 0 where
  pub ledger : Ledger Row
  pub learned : List (Operation Row)

-- All devices by their names, and the operations that any of them has written.
pub record World (Row : Type 0) : Type 0 where
  pub replica : Text → Replica Row
  pub written : List (Operation Row)

-- A stamp that bounds the stamp of the operation.
abbrev pub Covers : {Row : Type 0} → List Text → Operation Row → Type 0
Covers stamps o = (s : Text) × In s stamps × (ltb_text s o.hlc ≡ false)

-- One move of the device `d`: what it turns its replica into, and the operations that it adds to the
-- written ones. Of the received operations each is covered by a stamp that the clock has taken, as the
-- head of a batch covers those of the batch.
pub data Move {Row : Type 0} (e : Entity Row) (written : List (Operation Row)) (d : Text)
    (r r' : Replica Row) (added : List (Operation Row)) : Type 0 where
  wrote :
      (wall : ℕ) (entity : EntityName) (value : Row) (stamp : Text) (k k' : Clock)
      (o : Operation Row)
      → r.ledger.clock ≡ some k
      → wall < 2 ^ 53
      → tick wall k ≡ (Hlc.ok stamp, k')
      → o ≡ put_operation e entity (e.with_stamp stamp value) k'.device
      → r' ≡ record { ledger = (put e wall entity value r.ledger).1; learned = o ∷ r.learned }
      → added ≡ o ∷ []
      → Move e written d r r' added
  removed :
      (wall : ℕ) (entity : EntityName) (id stamp : Text) (k k' : Clock) (o : Operation Row)
      → r.ledger.clock ≡ some k
      → wall < 2 ^ 53
      → tick wall k ≡ (Hlc.ok stamp, k')
      → o ≡ delete_operation entity id stamp k'.device
      → r' ≡ record { ledger = (remove wall entity id r.ledger).1; learned = o ∷ r.learned }
      → added ≡ o ∷ []
      → Move e written d r r' added
  observed :
      (wall : ℕ) (stamps : List Text)
      → wall < 2 ^ 53
      → All (λ s. (o : Operation Row) × In o written × (s ≡ o.hlc)) stamps
      → r' ≡ record r { ledger = (observe_stamps wall stamps r.ledger).1 }
      → added ≡ []
      → Move e written d r r' added
  received :
      (wall : ℕ) (stamps : List Text) (batch : List (Operation Row)) (l : Ledger Row)
      → wall < 2 ^ 53
      → All (λ s. (o : Operation Row) × In o written × (s ≡ o.hlc)) stamps
      → All (λ o. In o written × Covers stamps o) batch
      → observe_stamps wall stamps r.ledger ≡ (ok tt, l)
      → r' ≡ record { ledger = (merge e batch l).1; learned = batch ++ r.learned }
      → added ≡ []
      → Move e written d r r' added
  pushed :
      (stamps : List Text)
      → r' ≡ record r { ledger = mark_synced stamps r.ledger }
      → added ≡ []
      → Move e written d r r' added
  restarted :
      r' ≡ record r { ledger = initialise d r.ledger } → added ≡ [] → Move e written d r r' added

module _ {Row : Type 0} where
  abbrev pub set : Text → Replica Row → (Text → Replica Row) → Text → Replica Row
  set d r f name = if eq_text d name then r else f name

  -- The ledger of a device that has started for the first time.
  abbrev pub new_replica : Text → Replica Row
  new_replica d = record {
    ledger = initialise d (record { tables = []; oplog = []; saved_clock = none; clock = none });
    learned = [];
  }

  -- Reachable worlds: the devices move one at a time, in any order. The name of a device has no dash.
  pub data Reach (e : Entity Row) : World Row → Type 0 where
    start : Reach e (record { replica = new_replica; written = [] })
    later :
        (w : World Row) (d : Text) (r : Replica Row) (added : List (Operation Row))
        → Reach e w
        → Lacks b'-' d
        → Move e w.written d (w.replica d) r added
        → Reach e (record { replica = set d r w.replica; written = added ++ w.written })
