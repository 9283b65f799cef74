-- ===== src/Sync.antt =====
-- The sync engine: the cycle of app/src/app/core/sync/sync.service.ts. The vault stays unlocked for the
-- length of a cycle, and callers that share a run get the status of that run.
pub mod Names
pub mod Remote
pub mod Pull
pub mod Push
pub mod Snapshot
pub mod Fixes
pub mod Relay
pub mod Cycle
mod Memory
mod Tests
use easy_docket.Base.{ℕ, Bool, true, false, not, Option, none, some, List, length, filter}
use easy_docket.Models.{Entity}
use easy_docket.Ledger.{Ledger}
use easy_docket.Sync.Remote.{
  Fault, no_target, transport, Reply, ok, err, Adapter, Cipher, Vault, Device, M, ◌>>=◌, ◌>>◌,
  return, remote, local,
}
use easy_docket.Sync.Pull.{pull}
use easy_docket.Sync.Push.{push}
use easy_docket.Sync.Snapshot.{maybe_snapshot}

pub data SyncState : Type 0 where
  idle syncing error : SyncState

-- `SyncStatus`, with the fault in place of its message.
pub record SyncStatus : Type 0 where
  pub state : SyncState
  pub last_sync_at : Option ℕ
  pub last_error : Option Fault
  pub retryable : Bool
  pub pending : ℕ
  pub pulled : ℕ
  pub pushed : ℕ

abbrev pub initial_status : SyncStatus
initial_status = record {
  state = idle;
  last_sync_at = none;
  last_error = none;
  retryable = false;
  pending = 0;
  pulled = 0;
  pushed = 0;
}

-- `countPending`
unfoldable pub count_pending : {Row : Type 0} → Ledger Row → ℕ
count_pending l = length (filter (λ o. not o.synced) l.oplog)

-- `initialise`
unfoldable pub initialise : {Row : Type 0} → Device Row → SyncStatus → SyncStatus
initialise d st = record st { last_sync_at = d.last_sync; pending = count_pending d.ledger }

-- A retry helps only against an error of the transport that says so.
unfoldable pub is_retryable : Fault → Bool
is_retryable (transport again) = again
is_retryable _ = false

module _ {Row : Type 0} where
  -- The status that the `catch` leaves.
  unfoldable pub failed : Fault → Device Row → SyncStatus → SyncStatus
  failed no_target d st = record st { state = idle; last_error = none }
  failed fault d st = record st {
    state = error;
    last_error = some fault;
    retryable = is_retryable fault;
    pending = count_pending d.ledger;
  }

  unfoldable pub finished : ℕ → ℕ × ℕ → Device Row → SyncStatus → SyncStatus
  finished now (pulled, pushed) d st = record st {
    state = idle;
    last_sync_at = some now;
    last_error = none;
    retryable = false;
    pulled = pulled;
    pushed = pushed;
    pending = count_pending d.ledger;
  }

-- The start of a cycle.
unfoldable pub started : SyncStatus → SyncStatus
started st = record st { state = syncing; last_error = none; pulled = 0; pushed = 0 }

module _ {Row Bytes : Type 0} (e : Entity Row) (c : Cipher Row Bytes) (a : Adapter Bytes)
    (connect : a.Store → Reply (Unit {0}) × a.Store) (wall now : ℕ) where
  -- The steps of a cycle: `connect` is the choice of the adapter.
  unfoldable pub exchange : Vault → M Row a.Store (ℕ × ℕ)
  exchange v =
      remote connect
      >> (pull e c a wall v >>= λ pulled. push c a v >>= λ pushed.
          maybe_snapshot c a v
          >> (remote a.flush
              >> (local (λ d. record d { last_sync = some now }) >> return (pulled, pushed))))

  -- `runCycle`: the status, the device and the destination that it leaves.
  unfoldable pub run_cycle :
      Option Vault → SyncStatus → Device Row → a.Store → SyncStatus × Device Row × a.Store
  run_cycle none st d s = (record st { state = idle; last_error = none }, d, s)
  run_cycle (some v) st d s =
      let (r, d', s') = exchange v d s in
      elim r [
        | err fault ↦ (failed fault d' (started st), d', s')
        | ok counts ↦ (finished now counts d' (started st), d', s')
      ]
