-- ===== src/Sync/Push.antt =====
-- Pushing: `push` of app/src/app/core/sync/sync.service.ts.
pub mod Slices
pub mod Delivers
use easy_docket.Base.{ℕ, zero, suc, ◌+◌, ◌-◌, List, [], ◌∷◌, ◌++◌, map, take, drop, length}
use easy_docket.Base.Text.{Text}
use easy_docket.Models.{Operation, LocalOperation}
use easy_docket.Db.Log.{ops_of}
use easy_docket.Ledger.{Ledger, pending_operations, mark_synced}
use easy_docket.Sync.Names.{ops_object_name}
use easy_docket.Sync.Remote.{
  Adapter, Header, OperationBatch, batch, Cipher, Vault, Device, M, ◌>>=◌, ◌>>◌, return, remote,
  local, mark_applied,
}

abbrev pub max_ops_per_batch : ℕ
max_ops_per_batch = 500

-- The default limit of `pendingOperations`.
abbrev pub pending_limit : ℕ
pending_limit = 5000

module _ {Row : Type 0} where
  abbrev pub stamps_of : List (LocalOperation Row) → List Text
  stamps_of = map (λ o. o.hlc)

  -- The stamp of the last operation of a slice that begins with one.
  unfoldable pub last_stamp : LocalOperation Row → List (LocalOperation Row) → Text
  last_stamp o [] = o.hlc
  last_stamp o (p ∷ slice) = last_stamp p slice

  unfoldable pub batch_of :
      Vault → LocalOperation Row → List (LocalOperation Row) → OperationBatch Row
  batch_of v o slice = record {
    vault_id = v.vault_id;
    device = v.device_id;
    head = last_stamp o slice;
    ops = ops_of (o ∷ slice);
  }

  unfoldable pub header_of : OperationBatch Row → Header
  header_of b = record { vault = b.vault_id; device = b.device; stamp = b.head }

module _ {Row Bytes : Type 0} (c : Cipher Row Bytes) (a : Adapter Bytes) (v : Vault) where
  -- One round of the loop: a slice is sealed, uploaded, and marked.
  unfoldable pub push_slice :
      LocalOperation Row → List (LocalOperation Row) → M Row a.Store (Unit {0})
  push_slice o slice =
      let b = batch_of v o slice in
      let name = ops_object_name v.vault_id b.head in
      remote (a.put name (c.seal_json (header_of b) (batch b)))
      >> (mark_applied (name ∷ [])
          >> local λ d. record d { ledger = mark_synced (stamps_of (o ∷ slice)) d.ledger })

  -- The loop; each round takes at least one operation, so as many rounds as operations are enough.
  unfoldable pub push_from : ℕ → List (LocalOperation Row) → ℕ → M Row a.Store ℕ
  push_from zero pending pushed = return pushed
  push_from (suc rounds) [] pushed = return pushed
  push_from (suc rounds) (o ∷ pending) pushed =
      let slice = take (max_ops_per_batch - 1) pending in
      push_slice o slice
      >> push_from rounds (drop (max_ops_per_batch - 1) pending) (pushed + length (o ∷ slice))

  -- `push`
  unfoldable pub push : M Row a.Store ℕ
  push d =
      let pending = pending_operations pending_limit d.ledger in
      push_from (length pending) pending 0 d
