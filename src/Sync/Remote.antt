-- ===== src/Sync/Remote.antt =====
-- What the sync engine meets outside: the destination of app/src/app/core/sync/sync-adapter.ts, the
-- sealing of app/src/app/core/crypto/crypto.service.ts, and the device's own database. The transports
-- and the ciphers are libraries of the platform, hence parameters.
use easy_docket.Base.{ℕ, Bool, ◌≡◌, Option, some, List, ◌++◌, any}
use easy_docket.Base.Text.{Text, eq_text}
use easy_docket.Models.{EntityName, Operation}
use easy_docket.Ledger.{Ledger}
use easy_docket.Ledger

-- What ends a cycle early. A `transport` error says whether a retry may help.
pub data Fault : Type 0 where
  no_target locked bad_envelope bad_payload : Fault
  transport : Bool → Fault
  ledger_fault : Ledger.Error → Fault

pub data Reply (A : Type 0) : Type 0 where
  ok : A → Reply A
  err : Fault → Reply A

-- `SyncAdapter`, over an unknown state of the destination and of the connection. An adapter without
-- `flush` has one that does nothing.
pub record Adapter (Bytes : Type 0) : Type 1 where
  pub Store : Type 0
  pub list : Text → Store → Reply (List Text) × Store
  pub get : Text → Store → Reply Bytes × Store
  pub put : Text → Bytes → Store → Reply (Unit {0}) × Store
  pub remove : Text → Store → Reply (Unit {0}) × Store
  pub flush : Store → Reply (Unit {0}) × Store

-- `EnvelopeHeader`, without the `t` that nothing reads.
pub record Header : Type 0 where
  pub vault : Text
  pub device : Text
  pub stamp : Text

-- `OperationBatch`
pub record OperationBatch (Row : Type 0) : Type 0 where
  pub vault_id : Text
  pub device : Text
  pub head : Text
  pub ops : List (Operation Row)

-- `LedgerSnapshot`
pub record LedgerSnapshot (Row : Type 0) : Type 0 where
  pub vault_id : Text
  pub device : Text
  pub watermark : Text
  pub entities : List (EntityName × List Row)
  pub operation_count : ℕ

pub data Payload (Row : Type 0) : Type 0 where
  batch : OperationBatch Row → Payload Row
  snapshot : LedgerSnapshot Row → Payload Row

-- `sealJson` and `openJson` under the vault's key. The nonce of an envelope plays no part in opening it.
pub record Cipher (Row Bytes : Type 0) : Type 0 where
  pub seal_json : Header → Payload Row → Bytes
  pub open_json : Bytes → Option (Header × Payload Row)

-- What is sealed opens.
abbrev pub Opens : {Row Bytes : Type 0} → Cipher Row Bytes → Type 0
Opens {Row} c = (h : Header) (p : Payload Row) → c.open_json (c.seal_json h p) ≡ some (h, p)

-- An unlocked vault.
pub record Vault : Type 0 where
  pub vault_id : Text
  pub device_id : Text

-- The service's database: the ledger, the names of `remoteObjects`, and the rows of `meta`.
pub record Device (Row : Type 0) : Type 0 where
  pub ledger : Ledger Row
  pub applied : List Text
  pub last_sync : Option ℕ
  pub last_snapshot : Option Text

-- `new Set(names).has(name)`
abbrev pub has_name : List Text → Text → Bool
has_name names name = any (eq_text name) names

-- A step over the device and the destination.
abbrev pub M : (Row Store A : Type 0) → Type 0
M Row Store A = Device Row → Store → Reply A × Device Row × Store

unfoldable pub lift_result : {A : Type 0} → Ledger.Result A → Reply A
lift_result (Ledger.ok a) = ok a
lift_result (Ledger.err e) = err (ledger_fault e)

module _ {Row Store : Type 0} where
  infixl 5 ◌>>=◌ ◌>>◌
  unfoldable pub ◌>>=◌ : {A B : Type 0} → M Row Store A → (A → M Row Store B) → M Row Store B
  ◌>>=◌ m f d s = let (r, d', s') = m d s in elim r [ ok a ↦ f a d' s' | err e ↦ (err e, d', s') ]

  abbrev pub ◌>>◌ : {A B : Type 0} → M Row Store A → M Row Store B → M Row Store B
  m >> k = m >>= λ _. k

  abbrev pub return : {A : Type 0} → A → M Row Store A
  return a d s = (ok a, d, s)

  abbrev pub throw : {A : Type 0} → Fault → M Row Store A
  throw e d s = (err e, d, s)

  -- A call of the adapter.
  abbrev pub remote : {A : Type 0} → (Store → Reply A × Store) → M Row Store A
  remote call d s = let (r, s') = call s in (r, d, s')

  -- A change of the device's own database.
  abbrev pub local : (Device Row → Device Row) → M Row Store (Unit {0})
  local change d s = (ok tt, change d, s)

  -- A call of the ledger service.
  unfoldable pub on_ledger : {A : Type 0} → (Ledger Row → Ledger.Step Row A) → M Row Store A
  unfolding lift_result
  on_ledger step d s = let (r, l) = step d.ledger in (lift_result r, record d { ledger = l }, s)

  -- `remoteObjects.put`
  abbrev pub mark_applied : List Text → M Row Store (Unit {0})
  mark_applied names = local λ d. record d { applied = d.applied ++ names }
