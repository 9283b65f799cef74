-- ===== src/Sync/Cycle.antt =====
-- What a cycle of app/src/app/core/sync/sync.service.ts leaves, whatever the destination does.
use easy_docket.Base.{
  ℕ, ◌≡◌, ◌≢◌, ◌⊎◌, inl, inr, refl, sym, ap, ◌∙◌, ◌↔◌, true, false, not, Option, none, some, filter,
  length,
}
use easy_docket.Models.{Entity}
use easy_docket.Sync.{
  SyncStatus, idle, error, count_pending, is_retryable, failed, finished, started, exchange,
  run_cycle,
}
use easy_docket.Sync.Remote.{
  Fault, no_target, locked, bad_envelope, bad_payload, transport, ledger_fault, Reply, ok, err,
  Adapter, Cipher, Vault, Device, M, ◌>>=◌, ◌>>◌, local, return,
}
use easy_docket.Sync.Fixes.{Fixes}
use easy_docket.Sync.Fixes.Steps.{Blind, pull-Fixes, push-Fixes, maybe_snapshot-Fixes}
use easy_docket.Sync.Snapshot.{maybe_snapshot}

module _ {Row Bytes : Type 0} where
  -- Writing a snapshot and pruning, with all failures there are, leave the tables, the log and the clock
  -- of the device as they are.
  pub maybe_snapshot-ledger :
      (c : Cipher Row Bytes) (a : Adapter Bytes) (v : Vault) (d : Device Row) (s : a.Store)
      → (maybe_snapshot c a v d s).1.ledger ≡ d.ledger
  maybe_snapshot-ledger c a v d s =
      maybe_snapshot-Fixes (λ (x : Device Row). x.ledger) c a v
        (record { to_applied = λ x names. refl; to_snapshot = λ x stamp. refl }) d s

module _ {Row Bytes : Type 0} (e : Entity Row) (c : Cipher Row Bytes) (a : Adapter Bytes)
    (connect : a.Store → Reply (Unit {0}) × a.Store) (wall now : ℕ) where
  -- A step that succeeds saves the time, and one that fails leaves the saved time.
  abbrev Saves : {A : Type 0} → M Row a.Store A → Type 0
  Saves {A} m =
      (d : Device Row) (s : a.Store)
      → ((x : A) × ((m d s).0 ≡ ok x) × ((m d s).1.last_sync ≡ some now))
        ⊎ ((f : Fault) × ((m d s).0 ≡ err f) × ((m d s).1.last_sync ≡ d.last_sync))

  abbrev saved : Device Row → Option ℕ
  saved d = d.last_sync

  Saves-bind :
      {A C : Type 0} (m : M Row a.Store A) (f : A → M Row a.Store C)
      → Fixes saved m
      → ((x : A) → Saves (f x))
      → Saves (m >>= f)
  unfolding ◌>>=◌
  Saves-bind {A} {C} m f hm hf d s = after (m d s).0 (m d s).1 (m d s).2 (hm d s)
    where
      after :
          (r : Reply A) (d' : Device Row) (s' : a.Store)
          → d'.last_sync ≡ d.last_sync
          → let n : M Row a.Store C = (λ d0 s0. (r, d', s')) >>= f in
            ((x : C) × ((n d s).0 ≡ ok x) × ((n d s).1.last_sync ≡ some now))
            ⊎ ((g : Fault) × ((n d s).0 ≡ err g) × ((n d s).1.last_sync ≡ d.last_sync))
      after (ok x) d' s' h = elim (hf x d' s') [
        | inl (y, p, q) ↦ inl (y, p, q)
        | inr (g, p, q) ↦ inr (g, p, q ∙ h)
      ]
      after (err g) d' s' h = inr (g, refl, h)

  finish-Saves :
      {A : Type 0} (x : A)
      → Saves (
          local {Store = a.Store} (λ (d : Device Row). record d { last_sync = some now })
          >> return x)
  unfolding ◌>>=◌
  finish-Saves x d s = inl (x, refl, refl)

  exchange-Saves : (v : Vault) → Saves (exchange e c a connect wall now v)
  unfolding exchange
  exchange-Saves v =
      let blind : Blind saved = record {
        to_applied = λ x names. refl;
        to_snapshot = λ x stamp. refl;
      } in
      Saves-bind _ _ (λ d s. refl)
        (λ u. Saves-bind _ _ (pull-Fixes saved e c a wall v blind (λ d l. refl)) (λ pulled.
          Saves-bind _ _ (push-Fixes saved e c a wall v blind (λ d l. refl)) (λ pushed.
            Saves-bind _ _ (maybe_snapshot-Fixes saved c a v blind)
              (λ w. Saves-bind _ _ (λ d s. refl) (λ z. finish-Saves (pulled, pushed))))))

  -- The operations that wait to be pushed.
  abbrev waiting : Device Row → ℕ
  waiting d = length (filter (λ o. not o.synced) d.ledger.oplog)

  -- What a status says about the outcome of an exchange.
  abbrev pub Reported : Reply (ℕ × ℕ) → SyncStatus → Device Row → Type 0
  Reported (ok counts) st d =
      (st.state ≡ idle)
      × (st.last_error ≡ none)
      × (st.retryable ≡ false)
      × (st.pulled ≡ counts.0)
      × (st.pushed ≡ counts.1)
      × (st.pending ≡ waiting d)
      × (d.last_sync ≡ some now)
  Reported (err fault) st d =
      ((fault ≡ no_target) × (st.state ≡ idle) × (st.last_error ≡ none))
      ⊎ ((fault ≢ no_target)
          × (st.state ≡ error)
          × (st.last_error ≡ some fault)
          × ((st.retryable ≡ true) ↔ (fault ≡ transport true))
          × (st.pending ≡ waiting d))

  failed-Reported :
      (f : Fault) (d : Device Row) (st : SyncStatus) → Reported (err f) (failed f d st) d
  unfolding failed is_retryable count_pending
  failed-Reported no_target d st = inl (refl, refl, refl)
  failed-Reported locked d st = inr ((λ x. cc), refl, refl, ((λ x. cc), (λ x. cc)), refl)
  failed-Reported bad_envelope d st = inr ((λ x. cc), refl, refl, ((λ x. cc), (λ x. cc)), refl)
  failed-Reported bad_payload d st = inr ((λ x. cc), refl, refl, ((λ x. cc), (λ x. cc)), refl)
  failed-Reported (transport b) d st =
      inr ((λ x. cc), refl, refl, ((λ x. ap transport x), (λ x. cc)), refl)
  failed-Reported (ledger_fault y) d st = inr ((λ x. cc), refl, refl, ((λ x. cc), (λ x. cc)), refl)

  -- What a cycle leaves, by the vault: at a locked one nothing happens, at an unlocked one the device and
  -- the destination are as the exchange leaves them, and the status reports its outcome.
  abbrev pub Rested :
      Option Vault → Device Row → a.Store → SyncStatus → Device Row → a.Store → Type 0
  Rested none d s st' d' s' = (st'.state ≡ idle) × (st'.last_error ≡ none) × (d' ≡ d) × (s' ≡ s)
  Rested (some v) d s st' d' s' =
      let (r, left, stored) = exchange e c a connect wall now v d s in
      Reported r st' d' × (d' ≡ left) × (s' ≡ stored)

  failed-last_sync_at :
      (f : Fault) (d : Device Row) (st : SyncStatus)
      → (failed f d st).last_sync_at ≡ st.last_sync_at
  unfolding failed
  failed-last_sync_at no_target d st = refl
  failed-last_sync_at locked d st = refl
  failed-last_sync_at bad_envelope d st = refl
  failed-last_sync_at bad_payload d st = refl
  failed-last_sync_at (transport b) d st = refl
  failed-last_sync_at (ledger_fault x) d st = refl

  -- A cycle at a locked vault shows idle and changes nothing. At an unlocked one it leaves the device and
  -- the destination as the exchange does, and its status tells what the exchange returned or threw:
  -- where it returned, idle with the counts and without an error; where it threw because there is no
  -- target, idle without an error; where it threw anything else, an error with just this fault, and a
  -- retry is offered exactly for an error of the transport that says so. But for the missing target
  -- the status counts the operations that wait. If the status showed the saved time of the last sync
  -- before, it does so afterwards; that time is the one of this cycle where the exchange returned, and
  -- otherwise the one from before or that of this cycle.
  pub run_cycle_rests :
      (o : Option Vault) (st : SyncStatus) (d : Device Row) (s : a.Store)
      → st.last_sync_at ≡ d.last_sync
      → let (st', d', s') = run_cycle e c a connect wall now o st d s in
        Rested o d s st' d' s'
        × (st'.last_sync_at ≡ d'.last_sync)
        × ((d'.last_sync ≡ d.last_sync) ⊎ (d'.last_sync ≡ some now))
  unfolding run_cycle finished started count_pending
  run_cycle_rests none st d s h = ((refl, refl, refl, refl), h, inl refl)
  run_cycle_rests (some v) st d s h = elim (exchange-Saves v d s) [
    | inl (counts, good, time) ↦
        rw (run_cycle, good)
          (((refl, refl, refl, refl, refl, refl, time), refl, refl), sym time, inr time)
    | inr (f, bad, time) ↦
        rw (run_cycle, bad)
          (
            (failed-Reported f _ (started st), refl, refl),
            failed-last_sync_at f _ (started st) ∙ h ∙ sym time,
            inl time,
          )
  ]
