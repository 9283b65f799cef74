-- ===== src/Sync/Fixes/Steps.antt =====
-- Each step of the sync of app/src/app/core/sync/sync.service.ts leaves alone what its changes of the
-- device do not show in.
use easy_docket.Base.{ℕ, ◌≡◌, refl, Option, none, some, List, [], ◌∷◌, ◌++◌, not, suc, zero, arith}
use easy_docket.Base.Text.{Text, eq_text}
use easy_docket.Models.{Entity}
use easy_docket.Ledger
use easy_docket.Ledger.{Ledger}
use easy_docket.Sync.Remote.{
  Adapter, Header, LedgerSnapshot, Payload, batch, snapshot, Cipher, Vault, Device, on_ledger,
  mark_applied, has_name,
}
use easy_docket.Sync.Fixes.{Fixes, Fixes-bind, Fixes-option, Fixes-if}
use easy_docket.Sync.Pull.{
  take_object, download, fetch, merge_fetched, apply_opened, check_snapshot, apply_newest,
  apply_snapshot, pull_fresh, pull_listed, pull, newest_name, Fetched,
}
use easy_docket.Sync.Push.{push_slice, push_from, push}
use easy_docket.Sync.Snapshot.{
  remove_all, list_both, prune_superseded, superseded, prune, write_snapshot, snapshot_at,
  newest_stamp, maybe_snapshot,
}
use easy_docket.Models.{LocalOperation}

-- The names and the marks that the steps set do not show in the view.
pub record Blind {Row B : Type 0} (view : Device Row → B) : Type 0 where
  pub to_applied :
      (d : Device Row) (names : List Text) → view (record d { applied = names }) ≡ view d
  pub to_snapshot :
      (d : Device Row) (stamp : Option Text) → view (record d { last_snapshot = stamp }) ≡ view d

module _ {Row B : Type 0} (view : Device Row → B) (blind : Blind view) where
  mark_applied-Fixes :
      {Store : Type 0} (names : List Text) → Fixes view {Store = Store} (mark_applied names)
  mark_applied-Fixes names d s = blind.to_applied d (d.applied ++ names)

module _ {Row Bytes B : Type 0} (view : Device Row → B) (c : Cipher Row Bytes) (a : Adapter Bytes)
    (v : Vault) (blind : Blind view) where
  remove_all-Fixes : (names : List Text) → Fixes view (remove_all c a v names)
  unfolding remove_all
  remove_all-Fixes [] = λ d s. refl
  remove_all-Fixes (name ∷ names) =
      Fixes-bind view _ _ (λ d s. refl)
        (λ u. Fixes-bind view _ _ (λ d s. blind.to_applied d _) (λ w. remove_all-Fixes names))

  list_both-Fixes : Fixes view (list_both c a v)
  unfolding list_both
  list_both-Fixes d s = ground arith

  prune-Fixes : (watermark : Text) → Fixes view (prune c a v watermark)
  unfolding prune prune_superseded
  prune-Fixes watermark d s =
      Fixes-bind view _ _ list_both-Fixes (λ x. remove_all-Fixes (superseded watermark x.0 x.1)) d s

  write_snapshot-Fixes :
      (watermark : Text) (l : Ledger Row) → Fixes view (write_snapshot c a v watermark l)
  unfolding write_snapshot
  write_snapshot-Fixes watermark l =
      Fixes-bind view _ _ (λ d s. refl)
        (λ u.
          Fixes-bind view _ _ (mark_applied-Fixes view blind _)
            (λ w. Fixes-bind view _ _ (λ d s. blind.to_snapshot d _) (λ z. prune-Fixes watermark)))

  snapshot_at-Fixes :
      (watermark : Text) (l : Ledger Row) → Fixes view (snapshot_at c a v watermark l)
  unfolding snapshot_at
  snapshot_at-Fixes [] l = λ d s. refl
  snapshot_at-Fixes (ch ∷ watermark) l = write_snapshot-Fixes (ch ∷ watermark) l

  pub maybe_snapshot-Fixes : Fixes view (maybe_snapshot c a v)
  unfolding maybe_snapshot
  maybe_snapshot-Fixes d s =
      ground (arith, snapshot_at-Fixes (newest_stamp d.ledger.oplog) d.ledger d s)

module _ {Row Bytes B : Type 0} (view : Device Row → B) (e : Entity Row) (c : Cipher Row Bytes)
    (a : Adapter Bytes) (wall : ℕ) (v : Vault) (blind : Blind view)
    (to_ledger : (d : Device Row) (l : Ledger Row) → view (record d { ledger = l }) ≡ view d) where
  download-Fixes : (name : Text) → Fixes view (download e c a wall v name)
  unfolding download
  download-Fixes name =
      Fixes-bind view _ _ (λ d s. refl)
        (λ bytes. Fixes-option view (c.open_json bytes) _ _ (λ d s. refl) (λ x d s. refl))

  fetch-Fixes : (names : List Text) (f : Fetched Row) → Fixes view (fetch e c a wall v names f)
  unfolding fetch
  fetch-Fixes [] f = λ d s. refl
  fetch-Fixes (name ∷ names) f = Fixes-bind view _ _ (download-Fixes name) (λ opened.
      Fixes-option view (take_object v name opened f) _ _ (λ d s. refl) (λ g. fetch-Fixes names g))

  on_ledger-Fixes :
      {A : Type 0} (step : Ledger Row → Ledger.Step Row A)
      → Fixes view {Store = a.Store} (on_ledger step)
  unfolding on_ledger
  on_ledger-Fixes step d s = to_ledger d (step d.ledger).1

  merge_fetched-Fixes : (f : Fetched Row) → Fixes view (merge_fetched e c a wall v f)
  unfolding merge_fetched
  merge_fetched-Fixes f = Fixes-bind view _ _ (on_ledger-Fixes _) (λ u.
      Fixes-bind view _ _ (on_ledger-Fixes _)
        (λ n. Fixes-bind view _ _ (mark_applied-Fixes view blind f.applied) (λ w d s. refl)))

  apply_opened-Fixes :
      (name : Text) (x : LedgerSnapshot Row) → Fixes view (apply_opened e c a wall v name x)
  unfolding apply_opened
  apply_opened-Fixes name x = Fixes-bind view _ _ (on_ledger-Fixes _) (λ u.
      Fixes-bind view _ _ (on_ledger-Fixes _) (λ n.
        Fixes-bind view _ _ (mark_applied-Fixes view blind (name ∷ [])) (λ w.
          Fixes-bind view _ _ (λ d s. blind.to_snapshot d (some x.watermark)) (λ z d s. refl))))

  check_snapshot-Fixes :
      (name : Text) (o : Header × Payload Row) → Fixes view (check_snapshot e c a wall v name o)
  unfolding check_snapshot
  check_snapshot-Fixes name (h, batch b) =
      Fixes-if view (not (eq_text h.vault v.vault_id)) _ _ (λ d s. refl) (λ d s. refl)
  check_snapshot-Fixes name (h, snapshot x) =
      Fixes-if view (not (eq_text h.vault v.vault_id)) _ _ (λ d s. refl) (apply_opened-Fixes name x)

  apply_newest-Fixes :
      (seen : List Text) (newest : Option Text) → Fixes view (apply_newest e c a wall v seen newest)
  unfolding apply_newest
  apply_newest-Fixes seen none = λ d s. refl
  apply_newest-Fixes seen (some name) =
      Fixes-if view (has_name seen name) _ _ (λ d s. refl)
        (Fixes-bind view _ _ (download-Fixes name) (λ o. check_snapshot-Fixes name o))

  pull_fresh-Fixes : (names : List Text) → Fixes view (pull_fresh e c a wall v names)
  unfolding pull_fresh
  pull_fresh-Fixes [] = λ d s. refl
  pull_fresh-Fixes (name ∷ names) =
      Fixes-bind view _ _ (fetch-Fixes (name ∷ names) _) (λ f. merge_fetched-Fixes f)

  pub pull-Fixes : Fixes view (pull e c a wall v)
  unfolding pull apply_snapshot pull_listed
  pull-Fixes d s =
      Fixes-bind view _ _
        (Fixes-bind view _ _ (λ d' s'. refl)
          (λ names. apply_newest-Fixes d.applied (newest_name names)))
        (λ watermark.
          Fixes-bind view _ _ (λ d' s'. refl)
            (λ names.
              Fixes-bind view _ _ (mark_applied-Fixes view blind _) (λ u. pull_fresh-Fixes _)))
        d s

  push_slice-Fixes :
      (o : LocalOperation Row) (slice : List (LocalOperation Row))
      → Fixes view (push_slice c a v o slice)
  unfolding push_slice
  push_slice-Fixes o slice =
      Fixes-bind view _ _ (λ d s. refl)
        (λ u. Fixes-bind view _ _ (mark_applied-Fixes view blind _) (λ w d s. to_ledger d _))

  push_from-Fixes :
      (rounds : ℕ) (pending : List (LocalOperation Row)) (pushed : ℕ)
      → Fixes view (push_from c a v rounds pending pushed)
  unfolding push_from
  push_from-Fixes zero pending pushed = λ d s. refl
  push_from-Fixes (suc rounds) [] pushed = λ d s. refl
  push_from-Fixes (suc rounds) (o ∷ pending) pushed =
      Fixes-bind view _ _ (push_slice-Fixes o _) (λ u. push_from-Fixes rounds _ _)

  pub push-Fixes : Fixes view (push c a v)
  unfolding push
  push-Fixes d s = push_from-Fixes _ _ 0 d s
