-- ===== src/Sync/Push/Delivers.antt =====
-- What a push of app/src/app/core/sync/sync.service.ts leaves at the destination and on the device.
use easy_docket.Base.{
  map, filter, any, not, ℕ, zero, suc, ◌+◌, ◌-◌, ◌≤◌, ◌≡◌, ◌≢◌, ◌⊎◌, inl, inr, refl, sym, ap, ◌∙◌,
  subst, true, false, Option, some, List, [], ◌∷◌, ◌++◌, if◌then◌else◌, In, append_cancel_left,
  append_cancel_right, take, drop, length, length-append, arith, Bool-cases,
}
use easy_docket.Base.Text.{Text, codes, eq_text, eq_text_refl, eq_text→eq}
use easy_docket.Models.{Operation, LocalOperation}
use easy_docket.Db.Log.{ops_of}
use easy_docket.Ledger.{Ledger, pending_operations, mark_synced}
use easy_docket.Ledger.Pending.{mark_synced-marked, mark_synced-append, mark_synced-nil}
use easy_docket.Sync.Names.{ops_prefix, ops_object_name}
use easy_docket.Sync.Remote.{
  ◌>>=◌, Reply, ok, Adapter, OperationBatch, batch, Cipher, Vault, Device,
}
use easy_docket.Sync.Push.{
  max_ops_per_batch, pending_limit, stamps_of, last_stamp, batch_of, header_of, push_slice,
  push_from, push,
}
use easy_docket.Sync.Push.Slices.{
  Distinct, length-drop, take-drop, stamps_of-append, stamps-drop, stamps-take, ops-split,
  stamps-split, last_stamp-In,
}

-- A destination that takes every object and gives it back under its name.
pub record Keeps {Bytes : Type 0} (a : Adapter Bytes) (content : a.Store → Text → Option Bytes)
    : Type 0 where
  pub stored : (name : Text) (b : Bytes) (s : a.Store) → a.Store
  pub put_lem : (name : Text) (b : Bytes) (s : a.Store) → a.put name b s ≡ (ok tt, stored name b s)
  pub content-stored :
      (name other : Text) (b : Bytes) (s : a.Store)
      → content (stored name b s) other ≡ (if eq_text name other then some b else content s other)

module _ {Row Bytes : Type 0} (c : Cipher Row Bytes) (a : Adapter Bytes) (v : Vault)
    (content : a.Store → Text → Option Bytes) (keeps : Keeps a content) where
  -- The sealed batch that a slice becomes.
  abbrev sealed : LocalOperation Row → List (LocalOperation Row) → Bytes
  sealed o slice = c.seal_json (header_of (batch_of v o slice)) (batch (batch_of v o slice))

  abbrev name_of : LocalOperation Row → List (LocalOperation Row) → Text
  name_of o slice = ops_object_name v.vault_id (last_stamp o slice)

  push_slice_lem :
      (o : LocalOperation Row) (slice : List (LocalOperation Row)) (d : Device Row) (s : a.Store)
      → push_slice c a v o slice d s ≡ (
        ok tt,
        record d {
          ledger = mark_synced (stamps_of (o ∷ slice)) d.ledger;
          applied = d.applied ++ name_of o slice ∷ [];
        },
        keeps.stored (name_of o slice) (sealed o slice) s,
      )
  unfolding push_slice batch_of ◌>>=◌
  push_slice_lem o slice d s = ground (arith, keeps.put_lem (name_of o slice) (sealed o slice) s)

  -- The destination after the loop.
  stored_all : ℕ → List (LocalOperation Row) → a.Store → a.Store
  stored_all zero pending s = s
  stored_all (suc rounds) [] s = s
  stored_all (suc rounds) (o ∷ pending) s =
      let slice = take (max_ops_per_batch - 1) pending in
      stored_all rounds (drop (max_ops_per_batch - 1) pending)
        (keeps.stored (name_of o slice) (sealed o slice) s)

  marked_rest :
      (k : ℕ) (o : LocalOperation Row) (pending : List (LocalOperation Row)) (l : Ledger Row)
      → mark_synced (stamps_of (drop k pending)) (mark_synced (stamps_of (o ∷ take k pending)) l)
        ≡ mark_synced (stamps_of (o ∷ pending)) l
  marked_rest k o pending l =
      sym (mark_synced-append (stamps_of (o ∷ take k pending)) (stamps_of (drop k pending)) l)
      ∙ ap (λ ts. mark_synced ts l)
          (sym (stamps_of-append (o ∷ take k pending) (drop k pending))
            ∙ ap (λ ps. stamps_of (o ∷ ps)) (take-drop k pending))

  length_rest :
      (k : ℕ) (pending : List (LocalOperation Row))
      → length (take k pending) + length (drop k pending) ≡ length pending
  length_rest k pending =
      sym (length-append (take k pending) (drop k pending))
      ∙ ap (λ ps. length ps) (take-drop k pending)

  nothing_left :
      (pushed : ℕ) (d : Device Row) (s : a.Store)
      → ◌≡◌ {A = Reply ℕ × Device Row × a.Store}
          (ok pushed, d, s)
          (ok (pushed + 0), record d { ledger = mark_synced [] d.ledger }, s)
  nothing_left pushed d s =
      let count : pushed ≡ pushed + 0 = omega arith in
      λ i. (ok (count i), record d { ledger = sym (mark_synced-nil d.ledger) i }, s)

  -- What the loop does to the ledger and the destination, and the count that it returns.
  push_from_lem :
      (rounds : ℕ) (pending : List (LocalOperation Row)) (pushed : ℕ) (d : Device Row) (s : a.Store)
      → length pending ≤ rounds
      → (applied : List Text) × (push_from c a v rounds pending pushed d s ≡ (
        ok (pushed + length pending),
        record d { ledger = mark_synced (stamps_of pending) d.ledger; applied = applied },
        stored_all rounds pending s,
      ))
  unfolding push_from stored_all ◌>>=◌
  push_from_lem zero [] pushed d s h = (d.applied, nothing_left pushed d s)
  push_from_lem zero (o ∷ pending) pushed d s h = absurd (omega arith)
  push_from_lem (suc rounds) [] pushed d s h = (d.applied, nothing_left pushed d s)
  push_from_lem (suc rounds) (o ∷ pending) pushed d s h =
      let k : ℕ = max_ops_per_batch - 1 in
      let slice = take k pending in
      let d' : Device Row = record d {
        ledger = mark_synced (stamps_of (o ∷ slice)) d.ledger;
        applied = d.applied ++ name_of o slice ∷ [];
      } in
      let (applied, done) =
        push_from_lem rounds (drop k pending) (pushed + length (o ∷ slice)) d'
          (keeps.stored (name_of o slice) (sealed o slice) s)
          (omega (arith, length-drop k pending)) in
      (
        applied,
        ground (
          arith,
          push_slice_lem o slice d s,
          done,
          marked_rest k o pending d.ledger,
          length_rest k pending,
        ),
      )

  ops_object_name_inj :
      (t u : Text) → ops_object_name v.vault_id t ≡ ops_object_name v.vault_id u → t ≡ u
  unfolding ops_object_name
  ops_object_name_inj t u e =
      append_cancel_right t u (codes ".edk") (append_cancel_left (ops_prefix v.vault_id) _ _ e)

  -- A name that no later slice takes keeps its object.
  content-stored_all :
      (name : Text) (rounds : ℕ) (pending : List (LocalOperation Row)) (s : a.Store)
      → ((t : Text) → In t (stamps_of pending) → ops_object_name v.vault_id t ≢ name)
      → content (stored_all rounds pending s) name ≡ content s name
  unfolding stored_all
  content-stored_all name zero pending s h = refl
  content-stored_all name (suc rounds) [] s h = refl
  content-stored_all name (suc rounds) (o ∷ pending) s h =
      let k : ℕ = max_ops_per_batch - 1 in
      let slice = take k pending in
      content-stored_all name rounds (drop k pending)
        (keeps.stored (name_of o slice) (sealed o slice) s)
        (λ t m. h t (inr (stamps-drop k pending t m)))
      ∙ keeps.content-stored (name_of o slice) name (sealed o slice) s
      ∙ other (Bool-cases (eq_text (name_of o slice) name))
    where
      other :
          (eq_text (name_of o (take (max_ops_per_batch - 1) pending)) name ≡ true)
            ⊎ (eq_text (name_of o (take (max_ops_per_batch - 1) pending)) name ≡ false)
          → (if eq_text (name_of o (take (max_ops_per_batch - 1) pending)) name
              then some (sealed o (take (max_ops_per_batch - 1) pending))
              else content s name)
            ≡ content s name
      other (inl same) = absurd (
          h (last_stamp o (take (max_ops_per_batch - 1) pending))
            (stamps-take (max_ops_per_batch - 1) o pending _
              (last_stamp-In o (take (max_ops_per_batch - 1) pending)))
            (eq_text→eq _ _ same))
      other (inr differ) = rw differ refl

  -- The object at the destination that holds an operation, named by one of the stamps.
  pub record Delivered (stamps : List Text) (s : a.Store) (p : Operation Row) : Type 0 where
    pub delivery : OperationBatch Row
    pub held : In p delivery.ops
    pub own_head : In delivery.head stamps
    pub own_vault : delivery.vault_id ≡ v.vault_id
    pub own_device : delivery.device ≡ v.device_id
    pub found :
        content s (ops_object_name v.vault_id delivery.head)
        ≡ some (c.seal_json (header_of delivery) (batch delivery))

  stored_all-Delivered :
      (rounds : ℕ) (pending : List (LocalOperation Row)) (s : a.Store) (p : Operation Row)
      → length pending ≤ rounds
      → Distinct (stamps_of pending)
      → In p (ops_of pending)
      → Delivered (stamps_of pending) (stored_all rounds pending s) p
  unfolding stored_all batch_of last_stamp
  stored_all-Delivered zero [] s p h apart m = absurd m
  stored_all-Delivered zero (o ∷ pending) s p h apart m = absurd (omega arith)
  stored_all-Delivered (suc rounds) [] s p h apart m = absurd m
  stored_all-Delivered (suc rounds) (o ∷ pending) s p h apart m =
      let k : ℕ = max_ops_per_batch - 1 in
      let slice = take k pending in
      elim (ops-split k o pending p m) [
        | inl here ↦ record {
          delivery = batch_of v o (take k pending);
          held = here;
          own_head = stamps-take k o pending _ (last_stamp-In o slice);
          own_vault = refl;
          own_device = refl;
          found =
              content-stored_all (name_of o slice) rounds (drop k pending)
                (keeps.stored (name_of o slice) (sealed o slice) s)
                (λ t n same.
                  (stamps-split k o pending apart).1 (last_stamp o slice) t (last_stamp-In o slice)
                    n (sym (ops_object_name_inj t (last_stamp o slice) same)))
              ∙ keeps.content-stored (name_of o slice) (name_of o slice) (sealed o slice) s
              ∙ rw (eq_text_refl (name_of o slice)) refl;
        }
        | inr later ↦
            (let rest =
                stored_all-Delivered rounds (drop k pending) _ p
                  (omega (arith, length-drop k pending)) (stamps-split k o pending apart).0 later in
              record {
                delivery = rest.delivery;
                held = rest.held;
                own_head = inr (stamps-drop k pending _ rest.own_head);
                own_vault = rest.own_vault;
                own_device = rest.own_device;
                found = rest.found;
              })
      ]

  -- A push to a destination that keeps what it takes succeeds. Of the entries of the log that are not
  -- synced it takes the first 5000, and returns their number; afterwards the entries of the log with
  -- the stamps of these are synced, and all else of the ledger is as it was.
  pub push-mark_synced :
      (d : Device Row) (s : a.Store)
      → let taken = take 5000 (filter (λ o. not o.synced) d.ledger.oplog) in
        let (r, d', s') = push c a v d s in
        (r ≡ ok (length taken))
        × (d'.ledger ≡ record d.ledger {
          oplog =
              map
                (λ o.
                  if any (eq_text o.hlc) (map (λ (t : LocalOperation Row). t.hlc) taken)
                  then record o { synced = true }
                  else o)
                d.ledger.oplog;
        })
  unfolding push pending_operations
  push-mark_synced d s =
      let pending = pending_operations pending_limit d.ledger in
      let (applied, done) = push_from_lem (length pending) pending 0 d s (omega arith) in
      let count : 0 + length pending ≡ length pending = omega arith in
      (
        ap (λ x. x.0) done ∙ ap ok count,
        ap (λ x. x.1.ledger) done ∙ mark_synced-marked (stamps_of pending) d.ledger,
      )

  -- After a push to a destination that keeps what it takes, each operation that was pending, the
  -- stamps of the pending ones all different, is held by a batch of this device under the vault,
  -- sealed, and found at the destination under the name of the batch's head, which is the stamp of a
  -- pending operation.
  pub push-Delivered :
      (d : Device Row) (s : a.Store) (p : Operation Row)
      → Distinct (stamps_of (pending_operations pending_limit d.ledger))
      → In p (ops_of (pending_operations pending_limit d.ledger))
      → let (r, d', s') = push c a v d s in
        Delivered (stamps_of (pending_operations pending_limit d.ledger)) s' p
  unfolding push
  push-Delivered d s p apart m =
      let pending = pending_operations pending_limit d.ledger in
      let (applied, done) = push_from_lem (length pending) pending 0 d s (omega arith) in
      subst (λ x. Delivered (stamps_of pending) x p) (sym (ap (λ x. x.2) done))
        (stored_all-Delivered (length pending) pending s p (omega arith) apart m)
