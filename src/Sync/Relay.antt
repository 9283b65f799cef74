-- ===== src/Sync/Relay.antt =====
-- Two devices of one vault and a destination: the push of one and the pull of the other, of
-- app/src/app/core/sync/sync.service.ts.
use easy_docket.Base.{
  ℕ, ◌≡◌, inl, inr, refl, sym, ap, ◌∙◌, subst, true, false, not, ◌&&◌, Option, none, some, List, [],
  ◌∷◌, ◌++◌, filter, if◌then◌else◌, In, In-append_left, In-append_right, In-filter, All, All-In,
}
use easy_docket.Base.Text.{Text, eq_text, eq_text_refl}
use easy_docket.Hlc.{Clock}
use easy_docket.Models.{Operation, Entity}
use easy_docket.Db.Log.{ops_of}
use easy_docket.Ledger
use easy_docket.Ledger.{Ledger, observe_stamps, pending_operations}
use easy_docket.Ledger.Lww.{Identified}
use easy_docket.Ledger.Knows.{Knows}
use easy_docket.Ledger.Merge.{WellFormed}
use easy_docket.Ledger.Converge.{complete}
use easy_docket.Sync.Names.{ops_prefix, snapshot_prefix, ops_object_name}
use easy_docket.Sync.Remote.{
  Reply, ok, Adapter, Header, OperationBatch, Payload, batch, Cipher, Opens, Vault, Device,
  has_name,
}
use easy_docket.Sync.Push.{pending_limit, stamps_of, header_of, push}
use easy_docket.Sync.Push.Delivers.{Keeps, Delivered, push-Delivered}
use easy_docket.Sync.Push.Slices.{Distinct}
use easy_docket.Sync.Pull.{fresh_names, is_covered, pull}
use easy_docket.Sync.Pull.Learns.{
  Batches, is_foreign, learned, learned_heads, Readable, NoNewSnapshot, pull-Knows,
}

-- A destination that gives what it holds, and lists all of it.
pub record Serves {Bytes : Type 0} (a : Adapter Bytes) (content : a.Store → Text → Option Bytes)
    (s : a.Store) (names : Text → List Text) : Type 0 where
  pub gives : (name : Text) (b : Bytes) → content s name ≡ some b → a.get name s ≡ (ok b, s)
  pub lists : (prefix : Text) → a.list prefix s ≡ (ok (names prefix), s)
  pub finds :
      (prefix rest : Text) (b : Bytes)
      → content s (prefix ++ rest) ≡ some b
      → In (prefix ++ rest) (names prefix)

learned-In :
    {Row : Type 0} (v : Vault) (objects : Batches Row) (name : Text) (p : Operation Row)
    (names : List Text)
    → In name names
    → is_foreign v (objects name).0 ≡ true
    → In p (objects name).1.ops
    → In p (learned v objects names)
unfolding learned
learned-In v objects name p [] m f h = absurd m
learned-In v objects name p (other ∷ names) (inl e) f h =
    In-append_left p _ (learned v objects names)
      (subst (λ o. In p (if is_foreign v (objects o).0 then (objects o).1.ops else [])) e (rw f h))
learned-In v objects name p (other ∷ names) (inr m) f h =
    In-append_right p _ (learned v objects names) (learned-In v objects name p names m f h)

opened_inj :
    {Row : Type 0} {h k : Header} {b c : OperationBatch Row}
    → ◌≡◌ {A = Option (Header × Payload Row)} (some (h, batch b)) (some (k, batch c))
    → (h ≡ k) × (b ≡ c)
opened_inj e = (cc, cc)

module _ {Row Bytes : Type 0} (e : Entity Row) (c : Cipher Row Bytes) (opens : Opens c)
    (a : Adapter Bytes) (content : a.Store → Text → Option Bytes) (keeps : Keeps a content)
    (sender receiver : Vault) (same : sender.vault_id ≡ receiver.vault_id)
    (apart : eq_text sender.device_id receiver.device_id ≡ false) (objects : Batches Row) where
  -- What the destination gives is the batch that was sealed.
  opened-Delivered :
      (wall : ℕ) (names : Text → List Text) (s : a.Store) (name : Text) (b : OperationBatch Row)
      → Serves a content s names
      → content s name ≡ some (c.seal_json (header_of b) (batch b))
      → Readable e c a wall receiver objects s name
      → ((objects name).0 ≡ header_of b) × ((objects name).1 ≡ b)
  opened-Delivered wall names s name b serves found (bytes, got, opened) =
      let given : bytes ≡ c.seal_json (header_of b) (batch b) =
        ok_inj (ap (λ x. x.0) (sym got ∙ serves.gives name _ found)) in
      opened_inj (sym opened ∙ ap (λ x. c.open_json x) given ∙ opens (header_of b) (batch b))
    where
      ok_inj : {x y : Bytes} → ◌≡◌ {A = Reply Bytes} (ok x) (ok y) → x ≡ y
      ok_inj e = cc

  header_of-is_foreign :
      (b : OperationBatch Row)
      → b.vault_id ≡ sender.vault_id
      → b.device ≡ sender.device_id
      → is_foreign receiver (header_of b) ≡ true
  unfolding is_foreign header_of
  header_of-is_foreign b v d = rw (v, same, d, apart, eq_text_refl receiver.vault_id) refl

  -- A name of the destination that the receiver has not applied is a fresh one.
  fresh-In :
      (seen : List Text) (name : Text) (names : List Text)
      → has_name seen name ≡ false
      → In name names
      → In name (fresh_names seen none names)
  unfolding fresh_names is_covered
  fresh-In seen name names new m =
      In-filter (λ n. not (has_name seen n) && not false) name names m (rw new refl)

  -- An operation that was pushed is among those that the receiver opens.
  relayed :
      (wall : ℕ) (names : Text → List Text) (seen stamps : List Text) (s : a.Store)
      (p : Operation Row)
      → Serves a content s names
      → ((t : Text) → In t stamps → has_name seen (ops_object_name receiver.vault_id t) ≡ false)
      → let fresh = fresh_names seen none (names (ops_prefix receiver.vault_id)) in
        All (Readable e c a wall receiver objects s) fresh
        → Delivered c a sender content keeps stamps s p
        → In p (learned receiver objects fresh)
  relayed wall names seen stamps s p serves new readable d =
      let fresh = fresh_names seen none (names (ops_prefix receiver.vault_id)) in
      let name = ops_object_name receiver.vault_id d.delivery.head in
      let sealed : Bytes = c.seal_json (header_of d.delivery) (batch d.delivery) in
      let found : content s name ≡ some sealed =
        subst (λ v. content s (ops_object_name v d.delivery.head) ≡ some sealed) same d.found in
      let listed : In name (names (ops_prefix receiver.vault_id)) =
        unfold ops_object_name in serves.finds (ops_prefix receiver.vault_id) _ sealed found in
      let taken : In name fresh = fresh-In seen name _ (new d.delivery.head d.own_head) listed in
      let (header, opened) =
        opened-Delivered wall names s name d.delivery serves found
          (All-In (Readable e c a wall receiver objects s) name fresh readable taken) in
      learned-In receiver objects name p fresh taken
        (ap (λ h. is_foreign receiver h) header
          ∙ header_of-is_foreign d.delivery d.own_vault d.own_device)
        (subst (λ b. In p b.ops) (sym opened) d.held)

  -- What is sealed opens. One device pushes to a destination that keeps, gives and lists what it takes,
  -- where the stamps of its pending operations are all different. Another device of the vault, which
  -- has applied no object named by these stamps and knows some operations, then pulls: there is no new
  -- snapshot, the fresh objects open to well-formed operations that are identified, with the known
  -- ones, by their stamps, and its clock takes the stamps. The pull succeeds, the receiver's ledger
  -- knows what it knew and the complete operations that it opened, and each complete operation that
  -- was pending on the sender is one of them.
  pub push-pull :
      (wall : ℕ) (from to : Device Row) (s : a.Store) (names : Text → List Text) (k : Clock)
      (ops : List (Operation Row))
      → let pending = pending_operations pending_limit from.ledger in
        let (pushed, from', s') = push c a sender from s in
        let fresh = fresh_names to.applied none (names (ops_prefix receiver.vault_id)) in
        let news = filter complete (learned receiver objects fresh) in
        Distinct (stamps_of pending)
        → Serves a content s' names
        → ((t : Text)
            → In t (stamps_of pending)
            → has_name to.applied (ops_object_name receiver.vault_id t) ≡ false)
        → NoNewSnapshot e c a wall receiver objects to.applied
            (names (snapshot_prefix receiver.vault_id))
        → All (Readable e c a wall receiver objects s') fresh
        → to.ledger.clock ≡ some k
        → (observe_stamps wall (learned_heads receiver objects fresh) to.ledger).0 ≡ Ledger.ok tt
        → Identified (learned receiver objects fresh ++ ops)
        → All (WellFormed e) (learned receiver objects fresh)
        → Knows to.ledger ops
        → ((n : ℕ) × (l : Ledger Row) × (applied : List Text) × (pull e c a wall receiver to s'
              ≡ (ok n, record to { ledger = l; applied = applied }, s'))
            × Knows l (news ++ ops))
          × ((p : Operation Row) → In p (ops_of pending) → complete p ≡ true → In p news)
  push-pull wall from to s names k ops distinct serves new old readable ready observes ident wf h =
      let s' = (push c a sender from s).2 in
      let (n, l, applied, done, after, _) =
        pull-Knows e c a wall receiver objects names to s' k ops serves.lists old readable ready
          observes ident wf h in
      (
        (n, l, applied, done, after),
        λ p m whole.
            In-filter complete p _
              (relayed wall names to.applied _ s' p serves new readable
                (push-Delivered c a sender content keeps from s p distinct m))
              whole,
      )
