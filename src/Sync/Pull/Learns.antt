-- ===== src/Sync/Pull/Learns.antt =====
-- What a pull of app/src/app/core/sync/sync.service.ts learns from a destination that answers.
use easy_docket.Base.{
  ℕ, ◌≡◌, ◌⊎◌, inl, inr, refl, sym, ap, Bool, true, not, ◌&&◌, none, some, List, [], ◌∷◌, ◌++◌,
  append-nil, append_assoc, if◌then◌else◌, filter, In, In-append_right, All, arith,
}
use easy_docket.Base.Text.{Text, eq_text}
use easy_docket.Hlc.{Clock}
use easy_docket.Models.{Operation, Entity}
use easy_docket.Ledger
use easy_docket.Ledger.{Ledger, merge, observe_stamps}
use easy_docket.Ledger.Observe.{observe_stamps_clock, observe_stamps-Knows}
use easy_docket.Ledger.Lww.{Identified}
use easy_docket.Ledger.Knows.{Knows}
use easy_docket.Ledger.Merge.{WellFormed}
use easy_docket.Ledger.Converge.{complete, merge-Knows}
use easy_docket.Sync.Names.{ops_prefix, snapshot_prefix}
use easy_docket.Sync.Remote.{
  ok, Adapter, Header, OperationBatch, batch, Cipher, Vault, Device, has_name, ◌>>=◌, on_ledger,
  lift_result,
}
use easy_docket.Sync.Pull.{
  fresh_names, covered_names, Fetched, nothing_fetched, take_object, newest_name, download, fetch,
  merge_fetched, apply_newest, apply_snapshot, pull_fresh, pull_listed, pull,
}

-- The batches under these names, as this device opens them.
abbrev pub Batches : Type 0 → Type 0
Batches Row = Text → Header × OperationBatch Row

-- The batch is of this vault, and from another device.
unfoldable pub is_foreign : Vault → Header → Bool
is_foreign v h = eq_text h.vault v.vault_id && not (eq_text h.device v.device_id)

module _ {Row : Type 0} (v : Vault) (objects : Batches Row) where
  -- The operations of the foreign batches.
  unfoldable pub learned : List Text → List (Operation Row)
  learned [] = []
  learned (name ∷ names) =
      (if is_foreign v (objects name).0 then (objects name).1.ops else []) ++ learned names

  -- Their stamps.
  unfoldable pub learned_heads : List Text → List Text
  learned_heads [] = []
  learned_heads (name ∷ names) =
      (if is_foreign v (objects name).0 then (objects name).0.stamp ∷ [] else [])
      ++ learned_heads names

  -- The names of the objects of the vault.
  unfoldable pub vault_names : List Text → List Text
  vault_names [] = []
  vault_names (name ∷ names) =
      (if eq_text (objects name).0.vault v.vault_id then name ∷ [] else []) ++ vault_names names

  -- What the fetching adds up to.
  unfoldable pub gathered : List Text → Fetched Row → Fetched Row
  gathered names f = record {
    ops = f.ops ++ learned names;
    applied = f.applied ++ vault_names names;
    heads = f.heads ++ learned_heads names;
  }

  Fetched-path :
      (f g : Fetched Row) → f.ops ≡ g.ops → f.applied ≡ g.applied → f.heads ≡ g.heads → f ≡ g
  Fetched-path f g a b c = λ i. record { ops = a i; applied = b i; heads = c i }

  -- One object of the loop.
  one_more : Text → Fetched Row → Fetched Row
  one_more name f = record {
    ops = f.ops ++ (if is_foreign v (objects name).0 then (objects name).1.ops else []);
    applied = f.applied ++ (if eq_text (objects name).0.vault v.vault_id then name ∷ [] else []);
    heads = f.heads ++ (if is_foreign v (objects name).0 then (objects name).0.stamp ∷ [] else []);
  }

  take_object-one_more :
      (name : Text) (f : Fetched Row)
      → take_object v name ((objects name).0, batch (objects name).1) f ≡ some (one_more name f)
  unfolding take_object one_more is_foreign
  take_object-one_more name f =
      ground (arith, append-nil f.ops, append-nil f.applied, append-nil f.heads)

  gathered-one_more :
      (name : Text) (names : List Text) (f : Fetched Row)
      → gathered names (one_more name f) ≡ gathered (name ∷ names) f
  unfolding gathered one_more learned vault_names learned_heads
  gathered-one_more name names f =
      Fetched-path _ _ (append_assoc f.ops _ _) (append_assoc f.applied _ _)
        (append_assoc f.heads _ _)

module _ {Row Bytes : Type 0} (e : Entity Row) (c : Cipher Row Bytes) (a : Adapter Bytes) (wall : ℕ)
    (v : Vault) (objects : Batches Row) where
  -- A name whose object the destination gives, and which opens.
  abbrev pub Readable : a.Store → Text → Type 0
  Readable s name =
      (b : Bytes) × (a.get name s ≡ (ok b, s))
      × (c.open_json b ≡ some ((objects name).0, batch (objects name).1))

  fetch_lem :
      (names : List Text) (f : Fetched Row) (d : Device Row) (s : a.Store)
      → All (Readable s) names
      → fetch e c a wall v names f d s ≡ (ok (gathered v objects names f), d, s)
  unfolding fetch download ◌>>=◌
  fetch_lem [] f d s h =
      unfold gathered learned vault_names learned_heads in
      ap (λ g. (ok g, d, s))
        (Fetched-path v objects _ _ (sym (append-nil f.ops)) (sym (append-nil f.applied))
          (sym (append-nil f.heads)))
  fetch_lem (name ∷ names) f d s ((b, got, opened), h) = ground (
    arith,
    take_object-one_more v objects name f,
    fetch_lem names (one_more v objects name f) d s h,
    gathered-one_more v objects name names f,
  )

  -- The ledger of the device, whose clock has taken in the stamps.
  abbrev observed : Device Row → List Text → Ledger Row
  observed d heads = (observe_stamps wall heads d.ledger).1

  merged : Device Row → Fetched Row → Ledger Row
  merged d f = (merge e f.ops (observed d f.heads)).1

  merge_fetched_lem :
      (f : Fetched Row) (d : Device Row) (s : a.Store) (k : Clock) (ops : List (Operation Row))
      → d.ledger.clock ≡ some k
      → (observe_stamps wall f.heads d.ledger).0 ≡ Ledger.ok tt
      → Identified (f.ops ++ ops)
      → All (WellFormed e) f.ops
      → Knows d.ledger ops
      → (n : ℕ) × (merge_fetched e c a wall v f d s
          ≡ (ok n, record d { ledger = merged d f; applied = d.applied ++ f.applied }, s))
        × Knows (merged d f) (filter complete f.ops ++ ops)
  unfolding merge_fetched on_ledger lift_result merged ◌>>=◌
  merge_fetched_lem f d s k ops ready seen ident wf h =
      let (k', e') = observe_stamps_clock wall f.heads k d.ledger ready in
      let known = observe_stamps-Knows wall f.heads k d.ledger ops ready h in
      let ((n, done), after) =
        merge-Knows e f.ops ops (observed d f.heads) k' (ap (λ (l : Ledger Row). l.clock) e') ident
          wf known in
      (n, ground arith, after)

  pull_fresh-Knows :
      (fresh : List Text) (d : Device Row) (s : a.Store) (k : Clock) (ops : List (Operation Row))
      → All (Readable s) fresh
      → d.ledger.clock ≡ some k
      → (observe_stamps wall (learned_heads v objects fresh) d.ledger).0 ≡ Ledger.ok tt
      → Identified (learned v objects fresh ++ ops)
      → All (WellFormed e) (learned v objects fresh)
      → Knows d.ledger ops
      → (n : ℕ) × (l : Ledger Row) × (pull_fresh e c a wall v fresh d s
          ≡ (ok n, record d { ledger = l; applied = d.applied ++ vault_names v objects fresh }, s))
        × Knows l (filter complete (learned v objects fresh) ++ ops)
  unfolding pull_fresh gathered ◌>>=◌
  pull_fresh-Knows [] d s k ops readable ready observes ident wf h =
      unfold learned vault_names in
      (0, d.ledger, λ i. (ok 0, record d { applied = sym (append-nil d.applied) i }, s), h)
  pull_fresh-Knows (name ∷ names) d s k ops readable ready observes ident wf h =
      let f = gathered v objects (name ∷ names) nothing_fetched in
      let (n, done, after) = merge_fetched_lem f d s k ops ready observes ident wf h in
      (n, merged d f, ground (arith, fetch_lem (name ∷ names) nothing_fetched d s readable), after)

  -- The newest snapshot of a list of names was applied before, or there is none.
  abbrev pub NoNewSnapshot : List Text → List Text → Type 0
  NoNewSnapshot seen names =
      (newest_name names ≡ none)
      ⊎ ((name : Text) × (newest_name names ≡ some name) × (has_name seen name ≡ true))

  apply_newest_old :
      (seen names : List Text) (d : Device Row) (s : a.Store)
      → NoNewSnapshot seen names
      → apply_newest e c a wall v seen (newest_name names) d s ≡ (ok none, d, s)
  unfolding apply_newest
  apply_newest_old seen names d s (inl h) = rw h refl
  apply_newest_old seen names d s (inr (name, h, old)) = rw (h, apply_newest, old) refl

  -- From a destination that answers and has no new snapshot, a pull whose stamps the clock takes learns
  -- the complete operations of the batches of this vault that other devices wrote and that are new
  -- here, no more and no less, and marks the objects of the vault as applied.
  pub pull-Knows :
      (names : Text → List Text) (d : Device Row) (s : a.Store) (k : Clock)
      (ops : List (Operation Row))
      → ((prefix : Text) → a.list prefix s ≡ (ok (names prefix), s))
      → NoNewSnapshot d.applied (names (snapshot_prefix v.vault_id))
      → let fresh = fresh_names d.applied none (names (ops_prefix v.vault_id)) in
        All (Readable s) fresh
        → d.ledger.clock ≡ some k
        → (observe_stamps wall (learned_heads v objects fresh) d.ledger).0 ≡ Ledger.ok tt
        → Identified (learned v objects fresh ++ ops)
        → All (WellFormed e) (learned v objects fresh)
        → Knows d.ledger ops
        → (n : ℕ) × (l : Ledger Row) × (applied : List Text) × (pull e c a wall v d s
            ≡ (ok n, record d { ledger = l; applied = applied }, s))
          × Knows l (filter complete (learned v objects fresh) ++ ops)
          × ((name : Text) → In name (vault_names v objects fresh) → In name applied)
  unfolding pull apply_snapshot pull_listed ◌>>=◌
  pull-Knows names d s k ops listed old readable ready observes ident wf h =
      let seen = d.applied in
      let fresh = fresh_names seen none (names (ops_prefix v.vault_id)) in
      let covered = covered_names seen none (names (ops_prefix v.vault_id)) in
      let d' : Device Row = record d { applied = d.applied ++ covered } in
      let (n, l, done, after) =
        pull_fresh-Knows fresh d' s k ops readable ready observes ident wf h in
      (
        n,
        l,
        (d.applied ++ covered) ++ vault_names v objects fresh,
        ground (
          arith,
          listed (snapshot_prefix v.vault_id),
          listed (ops_prefix v.vault_id),
          apply_newest_old seen (names (snapshot_prefix v.vault_id)) d s old,
        ),
        after,
        λ name m. In-append_right name (d.applied ++ covered) _ m,
      )
