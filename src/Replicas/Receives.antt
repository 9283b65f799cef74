-- ===== src/Replicas/Receives.antt =====
-- Observing and merging what other devices wrote keeps what holds of a replica: `observeStamps` and
-- `merge` of app/src/app/core/repositories/ledger.service.ts.
use easy_docket.Base.{
  ℕ, ◌^◌, ◌<◌, ◌≡◌, inl, inr, refl, sym, ◌∙◌, ap, subst, Bool, true, some, List, [], ◌∷◌, ◌++◌,
  arith, In, All, All-of, All-In, filter, append-In, In-append_right,
}
use easy_docket.Base.Text.{not_below_trans, Text}
use easy_docket.Hlc.{Clock}
use easy_docket.Models.{Operation, Entity}
use easy_docket.Ledger.{Ledger, ok, merge, observe_stamps}
use easy_docket.Ledger.Lww.{Identified}
use easy_docket.Ledger.Knows.{Knows}
use easy_docket.Ledger.Merge.{WellFormed}
use easy_docket.Ledger.Converge.{complete, merge-Knows}
use easy_docket.Ledger.Saved.{merge_clock, merge_nil}
use easy_docket.Ledger.Write.{Ahead}
use easy_docket.Replicas.{Replica, World, Covers}
use easy_docket.Replicas.Clocks.{IsStamp, Onward, Onward-Ahead, Past, observe_stamps-Onward}
use easy_docket.Replicas.Invariant.{Serves, saved_as, Local, Sound}
use easy_docket.Replicas.Moves.{Moved, saved_Serves}

keeps_whole :
    {A : Type 0} (p : A → Bool) (xs : List A) → All (λ x. p x ≡ true) xs → filter p xs ≡ xs
keeps_whole p [] h = refl
keeps_whole p (x ∷ xs) h = ground (arith, keeps_whole p xs h.1)

module _ {Row : Type 0} (e : Entity Row) (w : World Row) (sound : Sound e w) (d : Text)
    (r : Replica Row) (h : Local w.written d r) where
  abbrev pub Stamps : List Text → Type 0
  Stamps = All (λ s. (o : Operation Row) × In o w.written × (s ≡ o.hlc))

  abbrev pub Received : List Text → List (Operation Row) → Type 0
  Received stamps = All (λ o. In o w.written × Covers stamps o)

  Stamps-IsStamp : (stamps : List Text) → Stamps stamps → All IsStamp stamps
  Stamps-IsStamp [] a = tt
  Stamps-IsStamp (s ∷ stamps) a =
      let (o, m, f) = a.0 in
      let x = sound.each o m in
      ((x.state, o.device, x.valid, x.named, f ∙ x.stamped), Stamps-IsStamp stamps a.1)

  Serves-onward :
      {ops : List (Operation Row)} (k k' : Clock) → Onward k k' → Serves d ops k → Serves d ops k'
  Serves-onward k k' on s = record {
    device_same = on.device_same ∙ s.device_same;
    valid = on.valid;
    ahead = Onward-Ahead k k' _ on s.ahead;
  }

  pub learned_before :
      (batch : List (Operation Row))
      → ((o : Operation Row) → In o batch → In o w.written)
      → Identified (batch ++ r.learned)
  learned_before batch from p q mp mq = sound.ident p q (anywhere p mp) (anywhere q mq)
    where
      anywhere : (o : Operation Row) → In o (batch ++ r.learned) → In o w.written
      anywhere o m = elim (append-In o batch r.learned m) [
        | inl x ↦ from o x
        | inr y ↦ h.within o y
      ]

  -- What the clock is past, after the stamps that bound the received operations.
  batch_covered :
      (stamps : List Text) (batch : List (Operation Row)) (k' : Clock)
      → Received stamps batch
      → Past k' stamps
      → Ahead k' r.learned
      → Ahead k' (batch ++ r.learned)
  batch_covered stamps batch k' a past ahead o m = elim (append-In o batch r.learned m) [
    | inl x ↦
        (let (_, (s, at_s, low)) = All-In _ o batch a x in
          not_below_trans _ _ _ (All-In _ s stamps past at_s) low)
    | inr y ↦ ahead o y
  ]

  merge_serves :
      (batch : List (Operation Row)) (l : Ledger Row) (k' : Clock)
      → l.clock ≡ some k'
      → Serves d r.learned (saved_as d l)
      → Serves d (batch ++ r.learned) k'
      → let l' = (merge e batch l).1 in
        (l'.clock ≡ some k') × Serves d (batch ++ r.learned) (saved_as d l')
  merge_serves [] l k' ready saved serves = rw (merge_nil e l) (ready, saved)
  merge_serves (o ∷ batch) l k' ready saved serves =
      let (c, s) = merge_clock e o batch l k' ready in
      (c, saved_Serves d _ (merge e (o ∷ batch) l).1 k' s serves)

  pub quiet_Moved : (r' : Replica Row) → Local w.written d r' → Moved e w.written d r r' []
  quiet_Moved r' local = record {
    local = local;
    fresh = λ o m. absurd m;
    single = λ o p m n. absurd m;
  }

  pub observed_Moved :
      (wall : ℕ) (stamps : List Text)
      → wall < 2 ^ 53
      → Stamps stamps
      → Moved e w.written d r (record r { ledger = (observe_stamps wall stamps r.ledger).1 }) []
  observed_Moved wall stamps fits from =
      let (k', moved, on, _) =
        observe_stamps-Onward wall fits r.ledger stamps h.clock h.ready h.serves.valid
          (Stamps-IsStamp stamps from) in
      rw moved (
        quiet_Moved _ (record {
          clock = k';
          ready = refl;
          serves = Serves-onward h.clock k' on h.serves;
          saved = h.saved;
          knows = record { logged = h.knows.logged; newest = h.knows.newest; rows = h.knows.rows };
          within = h.within;
          own = h.own;
        }))

  pub Received-Moved :
      (wall : ℕ) (stamps : List Text) (batch : List (Operation Row)) (l : Ledger Row)
      → wall < 2 ^ 53
      → Stamps stamps
      → Received stamps batch
      → observe_stamps wall stamps r.ledger ≡ (ok tt, l)
      → Moved e w.written d r
          (record { ledger = (merge e batch l).1; learned = batch ++ r.learned })
          []
  Received-Moved wall stamps batch l fits from got run =
      let (k', moved, on, past) =
        observe_stamps-Onward wall fits r.ledger stamps h.clock h.ready h.serves.valid
          (Stamps-IsStamp stamps from) in
      let now : l ≡ record r.ledger { clock = some k' } = sym (ap (λ s. s.1) run) ∙ moved in
      let ready : l.clock ≡ some k' = ap (λ l'. l'.clock) now in
      let known : Knows l r.learned =
        rw now (record { logged = h.knows.logged; newest = h.knows.newest; rows = h.knows.rows }) in
      let source : (o : Operation Row) → In o batch → In o w.written =
        λ o m. (All-In _ o batch got m).0 in
      let formed = All-of (WellFormed e) batch (λ o m. (sound.each o (source o m)).formed) in
      let whole =
        All-of (λ o. complete o ≡ true) batch (λ o m. (sound.each o (source o m)).whole) in
      let serves : Serves d (batch ++ r.learned) k' = record {
        device_same = on.device_same ∙ h.serves.device_same;
        valid = on.valid;
        ahead =
            batch_covered stamps batch k' got (past (ap (λ s. s.0) run))
              (Onward-Ahead h.clock k' r.learned on h.serves.ahead);
      } in
      let (clock, saved) = merge_serves batch l k' ready (rw now h.saved) serves in
      quiet_Moved _ (record {
        clock = k';
        ready = clock;
        serves = serves;
        saved = saved;
        knows =
            subst (λ xs. Knows (merge e batch l).1 (xs ++ r.learned))
              (keeps_whole complete batch whole)
              (merge-Knows e batch r.learned l k' ready (learned_before batch source) formed
                known).1;
        within = λ o m. elim (append-In o batch r.learned m) [
          | inl x ↦ source o x
          | inr y ↦ h.within o y
        ];
        own = λ o m f. In-append_right o batch r.learned (h.own o m f);
      })
