-- ===== src/Replicas/Clocks.antt =====
-- How far the clock of a ledger is after `observeStamps` of
-- app/src/app/core/repositories/ledger.service.ts took the stamps that devices wrote.
use easy_docket.Base.{
  ℕ, ◌^◌, ◌<◌, ◌≡◌, ◌≢◌, refl, sym, ap, subst, ◌∙◌, false, some, List, [], ◌∷◌, arith, All,
}
use easy_docket.Base.Text.{not_below_trans, Text, Lacks, ltb_text, ltb_text_irrefl, ltb_text_asym}
use easy_docket.Hlc.{HlcState, Clock, encode, decode, observe}
use easy_docket.Hlc
use easy_docket.Hlc.Order.{IsValid, decode-encode}
use easy_docket.Hlc.Progress.{observe_progress}
use easy_docket.Models.{Operation}
use easy_docket.Ledger.{Ledger, ok, err, clock_error, observe_from, observe_stamps}
use easy_docket.Ledger.Observe.{clock_after, observe_from_clock}
use easy_docket.Ledger.Write.{Ahead}

-- The stamp of a valid state of a device.
abbrev pub IsStamp : Text → Type 0
IsStamp stamp = (s : HlcState) × (d : Text) × IsValid s × Lacks b'-' d × (stamp ≡ encode s d)

-- A stamp names one device.
pub IsStamp-device :
    (s t : HlcState) (d e : Text)
    → IsValid s
    → IsValid t
    → Lacks b'-' d
    → Lacks b'-' e
    → encode s d ≡ encode t e
    → d ≡ e
IsStamp-device s t d e v w ld le same =
    let read = sym (decode-encode s d v ld) ∙ ap decode same ∙ decode-encode t e w le in
    ap device_of read
  where
    device_of : Hlc.Result (HlcState × Text) → Text
    device_of (Hlc.ok (_, name)) = name
    device_of (Hlc.err _) = []

-- The same device with a valid state, no earlier than before.
pub record Onward (k k' : Clock) : Type 0 where
  pub valid : IsValid k'.state
  pub device_same : k'.device ≡ k.device
  pub not_below : ltb_text (encode k'.state k'.device) (encode k.state k.device) ≡ false

pub Onward-Ahead :
    {Row : Type 0} (k k' : Clock) (ops : List (Operation Row))
    → Onward k k'
    → Ahead k ops
    → Ahead k' ops
Onward-Ahead k k' ops h ahead o m = not_below_trans _ _ _ h.not_below (ahead o m)

Onward-trans : (a b c : Clock) → Onward a b → Onward b c → Onward a c
Onward-trans a b c h k = record {
  valid = k.valid;
  device_same = k.device_same ∙ h.device_same;
  not_below = not_below_trans _ _ _ k.not_below h.not_below;
}

observe_err :
    (wall : ℕ) (stamp : Text) (k k' : Clock) (e : Hlc.Error)
    → observe wall stamp k ≡ (Hlc.err e, k')
    → k' ≡ k
unfolding observe
observe_err wall stamp k k' e h = ground arith

-- The clock is at or past all stamps.
abbrev pub Past : Clock → List Text → Type 0
Past k = All (λ s. ltb_text (encode k.state k.device) s ≡ false)

observe_ok :
    (wall : ℕ) (stamp t : Text) (k k' : Clock)
    → observe wall stamp k ≡ (Hlc.ok t, k')
    → t ≡ encode k'.state k'.device
unfolding observe
observe_ok wall stamp t k k' h = ground arith

module _ (wall : ℕ) (fits : wall < 2 ^ 53) where
  -- One stamp: whether it is taken or refused, the clock moves on, and past a stamp that it takes.
  observe-Onward :
      (stamp : Text) (k : Clock) (r : Hlc.Result Text) (k' : Clock)
      → IsValid k.state
      → IsStamp stamp
      → observe wall stamp k ≡ (r, k')
      → Onward k k'
        × ((t : Text) → r ≡ Hlc.ok t → ltb_text (encode k'.state k'.device) stamp ≡ false)
  observe-Onward stamp k (Hlc.err x) k' v h seen =
      let same = observe_err wall stamp k k' x seen in
      (
        rw same (record {
          valid = v;
          device_same = refl;
          not_below = ltb_text_irrefl (encode k.state k.device);
        }),
        λ t f. cc,
      )
  observe-Onward stamp k (Hlc.ok stamp') k' v (s, d, w, ld, e) seen =
      let (v', same, above, past, _) =
        observe_progress wall s d k k' stamp' fits v w ld (rw e at seen) in
      let written = observe_ok wall stamp stamp' k k' seen in
      (
        record {
          valid = v';
          device_same = same;
          not_below = rw (← written) (ltb_text_asym _ _ above);
        },
        λ t f. rw (← written, e) (ltb_text_asym _ _ past),
      )

  -- The clock after some of the stamps, by whether all of them were taken.
  abbrev AllTaken : {Row : Type 0} → List Text → Clock → Ledger Row → Type 0
  AllTaken stamps k l =
      (observe_from wall stamps k l).0 ≡ ok tt → Past (clock_after wall stamps k) stamps

  module _ {Row : Type 0} (l : Ledger Row) where
    abbrev Taken : List Text → Clock → Type 0
    Taken stamps k = Onward k (clock_after wall stamps k) × AllTaken stamps k l

    -- The loop at one stamp, as the clock answers it.
    one_taken :
        (stamp t : Text) (stamps : List Text) (k k1 : Clock)
        → observe wall stamp k ≡ (Hlc.ok t, k1)
        → (clock_after wall (stamp ∷ stamps) k ≡ clock_after wall stamps k1)
          × (observe_from wall (stamp ∷ stamps) k l ≡ observe_from wall stamps k1 l)
    unfolding clock_after observe_from
    one_taken stamp t stamps k k1 h = (ground arith, ground arith)

    one_refused :
        (stamp : Text) (stamps : List Text) (k k1 : Clock) (x : Hlc.Error)
        → observe wall stamp k ≡ (Hlc.err x, k1)
        → (clock_after wall (stamp ∷ stamps) k ≡ k1)
          × ((observe_from wall (stamp ∷ stamps) k l).0 ≡ err (clock_error x))
    unfolding clock_after observe_from
    one_refused stamp stamps k k1 x h = (ground arith, ground arith)

    Taken-cons :
        (stamp : Text) (stamps : List Text) (k k1 : Clock) (r : Hlc.Result Text)
        → observe wall stamp k ≡ (r, k1)
        → IsValid k.state
        → IsStamp stamp
        → (IsValid k1.state → Taken stamps k1)
        → Taken (stamp ∷ stamps) k
    Taken-cons stamp stamps k k1 (Hlc.err x) seen v h rest =
        let (clocks, results) = one_refused stamp stamps k k1 x seen in
        let (on, _) = observe-Onward stamp k (Hlc.err x) k1 v h seen in
        (rw clocks on, λ f. absurd (differ (sym results ∙ f)))
      where
        differ : err (clock_error x) ≢ ok tt
        differ e = cc
    Taken-cons stamp stamps k k1 (Hlc.ok t) seen v h rest =
        let (clocks, runs) = one_taken stamp t stamps k k1 seen in
        let (on, past) = observe-Onward stamp k (Hlc.ok t) k1 v h seen in
        let (on', all) = rest on.valid in
        (
          rw clocks (Onward-trans k k1 _ on on'),
          λ f.
              subst (λ c. Past c (stamp ∷ stamps)) (sym clocks)
                (not_below_trans _ _ _ on'.not_below (past t refl), all (rw runs at f)),
        )

    clock_after-Onward :
        (stamps : List Text) (k : Clock) → IsValid k.state → All IsStamp stamps → Taken stamps k
    clock_after-Onward [] k v h =
        unfold clock_after in
        (
          record {
            valid = v;
            device_same = refl;
            not_below = ltb_text_irrefl (encode k.state k.device);
          },
          λ e. tt,
        )
    clock_after-Onward (stamp ∷ stamps) k v h =
        let (r, k1) = observe wall stamp k in
        Taken-cons stamp stamps k k1 r refl v h.0 (λ w. clock_after-Onward stamps k1 w h.1)

    observe_run :
        (stamps : List Text) (k : Clock)
        → l.clock ≡ some k
        → observe_stamps wall stamps l ≡ observe_from wall stamps k l
    unfolding observe_stamps
    observe_run stamps k ready = ground arith

    -- A ledger that takes stamps keeps its tables and its log; its clock moves on, also when it refuses
    -- one of them, and past all of them when it refuses none.
    pub observe_stamps-Onward :
        (stamps : List Text) (k : Clock)
        → l.clock ≡ some k
        → IsValid k.state
        → All IsStamp stamps
        → let (r, l') = observe_stamps wall stamps l in
          (k' : Clock) × (l' ≡ record l { clock = some k' })
          × Onward k k'
          × (r ≡ ok tt → Past k' stamps)
    observe_stamps-Onward stamps k ready v h =
        let (on, past) = clock_after-Onward stamps k v h in
        let run = observe_run stamps k ready in
        (
          clock_after wall stamps k,
          ap (λ step. step.1) run ∙ observe_from_clock wall stamps k l,
          on,
          λ e. past (ap (λ step. step.0) (sym run) ∙ e),
        )
