-- ===== src/Replicas/Moves.antt =====
-- A write of a device keeps what holds of its replica: `put` and `remove` of app/src/app/core/repositories/ledger.service.ts.
use easy_docket.Base.{
  ℕ, ◌^◌, ◌<◌, ◌≡◌, ◌≢◌, inl, inr, sym, ◌∙◌, ap, subst, true, some, List, [], ◌∷◌, ◌++◌, arith, In,
}
use easy_docket.Base.Text.{Text, Lacks, ltb_text, ltb_text_trans, ltb_text_connex}
use easy_docket.Hlc
use easy_docket.Hlc.{HlcState, Clock, encode, tick}
use easy_docket.Hlc.Progress.{tick_progress}
use easy_docket.Models.{Operation, Entity}
use easy_docket.Ledger.{Ledger}
use easy_docket.Ledger.Knows.{Knows}
use easy_docket.Ledger.Converge.{complete}
use easy_docket.Ledger.Write.{Ahead}
use easy_docket.Replicas.{Replica}
use easy_docket.Replicas.Invariant.{Serves, saved_as, restored, Local, Written}

not_below_nil : (t : Text) → ltb_text t [] ≢ true
unfolding ltb_text
not_below_nil [] h = cc
not_below_nil (c ∷ t) h = cc

-- A clock that is saved serves as the saved one.
pub saved_Serves :
    {Row : Type 0} (d : Text) (ops : List (Operation Row)) (l : Ledger Row) (k : Clock)
    → l.saved_clock ≡ some k.state
    → Serves d ops k
    → Serves d ops (saved_as d l)
saved_Serves d ops l k saved serves =
    let same : saved_as d l ≡ k =
      λ i. record { device = sym serves.device_same i; state = ap restored saved i } in
    subst (Serves d ops) (sym same) serves

module _ {Row : Type 0} (e : Entity Row) where
  -- A replica after a move, with the operations that the move wrote.
  pub record Moved (written : List (Operation Row)) (d : Text) (r r' : Replica Row)
      (added : List (Operation Row)) : Type 0 where
    pub local : Local (added ++ written) d r'
    pub fresh :
        (o : Operation Row)
        → In o added
        → Written e o
          × (o.device ≡ d)
          × ((p : Operation Row) → In p r.learned → ltb_text p.hlc o.hlc ≡ true)
    pub single : (o p : Operation Row) → In o added → In p added → o ≡ p

  -- A successful tick, for an operation with its stamp.
  module _ (written : List (Operation Row)) (d : Text) (r : Replica Row) (named : Lacks b'-' d)
      (h : Local written d r) (wall : ℕ) (k k' : Clock) (o : Operation Row)
      (ready : r.ledger.clock ≡ some k) (fits : wall < 2 ^ 53)
      (ticked : tick wall k ≡ (Hlc.ok o.hlc, k')) (by : o.device ≡ k'.device) where
    same_clock : h.clock ≡ k
    same_clock = some_inj (sym h.ready ∙ ready)
      where
        some_inj : {a b : Clock} → some a ≡ some b → a ≡ b
        some_inj f = cc

    pub clock_serves : Serves d r.learned k
    clock_serves = subst (Serves d r.learned) same_clock h.serves

    device_kept : k'.device ≡ d
    device_kept =
        let (_, _, same, _, _) = tick_progress wall k k' o.hlc fits clock_serves.valid ticked in
        same ∙ clock_serves.device_same

    above : (p : Operation Row) → In p r.learned → ltb_text p.hlc o.hlc ≡ true
    above p m =
        let (_, _, _, _, up) = tick_progress wall k k' o.hlc fits clock_serves.valid ticked in
        let low = clock_serves.ahead p m in
        ground (
          arith,
          ltb_text_trans p.hlc (encode k.state k.device) o.hlc,
          ltb_text_connex (encode k.state k.device) p.hlc,
        )

    pub write-Written :
        ((row : Row) → o.value ≡ some row → e.id row ≡ o.entity_id)
        → complete o ≡ true
        → Written e o
    write-Written own whole =
        let (v, _, same, stamped, up) =
          tick_progress wall k k' o.hlc fits clock_serves.valid ticked in
        let device : o.device ≡ d = by ∙ device_kept in
        let not_empty : ltb_text (encode k.state k.device) [] ≢ true =
          λ f. absurd (not_below_nil (encode k.state k.device) f) in
        record {
          state = k'.state;
          valid = v;
          named = subst (Lacks b'-') (sym device) named;
          stamped = stamped ∙ ap (encode k'.state) (sym same ∙ sym by);
          formed = record { has_stamp = λ f. not_empty (rw f at up); own_id = own };
          whole = whole;
        }

    pub write-Moved :
        (l' : Ledger Row)
        → Knows l' (o ∷ r.learned)
        → Ahead k' (o ∷ r.learned)
        → l'.clock ≡ some k'
        → l'.saved_clock ≡ some k'.state
        → Written e o
        → Moved written d r (record { ledger = l'; learned = o ∷ r.learned }) (o ∷ [])
    write-Moved l' known ahead clock saved w =
        let (v, _, _, _, _) = tick_progress wall k k' o.hlc fits clock_serves.valid ticked in
        let serves : Serves d (o ∷ r.learned) k' = record {
          device_same = device_kept;
          valid = v;
          ahead = ahead;
        } in
        record {
          local = record {
            clock = k';
            ready = clock;
            serves = serves;
            saved = saved_Serves d (o ∷ r.learned) l' k' saved serves;
            knows = known;
            within = λ p m. elim m [ inl f ↦ inl f | inr n ↦ inr (h.within p n) ];
            own = λ p m f. elim m [ inl g ↦ inl g | inr n ↦ inr (h.own p n f) ];
          };
          fresh = λ p m. elim m [ inl f ↦ rw f (w, by ∙ device_kept, above) | inr n ↦ absurd n ];
          single = λ p q m n. ground arith;
        }
