-- ===== src/Replicas/Invariant.antt =====
-- What holds in every reachable world of devices: each ledger of
-- app/src/app/core/repositories/ledger.service.ts holds just what its device has learned, and its clock,
-- also the saved one, is at or past all of that.
use easy_docket.Base.{arith, ◌≡◌, refl, true, Option, none, some, List, [], In}
use easy_docket.Base.Text.{Text, Lacks}
use easy_docket.Hlc.{HlcState, Clock, encode}
use easy_docket.Hlc.Order.{IsValid}
use easy_docket.Models.{Operation, Entity}
use easy_docket.Db.{get_row}
use easy_docket.Ledger.{Ledger, initialise}
use easy_docket.Ledger.Lww.{Identified, winner}
use easy_docket.Ledger.Knows.{Knows}
use easy_docket.Ledger.Merge.{WellFormed}
use easy_docket.Ledger.Converge.{complete}
use easy_docket.Ledger.Write.{Ahead}
use easy_docket.Replicas.{Replica, World, new_replica}

-- The clock that a restart would restore.
abbrev pub restored : Option HlcState → HlcState
restored none = record { physical = 0; counter = 0 }
restored (some s) = s

-- A clock of the device that is valid and at or past the operations.
pub record Serves {Row : Type 0} (d : Text) (ops : List (Operation Row)) (k : Clock) : Type 0 where
  pub device_same : k.device ≡ d
  pub valid : IsValid k.state
  pub ahead : Ahead k ops

abbrev pub saved_as : {Row : Type 0} → Text → Ledger Row → Clock
saved_as d l = record { device = d; state = restored l.saved_clock }

module _ {Row : Type 0} where
  -- A replica of the device `d`, among the written operations.
  pub record Local (written : List (Operation Row)) (d : Text) (r : Replica Row) : Type 0 where
    pub clock : Clock
    pub ready : r.ledger.clock ≡ some clock
    pub serves : Serves d r.learned clock
    pub saved : Serves d r.learned (saved_as d r.ledger)
    pub knows : Knows r.ledger r.learned
    pub within : (o : Operation Row) → In o r.learned → In o written
    pub own : (o : Operation Row) → In o written → o.device ≡ d → In o r.learned

  -- A written operation is stamped by its device, and `merge` keeps it.
  pub record Written (e : Entity Row) (o : Operation Row) : Type 0 where
    pub state : HlcState
    pub valid : IsValid state
    pub named : Lacks b'-' o.device
    pub stamped : o.hlc ≡ encode state o.device
    pub formed : WellFormed e o
    pub whole : complete o ≡ true

  pub record Sound (e : Entity Row) (w : World Row) : Type 0 where
    pub local : (d : Text) → Local w.written d (w.replica d)
    pub each : (o : Operation Row) → In o w.written → Written e o
    pub ident : Identified w.written

  pub new_replica-Local : (d : Text) → Local [] d (new_replica d)
  unfolding initialise winner get_row
  new_replica-Local d = record {
    clock = record { device = d; state = record { physical = 0; counter = 0 } };
    ready = refl;
    serves = at_zero;
    saved = at_zero;
    knows = record { logged = λ o m. m; newest = λ k. refl; rows = λ k. refl };
    within = λ o m. m;
    own = λ o m e. m;
  }
    where
      at_zero :
          Serves {Row = Row} d []
            (record { device = d; state = record { physical = 0; counter = 0 } })
      at_zero = record {
        device_same = refl;
        valid = record { physical_fits = omega arith; counter_fits = omega arith };
        ahead = λ o m. absurd m;
      }
