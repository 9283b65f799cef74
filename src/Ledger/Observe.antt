-- ===== src/Ledger/Observe.antt =====
-- `observeStamps` of app/src/app/core/repositories/ledger.service.ts moves the clock and nothing else.
use easy_docket.Base.{ℕ, ◌≡◌, refl, some, List, [], ◌∷◌, arith}
use easy_docket.Base.Text.{Text}
use easy_docket.Hlc
use easy_docket.Hlc.{Clock}
use easy_docket.Models.{Operation}
use easy_docket.Ledger.{Ledger, observe_from, observe_stamps}
use easy_docket.Ledger.Knows.{Knows}

-- The clock after the stamps up to the first refused one.
unfoldable pub clock_after : ℕ → List Text → Clock → Clock
clock_after wall [] k = k
clock_after wall (stamp ∷ stamps) k =
    let (r, k') = Hlc.observe wall stamp k in
    let rest = clock_after wall stamps k' in elim r [ Hlc.ok _ ↦ rest | Hlc.err e ↦ k' ]

module _ {Row : Type 0} where
  pub observe_from_clock :
      (wall : ℕ) (stamps : List Text) (k : Clock) (l : Ledger Row)
      → (observe_from wall stamps k l).1 ≡ record l { clock = some (clock_after wall stamps k) }
  unfolding observe_from clock_after
  observe_from_clock wall [] k l = refl
  observe_from_clock wall (stamp ∷ stamps) k l =
      ground (arith, observe_from_clock wall stamps (Hlc.observe wall stamp k).1 l)

  -- Whether it takes all stamps or stops at one, the service has a clock and the tables and the log
  -- that it had.
  pub observe_stamps_clock :
      (wall : ℕ) (stamps : List Text) (k : Clock) (l : Ledger Row)
      → l.clock ≡ some k
      → (k' : Clock) × ((observe_stamps wall stamps l).1 ≡ record l { clock = some k' })
  unfolding observe_stamps
  observe_stamps_clock wall stamps k l h =
      (clock_after wall stamps k, ground (arith, observe_from_clock wall stamps k l))

  pub observe_stamps-Knows :
      (wall : ℕ) (stamps : List Text) (k : Clock) (l : Ledger Row) (ops : List (Operation Row))
      → l.clock ≡ some k
      → Knows l ops
      → Knows (observe_stamps wall stamps l).1 ops
  observe_stamps-Knows wall stamps k l ops h known =
      rw ((observe_stamps_clock wall stamps k l h).1)
        (record { logged = known.logged; newest = known.newest; rows = known.rows })
