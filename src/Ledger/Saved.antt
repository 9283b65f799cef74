-- ===== src/Ledger/Saved.antt =====
-- The clock that `merge` of app/src/app/core/repositories/ledger.service.ts saves.
use easy_docket.Base.{ℕ, ◌≡◌, refl, ◌∙◌, some, List, [], ◌∷◌, arith}
use easy_docket.Hlc.{Clock}
use easy_docket.Models.{Operation, Entity}
use easy_docket.Ledger.{Ledger, merge_one, merge_all, merge_sorted, sort_ops, merge}

module _ {Row : Type 0} (e : Entity Row) where
  merge_one_clock :
      (o : Operation Row) (acc : ℕ × Ledger Row) → (merge_one e o acc).1.clock ≡ acc.1.clock
  unfolding merge_one
  merge_one_clock o (n, l) = ground arith

  merge_all_clock :
      (ops : List (Operation Row)) (acc : ℕ × Ledger Row)
      → (merge_all e ops acc).1.clock ≡ acc.1.clock
  unfolding merge_all
  merge_all_clock [] acc = refl
  merge_all_clock (o ∷ ops) acc = merge_all_clock ops (merge_one e o acc) ∙ merge_one_clock o acc

  -- A merge of some operations leaves the clock as it is and saves it.
  pub merge_clock :
      (o : Operation Row) (ops : List (Operation Row)) (l : Ledger Row) (k : Clock)
      → l.clock ≡ some k
      → let l' = (merge e (o ∷ ops) l).1 in (l'.clock ≡ some k) × (l'.saved_clock ≡ some k.state)
  unfolding merge merge_sorted
  merge_clock o ops l k ready = ground (arith, merge_all_clock (sort_ops (o ∷ ops)) (0, l))

  pub merge_nil : (l : Ledger Row) → (merge e [] l).1 ≡ l
  unfolding merge
  merge_nil l = refl
