-- ===== src/Budgets/Carry.antt =====
-- What rolls over from one period of a budget to the next: app/src/app/core/budgets/spend.ts.
use easy_docket.Base.{
  ℕ, suc, ◌≡◌, refl, sym, ap, ◌∙◌, true, Option, none, some, List, arith, ◌>>=◌, if◌then◌else◌,
}
use easy_docket.Base.Int.{ℤ, pos, ◌+ℤ◌, ◌-ℤ◌, +ℤ_parts, -ℤ_parts, eq_of_parts}
use easy_docket.Base.Text.{Text}
use easy_docket.Models.Records.{Minor, Transaction, Budget}
use easy_docket.Conversion.{Double}
use easy_docket.Budgets.{BudgetWindow, anchor_of, window_by_index}
use easy_docket.Budgets.Spend.{
  BudgetProgress, spend_in, spend_detail, carry_over, carried_into, progress_in, progress_of,
}

carry_remaining : (c a s : ℤ) → c +ℤ (a -ℤ s) ≡ (a +ℤ c) -ℤ s
carry_remaining c a s =
    eq_of_parts _ _
      (omega (arith, -ℤ_parts a s, +ℤ_parts c (a -ℤ s), +ℤ_parts a c, -ℤ_parts (a +ℤ c) s))

module _ {W : Type 0} (double : Double W) (budget : Budget) (covered : Option (List Text)) where
  progress_in_lem :
      (ts : List (Transaction W)) (w : BudgetWindow) (p : BudgetProgress)
      → progress_in double budget covered ts w ≡ some p
      → (c : Minor) × (sums : Minor × ℕ) × (carried_into double budget covered w.index ts ≡ some c)
        × (spend_detail double budget covered w ts ≡ some sums)
        × (p.remaining ≡ (budget.amount +ℤ c) -ℤ sums.0)
  unfolding progress_in progress_of
  progress_in_lem ts w p h =
      cases (carried_into double budget covered w.index ts)
        (spend_detail double budget covered w ts) refl refl h
    where
      cases :
          (o : Option Minor) (r : Option (Minor × ℕ))
          → carried_into double budget covered w.index ts ≡ o
          → spend_detail double budget covered w ts ≡ r
          → (o >>= λ c. r >>= λ sums. some (progress_of double budget covered w c sums)) ≡ some p
          → (c : Minor) × (sums : Minor × ℕ) × (carried_into double budget covered w.index ts
              ≡ some c)
            × (spend_detail double budget covered w ts ≡ some sums)
            × (p.remaining ≡ (budget.amount +ℤ c) -ℤ sums.0)
      cases none r e f g = cc
      cases (some c) none e f g = cc
      cases (some c) (some sums) e f g =
          let same : progress_of double budget covered w c sums ≡ p = cc in
          (c, sums, e, f, ap (λ (x : BudgetProgress). x.remaining) (sym same))

  carried_into-rollover :
      (ts : List (Transaction W)) (i : ℕ)
      → budget.rollover ≡ true
      → carried_into double budget covered i ts ≡ carry_over double budget covered ts i
  unfolding carried_into
  carried_into-rollover ts i rolls =
      ap (λ b. if b then carry_over double budget covered ts i else some (pos 0)) rolls

  carry_over-suc :
      (ts : List (Transaction W)) (i : ℕ) (w : BudgetWindow) (c : Minor) (sums : Minor × ℕ)
      → carry_over double budget covered ts i ≡ some c
      → window_by_index (anchor_of budget) i ≡ some w
      → spend_detail double budget covered w ts ≡ some sums
      → carry_over double budget covered ts (suc i) ≡ some (c +ℤ (budget.amount -ℤ sums.0))
  unfolding carry_over spend_in
  carry_over-suc ts i w c sums over here spent = rw (over, here, spent) refl

  -- With rollover, what remains at the end of a period, be it less than nothing, is what the next period
  -- has on top of the budget's amount, provided the spending of the next period can be summed.
  pub progress_in_carries :
      (ts : List (Transaction W)) (w next : BudgetWindow) (p : BudgetProgress) (sums : Minor × ℕ)
      → budget.rollover ≡ true
      → window_by_index (anchor_of budget) w.index ≡ some w
      → next.index ≡ suc w.index
      → progress_in double budget covered ts w ≡ some p
      → spend_detail double budget covered next ts ≡ some sums
      → (q : BudgetProgress) × (progress_in double budget covered ts next ≡ some q)
        × (q.carried ≡ p.remaining)
        × (q.allowance ≡ budget.amount +ℤ p.remaining)
        × (q.remaining ≡ q.allowance -ℤ sums.0)
  unfolding progress_in progress_of
  progress_in_carries ts w next p sums rolls here follows h spent =
      let (c, s, e, f, rest) = progress_in_lem ts w p h in
      let over = sym (carried_into-rollover ts w.index rolls) ∙ e in
      let into : carried_into double budget covered next.index ts
          ≡ some (c +ℤ (budget.amount -ℤ s.0)) =
        carried_into-rollover ts next.index rolls
        ∙ ap (carry_over double budget covered ts) follows
        ∙ carry_over-suc ts w.index w c s over here f in
      let left : c +ℤ (budget.amount -ℤ s.0) ≡ p.remaining =
        carry_remaining c budget.amount s.0 ∙ sym rest in
      (
        progress_of double budget covered next (c +ℤ (budget.amount -ℤ s.0)) sums,
        rw (into, spent) refl,
        left,
        ap (λ x. budget.amount +ℤ x) left,
        refl,
      )
