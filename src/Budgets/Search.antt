-- ===== src/Budgets/Search.antt =====
-- The two loops of `windowFor` of app/src/app/core/budgets/period.ts.
use easy_docket.Base.{
  ℕ, zero, suc, ◌+◌, ◌≤◌, ◌≡◌, inl, inr, refl, sym, ap, ◌∙◌, true, false, Option, some, arith,
  Bool-cases,
}
use easy_docket.Base.Text.{Text, ltb_text}
use easy_docket.Budgets.{step_back, step_on, index_for}

module _ (start : ℕ → Option Text) (at : ℕ → Text) (date : Text)
    (total : (i : ℕ) → start i ≡ some (at i)) (first : ltb_text date (at 0) ≡ false) where
  step_back_lem :
      (n : ℕ)
      → ltb_text date (at (n + 1)) ≡ true
      → (i : ℕ) × (i ≤ n)
        × (step_back start date n ≡ some i)
        × (ltb_text date (at i) ≡ false)
        × (ltb_text date (at (i + 1)) ≡ true)
  unfolding step_back
  step_back_lem zero h = (0, omega arith, refl, first, h)
  step_back_lem (suc n) h = elim (Bool-cases (ltb_text date (at (suc n)))) [
    | inl late ↦
        let same : suc n ≡ n + 1 = omega arith in
        let (i, within, done, low, high) =
          step_back_lem n (ap (λ k. ltb_text date (at k)) (sym same) ∙ late) in
        (i, omega (arith, within), rw (total (suc n), late) done, low, high)
    | inr early ↦ (suc n, omega arith, rw (total (suc n), early) refl, early, h)
  ]

  pub index_for_lem :
      (n : ℕ)
      → ltb_text date (at (n + 1)) ≡ true
      → (i : ℕ) × (i ≤ n)
        × (index_for start date n ≡ some i)
        × (ltb_text date (at i) ≡ false)
        × (ltb_text date (at (i + 1)) ≡ true)
  unfolding index_for step_on
  index_for_lem n h =
      let (i, within, done, low, high) = step_back_lem n h in
      (i, within, rw (done, total (i + 1), high) refl, low, high)
