-- ===== src/Base/Int/Sums.antt =====
-- Sums of integers over lists, and over the parts that a list is split into.
use mathlib.Core.Path.{◌≡◌, refl, sym, ap, ◌∙◌}
use mathlib.Core.Bool.{Bool, true, false}
use mathlib.Core.List.{List, [], ◌∷◌}
use easy_docket.Base.Tests.{if◌then◌else◌}
use easy_docket.Base.Lists.{filter}
use easy_docket.Base.Int.{ℤ, pos, ◌+ℤ◌}
use easy_docket.Base.Int.Laws.{plus_zero, zero_plus, swap_sums}

abbrev pub sum_by : {A : Type 0} → (A → ℤ) → List A → ℤ
sum_by w [] = pos 0
sum_by w (a ∷ xs) = w a +ℤ sum_by w xs

abbrev pub when : Bool → ℤ → ℤ
when b x = if b then x else pos 0

module _ {A : Type 0} where
  pub sum_by_zero : (w : A → ℤ) → ((a : A) → w a ≡ pos 0) → (xs : List A) → sum_by w xs ≡ pos 0
  sum_by_zero w h [] = refl
  sum_by_zero w h (a ∷ xs) =
      ap (λ x. x +ℤ sum_by w xs) (h a) ∙ zero_plus (sum_by w xs) ∙ sum_by_zero w h xs

  pub sum_by_same :
      (v w : A → ℤ) → ((a : A) → v a ≡ w a) → (xs : List A) → sum_by v xs ≡ sum_by w xs
  sum_by_same v w h [] = refl
  sum_by_same v w h (a ∷ xs) = λ i. h a i +ℤ sum_by_same v w h xs i

  pub sum_by-+ℤ :
      (v w : A → ℤ) (xs : List A) → sum_by (λ a. v a +ℤ w a) xs ≡ sum_by v xs +ℤ sum_by w xs
  sum_by-+ℤ v w [] = sym (plus_zero (pos 0))
  sum_by-+ℤ v w (a ∷ xs) =
      ap (λ x. (v a +ℤ w a) +ℤ x) (sum_by-+ℤ v w xs)
      ∙ swap_sums (v a) (w a) (sum_by v xs) (sum_by w xs)

  pub sum_by-filter :
      (w : A → ℤ) (p : A → Bool) (a : A) (xs : List A)
      → sum_by w (filter p (a ∷ xs)) ≡ when (p a) (w a) +ℤ sum_by w (filter p xs)
  sum_by-filter w p a xs = cases (p a)
    where
      cases :
          (b : Bool)
          → sum_by w (if b then a ∷ filter p xs else filter p xs)
            ≡ when b (w a) +ℤ sum_by w (filter p xs)
      cases true = refl
      cases false = sym (zero_plus (sum_by w (filter p xs)))

-- Parts of a list, one for each index and one more, sum up to the whole where each element lies in
-- just one of them.
pub sum_by_parts :
    {G A : Type 0} (p : G → A → Bool) (rest : A → Bool) (w : A → ℤ) (gs : List G)
    → ((a : A) → sum_by (λ g. when (p g a) (w a)) gs +ℤ when (rest a) (w a) ≡ w a)
    → (xs : List A)
    → sum_by (λ g. sum_by w (filter (p g) xs)) gs +ℤ sum_by w (filter rest xs) ≡ sum_by w xs
sum_by_parts p rest w gs h [] =
    ap (λ x. x +ℤ pos 0) (sum_by_zero (λ g. pos 0) (λ g. refl) gs) ∙ plus_zero (pos 0)
sum_by_parts p rest w gs h (a ∷ xs) =
    (λ i.
      sum_by_same (λ g. sum_by w (filter (p g) (a ∷ xs)))
        (λ g. when (p g a) (w a) +ℤ sum_by w (filter (p g) xs)) (λ g. sum_by-filter w (p g) a xs) gs
        i
      +ℤ sum_by-filter w rest a xs i)
    ∙ ap (λ x. x +ℤ (when (rest a) (w a) +ℤ sum_by w (filter rest xs)))
        (sum_by-+ℤ (λ g. when (p g a) (w a)) (λ g. sum_by w (filter (p g) xs)) gs)
    ∙ swap_sums (sum_by (λ g. when (p g a) (w a)) gs) (sum_by (λ g. sum_by w (filter (p g) xs)) gs)
        (when (rest a) (w a)) (sum_by w (filter rest xs))
    ∙ (λ i. h a i +ℤ sum_by_parts p rest w gs h xs i)
