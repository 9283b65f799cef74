-- ===== src/Base/Int/Keyed.antt =====
-- Sums over lists whose elements have ids of their own.
use mathlib.Core.Path.{◌≡◌, refl, ap, subst, ◌∙◌}
use mathlib.Core.Logic.{inl, inr}
use mathlib.Core.Bool.{Bool, true, false}
use mathlib.Core.List.{List, [], ◌∷◌, map}
use native.Mathlib.Omega.{arith}
use easy_docket.Base.Tests.{if◌then◌else◌, Bool-cases}
use easy_docket.Base.Lists.{In, filter}
use easy_docket.Base.Text.{Text, eq_text, eq_text→eq, eq_text_refl}
use easy_docket.Base.Int.{ℤ, pos, ◌+ℤ◌}
use easy_docket.Base.Int.Laws.{plus_zero, zero_plus}
use easy_docket.Base.Int.Sums.{sum_by, when}

module _ {A : Type 0} (id_of : A → Text) where
  abbrev pub ids : List A → List Text
  ids = map id_of

  -- No two elements have one id.
  abbrev pub DistinctIds : List A → Type 0
  DistinctIds [] = Unit
  DistinctIds (a ∷ xs) = (In (id_of a) (ids xs) → ⊥) × DistinctIds xs

  nowhere :
      (id : Text) (x : ℤ) (xs : List A)
      → (In id (ids xs) → ⊥)
      → sum_by (λ a. when (eq_text id (id_of a)) x) xs ≡ pos 0
  nowhere id x [] h = refl
  nowhere id x (a ∷ xs) h =
      let differ : eq_text id (id_of a) ≡ false =
        ground (arith, eq_text→eq id (id_of a), Bool-cases (eq_text id (id_of a))) in
      ap (λ b. when b x +ℤ sum_by (λ k. when (eq_text id (id_of k)) x) xs) differ
      ∙ zero_plus _
      ∙ nowhere id x xs (λ m. h (inr m))

  -- Just one element has the id.
  pub once :
      (id : Text) (x : ℤ) (xs : List A)
      → DistinctIds xs
      → In id (ids xs)
      → sum_by (λ a. when (eq_text id (id_of a)) x) xs ≡ x
  once id x [] h m = absurd m
  once id x (a ∷ xs) (new, h) (inl e) =
      (λ i. when (same i) x +ℤ nowhere id x xs (λ m. new (subst (λ t. In t (ids xs)) e m)) i)
      ∙ plus_zero x
    where
      same : eq_text id (id_of a) ≡ true
      same = rw e (eq_text_refl (id_of a))
  once id x (a ∷ xs) (new, h) (inr m) =
      let differ : eq_text id (id_of a) ≡ false =
        ground (arith, eq_text→eq id (id_of a), Bool-cases (eq_text id (id_of a))) in
      ap (λ b. when b x +ℤ sum_by (λ k. when (eq_text id (id_of k)) x) xs) differ
      ∙ zero_plus _
      ∙ once id x xs h m

  pub In-ids : (a : A) (xs : List A) → In a xs → In (id_of a) (ids xs)
  In-ids a [] m = absurd m
  In-ids a (x ∷ xs) (inl e) = inl (ap id_of e)
  In-ids a (x ∷ xs) (inr m) = inr (In-ids a xs m)

  ids-filter : (p : A → Bool) (t : Text) (xs : List A) → In t (ids (filter p xs)) → In t (ids xs)
  ids-filter p t [] m = m
  ids-filter p t (x ∷ xs) m = cases (p x) (ids-filter p t xs) m
    where
      cases :
          (b : Bool)
          → (In t (ids (filter p xs)) → In t (ids xs))
          → In t (ids (if b then x ∷ filter p xs else filter p xs))
          → In t (ids (x ∷ xs))
      cases true rest (inl e) = inl e
      cases true rest (inr n) = inr (rest n)
      cases false rest n = inr (rest n)

  pub DistinctIds-filter : (p : A → Bool) (xs : List A) → DistinctIds xs → DistinctIds (filter p xs)
  DistinctIds-filter p [] h = h
  DistinctIds-filter p (x ∷ xs) (new, h) = cases (p x) (DistinctIds-filter p xs h)
    where
      cases :
          (b : Bool)
          → DistinctIds (filter p xs)
          → DistinctIds (if b then x ∷ filter p xs else filter p xs)
      cases true g = ((λ m. new (ids-filter p (id_of x) xs m)), g)
      cases false g = g
