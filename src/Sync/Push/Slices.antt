-- ===== src/Sync/Push/Slices.antt =====
-- The slices that `push` of app/src/app/core/sync/sync.service.ts cuts the pending operations into.
use easy_docket.Base.{
  ℕ, zero, suc, ◌≤◌, ◌≡◌, ◌≢◌, ◌⊎◌, inl, inr, refl, sym, ap, ◌∙◌, subst, List, [], ◌∷◌, ◌++◌, In,
  In-append_left, In-append_right, append-In, take, drop, length, arith,
}
use easy_docket.Base.Text.{Text}
use easy_docket.Models.{Operation, LocalOperation}
use easy_docket.Db.Log.{ops_of}
use easy_docket.Sync.Push.{stamps_of, last_stamp}

-- No stamp stands twice.
abbrev pub Distinct : List Text → Type 0
Distinct [] = Unit
Distinct (t ∷ ts) = (In t ts → ⊥) × Distinct ts

pub Distinct-append :
    (xs ys : List Text)
    → Distinct (xs ++ ys)
    → Distinct ys × ((t u : Text) → In t xs → In u ys → t ≢ u)
Distinct-append [] ys h = (h, λ t u m. absurd m)
Distinct-append (x ∷ xs) ys (new, h) =
    let (rest, apart) = Distinct-append xs ys h in (rest, differ apart)
  where
    differ :
        ((t u : Text) → In t xs → In u ys → t ≢ u) → (t u : Text) → In t (x ∷ xs) → In u ys → t ≢ u
    differ apart t u (inl e) n same =
        new (In-append_right x xs ys (subst (λ z. In z ys) (sym same ∙ e) n))
    differ apart t u (inr m) n same = apart t u m n same

module _ {Row : Type 0} where
  pub length-drop : (k : ℕ) (xs : List (LocalOperation Row)) → length (drop k xs) ≤ length xs
  length-drop zero xs = omega arith
  length-drop (suc k) [] = omega arith
  length-drop (suc k) (x ∷ xs) = omega (arith, length-drop k xs)

  pub take-drop : (k : ℕ) (xs : List (LocalOperation Row)) → take k xs ++ drop k xs ≡ xs
  take-drop zero xs = refl
  take-drop (suc k) [] = refl
  take-drop (suc k) (x ∷ xs) = ap (λ ys. x ∷ ys) (take-drop k xs)

  pub stamps_of-append :
      (xs ys : List (LocalOperation Row)) → stamps_of (xs ++ ys) ≡ stamps_of xs ++ stamps_of ys
  stamps_of-append [] ys = refl
  stamps_of-append (x ∷ xs) ys = ap (λ ts. x.hlc ∷ ts) (stamps_of-append xs ys)

  pub stamps-drop :
      (k : ℕ) (xs : List (LocalOperation Row)) (t : Text)
      → In t (stamps_of (drop k xs))
      → In t (stamps_of xs)
  stamps-drop k xs t m =
      subst (In t) (sym (stamps_of-append (take k xs) (drop k xs)) ∙ ap stamps_of (take-drop k xs))
        (In-append_right t (stamps_of (take k xs)) _ m)

  pub stamps-take :
      (k : ℕ) (o : LocalOperation Row) (xs : List (LocalOperation Row)) (t : Text)
      → In t (stamps_of (o ∷ take k xs))
      → In t (stamps_of (o ∷ xs))
  stamps-take k o xs t (inl e) = inl e
  stamps-take k o xs t (inr m) = inr (
      subst (In t) (sym (stamps_of-append (take k xs) (drop k xs)) ∙ ap stamps_of (take-drop k xs))
        (In-append_left t (stamps_of (take k xs)) _ m))

  pub ops_of-append :
      (xs ys : List (LocalOperation Row)) → ops_of (xs ++ ys) ≡ ops_of xs ++ ops_of ys
  ops_of-append [] ys = refl
  ops_of-append (x ∷ xs) ys = ap (λ os. x.operation ∷ os) (ops_of-append xs ys)

  pub ops-split :
      (k : ℕ) (o : LocalOperation Row) (xs : List (LocalOperation Row)) (p : Operation Row)
      → In p (ops_of (o ∷ xs))
      → In p (ops_of (o ∷ take k xs)) ⊎ In p (ops_of (drop k xs))
  ops-split k o xs p m = append-In p (ops_of (o ∷ take k xs)) (ops_of (drop k xs)) (
      subst (λ ys. In p ys)
        (ap (λ ys. ops_of (o ∷ ys)) (sym (take-drop k xs))
          ∙ ops_of-append (o ∷ take k xs) (drop k xs))
        m)

  pub stamps-split :
      (k : ℕ) (o : LocalOperation Row) (xs : List (LocalOperation Row))
      → Distinct (stamps_of (o ∷ xs))
      → Distinct (stamps_of (drop k xs))
        × ((t u : Text) → In t (stamps_of (o ∷ take k xs)) → In u (stamps_of (drop k xs)) → t ≢ u)
  stamps-split k o xs h = Distinct-append (stamps_of (o ∷ take k xs)) (stamps_of (drop k xs)) (
      subst Distinct
        (ap (λ ys. stamps_of (o ∷ ys)) (sym (take-drop k xs))
          ∙ stamps_of-append (o ∷ take k xs) (drop k xs))
        h)

  pub last_stamp-In :
      (o : LocalOperation Row) (slice : List (LocalOperation Row))
      → In (last_stamp o slice) (stamps_of (o ∷ slice))
  unfolding last_stamp
  last_stamp-In o [] = inl refl
  last_stamp-In o (p ∷ slice) = inr (last_stamp-In p slice)
