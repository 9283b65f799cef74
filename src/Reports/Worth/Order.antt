-- ===== src/Reports/Worth/Order.antt =====
-- Transactions in the order of their dates, for `netWorthOver` of app/src/app/core/reports/aggregate.ts.
use easy_docket.Base.{
  ◌≡◌, ◌≢◌, ◌⊎◌, inl, inr, refl, sym, ◌∙◌, ap, true, false, List, [], ◌∷◌, All, arith, Bool-cases,
}
use easy_docket.Base.Int.{ℤ, pos, ◌+ℤ◌}
use easy_docket.Base.Int.Laws.{plus_assoc, plus_comm, zero_plus}
use easy_docket.Base.Int.Sums.{sum_by, when}
use easy_docket.Base.Text.{Text, leb_text, not_below_trans, ltb_text_asym}
use easy_docket.Conversion.{Double, Outcome, value, bad_rate, ◌>>=◌}
use easy_docket.Models.Records.{Minor, Transaction}
use easy_docket.Reports.Worth.{insert_dated, sort_dated, delta}

clash : true ≢ false
clash e = cc

unfoldable pub or_zero : Outcome Minor → Minor
or_zero (value x) = x
or_zero bad_rate = pos 0

-- Where a chain of steps gives a value, its first step gave one.
pub bind-value :
    {A B : Type 0} (o : Outcome A) (f : A → Outcome B) (b : B)
    → (o >>= f) ≡ value b
    → (a : A) × (o ≡ value a) × (f a ≡ value b)
bind-value (value a) f b e = (a, refl, e)
bind-value bad_rate f b e = cc

-- Dates that come in order, none below a bound.
abbrev pub Above : Text → List Text → Type 0
Above bound [] = Unit
Above bound (c ∷ cs) = (leb_text bound c ≡ true) × Above c cs

pub leb_text_trans :
    (a b c : Text) → leb_text a b ≡ true → leb_text b c ≡ true → leb_text a c ≡ true
leb_text_trans a b c h k = ground (arith, not_below_trans c b a)

module _ {W : Type 0} where
  -- A list of transactions in the order of their dates.
  abbrev pub InOrder : List (Transaction W) → Type 0
  InOrder [] = Unit
  InOrder (t ∷ ts) = All (λ u. leb_text t.date u.date ≡ true) ts × InOrder ts

  pub insert_dated-All :
      (bound : Text) (t : Transaction W) (ts : List (Transaction W))
      → leb_text bound t.date ≡ true
      → All (λ u. leb_text bound u.date ≡ true) ts
      → All (λ u. leb_text bound u.date ≡ true) (insert_dated t ts)
  unfolding insert_dated
  insert_dated-All bound t [] h hs = (h, tt)
  insert_dated-All bound t (other ∷ ts) h hs = elim (Bool-cases (leb_text t.date other.date)) [
    | inl first ↦ rw first (h, hs)
    | inr behind ↦ rw behind (hs.0, insert_dated-All bound t ts h hs.1)
  ]

  pub All-above :
      (a b : Text) (ts : List (Transaction W))
      → leb_text a b ≡ true
      → All (λ u. leb_text b u.date ≡ true) ts
      → All (λ u. leb_text a u.date ≡ true) ts
  All-above a b [] h hs = tt
  All-above a b (t ∷ ts) h hs = (leb_text_trans a b t.date h hs.0, All-above a b ts h hs.1)

  pub insert_dated-InOrder :
      (t : Transaction W) (ts : List (Transaction W)) → InOrder ts → InOrder (insert_dated t ts)
  unfolding insert_dated
  insert_dated-InOrder t [] h = (tt, tt)
  insert_dated-InOrder t (other ∷ ts) h = elim (Bool-cases (leb_text t.date other.date)) [
    | inl first ↦ rw first ((first, All-above t.date other.date ts first h.0), h)
    | inr behind ↦ rw behind (
      insert_dated-All other.date t ts (ground (arith, ltb_text_asym other.date t.date)) h.0,
      insert_dated-InOrder t ts h.1,
    )
  ]

  pub sort_dated-InOrder : (ts : List (Transaction W)) → InOrder (sort_dated ts)
  unfolding sort_dated
  sort_dated-InOrder [] = tt
  sort_dated-InOrder (t ∷ ts) = insert_dated-InOrder t (sort_dated ts) (sort_dated-InOrder ts)

  pub insert_dated-sum :
      (w : Transaction W → ℤ) (t : Transaction W) (ts : List (Transaction W))
      → sum_by w (insert_dated t ts) ≡ w t +ℤ sum_by w ts
  unfolding insert_dated
  insert_dated-sum w t [] = refl
  insert_dated-sum w t (other ∷ ts) = elim (Bool-cases (leb_text t.date other.date)) [
    | inl first ↦ rw first refl
    | inr behind ↦ rw behind (
        ap (λ x. w other +ℤ x) (insert_dated-sum w t ts)
        ∙ sym (plus_assoc (w other) (w t) (sum_by w ts))
        ∙ ap (λ x. x +ℤ sum_by w ts) (plus_comm (w other) (w t))
        ∙ plus_assoc (w t) (w other) (sum_by w ts))
  ]

  pub sort_dated-sum :
      (w : Transaction W → ℤ) (ts : List (Transaction W)) → sum_by w (sort_dated ts) ≡ sum_by w ts
  unfolding sort_dated
  sort_dated-sum w [] = refl
  sort_dated-sum w (t ∷ ts) =
      insert_dated-sum w t (sort_dated ts) ∙ ap (λ x. w t +ℤ x) (sort_dated-sum w ts)

module _ {W : Type 0} (double : Double W) (reporting : Text) where
  -- What a transaction adds to the worth at a date.
  unfoldable pub effect_by : Text → Transaction W → Minor
  unfolding or_zero
  effect_by date t = when (leb_text t.date date) (or_zero (delta double reporting t))

  pub effect_by-late :
      (date : Text) (t : Transaction W) → leb_text t.date date ≡ false → effect_by date t ≡ pos 0
  unfolding effect_by
  effect_by-late date t late = rw late refl

  pub effect_by-early :
      (date : Text) (t : Transaction W) (amount : Minor)
      → leb_text t.date date ≡ true
      → delta double reporting t ≡ value amount
      → effect_by date t ≡ amount
  unfolding effect_by
  effect_by-early date t amount early e = rw (early, e) refl

  -- Behind a transaction that is too late, no other counts.
  pub late-sum :
      (date after : Text) (ts : List (Transaction W))
      → leb_text after date ≡ false
      → All (λ u. leb_text after u.date ≡ true) ts
      → sum_by (effect_by date) ts ≡ pos 0
  late-sum date after [] late h = refl
  late-sum date after (t ∷ ts) late h =
      ap (λ x. x +ℤ sum_by (effect_by date) ts) (effect_by-late date t (too_late (Bool-cases _)))
      ∙ zero_plus _
      ∙ late-sum date after ts late h.1
    where
      too_late :
          (leb_text t.date date ≡ true) ⊎ (leb_text t.date date ≡ false)
          → leb_text t.date date ≡ false
      too_late (inl early) =
          absurd (clash (sym (leb_text_trans after t.date date h.0 early) ∙ late))
      too_late (inr h) = h
