-- ===== src/Reports/Worth/Refused.antt =====
-- What makes `netWorthOver` of app/src/app/core/reports/aggregate.ts throw.
use easy_docket.Base.{
  ◌≡◌, ◌⊎◌, inl, inr, refl, sym, ◌∙◌, Option, some, List, [], ◌∷◌, In, subst, Bool-cases,
  Option-cases,
}
use easy_docket.Base.Int.{pos, ◌+ℤ◌}
use easy_docket.Base.Text.{Text, eq_text, leb_text}
use easy_docket.Conversion.{
  Double, Outcome, value, bad_rate, in_reporting, same_currency, convert, ◌>>=◌,
}
use easy_docket.Models.Records.{Minor, Account, Transaction}
use easy_docket.Money.{upper}
use easy_docket.Reports.Spending.{not_bad, value_inj}
use easy_docket.Reports.Worth.{
  insert_dated, sort_dated, is_transfer, delta, opening_of, openings, advance, points_from,
  net_worth_at,
}
use easy_docket.Reports.Worth.Order.{bind-value}
use easy_docket.Reports.Worth.Amounts.{convert_opening_other}

-- Where a chain of steps throws, its first step threw, or gave a value and the rest threw.
bind_bad :
    {A B : Type 0} (o : Outcome A) (f : A → Outcome B)
    → (o >>= f) ≡ bad_rate
    → (o ≡ bad_rate) ⊎ ((a : A) × (o ≡ value a) × (f a ≡ bad_rate))
bind_bad bad_rate f e = inl refl
bind_bad (value a) f e = inr (a, refl, e)

module _ {W : Type 0} where
  In-insert_dated :
      (u t : Transaction W) (ts : List (Transaction W)) → In u (insert_dated t ts) → In u (t ∷ ts)
  unfolding insert_dated
  In-insert_dated u t [] m = m
  In-insert_dated u t (other ∷ ts) m = elim (Bool-cases (leb_text t.date other.date)) [
    | inl first ↦ (rw first at m)
    | inr behind ↦ behind_other (In-insert_dated u t ts) (rw behind at m)
  ]
    where
      behind_other :
          (In u (insert_dated t ts) → In u (t ∷ ts))
          → In u (other ∷ insert_dated t ts)
          → In u (t ∷ other ∷ ts)
      behind_other h (inl here) = inr (inl here)
      behind_other h (inr later) = elim (h later) [
        | inl here ↦ inl here
        | inr there ↦ inr (inr there)
      ]

  In-sort_dated : (u : Transaction W) (ts : List (Transaction W)) → In u (sort_dated ts) → In u ts
  unfolding sort_dated
  In-sort_dated u [] m = m
  In-sort_dated u (t ∷ ts) m = elim (In-insert_dated u t (sort_dated ts) m) [
    | inl here ↦ inl here
    | inr there ↦ inr (In-sort_dated u ts there)
  ]

module _ {W : Type 0} (double : Double W) (reporting : Text) where
  -- An account in another currency whose rate throws.
  pub record BadOpening (rate_for_currency : Text → Option W) (accounts : List Account)
      : Type 0 where
    pub account : Account
    pub held : In account accounts
    pub rate : W
    pub found : rate_for_currency account.currency ≡ some rate
    pub refused : convert double account.opening_balance rate account.currency reporting ≡ bad_rate

  -- A transaction whose rate throws.
  pub record BadTransaction (ts : List (Transaction W)) : Type 0 where
    pub transaction : Transaction W
    pub listed : In transaction ts
    pub thrown : in_reporting double transaction reporting ≡ bad_rate

  BadOpening-among :
      (rate_for_currency : Text → Option W) (xs ys : List Account)
      → ((a : Account) → In a xs → In a ys)
      → BadOpening rate_for_currency xs
      → BadOpening rate_for_currency ys
  BadOpening-among rate_for_currency xs ys h b = record {
    account = b.account;
    held = h b.account b.held;
    rate = b.rate;
    found = b.found;
    refused = b.refused;
  }

  BadTransaction-among :
      (xs ys : List (Transaction W))
      → ((t : Transaction W) → In t xs → In t ys)
      → BadTransaction xs
      → BadTransaction ys
  BadTransaction-among xs ys h b = record {
    transaction = b.transaction;
    listed = h b.transaction b.listed;
    thrown = b.thrown;
  }

  opening_of-bad_rate :
      (rate_for_currency : Text → Option W) (account : Account)
      → opening_of double reporting rate_for_currency account ≡ bad_rate
      → BadOpening rate_for_currency (account ∷ [])
  unfolding opening_of same_currency
  opening_of-bad_rate rate_for_currency account e =
      elim (Bool-cases (eq_text (upper account.currency) (upper reporting))) [
        | inl same ↦ absurd (not_bad (sym (rw same at e)))
        | inr differ ↦ elim (Option-cases (rate_for_currency account.currency)) [
          | inl missing ↦ absurd (not_bad (sym (rw (differ, missing) at e)))
          | inr (rate, found) ↦ record {
            account = account;
            held = inl refl;
            rate = rate;
            found = found;
            refused =
                sym (
                  convert_opening_other double reporting account.opening_balance rate
                    account.currency differ)
                ∙ (rw (differ, found) at e);
          }
        ]
      ]

  openings-bad_rate :
      (rate_for_currency : Text → Option W) (accounts : List Account) (sum : Minor)
      → openings double reporting rate_for_currency accounts sum ≡ bad_rate
      → BadOpening rate_for_currency accounts
  unfolding openings
  openings-bad_rate rate_for_currency [] sum e = absurd (not_bad (sym e))
  openings-bad_rate rate_for_currency (account ∷ accounts) sum e =
      elim (bind_bad (opening_of double reporting rate_for_currency account) _ e) [
        | inl here ↦
            BadOpening-among rate_for_currency (account ∷ []) (account ∷ accounts) first
              (opening_of-bad_rate rate_for_currency account here)
        | inr (amount, fine, later) ↦
            BadOpening-among rate_for_currency accounts (account ∷ accounts) (λ a m. inr m)
              (openings-bad_rate rate_for_currency accounts (sum +ℤ amount) later)
      ]
    where
      first : (a : Account) → In a (account ∷ []) → In a (account ∷ accounts)
      first a (inl same) = inl same
      first a (inr m) = absurd m

  delta-bad_rate :
      (t : Transaction W)
      → delta double reporting t ≡ bad_rate
      → in_reporting double t reporting ≡ bad_rate
  unfolding delta
  delta-bad_rate t e = elim (Bool-cases (is_transfer t.kind)) [
    | inl moves ↦ absurd (not_bad (sym (rw moves at e)))
    | inr counts ↦ elim (bind_bad (in_reporting double t reporting) _ (rw counts at e)) [
      | inl bad ↦ bad
      | inr (c, fine, later) ↦ absurd (not_bad (sym later))
    ]
  ]

  advance-bad_rate :
      (cutoff : Text) (ts : List (Transaction W)) (running : Minor)
      → advance double reporting cutoff ts running ≡ bad_rate
      → BadTransaction ts
  unfolding advance
  advance-bad_rate cutoff [] running e = absurd (not_bad (sym e))
  advance-bad_rate cutoff (t ∷ ts) running e = elim (Bool-cases (leb_text t.date cutoff)) [
    | inr late ↦ absurd (not_bad (sym (rw late at e)))
    | inl early ↦ elim (bind_bad (delta double reporting t) _ (rw early at e)) [
      | inl bad ↦ record { transaction = t; listed = inl refl; thrown = delta-bad_rate t bad }
      | inr (amount, fine, later) ↦
          BadTransaction-among ts (t ∷ ts) (λ u m. inr m)
            (advance-bad_rate cutoff ts (running +ℤ amount) later)
    ]
  ]

  In-advance :
      (u : Transaction W) (cutoff : Text) (ts : List (Transaction W)) (running : Minor)
      (next : Minor × List (Transaction W))
      → advance double reporting cutoff ts running ≡ value next
      → In u next.1
      → In u ts
  unfolding advance
  In-advance u cutoff [] running next e m =
      subst (λ (n : Minor × List (Transaction W)). In u n.1) (sym (value_inj e)) m
  In-advance u cutoff (t ∷ ts) running next e m = elim (Bool-cases (leb_text t.date cutoff)) [
    | inr late ↦
        subst (λ (n : Minor × List (Transaction W)). In u n.1) (sym (value_inj (rw late at e))) m
    | inl early ↦
        (let (amount, fine, later) = bind-value (delta double reporting t) _ next (rw early at e) in
          inr (In-advance u cutoff ts (running +ℤ amount) next later m))
  ]

  points_from-bad_rate :
      (ends : List Text) (ts : List (Transaction W)) (running : Minor)
      → points_from double reporting ends ts running ≡ bad_rate
      → BadTransaction ts
  unfolding points_from
  points_from-bad_rate [] ts running e = absurd (not_bad (sym e))
  points_from-bad_rate (cutoff ∷ ends) ts running e =
      elim (bind_bad (advance double reporting cutoff ts running) _ e) [
        | inl bad ↦ advance-bad_rate cutoff ts running bad
        | inr (next, fine, rest) ↦
            elim (bind_bad (points_from double reporting ends next.1 next.0) _ rest) [
              | inl bad ↦
                  BadTransaction-among next.1 ts (λ u m. In-advance u cutoff ts running next fine m)
                    (points_from-bad_rate ends next.1 next.0 bad)
              | inr (points, done, last) ↦ absurd (not_bad (sym last))
            ]
      ]

  pub net_worth_at-bad_rate :
      (rate_for_currency : Text → Option W) (accounts : List Account) (ts : List (Transaction W))
      (ends : List Text)
      → net_worth_at double reporting rate_for_currency accounts ts ends ≡ bad_rate
      → BadOpening rate_for_currency accounts ⊎ BadTransaction ts
  unfolding net_worth_at
  net_worth_at-bad_rate rate_for_currency accounts ts ends e =
      elim (bind_bad (openings double reporting rate_for_currency accounts (pos 0)) _ e) [
        | inl bad ↦ inl (openings-bad_rate rate_for_currency accounts (pos 0) bad)
        | inr (opening, fine, later) ↦ inr (
            BadTransaction-among (sort_dated ts) ts (λ u m. In-sort_dated u ts m)
              (points_from-bad_rate ends (sort_dated ts) opening later))
      ]
