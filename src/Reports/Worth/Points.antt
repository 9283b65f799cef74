-- ===== src/Reports/Worth/Points.antt =====
-- The points of the net worth, of app/src/app/core/reports/aggregate.ts, and the one pass that makes them.
use easy_docket.Base.{
  ◌≡◌, inl, inr, refl, sym, ◌∙◌, ap, true, Option, List, [], ◌∷◌, subst, map, All, Bool-cases,
}
use easy_docket.Base.Int.{pos, ◌+ℤ◌}
use easy_docket.Base.Int.Laws.{plus_assoc, plus_zero, zero_plus}
use easy_docket.Base.Int.Sums.{sum_by}
use easy_docket.Base.Text.{Text, leb_text}
use easy_docket.Conversion.{Double, value}
use easy_docket.Models.Records.{Minor, Account, Transaction}
use easy_docket.Reports.Spending.{value_inj}
use easy_docket.Reports.Worth.{
  NetWorthPoint, sort_dated, delta, openings, advance, points_from, net_worth_at,
}
use easy_docket.Reports.Worth.Order.{
  bind-value, Above, leb_text_trans, effect_by, InOrder, sort_dated-InOrder, sort_dated-sum,
  effect_by-late, effect_by-early, late-sum,
}

module _ {W : Type 0} (double : Double W) (reporting : Text) where
  -- What the inner loop takes and what it leaves.
  record Advanced (cutoff : Text) (ordered : List (Transaction W)) (running : Minor)
      (next : Minor × List (Transaction W)) : Type 0 where
    taken : next.0 ≡ running +ℤ sum_by (effect_by double reporting cutoff) ordered
    in_order : InOrder next.1
    left :
        (later : Text)
        → leb_text cutoff later ≡ true
        → sum_by (effect_by double reporting later) ordered
          ≡ sum_by (effect_by double reporting cutoff) ordered
            +ℤ sum_by (effect_by double reporting later) next.1

  advance_lem :
      (cutoff : Text) (ordered : List (Transaction W)) (running : Minor)
      (next : Minor × List (Transaction W))
      → InOrder ordered
      → advance double reporting cutoff ordered running ≡ value next
      → Advanced cutoff ordered running next
  unfolding advance
  advance_lem cutoff [] running next o e =
      subst (λ n. Advanced cutoff [] running n) (value_inj e)
        (record {
          taken = sym (plus_zero running);
          in_order = tt;
          left = λ later h. sym (plus_zero (pos 0));
        })
  advance_lem cutoff (t ∷ ts) running next o e = elim (Bool-cases (leb_text t.date cutoff)) [
    | inr late ↦
        (let nothing = late-sum double reporting cutoff t.date ts late o.0 in
          let zero : sum_by (effect_by double reporting cutoff) (t ∷ ts) ≡ pos 0 =
            ap (λ x. x +ℤ sum_by (effect_by double reporting cutoff) ts)
              (effect_by-late double reporting cutoff t late)
            ∙ zero_plus _
            ∙ nothing in
          subst (λ n. Advanced cutoff (t ∷ ts) running n) (value_inj (rw late at e))
            (record {
              taken = sym (ap (λ x. running +ℤ x) zero ∙ plus_zero running);
              in_order = o;
              left = λ later h. sym (
                  ap (λ x. x +ℤ sum_by (effect_by double reporting later) (t ∷ ts)) zero
                  ∙ zero_plus _);
            }))
    | inl early ↦
        (let (amount, d, rest) = bind-value (delta double reporting t) _ next (rw early at e) in
          let a = advance_lem cutoff ts (running +ℤ amount) next o.1 rest in
          let here = effect_by-early double reporting cutoff t amount early d in
          record {
            taken =
                a.taken
                ∙ plus_assoc running amount (sum_by (effect_by double reporting cutoff) ts)
                ∙ ap (λ x. running +ℤ (x +ℤ sum_by (effect_by double reporting cutoff) ts))
                    (sym here);
            in_order = a.in_order;
            left = λ later h.
                (let then_too =
                    effect_by-early double reporting later t amount
                      (leb_text_trans t.date cutoff later early h) d in
                  ap (λ x. x +ℤ sum_by (effect_by double reporting later) ts) (then_too ∙ sym here)
                  ∙ ap (λ x. effect_by double reporting cutoff t +ℤ x) (a.left later h)
                  ∙ sym (plus_assoc (effect_by double reporting cutoff t) _ _));
          })
  ]

  -- The points, behind a date: theirs come no earlier, and each amount counts what it should.
  Counted : Text → List (Transaction W) → Minor → NetWorthPoint → Type 0
  Counted bound ordered running p =
      (leb_text bound p.date ≡ true)
      × (p.amount ≡ running +ℤ sum_by (effect_by double reporting p.date) ordered)

  Counted-later :
      (bound cutoff : Text) (ordered : List (Transaction W)) (running : Minor)
      (next : Minor × List (Transaction W)) (points : List NetWorthPoint)
      → leb_text bound cutoff ≡ true
      → Advanced cutoff ordered running next
      → All (Counted cutoff next.1 next.0) points
      → All (Counted bound ordered running) points
  unfolding Counted
  Counted-later bound cutoff ordered running next [] le a h = tt
  Counted-later bound cutoff ordered running next (p ∷ points) le a ((later, amount), h) = (
    (
      leb_text_trans bound cutoff p.date le later,
      amount
          ∙ ap (λ x. x +ℤ sum_by (effect_by double reporting p.date) next.1) a.taken
          ∙ plus_assoc running _ _
          ∙ ap (λ x. running +ℤ x) (sym (a.left p.date later)),
    ),
    Counted-later bound cutoff ordered running next points le a h,
  )

  points_from-Counted :
      (ends : List Text) (bound : Text) (ordered : List (Transaction W)) (running : Minor)
      (points : List NetWorthPoint)
      → Above bound ends
      → InOrder ordered
      → points_from double reporting ends ordered running ≡ value points
      → All (Counted bound ordered running) points × (map (λ p. p.date) points ≡ ends)
  unfolding points_from Counted
  points_from-Counted [] bound ordered running points up o e =
      subst (λ ps. All (Counted bound ordered running) ps × (map (λ p. p.date) ps ≡ []))
        (value_inj e) (tt, refl)
  points_from-Counted (cutoff ∷ ends) bound ordered running points up o e =
      let (next, taken, rest) =
        bind-value (advance double reporting cutoff ordered running) _ points e in
      let (later, run, last) =
        bind-value (points_from double reporting ends next.1 next.0) _ points rest in
      let a = advance_lem cutoff ordered running next o taken in
      let (counted, dates) =
        points_from-Counted ends cutoff next.1 next.0 later up.1 a.in_order run in
      subst (λ ps. All (Counted bound ordered running) ps × (map (λ p. p.date) ps ≡ cutoff ∷ ends))
        (value_inj last)
        (
          ((up.0, a.taken), Counted-later bound cutoff ordered running next later up.0 a counted),
          ap (λ ds. cutoff ∷ ds) dates,
        )

  -- The worth at a date: the opening balances, and all that happened up to the date, before the range
  -- as well.
  abbrev pub Reckoned :
      (Text → Option W) → List Account → List (Transaction W) → NetWorthPoint → Type 0
  Reckoned rate_for_currency accounts ts p =
      (opening : Minor) × (openings double reporting rate_for_currency accounts (pos 0)
        ≡ value opening)
      × (p.amount ≡ opening +ℤ sum_by (effect_by double reporting p.date) ts)

  Counted-Reckoned :
      (rate_for_currency : Text → Option W) (accounts : List Account) (ts : List (Transaction W))
      (bound : Text) (opening : Minor) (points : List NetWorthPoint)
      → openings double reporting rate_for_currency accounts (pos 0) ≡ value opening
      → All (Counted bound (sort_dated ts) opening) points
      → All (Reckoned rate_for_currency accounts ts) points
  unfolding Counted
  Counted-Reckoned rate_for_currency accounts ts bound opening [] o h = tt
  Counted-Reckoned rate_for_currency accounts ts bound opening (p ∷ points) o h = (
    (
      opening,
      o,
      h.0.1 ∙ ap (λ x. opening +ℤ x) (sort_dated-sum (effect_by double reporting p.date) ts),
    ),
    Counted-Reckoned rate_for_currency accounts ts bound opening points o h.1,
  )

  pub net_worth_at-Reckoned :
      (rate_for_currency : Text → Option W) (accounts : List Account) (ts : List (Transaction W))
      (bound : Text) (ends : List Text) (points : List NetWorthPoint)
      → Above bound ends
      → net_worth_at double reporting rate_for_currency accounts ts ends ≡ value points
      → All (Reckoned rate_for_currency accounts ts) points × (map (λ p. p.date) points ≡ ends)
  unfolding net_worth_at
  net_worth_at-Reckoned rate_for_currency accounts ts bound ends points up e =
      let (opening, o, run) =
        bind-value (openings double reporting rate_for_currency accounts (pos 0)) _ points e in
      let (counted, dates) =
        points_from-Counted ends bound (sort_dated ts) opening points up (sort_dated-InOrder ts)
          run in
      (Counted-Reckoned rate_for_currency accounts ts bound opening points o counted, dates)
