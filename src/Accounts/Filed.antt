-- ===== src/Accounts/Filed.antt =====
-- Where `buildSections` of app/src/app/core/accounts/sections.ts files an account.
use easy_docket.Base.{
  ◌≡◌, inl, inr, refl, sym, ap, subst, ◌∙◌, true, false, Option, none, some, List, [], ◌∷◌, In,
  arith, Option-cases,
}
use easy_docket.Base.Int.{ℤ, pos, ◌+ℤ◌}
use easy_docket.Base.Int.Laws.{plus_zero, zero_plus}
use easy_docket.Base.Int.Sums.{sum_by, when, sum_by_zero}
use easy_docket.Base.Int.Keyed.{ids, DistinctIds, once}
use easy_docket.Base.Text.{Text, eq_text}
use easy_docket.Models.Records.{Account, AccountGroup}
use easy_docket.Accounts.{find_group, lookup_group, group_of, belongs, is_ungrouped}

abbrev group_id : AccountGroup → Text
group_id g = g.id

-- No two groups have one id.
abbrev pub DistinctGroups : List AccountGroup → Type 0
DistinctGroups groups = DistinctIds group_id groups

find_group-In :
    (id : Text) (groups : List AccountGroup) (g : AccountGroup)
    → find_group id groups ≡ some g
    → In g.id (ids group_id groups)
unfolding find_group
find_group-In id [] g h = cc
find_group-In id (x ∷ groups) g h = elim (Option-cases (find_group id groups)) [
  | inl e ↦ let same : x ≡ g = ground arith in inl (ap (λ y. y.id) (sym same))
  | inr (k, e) ↦
      let same : k ≡ g = ground arith in inr (find_group-In id groups g (e ∙ ap some same))
]

group_of-In :
    (groups : List AccountGroup) (a : Account) (g : AccountGroup)
    → group_of groups a ≡ some g
    → In g.id (ids group_id groups)
unfolding group_of
group_of-In groups a g = from a.group_id
  where
    from : (o : Option Text) → lookup_group o groups ≡ some g → In g.id (ids group_id groups)
    from none h = ground arith
    from (some []) h = ground arith
    from (some (c ∷ id)) h = find_group-In (c ∷ id) groups g h

-- An account is filed in one place.
pub one_place :
    (groups : List AccountGroup) (a : Account) (x : ℤ)
    → DistinctGroups groups
    → sum_by (λ g. when (belongs groups g a) x) groups +ℤ when (is_ungrouped groups a) x ≡ x
unfolding belongs is_ungrouped
one_place groups a x h = elim (Option-cases (group_of groups a)) [
  | inl e ↦
      subst placed (sym e)
        (ap (λ y. y +ℤ x) (sum_by_zero (λ g. pos 0) (λ g. refl) groups) ∙ zero_plus x)
  | inr (g, e) ↦
      subst placed (sym e) (plus_zero _ ∙ once group_id g.id x groups h (group_of-In groups a g e))
]
  where
    placed : Option AccountGroup → Type 0
    placed o =
        sum_by (λ g. when (elim o [ none ↦ false | some f ↦ eq_text f.id g.id ]) x) groups
          +ℤ when (elim o [ none ↦ true | some f ↦ false ]) x
        ≡ x
