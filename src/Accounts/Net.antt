-- ===== src/Accounts/Net.antt =====
-- Net worth: `balanceSheet` over `buildSections` of app/src/app/core/accounts/sections.ts.
use easy_docket.Base.{
  ◌≡◌, refl, sym, ap, ◌∙◌, Bool, true, false, Option, none, some, List, [], ◌∷◌, if◌then◌else◌,
  filter, arith,
}
use easy_docket.Base.Int.{ℤ, pos, neg, ◌+ℤ◌, ◌-ℤ◌, +ℤ_parts, -ℤ_parts, eq_of_parts}
use easy_docket.Base.Int.Laws.{plus_zero, zero_plus, plus_assoc}
use easy_docket.Base.Int.Sums.{sum_by, sum_by_parts}
use easy_docket.Models.Records.{Minor, Account, AccountGroup}
use easy_docket.Conversion.{Double, Outcome, value}
use easy_docket.Accounts.{
  side_of, is_liability, reads_as_owed, AccountSection, SectionInput, display_balance, belongs,
  is_ungrouped, owed_by, unique, section_for, push_section, sections_from, build_sections,
  add_section, sides_from, balance_sheet,
}
use easy_docket.Accounts.Filed.{DistinctGroups, one_place}
use easy_docket.Accounts.Worth.{GoodRates, worth, Adds, tally_from-Adds}

neg-neg : (x : ℤ) → neg (neg x) ≡ x
neg-neg x = ground arith

take_off : (x y s r : ℤ) → (x -ℤ (y +ℤ s)) +ℤ r ≡ (x -ℤ y) +ℤ (neg s +ℤ r)
take_off x y s r = eq_of_parts _ _ (
    ground (
      arith,
      +ℤ_parts y s,
      -ℤ_parts x (y +ℤ s),
      +ℤ_parts (x -ℤ (y +ℤ s)) r,
      -ℤ_parts x y,
      +ℤ_parts (neg s) r,
      +ℤ_parts (x -ℤ y) (neg s +ℤ r),
    ))

put_on : (x y s r : ℤ) → ((x +ℤ s) -ℤ y) +ℤ r ≡ (x -ℤ y) +ℤ (s +ℤ r)
put_on x y s r = eq_of_parts _ _ (
    omega (
      arith,
      +ℤ_parts x s,
      -ℤ_parts (x +ℤ s) y,
      +ℤ_parts ((x +ℤ s) -ℤ y) r,
      -ℤ_parts x y,
      +ℤ_parts s r,
      +ℤ_parts (x -ℤ y) (s +ℤ r),
    ))

module _ {W : Type 0} (double : Double W) (input : SectionInput W) where
  -- A section's part of the net.
  signed : AccountSection → ℤ
  signed s = if is_liability s.side then neg s.subtotal else s.subtotal

  display_signed :
      (x : ℤ) (b : Bool) → (if b then neg (display_balance x b) else display_balance x b) ≡ x
  unfolding display_balance
  display_signed x true = neg-neg x
  display_signed x false = refl

  owed_side : (group : Option AccountGroup) → owed_by group ≡ is_liability (side_of group)
  unfolding owed_by side_of reads_as_owed is_liability
  owed_side none = refl
  owed_side (some g) = refl

  section_for-signed :
      GoodRates double input
      → (group : Option AccountGroup) (accounts : List Account)
      → (s : AccountSection) × (section_for double input group accounts (side_of group) ≡ value s)
        × (signed s ≡ sum_by (worth double input) accounts)
  unfolding section_for signed Adds
  section_for-signed good group accounts =
      let (t, done, x) =
        tally_from-Adds double input good accounts
          (record { total = pos 0; excluded = 0; missing = [] }) in
      (
        record {
          group = group;
          accounts = accounts;
          subtotal = display_balance t.total (owed_by group);
          owed = owed_by group;
          side = side_of group;
          unconverted = unique t.missing;
          excluded = t.excluded;
        },
        rw done refl,
        ap
              (λ b.
                if b
                then neg (display_balance t.total (owed_by group))
                else display_balance t.total (owed_by group))
              (sym (owed_side group))
            ∙ display_signed t.total (owed_by group)
            ∙ x
            ∙ zero_plus (sum_by (worth double input) accounts),
      )

  push_section-signed :
      GoodRates double input
      → (group : Option AccountGroup) (accounts : List Account)
        (rest : Outcome (List AccountSection)) (sections : List AccountSection)
      → rest ≡ value sections
      → (all : List AccountSection) × (push_section double input group accounts (side_of group) rest
          ≡ value all)
        × (sum_by signed all ≡ sum_by (worth double input) accounts +ℤ sum_by signed sections)
  unfolding push_section
  push_section-signed good group [] rest sections h =
      (sections, h, sym (zero_plus (sum_by signed sections)))
  push_section-signed good group (a ∷ accounts) rest sections h =
      let (s, done, x) = section_for-signed good group (a ∷ accounts) in
      (s ∷ sections, rw (done, h) refl, ap (λ z. z +ℤ sum_by signed sections) x)

  sections_from-signed :
      GoodRates double input
      → (groups : List AccountGroup)
      → (all : List AccountSection) × (sections_from double input groups ≡ value all)
        × (sum_by signed all
            ≡ sum_by
                (λ g. sum_by (worth double input) (filter (belongs input.groups g) input.accounts))
                groups
              +ℤ sum_by (worth double input) (filter (is_ungrouped input.groups) input.accounts))
  unfolding sections_from side_of
  sections_from-signed good [] =
      let (all, done, x) =
        push_section-signed good none (filter (is_ungrouped input.groups) input.accounts) (value [])
          [] refl in
      (all, done, x ∙ plus_zero _ ∙ sym (zero_plus _))
  sections_from-signed good (g ∷ groups) =
      let (rest, last, y) = sections_from-signed good groups in
      let (all, done, x) =
        push_section-signed good (some g) (filter (belongs input.groups g) input.accounts)
          (sections_from double input groups) rest last in
      (
        all,
        done,
        x
            ∙ ap
                (λ z.
                  sum_by (worth double input) (filter (belongs input.groups g) input.accounts) +ℤ z)
                y
            ∙ sym (plus_assoc _ _ _),
      )

  sides_from-signed :
      (sections : List AccountSection) (x y : Minor)
      → (sides_from sections (x, y)).0 -ℤ (sides_from sections (x, y)).1
        ≡ (x -ℤ y) +ℤ sum_by signed sections
  unfolding sides_from add_section signed
  sides_from-signed [] x y = sym (plus_zero (x -ℤ y))
  sides_from-signed (s ∷ sections) x y = by_side (is_liability s.side) (sides_from-signed sections)
    where
      by_side :
          (b : Bool)
          → ((u w : Minor)
              → (sides_from sections (u, w)).0 -ℤ (sides_from sections (u, w)).1
                ≡ (u -ℤ w) +ℤ sum_by signed sections)
          → let p : Minor × Minor = if b then (x, y +ℤ s.subtotal) else (x +ℤ s.subtotal, y) in
            (sides_from sections p).0 -ℤ (sides_from sections p).1
            ≡ (x -ℤ y) +ℤ ((if b then neg s.subtotal else s.subtotal) +ℤ sum_by signed sections)
      by_side true rest =
          rest x (y +ℤ s.subtotal) ∙ take_off x y s.subtotal (sum_by signed sections)
      by_side false rest = rest (x +ℤ s.subtotal) y ∙ put_on x y s.subtotal (sum_by signed sections)

  -- Where every known rate is a positive number and no two groups have one id, the sections can be built,
  -- and assets less liabilities of the balance sheet over them are the sum over all accounts of what each
  -- is worth: none is counted twice or left out, debts are subtracted, and excluded accounts and those
  -- without a rate add nothing.
  pub balance_sheet-build_sections :
      GoodRates double input
      → DistinctGroups input.groups
      → (sections : List AccountSection) × (build_sections double input ≡ value sections)
        × ((balance_sheet sections).net ≡ sum_by (worth double input) input.accounts)
  unfolding build_sections balance_sheet ◌-ℤ◌
  balance_sheet-build_sections good apart =
      let (sections, done, x) = sections_from-signed good input.groups in
      (
        sections,
        done,
        sides_from-signed sections (pos 0) (pos 0)
            ∙ zero_plus (sum_by signed sections)
            ∙ x
            ∙ sum_by_parts (belongs input.groups) (is_ungrouped input.groups) (worth double input)
                input.groups (λ a. one_place input.groups a (worth double input a) apart)
                input.accounts,
      )
