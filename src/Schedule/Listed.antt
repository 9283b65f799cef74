-- ===== src/Schedule/Listed.antt =====
-- The lists that `occurrencesUpTo` of app/src/app/core/recurring/schedule.ts gives: their order, what
-- is in them, and how a run goes on where another ended.
use easy_docket.Base.{
  ℕ, zero, suc, ◌+◌, ◌≤◌, ◌<◌, ◌≡◌, refl, subst, ap, ◌∙◌, inl, inr, true, false, Option, none, some,
  List, [], ◌∷◌, ◌++◌, take, filter, length, All, All-In, In-append_right, arith, Bool-cases,
}
use easy_docket.Base.Text.{Text, ltb_text, leb_text, ltb_text_trans, ltb_text_irrefl, ltb_text_asym}
use easy_docket.Dates.Civil.{Ymd}
use easy_docket.Schedule.{
  Schedule, within_limits, is_before_end, is_skipped, is_passed, occurrences_up_to, max_scan,
}
use easy_docket.Schedule.Due.{is_due, due_from, occurrences_due}
use easy_docket.Schedule.Plans.{date_of, Reaches, Reaches-Plan}

abbrev pub Increasing : List Text → Type 0
Increasing [] = Unit
Increasing (d ∷ ds) = All (λ e. ltb_text d e ≡ true) ds × Increasing ds

All-take : (P : Text → Type 0) (k : ℕ) (ds : List Text) → All P ds → All P (take k ds)
All-take P zero ds h = tt
All-take P (suc k) [] h = tt
All-take P (suc k) (d ∷ ds) (p, h) = (p, All-take P k ds h)

Increasing-take : (k : ℕ) (ds : List Text) → Increasing ds → Increasing (take k ds)
Increasing-take zero ds h = tt
Increasing-take (suc k) [] h = tt
Increasing-take (suc k) (d ∷ ds) (p, h) = (All-take _ k ds p, Increasing-take k ds h)

length-take : (k : ℕ) (ds : List Text) → length (take k ds) ≤ k
length-take zero ds = omega arith
length-take (suc k) [] = omega arith
length-take (suc k) (d ∷ ds) = omega (arith, length-take k ds)

-- What an occurrence of a run keeps to.
pub record IsWanted (s : Schedule) (as_of : Text) (after : Option Text) (date : Text) : Type 0 where
  pub not_behind : leb_text date as_of ≡ true
  pub in_end : is_before_end s.end_date date ≡ true
  pub not_passed : is_passed after date ≡ false
  pub not_skipped : is_skipped s date ≡ false

module _ (s : Schedule) (as_of : Text) (at : ℕ → Text) where
  is_due-IsWanted :
      (after : Option Text) (i : ℕ) (d : Text)
      → is_due s as_of after i d ≡ true
      → IsWanted s as_of after d
  unfolding is_due within_limits
  is_due-IsWanted after i d h = ground arith

  due-IsWanted :
      (after : Option Text) (i k : ℕ) → All (IsWanted s as_of after) (due_from s as_of after at i k)
  unfolding due_from
  due-IsWanted after i zero = tt
  due-IsWanted after i (suc k) = elim (Bool-cases (is_due s as_of after i (at i))) [
    | inl due ↦ rw due (is_due-IsWanted after i (at i) due, due-IsWanted after (suc i) k)
    | inr idle ↦ rw idle (due-IsWanted after (suc i) k)
  ]

  module _ (n : ℕ) (up : (i : ℕ) → i < n → ltb_text (at i) (at (suc i)) ≡ true) where
    due_later :
        (after : Option Text) (d : Text) (i k : ℕ)
        → i + k ≡ n
        → ltb_text d (at i) ≡ true
        → All (λ e. ltb_text d e ≡ true) (due_from s as_of after at i k)
    unfolding due_from
    due_later after d i zero e h = tt
    due_later after d i (suc k) e h =
        let rest =
          due_later after d (suc i) k (omega arith)
            (ltb_text_trans d (at i) (at (suc i)) h (up i (omega arith))) in
        elim (Bool-cases (is_due s as_of after i (at i))) [
          | inl due ↦ rw due (h, rest)
          | inr idle ↦ rw idle rest
        ]

    due-Increasing :
        (after : Option Text) (i k : ℕ) → i + k ≡ n → Increasing (due_from s as_of after at i k)
    unfolding due_from
    due-Increasing after i zero e = tt
    due-Increasing after i (suc k) e =
        let rest = due-Increasing after (suc i) k (omega arith) in
        elim (Bool-cases (is_due s as_of after i (at i))) [
          | inl due ↦
              rw due (due_later after (at i) (suc i) k (omega arith) (up i (omega arith)), rest)
          | inr idle ↦ rw idle rest
        ]

  -- The due dates behind one are those of all the due dates that are.
  due_from-after :
      (d : Text) (i k : ℕ)
      → due_from s as_of (some d) at i k ≡ filter (λ e. ltb_text d e) (due_from s as_of none at i k)
  unfolding due_from is_due is_passed
  due_from-after d i zero = refl
  due_from-after d i (suc k) = ground (arith, due_from-after d (suc i) k)

filter_keep :
    (d : Text) (ds : List Text)
    → All (λ e. ltb_text d e ≡ true) ds
    → filter (λ e. ltb_text d e) ds ≡ ds
filter_keep d [] h = refl
filter_keep d (e ∷ ds) (p, h) = rw p (ap (λ es. e ∷ es) (filter_keep d ds h))

filter_rest :
    (d : Text) (early rest : List Text)
    → Increasing (early ++ d ∷ rest)
    → filter (λ e. ltb_text d e) (early ++ d ∷ rest) ≡ rest
filter_rest d [] rest (p, h) = rw (ltb_text_irrefl d) (filter_keep d rest p)
filter_rest d (e ∷ early) rest (p, h) =
    rw
      (ltb_text_asym e d
        (All-In _ d (early ++ d ∷ rest) p (In-append_right d early (d ∷ rest) (inl refl))))
      (filter_rest d early rest h)

module _ (s : Schedule) (v : Ymd) (as_of : Text) (n limit : ℕ) (h : Reaches s v as_of n)
    (lt : n < max_scan) (one : 1 ≤ limit) where
  -- The dates of the rule that are due, without a limit.
  abbrev pub all_due : Option Text → List Text
  all_due after = due_from s as_of after (date_of s.unit s.interval v) 0 n

  -- Where the `n`th occurrence is the first one behind `as_of`, in the years 100 to 9999 and in reach
  -- of the scan, the occurrences are the due ones of the first `n` dates of the rule, up to the limit.
  pub occurrences_listed :
      (after : Option Text)
      → occurrences_up_to s as_of limit after ≡ some (take limit (all_due after))
  occurrences_listed after =
      occurrences_due s as_of after (date_of s.unit s.interval v) n limit
        (Reaches-Plan s v as_of n h) lt h.interval_min one

  -- The occurrences increase, so none comes twice; none is behind `as_of` or the end date, up to
  -- `after`, or skipped; and they are at most as many as the limit.
  pub occurrences_in_order :
      (after : Option Text) (dates : List Text)
      → occurrences_up_to s as_of limit after ≡ some dates
      → Increasing dates × All (IsWanted s as_of after) dates × (length dates ≤ limit)
  occurrences_in_order after dates e =
      let same : take limit (all_due after) ≡ dates = ground (arith, occurrences_listed after) in
      subst (λ ds. Increasing ds × All (IsWanted s as_of after) ds × (length ds ≤ limit)) same
        (
          Increasing-take limit (all_due after) (
              due-Increasing s as_of _ n (Reaches-Plan s v as_of n h).increasing after 0 n
                (omega arith)),
          All-take _ limit (all_due after) (due-IsWanted s as_of _ after 0 n),
          length-take limit (all_due after),
        )

  -- A run that goes on after one of the due dates gives the due dates that follow it.
  pub occurrences_resume :
      (early rest : List Text) (date : Text)
      → all_due none ≡ early ++ date ∷ rest
      → occurrences_up_to s as_of limit (some date) ≡ some (take limit rest)
  occurrences_resume early rest date e =
      occurrences_listed (some date)
      ∙ ap (λ ds. some (take limit ds))
          (due_from-after s as_of _ date 0 n
            ∙ ap (filter (λ d. ltb_text date d)) e
            ∙ filter_rest date early rest (
                subst Increasing e (
                  due-Increasing s as_of _ n (Reaches-Plan s v as_of n h).increasing none 0 n
                    (omega arith))))
