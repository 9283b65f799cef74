-- ===== src/Schedule/Next.antt =====
-- `nextOccurrence` of app/src/app/core/recurring/schedule.ts.
use easy_docket.Base.{
  ℕ, zero, suc, ◌+◌, ◌≤◌, ◌<◌, ◌≡◌, subst, refl, inl, inr, true, false, none, some, if◌then◌else◌,
  arith, Bool-cases,
}
use easy_docket.Base.Text.{Text, ltb_text}
use easy_docket.Schedule.{
  Schedule, occurrence_at, within_limits, is_skipped, next_from, next_occurrence,
  max_occurrences_per_run,
}

module _ (s : Schedule) (as_of : Text) (at : ℕ → Text) where
  -- Some dates of a rule, none of them behind `as_of`.
  abbrev pub Before : ℕ → Type 0
  Before n = (i : ℕ) → i < n → (occurrence_at s i ≡ some (at i)) × (ltb_text as_of (at i) ≡ false)

  next_from_first :
      (n : ℕ)
      → Before n
      → ((i : ℕ) → i < n → within_limits s i (at i) ≡ true)
      → occurrence_at s n ≡ some (at n)
      → ltb_text as_of (at n) ≡ true
      → is_skipped s (at n) ≡ false
      → (k i rounds : ℕ) → i + k ≡ n
      → k < rounds
      → next_from s as_of i rounds ≡ some (if within_limits s n (at n) then some (at n) else none)
  unfolding next_from
  next_from_first n h w d b skip k i zero e lt = absurd (omega arith)
  next_from_first n h w d b skip zero i (suc rounds) e lt =
      let same : n ≡ i = omega arith in
      subst
        (λ j.
          next_from s as_of j (suc rounds)
          ≡ some (if within_limits s n (at n) then some (at n) else none))
        same
        (rw (d, next_from)
          (elim (Bool-cases (within_limits s n (at n))) [
            | inl inside ↦ rw (inside, b, skip) refl
            | inr outside ↦ rw outside refl
          ]))
  next_from_first n h w d b skip (suc k) i (suc rounds) e lt =
      let (di, bi) = h i (omega arith) in
      rw (di, next_from, w i (omega arith), bi)
        (next_from_first n h w d b skip k (suc i) rounds (omega arith) (omega arith))

  -- Where the `n`th date is the first one behind `as_of`, is among the first 500 and is not skipped, and
  -- the dates before it are in the limits, it is the next occurrence if it is in the limits, and there
  -- is none otherwise.
  pub next_occurrence_first :
      (n : ℕ)
      → Before n
      → ((i : ℕ) → i < n → within_limits s i (at i) ≡ true)
      → occurrence_at s n ≡ some (at n)
      → ltb_text as_of (at n) ≡ true
      → is_skipped s (at n) ≡ false
      → n < max_occurrences_per_run
      → 1 ≤ s.interval
      → next_occurrence s as_of ≡ some (if within_limits s n (at n) then some (at n) else none)
  unfolding next_occurrence
  next_occurrence_first n h w d b skip lt one =
      ground (arith, next_from_first n h w d b skip n 0 max_occurrences_per_run (omega arith) lt)
