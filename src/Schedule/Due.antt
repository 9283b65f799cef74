-- ===== src/Schedule/Due.antt =====
-- The loops of app/src/app/core/recurring/schedule.ts against a list of the due dates.
use easy_docket.Base.{
  ℕ, zero, suc, ◌+◌, ◌-◌, ◌≤◌, ◌<◌, ◌≡◌, ◌⊎◌, subst, refl, ap, ◌∙◌, inl, inr, Bool, true, false,
  ◌&&◌, not, Option, none, some, List, [], ◌∷◌, if◌then◌else◌, leb, take, arith, Bool-cases,
}
use easy_docket.Base.Text.{Text, ltb_text, leb_text, ltb_text_trans}
use easy_docket.Schedule.{
  Schedule, occurrence_at, is_counted, is_before_end, within_limits, is_skipped, is_passed, stop,
  pass, emit, verdict, scan, max_scan, occurrences_up_to,
}

-- The dates of a schedule up to the first one behind a day: they increase.
pub record Plan (s : Schedule) (as_of : Text) (at : ℕ → Text) (n : ℕ) : Type 0 where
  pub each : (i : ℕ) → i ≤ n → occurrence_at s i ≡ some (at i)
  pub increasing : (i : ℕ) → i < n → ltb_text (at i) (at (suc i)) ≡ true
  pub past : ltb_text as_of (at n) ≡ true

-- A date that the rule has in its limits, not behind `as_of`, behind `after`, and not skipped.
unfoldable pub is_due : Schedule → Text → Option Text → ℕ → Text → Bool
is_due s as_of after index date =
    leb_text date as_of
    && (within_limits s index date && (not (is_passed after date) && not (is_skipped s date)))

-- The due ones of some dates, in their order.
unfoldable pub due_from : Schedule → Text → Option Text → (ℕ → Text) → ℕ → ℕ → List Text
due_from s as_of after at index zero = []
due_from s as_of after at index (suc k) =
    let rest = due_from s as_of after at (suc index) k in
    if is_due s as_of after index (at index) then at index ∷ rest else rest

is_counted_down : (m : Option ℕ) (i : ℕ) → is_counted m i ≡ false → is_counted m (suc i) ≡ false
unfolding is_counted
is_counted_down none i h = h
is_counted_down (some m) i h = ground arith

is_before_end_down :
    (end : Option Text) (d e : Text)
    → ltb_text d e ≡ true
    → is_before_end end d ≡ false
    → is_before_end end e ≡ false
unfolding is_before_end
is_before_end_down none d e lt h = h
is_before_end_down (some end) d e lt h = ground (arith, ltb_text_trans end d e)

-- The loop goes on: neither test that leaves it holds.
is_open : Schedule → Text → ℕ → Text → Bool
is_open s as_of index date = leb_text date as_of && within_limits s index date

take_more :
    (room : ℕ) (d : Text) (ds : List Text) → 1 ≤ room → take room (d ∷ ds) ≡ d ∷ take (room - 1) ds
take_more zero d ds h = absurd (omega arith)
take_more (suc r) d ds h = ap (λ (m : ℕ). d ∷ take m ds) (omega arith)

take_none : (room : ℕ) → 1 ≤ room → ◌≡◌ {A = List Text} (take room []) []
take_none zero h = absurd (omega arith)
take_none (suc r) h = refl

take_last :
    (room : ℕ) (d : Text) (ds : List Text)
    → 1 ≤ room
    → leb room 1 ≡ true
    → take room (d ∷ ds) ≡ d ∷ []
take_last room d ds h e = take_more room d ds h ∙ ap (λ (m : ℕ). d ∷ take m ds) zero_left
  where
    zero_left : room - 1 ≡ 0
    zero_left = ground arith

module _ (s : Schedule) (as_of : Text) (after : Option Text) (at : ℕ → Text) where
  due : ℕ → ℕ → List Text
  unfolding due_from
  due = due_from s as_of after at

  is_open_down :
      (i : ℕ)
      → ltb_text (at i) (at (suc i)) ≡ true
      → is_open s as_of i (at i) ≡ false
      → is_open s as_of (suc i) (at (suc i)) ≡ false
  unfolding is_open within_limits
  is_open_down i lt h = ground (
    arith,
    ltb_text_trans as_of (at i) (at (suc i)),
    is_counted_down s.max_occurrences i,
    is_before_end_down s.end_date (at i) (at (suc i)),
  )

  not_due : (i : ℕ) → is_open s as_of i (at i) ≡ false → is_due s as_of after i (at i) ≡ false
  unfolding is_open is_due
  not_due i h = ground arith

  due_none :
      (n : ℕ)
      → ((i : ℕ) → i < n → ltb_text (at i) (at (suc i)) ≡ true)
      → (i k : ℕ) → i + k ≡ n
      → is_open s as_of i (at i) ≡ false
      → due_from s as_of after at i k ≡ []
  unfolding due_from
  due_none n up i zero e h = refl
  due_none n up i (suc k) e h =
      rw (not_due i h)
        (due_none n up (suc i) k (omega arith) (is_open_down i (up i (omega arith)) h))

  verdict-cases :
      (i : ℕ) (d : Text)
      → ((verdict s as_of after i d ≡ stop) × (is_open s as_of i d ≡ false))
        ⊎ (((verdict s as_of after i d ≡ pass) × (is_due s as_of after i d ≡ false))
            ⊎ ((verdict s as_of after i d ≡ emit) × (is_due s as_of after i d ≡ true)))
  unfolding verdict is_open is_due
  verdict-cases i d = ground arith

  past_closed : (n : ℕ) → ltb_text as_of (at n) ≡ true → verdict s as_of after n (at n) ≡ stop
  unfolding verdict
  past_closed n h = ground arith

  -- The loop finds the due dates from its index on, as many as there is room for.
  pub scan-due :
      (n : ℕ)
      → Plan s as_of at n
      → (k room i rounds : ℕ) → 1 ≤ room
      → i + k ≡ n
      → k < rounds
      → scan s as_of after room i rounds ≡ some (take room (due_from s as_of after at i k))
  unfolding scan due_from
  scan-due n h k room i zero one e lt = absurd (omega arith)
  scan-due n h zero room i (suc rounds) one e lt =
      rw
        (
          h.each i (omega arith),
          scan,
          past_closed i (subst (λ m. ltb_text as_of (at m) ≡ true) (omega arith) h.past),
          take_none room one,
        )
        refl
  scan-due n h (suc k) room i (suc rounds) one e lt =
      rw (h.each i (omega arith), scan)
        (elim (verdict-cases i (at i)) [
          | inl (v, o) ↦ rw (v, due_none n h.increasing i (suc k) e o, take_none room one) refl
          | inr (inl (v, d)) ↦
              rw (v, d) (scan-due n h k room (suc i) rounds one (omega arith) (omega arith))
          | inr (inr (v, d)) ↦ elim (Bool-cases (leb room 1)) [
            | inl last ↦
                rw
                  (v, d, last, take_last room (at i) (due_from s as_of after at (suc i) k) one last)
                  refl
            | inr more ↦
                rw
                  (
                    v,
                    d,
                    more,
                    scan-due n h k (room - 1) (suc i) rounds (ground arith) (omega arith)
                        (omega arith),
                    take_more room (at i) (due_from s as_of after at (suc i) k) one,
                  )
                  refl
          ]
        ])

  -- Where the dates of a rule increase up to the `n`th, the first one behind `as_of`, and the scan
  -- reaches it, the occurrences are the due ones of the first `n` dates, up to the limit.
  pub occurrences_due :
      (n limit : ℕ)
      → Plan s as_of at n
      → n < max_scan
      → 1 ≤ s.interval
      → 1 ≤ limit
      → occurrences_up_to s as_of limit after ≡ some (take limit (due_from s as_of after at 0 n))
  unfolding occurrences_up_to
  occurrences_due n limit h lt interval one =
      ground (arith, scan-due n h n limit 0 max_scan one (omega arith) lt)
