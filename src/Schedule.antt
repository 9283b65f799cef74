-- ===== src/Schedule.antt =====
-- When a recurring rule falls due: app/src/app/core/recurring/schedule.ts.
pub mod Due
pub mod Next
pub mod Plans
pub mod Listed
pub mod Ids
mod Tests
use easy_docket.Base.{
  ℕ, zero, suc, ◌+◌, ◌-◌, ◌*◌, Bool, true, false, ◌&&◌, ◌||◌, not, Option, none, some, List, [],
  ◌∷◌, ◌++◌, map, if◌then◌else◌, leb, ltb, ◌==◌, take, drop, length, any, ◌>>=◌,
}
use easy_docket.Base.Int.{pos}
use easy_docket.Base.Text.{Text, ltb_text, leb_text, eq_text}
use easy_docket.Dates.{add_days, add_months, is_digit}

pub data Every : Type 0 where
  day week month year : Every

-- `Schedule`. An interval below 1 is 0 here; the code treats both alike.
pub record Schedule : Type 0 where
  pub interval : ℕ
  pub unit : Every
  pub start_date : Text
  pub end_date : Option Text
  pub max_occurrences : Option ℕ
  pub skipped : List Text

abbrev pub max_occurrences_per_run : ℕ
max_occurrences_per_run = 500

abbrev pub max_scan : ℕ
max_scan = 25000

-- `occurrenceAt`; `none` stands for the error of a start date that is no date.
unfoldable pub occurrence_at : Schedule → ℕ → Option Text
occurrence_at s index =
    let step = s.interval * index in
    elim s.unit [
      | day ↦ add_days s.start_date (pos step)
      | week ↦ add_days s.start_date (pos (step * 7))
      | month ↦ add_months s.start_date (pos step)
      | year ↦ add_months s.start_date (pos (step * 12))
    ]

-- `maxOccurrences === null || index < maxOccurrences`
unfoldable pub is_counted : Option ℕ → ℕ → Bool
is_counted none index = true
is_counted (some m) index = ltb index m

-- `endDate === null || date <= endDate`
unfoldable pub is_before_end : Option Text → Text → Bool
is_before_end none date = true
is_before_end (some end) date = leb_text date end

-- `withinLimits`
unfoldable pub within_limits : Schedule → ℕ → Text → Bool
within_limits s index date =
    if not (is_counted s.max_occurrences index)
    then false
    else if not (is_before_end s.end_date date)
    then false
    else true

-- `skipped.has`
unfoldable pub is_skipped : Schedule → Text → Bool
is_skipped s date = any (λ d. eq_text d date) s.skipped

-- `after !== null && date <= after`
unfoldable pub is_passed : Option Text → Text → Bool
is_passed none date = false
is_passed (some after) date = leb_text date after

-- Where a round of the loop of `occurrencesUpTo` goes: out, on, or on with the date.
pub data Verdict : Type 0 where
  stop pass emit : Verdict

unfoldable pub verdict : Schedule → Text → Option Text → ℕ → Text → Verdict
verdict s as_of after index date =
    if ltb_text as_of date
    then stop
    else if not (within_limits s index date)
    then stop
    else if is_passed after date
    then pass
    else if is_skipped s date
    then pass
    else emit

-- The loop from `index` on for some more rounds, with room for at least one date.
unfoldable pub scan : Schedule → Text → Option Text → ℕ → ℕ → ℕ → Option (List Text)
scan s as_of after room index zero = some []
scan s as_of after room index (suc rounds) = elim (occurrence_at s index) [
  | none ↦ none
  | some date ↦ elim (verdict s as_of after index date) [
    | stop ↦ some []
    | pass ↦ scan s as_of after room (suc index) rounds
    | emit ↦ elim (leb room 1) [
      | true ↦ some (date ∷ [])
      | false ↦ scan s as_of after (room - 1) (suc index) rounds >>= λ dates. some (date ∷ dates)
    ]
  ]
]

-- `occurrencesUpTo`
unfoldable pub occurrences_up_to : Schedule → Text → ℕ → Option Text → Option (List Text)
occurrences_up_to s as_of limit after =
    if ltb s.interval 1
    then some []
    else if ltb limit 1
    then some []
    else scan s as_of after limit 0 max_scan

-- The loop of `nextOccurrence`.
unfoldable pub next_from : Schedule → Text → ℕ → ℕ → Option (Option Text)
next_from s as_of index zero = some none
next_from s as_of index (suc rounds) = elim (occurrence_at s index) [
  | none ↦ none
  | some date ↦ elim (within_limits s index date) [
    | false ↦ some none
    | true ↦ elim (ltb_text as_of date && not (is_skipped s date)) [
      | true ↦ some (some date)
      | false ↦ next_from s as_of (suc index) rounds
    ]
  ]
]

-- `nextOccurrence`
unfoldable pub next_occurrence : Schedule → Text → Option (Option Text)
next_occurrence s as_of =
    if ltb s.interval 1 then some none else next_from s as_of 0 max_occurrences_per_run

-- `occurrenceId`
unfoldable pub occurrence_id : Text → Text → Text
occurrence_id rule_id date = rule_id ++ (b':' ∷ date)

-- `\d{4}-\d{2}-\d{2}`, all of it
unfoldable pub is_date_text : Text → Bool
is_date_text (a ∷ b ∷ c ∷ d ∷ s ∷ e ∷ f ∷ t ∷ g ∷ h ∷ []) =
    is_digit a
    && is_digit b
    && is_digit c
    && is_digit d
    && is_digit e
    && is_digit f
    && is_digit g
    && is_digit h
    && s == b'-'
    && t == b'-'
is_date_text _ = false

-- What `.` does not match.
unfoldable pub ends_line : ℕ → Bool
ends_line c = c == 10 || c == 13 || c == 0x2028 || c == 0x2029

-- The two groups of the match, from the text before the last eleven characters and these.
unfoldable pub matched : Text → Text → Option (Text × Text)
matched rule_id [] = none
matched rule_id (colon ∷ date) =
    if colon == b':' && is_date_text date && ltb 0 (length rule_id) && not (any ends_line rule_id)
    then some (rule_id, date)
    else none

-- `parseOccurrenceId`: a text that matches ends with a colon and ten characters.
unfoldable pub parse_occurrence_id : Text → Option (Text × Text)
parse_occurrence_id id = matched (take (length id - 11) id) (drop (length id - 11) id)
