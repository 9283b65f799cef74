-- ===== src/Hlc.antt =====
-- The hybrid logical clock, app/src/app/core/util/hlc.ts: the clock's state, the encoding of stamps
-- (`encodeHlc`, `decodeHlc`), and the two methods that move the clock (`tick`, `observe`).
-- `Date.now` is an argument. A method that throws leaves the state as it was.
pub mod Order
pub mod Progress
mod Tests
use easy_docket.Base.{
  ℕ, ◌+◌, ◌-◌, ◌*◌, Bool, List, [], ◌∷◌, ◌++◌, Option, none, some, max, ltb, ◌==◌, ◌&&◌,
  if◌then◌else◌, length,
}
use easy_docket.Base.Text.{Text, codes, split, ltb_text}
use easy_docket.Base.Digits.{to_string, pad_start, parse_digits}

pub record HlcState : Type 0 where
  pub physical : ℕ
  pub counter : ℕ

abbrev pub physical_width : ℕ
physical_width = 19

abbrev pub counter_width : ℕ
counter_width = 4

abbrev pub max_counter : ℕ
max_counter = 0xffff

abbrev pub max_drift_ms : ℕ
max_drift_ms = 60 * 60 * 1000

-- `irregular` stands for a stamp of the right widths whose numbers are not plain digits; what the
-- clock does with the value that `Number` gives for such a text is not modelled.
pub data Error : Type 0 where
  malformed irregular overflow : Error
  clock_drift : ℕ → Error

pub data Result (A : Type 0) : Type 0 where
  ok : A → Result A
  err : Error → Result A

-- `encodeHlc`
unfoldable pub encode : HlcState → Text → Text
encode s device =
    pad_start physical_width b'0' (to_string 10 s.physical)
    ++ (b'-' ∷ (pad_start counter_width b'0' (to_string 16 s.counter) ++ (b'-' ∷ device)))

numbers : Option ℕ → Option ℕ → Text → Result (HlcState × Text)
numbers (some p) (some c) device = ok (record { physical = p; counter = c }, device)
numbers (some p) none device = err irregular
numbers none c device = err irregular

decode_parts : List Text → Result (HlcState × Text)
decode_parts (physical ∷ counter ∷ device ∷ []) =
    if length physical == physical_width && length counter == counter_width
    then numbers (parse_digits 10 physical) (parse_digits 16 counter) device
    else err malformed
decode_parts _ = err malformed

-- `decodeHlc`
unfoldable pub decode : Text → Result (HlcState × Text)
unfolding decode_parts numbers
decode stamp = decode_parts (split b'-' stamp)

-- `HybridLogicalClock`
pub record Clock : Type 0 where
  pub device : Text
  pub state : HlcState

-- A result and the clock that it leaves.
abbrev pub Step : Type 0 → Type 0
Step A = Result A × Clock

-- `this.state = { physical, counter }` behind the test of the counter, and the stamp of it.
advance : ℕ → ℕ → Clock → Step Text
advance physical counter k =
    if ltb max_counter counter
    then (err overflow, k)
    else (let s : HlcState = record { physical = physical; counter = counter } in
        (ok (encode s k.device), record k { state = s }))

-- `tick`, at the wall time `wall`.
unfoldable pub tick : ℕ → Clock → Step Text
unfolding advance
tick wall k =
    if ltb k.state.physical wall
    then advance wall 0 k
    else advance k.state.physical (k.state.counter + 1) k

-- The counter that `observe` gives to the time `physical`.
merged_counter : ℕ → HlcState → HlcState → ℕ
merged_counter physical local remote =
    if physical == local.physical && physical == remote.physical
    then max local.counter remote.counter + 1
    else if physical == local.physical
    then local.counter + 1
    else if physical == remote.physical
    then remote.counter + 1
    else 0

fold_remote : ℕ → HlcState → Clock → Step Text
fold_remote wall remote k =
    let physical = max (max wall k.state.physical) remote.physical in
    if ltb (wall + max_drift_ms) remote.physical
    then (err (clock_drift (remote.physical - wall)), k)
    else advance physical (merged_counter physical k.state remote) k

-- `observe`, at the wall time `wall`.
unfoldable pub observe : ℕ → Text → Clock → Step Text
unfolding fold_remote merged_counter advance
observe wall stamp k = elim (decode stamp) [ ok r ↦ fold_remote wall r.0 k | err e ↦ (err e, k) ]
