-- ===== src/Base/Digits.antt =====
-- `Number.prototype.toString`, `padStart` and the reading of digits: what the encodings of clock
-- stamps, dates and amounts share.
pub mod Laws
use Prim.Native.Nat.{ℕ, zero, suc, ◌+◌, ◌-◌, ◌*◌, ◌/◌, ◌%◌}
use mathlib.Core.Bool.{◌&&◌}
use mathlib.Core.Option.{Option, none, some}
use mathlib.Core.List.{[], ◌∷◌, ◌++◌}
use easy_docket.Base.Tests.{ltb, leb, if◌then◌else◌}
use easy_docket.Base.Lists.{length, replicate}
use easy_docket.Base.Text.{Text}

-- The digit that `toString` writes for a value below 36.
unfoldable pub digit_char : ℕ → ℕ
digit_char d = if ltb d 10 then b'0' + d else b'a' + (d - 10)

-- The value of a digit, where it has one: `0`-`9`, then letters of either case.
pub digit_value : ℕ → Option ℕ
digit_value c =
    if leb b'0' c && leb c b'9'
    then some (c - b'0')
    else if leb b'a' c && leb c b'z'
    then some (c - b'a' + 10)
    else if leb b'A' c && leb c b'Z'
    then some (c - b'A' + 10)
    else none

to_digits : ℕ → ℕ → ℕ → Text
to_digits base zero n = []
to_digits base (suc f) n =
    let rest = to_digits base f (n / base) in
    if ltb n base then digit_char n ∷ [] else rest ++ digit_char (n % base) ∷ []

-- `n.toString(base)`; each round divides, so `n + 1` rounds are enough.
unfoldable pub to_string : ℕ → ℕ → Text
unfolding to_digits digit_char
to_string base n = to_digits base (suc n) n

-- `t.padStart(width, c)`
unfoldable pub pad_start : ℕ → ℕ → Text → Text
pad_start width c t = replicate (width - length t) c ++ t

-- `n` in exactly `w` digits.
unfoldable pub fixed : ℕ → ℕ → ℕ → Text
fixed base zero n = []
fixed base (suc w) n = fixed base w (n / base) ++ digit_char (n % base) ∷ []

-- Reading digits from the left, behind the value `acc`; `none` if there is another character.
scan : ℕ → ℕ → Text → Option ℕ
scan base acc [] = some acc
scan base acc (c ∷ t) = elim (digit_value c) [
  | none ↦ none
  | some d ↦ if ltb d base then scan base (acc * base + d) t else none
]

-- The value of a text of one or more digits.
unfoldable pub parse_digits : ℕ → Text → Option ℕ
unfolding scan digit_value
parse_digits base [] = none
parse_digits base (c ∷ t) = scan base 0 (c ∷ t)
