-- ===== src/Money.antt =====
-- Amounts of money: app/src/app/core/util/money.ts. An amount is an integer of the currency's minor
-- unit. `none` stands for the errors that the reading of an amount throws.
pub mod Effect
pub mod Digits
pub mod RoundTrip
mod Tests
use easy_docket.Base.{
  ℕ, suc, ◌+◌, ◌-◌, Bool, true, false, ◌&&◌, ◌||◌, not, Option, none, some, List, [], ◌∷◌, ◌++◌,
  map, if◌then◌else◌, leb, ltb, ◌==◌, take, drop, length, filter, replicate, ◌>>=◌,
}
use easy_docket.Base.Int.{ℤ, pos, negsuc, neg, ltb_ℤ, pos_part, neg_part}
use easy_docket.Base.Text.{Text, codes, eq_text, split}
use easy_docket.Base.Digits.{to_string, pad_start, parse_digits}
use easy_docket.Models.Records.{Minor, TransactionKind, income, expense, transfer, Transaction}
use easy_docket.Dates.{is_digit}

-- `EXPONENTS`
abbrev pub exponents : List (Text × ℕ)
exponents =
    (codes "JPY", 0)
    ∷ (codes "KRW", 0)
    ∷ (codes "VND", 0)
    ∷ (codes "CLP", 0)
    ∷ (codes "ISK", 0)
    ∷ (codes "BHD", 3)
    ∷ (codes "KWD", 3)
    ∷ (codes "OMR", 3)
    ∷ (codes "TND", 3)
    ∷ (codes "JOD", 3)
    ∷ []

-- `toUpperCase`, on the ASCII letters that currency codes consist of.
unfoldable pub upper : Text → Text
upper = map (λ c. if leb b'a' c && leb c b'z' then c - 32 else c)

unfoldable pub exponent_in : Text → List (Text × ℕ) → ℕ
exponent_in currency [] = 2
exponent_in currency ((code, exponent) ∷ table) =
    if eq_text code currency then exponent else exponent_in currency table

-- `minorUnitExponent`
unfoldable pub minor_unit_exponent : Text → ℕ
minor_unit_exponent currency = exponent_in (upper currency) exponents

-- `\s`
unfoldable pub is_space : ℕ → Bool
is_space c =
    (leb 9 c && leb c 13)
    || c == 32
    || c == 0xa0
    || c == 0x1680
    || (leb 0x2000 c && leb c 0x200a)
    || c == 0x2028
    || c == 0x2029
    || c == 0x202f
    || c == 0x205f
    || c == 0x3000
    || c == 0xfeff

-- `t.replace(',', '.')`, which replaces the first comma.
unfoldable pub point_for_comma : Text → Text
point_for_comma [] = []
point_for_comma (c ∷ t) = if c == b',' then b'.' ∷ t else c ∷ point_for_comma t

-- `trim` takes off what `\s` matches, at the ends.
unfoldable pub cleaned : Text → Text
cleaned input = point_for_comma (filter (λ c. not (is_space c)) input)

unfoldable pub all_digits : Text → Bool
all_digits [] = true
all_digits (c ∷ t) = is_digit c && all_digits t

-- `\d*\.?\d*`, all of it
unfoldable pub is_decimal : Text → Bool
is_decimal [] = true
is_decimal (c ∷ t) = if is_digit c then is_decimal t else c == b'.' && all_digits t

-- The sign, and the text without it.
unfoldable pub signed : Text → Bool × Text
signed [] = (false, [])
signed (c ∷ t) = if c == b'-' then (true, t) else (false, c ∷ t)

-- `const [whole, fraction = ''] = ...`
unfoldable pub two_parts : List Text → Text × Text
two_parts [] = ([], [])
two_parts (whole ∷ []) = (whole, [])
two_parts (whole ∷ fraction ∷ more) = (whole, fraction)

-- `t.padEnd(width, '0').slice(0, width)`
unfoldable pub to_precision : ℕ → Text → Text
to_precision width t = take width (t ++ replicate (width - length t) b'0')

unfoldable pub or_zero : Text → Text
or_zero [] = b'0' ∷ []
or_zero (c ∷ t) = c ∷ t

-- `Number.MAX_SAFE_INTEGER`
abbrev pub max_safe : ℕ
max_safe = 0x1fffffffffffff

-- The value of the digits, with the sign, where it is safe.
unfoldable pub read_scaled : Bool → Text → Option ℤ
read_scaled negative scaled = parse_digits 10 scaled >>= λ value.
    if leb value max_safe then some (if negative then neg (pos value) else pos value) else none

unfoldable pub read_decimal : ℕ → Bool × Text → Option ℤ
read_decimal exponent (negative, decimal) =
    let (whole, fraction) = two_parts (split b'.' decimal) in
    if is_decimal decimal
    then read_scaled negative (or_zero whole ++ to_precision exponent fraction)
    else none

unfoldable pub read_cleaned : ℕ → Text → Option ℤ
read_cleaned exponent [] = none
read_cleaned exponent (c ∷ t) = read_decimal exponent (signed (c ∷ t))

-- `parseAmount`
unfoldable pub parse_amount : Text → Text → Option ℤ
parse_amount input currency = read_cleaned (minor_unit_exponent currency) (cleaned input)

-- The digits of an amount, with the point before the last ones.
unfoldable pub place_point : ℕ → Text → Text
place_point exponent digits =
    or_zero (take (length digits - exponent) digits)
    ++ (if exponent == 0 then [] else b'.' ∷ drop (length digits - exponent) digits)

-- `formatAmount`
unfoldable pub format_amount : ℤ → Text → Text
format_amount amount currency =
    let exponent = minor_unit_exponent currency in
    (if ltb_ℤ amount (pos 0) then b'-' ∷ [] else [])
    ++ place_point exponent
        (pad_start (exponent + 1) b'0' (to_string 10 (pos_part amount + neg_part amount)))

-- `txn.counterAccountId === accountId`
unfoldable pub is_counter : Option Text → Text → Bool
is_counter none account = false
is_counter (some counter) account = eq_text counter account

-- `signedFor`
unfoldable pub signed_for : {Rate : Type 0} → Text → Transaction Rate → ℤ
signed_for account txn = elim txn.kind [
  | income ↦ if eq_text txn.account_id account then txn.amount else pos 0
  | expense ↦ if eq_text txn.account_id account then neg txn.amount else pos 0
  | transfer ↦
      if eq_text txn.account_id account
      then neg txn.amount
      else if is_counter txn.counter_account_id account
      then txn.amount
      else pos 0
]
