-- ===== src/Money/RoundTrip.antt =====
-- An amount that `formatAmount` of app/src/app/core/util/money.ts writes is read back by `parseAmount`.
use easy_docket.Base.{
  ℕ, suc, ◌+◌, ◌-◌, ◌^◌, ◌≤◌, ◌<◌, ◌≡◌, inl, inr, refl, subst, ap, ◌∙◌, Bool, true, false, some, [],
  ◌∷◌, ◌++◌, if◌then◌else◌, arith, leb, leb→le, ◌==◌, Bool-cases, take, drop, length, length-append,
  replicate, All, All-append, append-nil,
}
use native.Mathlib.Nat.{pow-le-pow_right}
use easy_docket.Base.Int.{ℤ, pos, negsuc, neg, ltb_ℤ, pos_part, neg_part}
use easy_docket.Base.Text.{Text, split, split-Lacks, split-append}
use easy_docket.Base.Digits.{fixed, to_string, pad_start, parse_digits}
use easy_docket.Base.Digits.Laws.{
  to_string-fixed, pad_start-to_string, length-fixed, parse_digits-fixed,
}
use easy_docket.Dates.{is_digit}
use easy_docket.Money.{
  minor_unit_exponent, cleaned, is_decimal, signed, two_parts, to_precision, or_zero, max_safe,
  read_scaled, read_decimal, read_cleaned, parse_amount, place_point, format_amount,
}
use easy_docket.Money.Digits.{
  Digits, Digits-fixed, Digits-Lacks, Digits-take, Digits-drop, take-drop, length-drop, take_all,
  is_plain, cleaned_lem, Digits-plain, is_decimal-Digits, is_decimal-append,
}

or_zero_lem : (t : Text) → 1 ≤ length t → or_zero t ≡ t
unfolding or_zero
or_zero_lem [] h = absurd (omega arith)
or_zero_lem (c ∷ t) h = refl

to_precision_lem : (t : Text) → to_precision (length t) t ≡ t
unfolding to_precision
to_precision_lem t = take_all t _

-- The point and the digits behind it, for a currency that has them.
point_part : ℕ → Text → Text
point_part exponent fraction = if exponent == 0 then [] else b'.' ∷ fraction

point_part-suc : (e : ℕ) (u : Text) → point_part (suc e) u ≡ b'.' ∷ u
unfolding point_part
point_part-suc e u = ground arith

split-point_part :
    (whole fraction : Text)
    → Digits whole
    → Digits fraction
    → two_parts (split b'.' (whole ++ point_part (length fraction) fraction)) ≡ (whole, fraction)
unfolding two_parts
split-point_part whole [] h k =
    unfold point_part in rw (append-nil, split-Lacks b'.' whole (Digits-Lacks whole h)) refl
split-point_part whole (c ∷ t) h k =
    rw
      (
        point_part-suc (length t) (c ∷ t),
        split-append b'.' whole (c ∷ t) (Digits-Lacks whole h),
        split-Lacks b'.' (c ∷ t) (Digits-Lacks (c ∷ t) k),
      )
      refl

is_decimal-point_part :
    (whole fraction : Text)
    → Digits whole
    → Digits fraction
    → is_decimal (whole ++ point_part (length fraction) fraction) ≡ true
is_decimal-point_part whole [] h k = unfold point_part in rw append-nil (is_decimal-Digits whole h)
is_decimal-point_part whole (c ∷ t) h k =
    rw (point_part-suc (length t) (c ∷ t)) (is_decimal-append whole (c ∷ t) h k)

-- The amount that the digits stand for.
value_of : Bool → ℕ → ℤ
value_of negative n = if negative then neg (pos n) else pos n

read_decimal_lem :
    (negative : Bool) (whole fraction : Text) (n : ℕ)
    → Digits whole
    → Digits fraction
    → 1 ≤ length whole
    → parse_digits 10 (whole ++ fraction) ≡ some n
    → n ≤ max_safe
    → read_decimal (length fraction) (negative, whole ++ point_part (length fraction) fraction)
      ≡ some (value_of negative n)
unfolding read_decimal read_scaled value_of
read_decimal_lem negative whole fraction n h k one e le =
    rw
      (
        split-point_part whole fraction h k,
        is_decimal-point_part whole fraction h k,
        or_zero_lem whole one,
        to_precision_lem fraction,
        e,
      )
      (ground arith)

sign_part : Bool → Text
sign_part negative = if negative then b'-' ∷ [] else []

read_cleaned_lem :
    (exponent : ℕ) (negative : Bool) (whole rest : Text)
    → Digits whole
    → 1 ≤ length whole
    → read_cleaned exponent (sign_part negative ++ (whole ++ rest))
      ≡ read_decimal exponent (negative, whole ++ rest)
unfolding read_cleaned signed sign_part is_digit
read_cleaned_lem exponent negative [] rest h one = absurd (omega arith)
read_cleaned_lem exponent true (c ∷ whole) rest h one = refl
read_cleaned_lem exponent false (c ∷ whole) rest (d, h) one = rw dash refl
  where
    dash : (c == b'-') ≡ false
    dash = ground arith

plain-text :
    (negative : Bool) (whole fraction : Text) (exponent : ℕ)
    → Digits whole
    → Digits fraction
    → All (λ c. is_plain c ≡ true) (sign_part negative ++ (whole ++ point_part exponent fraction))
unfolding sign_part point_part is_plain is_digit
plain-text negative whole fraction exponent h k =
    All-append _ (sign_part negative) _ (ground arith)
      (All-append _ whole _ (Digits-plain whole h) (ground (arith, Digits-plain fraction k)))

pad_start_lem : (width c : ℕ) (t : Text) → width ≤ length t → pad_start width c t ≡ t
unfolding pad_start
pad_start_lem width c t h = ap (λ k. replicate k c ++ t) none_left
  where
    none_left : width - length t ≡ 0
    none_left = omega arith

power : (v w : ℕ) → v ≤ w → 10 ^ suc v ≤ 10 ^ suc w
power v w h = pow-le-pow_right (omega arith) (omega arith)

-- The digits that an amount is written with, at least one more than those behind the point.
padded_digits :
    (exponent n : ℕ)
    → (w : ℕ) × (exponent ≤ w)
      × (n < 10 ^ suc w)
      × (pad_start (exponent + 1) b'0' (to_string 10 n) ≡ fixed 10 (suc w) n)
padded_digits exponent n =
    let (w, bound, e) = to_string-fixed 10 (omega arith) n in
    elim (Bool-cases (leb exponent w)) [
      | inl le ↦ (
        w,
        leb→le exponent w le,
        bound,
        rw e (
            pad_start_lem (exponent + 1) b'0' (fixed 10 (suc w) n)
              (omega (arith, leb→le exponent w le, length-fixed 10 (omega arith) (suc w) n))),
      )
      | inr gt ↦
          (let fits : n < 10 ^ suc exponent = omega (arith, power w exponent (ground arith)) in
            (
              exponent,
              omega arith,
              fits,
              ap (λ k. pad_start k b'0' (to_string 10 n)) (omega arith)
                  ∙ pad_start-to_string 10 (omega arith) exponent n fits,
            ))
    ]

value_of-amount :
    (amount : ℤ) → value_of (ltb_ℤ amount (pos 0)) (pos_part amount + neg_part amount) ≡ amount
unfolding value_of
value_of-amount (pos n) = ground arith
value_of-amount (negsuc n) = ground arith

-- Digits with the point placed among them are read as their number.
read_placed :
    (exponent n : ℕ) (negative : Bool) (digits : Text)
    → Digits digits
    → exponent < length digits
    → parse_digits 10 digits ≡ some n
    → n ≤ max_safe
    → read_cleaned exponent (cleaned (sign_part negative ++ place_point exponent digits))
      ≡ some (value_of negative n)
read_placed exponent n negative digits h lt e le =
    rw
      (
        placed,
        cleaned_lem _ (plain-text negative whole fraction exponent whole_digits fraction_digits),
        read_cleaned_lem exponent negative whole (point_part exponent fraction) whole_digits one,
      )
      (subst
        (λ x.
          read_decimal x (negative, whole ++ point_part x fraction) ≡ some (value_of negative n))
        size
        (read_decimal_lem negative whole fraction n whole_digits fraction_digits one
          (rw (take-drop k digits) e) le))
  where
    k : ℕ
    k = length digits - exponent

    whole : Text
    whole = take k digits

    fraction : Text
    fraction = drop k digits

    whole_digits : Digits whole
    whole_digits = Digits-take k digits h

    fraction_digits : Digits fraction
    fraction_digits = Digits-drop k digits h

    size : length fraction ≡ exponent
    size = omega (arith, length-drop k digits)

    one : 1 ≤ length whole
    one =
        omega
          (arith, size, length-append {0} whole fraction, ap (λ t. length t) (take-drop k digits))

    placed : place_point exponent digits ≡ whole ++ point_part exponent fraction
    placed = unfold place_point in unfold point_part in rw (or_zero_lem whole one) refl

-- An amount whose size JavaScript's numbers hold exactly is read back from its text, in any currency.
pub parse_amount-format_amount :
    (amount : ℤ) (currency : Text)
    → pos_part amount + neg_part amount ≤ max_safe
    → parse_amount (format_amount amount currency) currency ≡ some amount
unfolding parse_amount format_amount sign_part
parse_amount-format_amount amount currency h =
    let exponent = minor_unit_exponent currency in
    let n = pos_part amount + neg_part amount in
    let (w, le, bound, e) = padded_digits exponent n in
    rw e (
      read_placed exponent n (ltb_ℤ amount (pos 0)) (fixed 10 (suc w) n) (Digits-fixed (suc w) n)
        (omega (arith, le, length-fixed 10 (omega arith) (suc w) n))
        (parse_digits-fixed 10 (omega arith) (omega arith) w n bound) h
      ∙ ap (λ x. some x) (value_of-amount amount))
