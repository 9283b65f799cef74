-- ===== src/Money/Digits.antt =====
-- Texts of digits, as the reading of amounts in app/src/app/core/util/money.ts meets them.
use easy_docket.Base.{
  ℕ, zero, suc, ◌-◌, ◌/◌, ◌≡◌, refl, ap, Bool, true, ◌||◌, [], ◌∷◌, ◌++◌, arith, ◌==◌, take, drop,
  length, All, All-append,
}
use easy_docket.Base.Text.{Text, Lacks}
use easy_docket.Base.Digits.{digit_char, fixed}
use easy_docket.Dates.{is_digit}
use easy_docket.Money.{is_space, point_for_comma, cleaned, all_digits, is_decimal}

abbrev pub Digits : Text → Type 0
Digits = All (λ c. is_digit c ≡ true)

pub Digits-fixed : (w n : ℕ) → Digits (fixed 10 w n)
unfolding fixed is_digit digit_char
Digits-fixed zero n = tt
Digits-fixed (suc w) n =
    All-append _ (fixed 10 w (n / 10)) _ (Digits-fixed w (n / 10)) (ground arith)

pub Digits-Lacks : (t : Text) → Digits t → Lacks b'.' t
unfolding is_digit
Digits-Lacks [] h = tt
Digits-Lacks (c ∷ t) (d, h) = (λ e. ground arith, Digits-Lacks t h)

pub Digits-take : (k : ℕ) (t : Text) → Digits t → Digits (take k t)
Digits-take zero t h = tt
Digits-take (suc k) [] h = tt
Digits-take (suc k) (c ∷ t) (d, h) = (d, Digits-take k t h)

pub Digits-drop : (k : ℕ) (t : Text) → Digits t → Digits (drop k t)
Digits-drop zero t h = h
Digits-drop (suc k) [] h = tt
Digits-drop (suc k) (c ∷ t) (d, h) = Digits-drop k t h

pub take-drop : (k : ℕ) (t : Text) → take k t ++ drop k t ≡ t
take-drop zero t = refl
take-drop (suc k) [] = refl
take-drop (suc k) (c ∷ t) = ap (λ u. c ∷ u) (take-drop k t)

pub length-drop : (k : ℕ) (t : Text) → length (drop k t) ≡ length t - k
length-drop zero t = omega arith
length-drop (suc k) [] = omega arith
length-drop (suc k) (c ∷ t) = omega (arith, length-drop k t)

pub take_all : (t u : Text) → take (length t) (t ++ u) ≡ t
take_all [] u = refl
take_all (c ∷ t) u = ap (λ v. c ∷ v) (take_all t u)

-- The characters of a written amount.
unfoldable pub is_plain : ℕ → Bool
is_plain c = is_digit c || c == b'-' || c == b'.'

pub cleaned_lem : (t : Text) → All (λ c. is_plain c ≡ true) t → cleaned t ≡ t
unfolding cleaned point_for_comma is_space is_plain is_digit
cleaned_lem [] h = refl
cleaned_lem (c ∷ t) (p, h) = ground (arith, cleaned_lem t h)

pub Digits-plain : (t : Text) → Digits t → All (λ c. is_plain c ≡ true) t
unfolding is_plain
Digits-plain [] h = tt
Digits-plain (c ∷ t) (d, h) = (rw d refl, Digits-plain t h)

pub all_digits-Digits : (t : Text) → Digits t → all_digits t ≡ true
unfolding all_digits
all_digits-Digits [] h = refl
all_digits-Digits (c ∷ t) (d, h) = rw (d, all_digits-Digits t h) refl

pub is_decimal-Digits : (t : Text) → Digits t → is_decimal t ≡ true
unfolding is_decimal
is_decimal-Digits [] h = refl
is_decimal-Digits (c ∷ t) (d, h) = rw (d, is_decimal-Digits t h) refl

pub is_decimal-append : (t u : Text) → Digits t → Digits u → is_decimal (t ++ b'.' ∷ u) ≡ true
unfolding is_decimal
is_decimal-append [] u h k = unfold is_digit in all_digits-Digits u k
is_decimal-append (c ∷ t) u (d, h) k = rw (d, is_decimal-append t u h k) refl
