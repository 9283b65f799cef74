-- ===== src/Base/Digits/Laws.antt =====
-- A number below `base ^ w` is written in exactly `w` digits when it is padded with zeros, such
-- digits are ordered as the numbers are, and they read back.
use Prim.Native.Nat.{ℕ, zero, suc, ◌+◌, ◌-◌, ◌*◌, ◌/◌, ◌%◌, ◌^◌, ◌≤◌, ◌<◌}
use mathlib.Core.Path.{◌≡◌, refl, ap, ◌∙◌}
use mathlib.Core.Logic.{inl, inr}
use mathlib.Core.Option.{some}
use mathlib.Core.List.{[], ◌∷◌, ◌++◌, append_assoc, append-nil}
use native.Mathlib.Omega.{arith}
use native.Mathlib.Nat.{
  pow-suc, pow-zero, one-mul, div-lt_iff_lt-mul, div-eq_of_lt, zero-div, mod-eq_of_lt, mod-lt,
  div-add-mod', div-lt_self,
}
use easy_docket.Base.Tests.{ltb, ltb→lt, ◌==◌, if◌then◌else◌, Bool-cases}
use easy_docket.Base.Lists.{All-append, length, replicate, length-append, replicate_snoc}
use easy_docket.Base.Text.{Lacks, Text, ltb_text}
use easy_docket.Base.Digits.{
  digit_char, digit_value, to_digits, to_string, pad_start, fixed, scan, parse_digits,
}

digit_char_order : (a b : ℕ) → ltb (digit_char a) (digit_char b) ≡ ltb a b
unfolding digit_char
digit_char_order a b = ground arith

digit_char_eq : (a b : ℕ) → (digit_char a == digit_char b) ≡ (a == b)
unfolding digit_char
digit_char_eq a b = ground arith

digit_value-digit_char : (d : ℕ) → d < 36 → digit_value (digit_char d) ≡ some d
unfolding digit_char digit_value
digit_value-digit_char d h = ground arith

pad_start-nil : (w c : ℕ) → pad_start w c [] ≡ replicate w c
unfolding pad_start
pad_start-nil w c = rw append-nil (ap (λ k. replicate k c) (omega arith))

pad_start_snoc :
    (w c : ℕ) (t : Text) (d : ℕ) → pad_start (suc w) c (t ++ d ∷ []) ≡ pad_start w c t ++ d ∷ []
unfolding pad_start
pad_start_snoc w c t d =
    let e : suc w - length (t ++ d ∷ []) ≡ w - length t =
      omega (arith, length-append {0} t (d ∷ [])) in
    rw (e, append_assoc)

parse_digits-scan : (base : ℕ) (t : Text) → 0 < length t → parse_digits base t ≡ scan base 0 t
unfolding parse_digits
parse_digits-scan base [] h = elim h [ ]
parse_digits-scan base (c ∷ t) h = refl

module _ (base : ℕ) (two-le : 2 ≤ base) where
  div_bound : (w n : ℕ) → n < base ^ suc w → n / base < base ^ w
  div_bound w n h = (div-lt_iff_lt-mul (omega arith)).1 (rw (← pow-suc) h)

  digits_end : (n : ℕ) → n / base * base + n % base ≡ n
  digits_end n = div-add-mod' n base

  pair_order : (q r q' r' : ℕ) → r < base → q < q' → q * base + r < q' * base + r'
  pair_order q r q' r' h k = grind arith

  pow_one : base ^ suc zero ≡ base
  pow_one = pow-suc base zero ∙ rw (pow-zero, one-mul) refl

  -- The last digits decide between numbers that agree on the digits before.
  last_digit_order :
      (m n : ℕ) (a b : Text)
      → (if m / base == n / base
          then ltb_text (digit_char (m % base) ∷ a) (digit_char (n % base) ∷ b)
          else ltb (m / base) (n / base))
        ≡ (if m == n then ltb_text a b else ltb m n)
  unfolding ltb_text
  last_digit_order m n a b = ground (
    arith,
    digits_end m,
    digits_end n,
    mod-lt m {m = base} (omega arith),
    mod-lt n {m = base} (omega arith),
    pair_order (m / base) (m % base) (n / base) (n % base),
    pair_order (n / base) (n % base) (m / base) (m % base),
    digit_char_order (m % base) (n % base),
    digit_char_eq (m % base) (n % base),
  )

  fixed-zero : (w : ℕ) → fixed base w 0 ≡ replicate w b'0'
  unfolding fixed digit_char
  fixed-zero zero = refl
  fixed-zero (suc w) = rw (
    zero-div base,
    mod-eq_of_lt {n = 0} {m = base} (omega arith),
    fixed-zero w,
    replicate_snoc {A = ℕ} w b'0',
  )

  pub length-fixed : (w n : ℕ) → length (fixed base w n) ≡ w
  unfolding fixed
  length-fixed zero n = refl
  length-fixed (suc w) n = omega (
    arith,
    length-append {0} (fixed base w (n / base)) (digit_char (n % base) ∷ []),
    length-fixed w (n / base),
  )

  pad_round :
      (f w n : ℕ)
      → (base ≤ n → pad_start w b'0' (to_digits base f (n / base)) ≡ fixed base w (n / base))
      → pad_start (suc w) b'0' (to_digits base (suc f) n) ≡ fixed base (suc w) n
  unfolding to_digits fixed
  pad_round f w n shorter = elim (Bool-cases (ltb n base)) [
    | inl small ↦ rw small (
        pad_start_snoc w b'0' [] (digit_char n)
        ∙ rw (
          pad_start-nil,
          div-eq_of_lt {n = n} {m = base} (ground arith),
          mod-eq_of_lt {n = n} {m = base} (ground arith),
          fixed-zero,
        ))
    | inr large ↦ rw large (
        pad_start_snoc w b'0' _ _
        ∙ ap (λ t. t ++ digit_char (n % base) ∷ []) (shorter (ground arith)))
  ]

  pad_start-to_digits :
      (f w n : ℕ)
      → n < base ^ suc w
      → n < f
      → pad_start (suc w) b'0' (to_digits base f n) ≡ fixed base (suc w) n
  pad_start-to_digits zero w n h k = elim k [ ]
  pad_start-to_digits (suc f) zero n h k =
      pad_round f zero n (λ le. absurd (omega (arith, pow_one)))
  pad_start-to_digits (suc f) (suc w) n h k = pad_round f (suc w) n λ le.
      pad_start-to_digits f w (n / base) (div_bound (suc w) n h)
        (omega (arith, div-lt_self {n = n} {k = base} (omega arith) (omega arith)))

  -- Padded to a width that it fits in, a number has exactly that many digits.
  pub pad_start-to_string :
      (w n : ℕ)
      → n < base ^ suc w
      → pad_start (suc w) b'0' (to_string base n) ≡ fixed base (suc w) n
  unfolding to_string
  pad_start-to_string w n h = pad_start-to_digits (suc n) w n h (omega arith)

  to_digits-fixed :
      (f n : ℕ) → n < f → (w : ℕ) × (n < base ^ suc w) × (to_digits base f n ≡ fixed base (suc w) n)
  unfolding to_digits fixed
  to_digits-fixed zero n h = absurd (omega arith)
  to_digits-fixed (suc f) n h = elim (Bool-cases (ltb n base)) [
    | inl small ↦ (
      0,
      omega (arith, pow_one, ltb→lt n base small),
      rw (small, mod-eq_of_lt {n = n} {m = base} (ltb→lt n base small)) refl,
    )
    | inr large ↦
        (let (w, bound, e) =
            to_digits-fixed f (n / base)
              (omega (arith, div-lt_self {n = n} {k = base} (ground arith) (omega arith))) in
          (suc w, rw pow-suc ((div-lt_iff_lt-mul (omega arith)).0 bound), rw (large, e) refl))
  ]

  -- A number is written in some number of digits.
  pub to_string-fixed :
      (n : ℕ) → (w : ℕ) × (n < base ^ suc w) × (to_string base n ≡ fixed base (suc w) n)
  unfolding to_string
  to_string-fixed n = to_digits-fixed (suc n) n (omega arith)

  -- Numbers written in the same number of digits are ordered as their texts are.
  pub ltb_text-fixed :
      (w m n : ℕ) (a b : Text)
      → m < base ^ w
      → n < base ^ w
      → ltb_text (fixed base w m ++ a) (fixed base w n ++ b)
        ≡ (if m == n then ltb_text a b else ltb m n)
  unfolding fixed
  ltb_text-fixed zero m n a b h k = ground (arith, pow-zero base)
  ltb_text-fixed (suc w) m n a b h k =
      rw (append_assoc (fixed base w (m / base)), append_assoc (fixed base w (n / base)))
        (ltb_text-fixed w (m / base) (n / base) _ _ (div_bound w m h) (div_bound w n k)
          ∙ last_digit_order m n a b)

  module _ (le-36 : base ≤ 36) where
    scan_snoc :
        (t : Text) (acc v d : ℕ)
        → d < base
        → scan base acc t ≡ some v
        → scan base acc (t ++ digit_char d ∷ []) ≡ some (v * base + d)
    unfolding scan
    scan_snoc [] acc v d lt h = ground (arith, digit_value-digit_char d)
    scan_snoc (c ∷ t) acc v d lt h = grind (arith, scan_snoc t)

    scan-fixed : (w n : ℕ) → n < base ^ w → scan base 0 (fixed base w n) ≡ some n
    unfolding fixed
    scan-fixed zero n h = unfold scan in ap (λ k. some k) (omega (arith, pow-zero base))
    scan-fixed (suc w) n h =
        scan_snoc (fixed base w (n / base)) 0 (n / base) (n % base) (mod-lt n (omega arith))
          (scan-fixed w (n / base) (div_bound w n h))
        ∙ ap (λ k. some k) (digits_end n)

    -- A padded number reads back.
    pub parse_digits-fixed :
        (w n : ℕ) → n < base ^ suc w → parse_digits base (fixed base (suc w) n) ≡ some n
    parse_digits-fixed w n h =
        parse_digits-scan base (fixed base (suc w) n) (ground (arith, length-fixed (suc w) n))
        ∙ scan-fixed (suc w) n h

    -- Digits are no dash.
    pub fixed-Lacks : (w n : ℕ) → Lacks b'-' (fixed base w n)
    unfolding fixed digit_char
    fixed-Lacks zero n = tt
    fixed-Lacks (suc w) n =
        All-append _ (fixed base w (n / base)) _ (fixed-Lacks w (n / base))
          (ground (arith, mod-lt n {m = base}))
