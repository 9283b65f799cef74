-- ===== src/Base/Text.antt =====
-- Texts as JavaScript compares them: lists of UTF-16 code units in lexicographic order.
use Prim.Native.Nat.{ℕ}
use Prim.Native.Char.{code}
use Prim.Native.String.{String}
use mathlib.Core.Path.{◌≡◌, refl}
use mathlib.Core.Logic.{◌↔◌, ◌≢◌}
use mathlib.Core.Bool.{Bool, true, false, not}
use mathlib.Core.List.{List, [], ◌∷◌, ◌++◌}
use native.Mathlib.Omega.{arith}
use easy_docket.Base.Tests.{ltb, ◌==◌, if◌then◌else◌}
use easy_docket.Base.Lists.{length, All}

abbrev pub Text : Type 0
Text = List ℕ

-- The code units of a literal (the literals of the sources are ASCII).
abbrev pub codes : String → Text
codes String.[] = []
codes (String.◌∷◌ c s) = code c ∷ codes s

-- JavaScript's `<` on strings.
unfoldable pub ltb_text : Text → Text → Bool
ltb_text [] [] = false
ltb_text [] (y ∷ ys) = true
ltb_text (x ∷ xs) [] = false
ltb_text (x ∷ xs) (y ∷ ys) = if x == y then ltb_text xs ys else ltb x y

-- JavaScript's `===` on strings.
unfoldable pub eq_text : Text → Text → Bool
eq_text [] [] = true
eq_text [] (y ∷ ys) = false
eq_text (x ∷ xs) [] = false
eq_text (x ∷ xs) (y ∷ ys) = if x == y then eq_text xs ys else false

-- JavaScript's `<=` on strings.
abbrev pub leb_text : Text → Text → Bool
leb_text a b = not (ltb_text b a)

pub eq_text_refl : (a : Text) → eq_text a a ≡ true
unfolding eq_text
eq_text_refl [] = refl
eq_text_refl (x ∷ xs) = ground (arith, eq_text_refl xs)

pub eq_text→eq : (a b : Text) → eq_text a b ≡ true → a ≡ b
unfolding eq_text
eq_text→eq [] [] h = refl
eq_text→eq [] (y ∷ ys) h = cc
eq_text→eq (x ∷ xs) [] h = cc
eq_text→eq (x ∷ xs) (y ∷ ys) h = ground (arith, eq_text→eq xs ys)

pub eq_text_iff : (a b : Text) → (eq_text a b ≡ true) ↔ (a ≡ b)
eq_text_iff a b = (eq_text→eq a b, λ e. ground (arith, eq_text_refl a))

-- The order is a strict total order, so stamps are ordered and told apart by it alone.
pub ltb_text_irrefl : (a : Text) → ltb_text a a ≡ false
unfolding ltb_text
ltb_text_irrefl [] = refl
ltb_text_irrefl (x ∷ xs) = ground (arith, ltb_text_irrefl xs)

pub ltb_text_trans :
    (a b c : Text) → ltb_text a b ≡ true → ltb_text b c ≡ true → ltb_text a c ≡ true
unfolding ltb_text
ltb_text_trans [] [] c h k = cc
ltb_text_trans [] (y ∷ ys) [] h k = cc
ltb_text_trans [] (y ∷ ys) (z ∷ zs) h k = refl
ltb_text_trans (x ∷ xs) [] c h k = cc
ltb_text_trans (x ∷ xs) (y ∷ ys) [] h k = cc
ltb_text_trans (x ∷ xs) (y ∷ ys) (z ∷ zs) h k = ground (arith, ltb_text_trans xs ys zs)

pub ltb_text_connex : (a b : Text) → ltb_text a b ≡ false → ltb_text b a ≡ false → a ≡ b
unfolding ltb_text
ltb_text_connex [] [] h k = refl
ltb_text_connex [] (y ∷ ys) h k = cc
ltb_text_connex (x ∷ xs) [] h k = cc
ltb_text_connex (x ∷ xs) (y ∷ ys) h k = ground (arith, ltb_text_connex xs ys)

pub ltb_text_asym : (a b : Text) → ltb_text a b ≡ true → ltb_text b a ≡ false
unfolding ltb_text
ltb_text_asym [] [] h = refl
ltb_text_asym [] (y ∷ ys) h = refl
ltb_text_asym (x ∷ xs) [] h = cc
ltb_text_asym (x ∷ xs) (y ∷ ys) h = ground (arith, ltb_text_asym xs ys)

pub ltb_text-append_same : (p a b : Text) → ltb_text (p ++ a) (p ++ b) ≡ ltb_text a b
unfolding ltb_text
ltb_text-append_same [] a b = refl
ltb_text-append_same (x ∷ p) a b = ground (arith, ltb_text-append_same p a b)

-- Between texts of one length the order is settled before what follows them.
pub ltb_text-append :
    (p q a b : Text) → length p ≡ length q → ltb_text p q ≡ true → ltb_text (p ++ a) (q ++ b) ≡ true
unfolding ltb_text
ltb_text-append [] [] a b e h = cc
ltb_text-append [] (y ∷ q) a b e h = absurd (omega arith)
ltb_text-append (x ∷ p) [] a b e h = cc
ltb_text-append (x ∷ p) (y ∷ q) a b e h = ground (arith, ltb_text-append p q a b)

-- `t.split(sep)` for a separator of one code unit: the part before the first separator, and the
-- parts after it.
split_from : ℕ → Text → Text × List Text
split_from sep [] = ([], [])
split_from sep (c ∷ t) =
    let (part, parts) = split_from sep t in
    if c == sep then ([], part ∷ parts) else (c ∷ part, parts)

unfoldable pub split : ℕ → Text → List Text
unfolding split_from
split sep t = let (part, parts) = split_from sep t in part ∷ parts

pub not_below_trans :
    (a b c : Text) → ltb_text a b ≡ false → ltb_text b c ≡ false → ltb_text a c ≡ false
not_below_trans a b c h k = ground (arith, ltb_text_trans a c b, ltb_text_connex b c)

-- No code unit of the text is `sep`.
abbrev pub Lacks : ℕ → Text → Type 0
Lacks sep = All (λ c. c ≢ sep)

split_from-Lacks : (sep : ℕ) (t : Text) → Lacks sep t → split_from sep t ≡ (t, [])
unfolding split_from
split_from-Lacks sep [] h = refl
split_from-Lacks sep (c ∷ t) h = ground (arith, split_from-Lacks sep t h.1)

split_from-append :
    (sep : ℕ) (t u : Text) → Lacks sep t → split_from sep (t ++ sep ∷ u) ≡ (t, split sep u)
unfolding split
split_from-append sep [] u h = ground arith
split_from-append sep (c ∷ t) u h = ground (arith, split_from-append sep t u h.1)

pub split-Lacks : (sep : ℕ) (t : Text) → Lacks sep t → split sep t ≡ t ∷ []
unfolding split
split-Lacks sep t h = rw (split_from-Lacks sep t h)

pub split-append : (sep : ℕ) (t u : Text) → Lacks sep t → split sep (t ++ sep ∷ u) ≡ t ∷ split sep u
unfolding split
split-append sep t u h = ground (arith, split_from-append sep t u h)
