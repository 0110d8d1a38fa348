-- ===== src/Common/Text.antt =====
-- The order `a < b` on texts, by code points. JavaScript compares code units; the two agree on
-- texts without surrogates, such as the hexadecimal ids and ISO timestamps that the code compares.
use Prim.Native.Char.{Char, code}
use Prim.Native.String.{String, compare, [], ◌∷◌}
use Prim.Native.String.compare
use mathlib.Core.Path.{◌≡◌, refl}
use mathlib.Core.Bool.{Bool, true, false}
use native.Mathlib.Omega.{arith}
use text.Mathlib.Text.{is_lt}
use text.Mathlib.TextEquality.{codes_equal}
use text.Mathlib.TextPositions.{compare_refl}
use sentinelmesh.Common.Tests.{ltb, eqb, if◌then◌else◌}

unfoldable pub str_lt : String → String → Bool
str_lt a b = is_lt (compare a b)

lt-nil-nil : str_lt [] [] ≡ false
unfolding str_lt
lt-nil-nil = ground (arith, compare_refl [])

lt-nil-cons : (d : Char) (t : String) → str_lt [] (d ∷ t) ≡ true
unfolding str_lt
lt-nil-cons d t = rw (compare.nil-cons d t)

lt-cons-nil : (c : Char) (s : String) → str_lt (c ∷ s) [] ≡ false
unfolding str_lt
lt-cons-nil c s = rw (compare.cons-nil c s)

lt-cons-cons :
    (c d : Char) (s t : String)
    → str_lt (c ∷ s) (d ∷ t) ≡ (
        if ltb (code c) (code d) then true else if eqb (code c) (code d) then str_lt s t else false)
unfolding str_lt
lt-cons-cons c d s t = rw (compare.cons-cons c d s t) (ground arith)

pub str_lt_irrefl : (a : String) → str_lt a a ≡ false
unfolding str_lt
str_lt_irrefl a = ground (arith, compare_refl a)

pub str_lt_trans : (a b c : String) → str_lt a b ≡ true → str_lt b c ≡ true → str_lt a c ≡ true
str_lt_trans [] [] c h k = k
str_lt_trans [] (y ∷ b) [] h k = ground (arith, lt-cons-nil y b)
str_lt_trans [] (y ∷ b) (z ∷ c) h k = lt-nil-cons z c
str_lt_trans (x ∷ a) [] c h k = ground (arith, lt-cons-nil x a)
str_lt_trans (x ∷ a) (y ∷ b) [] h k = ground (arith, lt-cons-nil y b)
str_lt_trans (x ∷ a) (y ∷ b) (z ∷ c) h k =
    ground
      (arith, lt-cons-cons x y a b, lt-cons-cons y z b c, lt-cons-cons x z a c, str_lt_trans a b c)

pub str_lt_total : (a b : String) → str_lt a b ≡ false → str_lt b a ≡ false → a ≡ b
str_lt_total [] [] h k = refl
str_lt_total [] (y ∷ b) h k = ground (arith, lt-nil-cons y b)
str_lt_total (x ∷ a) [] h k = ground (arith, lt-nil-cons x a)
str_lt_total (x ∷ a) (y ∷ b) h k =
    ground (arith, lt-cons-cons x y a b, lt-cons-cons y x b a, str_lt_total a b, codes_equal x y)

pub str_lt_asymm : (a b : String) → str_lt a b ≡ true → str_lt b a ≡ false
str_lt_asymm a b h = ground (arith, str_lt_trans a b a h, str_lt_irrefl a)

-- The empty text is the least.
pub str_lt-empty : (a : String) → str_lt a "" ≡ false
str_lt-empty [] = lt-nil-nil
str_lt-empty (x ∷ a) = lt-cons-nil x a
