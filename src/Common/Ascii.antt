-- ===== src/Common/Ascii.antt =====
-- `toLowerCase` on texts. The letters A to Z are changed and all else is left: the code calls it on
-- hexadecimal keys only.
use Prim.Native.Nat.{ℕ, ◌+◌, ◌≤◌, compare, Ordering}
use Prim.Native.Char.{Char, char, code, IsScalar}
use Prim.Native.String.{String, [], ◌∷◌}
use mathlib.Core.Path.{◌≡◌, refl, ap₂}
use native.Mathlib.Omega.{arith}
use native.Mathlib.Decide.{dec_le}

lt_of_small : (n : ℕ) → n ≤ 200 → compare n 55296 ≡ Ordering.lt
lt_of_small n h = ground arith

pub IsScalar-small : (n : ℕ) → n ≤ 200 → IsScalar n
IsScalar-small n h = rw (lt_of_small n h) tt

lower_by : (c : Char) → Dec (b'A' ≤ code c) → Dec (code c ≤ b'Z') → Char
lower_by c (yes p) (yes q) = char (code c + 32) (IsScalar-small (code c + 32) (omega arith))
lower_by c (yes p) (no q) = c
lower_by c (no p) _ = c

lower_char : Char → Char
unfolding lower_by dec_le
lower_char c = lower_by c (dec_le b'A' (code c)) (dec_le (code c) b'Z')

-- No character that `toLowerCase` leaves is a capital letter, and it leaves every other alone.
abbrev pub IsCapital : Char → Type 0
IsCapital c = (b'A' ≤ code c) × (code c ≤ b'Z')

not-IsCapital-lower_by :
    (c : Char) (d : Dec (b'A' ≤ code c)) (e : Dec (code c ≤ b'Z')) → ¬ IsCapital (lower_by c d e)
unfolding lower_by
not-IsCapital-lower_by c (yes p) (yes q) h = omega arith
not-IsCapital-lower_by c (yes p) (no q) h = absurd (q h.1)
not-IsCapital-lower_by c (no p) (yes q) h = absurd (p h.0)
not-IsCapital-lower_by c (no p) (no q) h = absurd (p h.0)

lower_by_of_not_capital :
    (c : Char) (d : Dec (b'A' ≤ code c)) (e : Dec (code c ≤ b'Z'))
    → ¬ IsCapital c
    → lower_by c d e ≡ c
unfolding lower_by
lower_by_of_not_capital c (yes p) (yes q) n = absurd (n (p, q))
lower_by_of_not_capital c (yes p) (no q) n = refl
lower_by_of_not_capital c (no p) (yes q) n = refl
lower_by_of_not_capital c (no p) (no q) n = refl

unfoldable pub to_lower : String → String
unfolding lower_char
to_lower [] = []
to_lower (c ∷ s) = lower_char c ∷ to_lower s

abbrev pub NoCapital : String → Type 0
NoCapital [] = Unit
NoCapital (c ∷ s) = (¬ IsCapital c) × NoCapital s

pub to_lower-NoCapital : (s : String) → NoCapital (to_lower s)
unfolding to_lower
to_lower-NoCapital [] = tt
to_lower-NoCapital (c ∷ s) = (not-IsCapital-lower_by c _ _, to_lower-NoCapital s)

pub to_lower_of_NoCapital : (s : String) → NoCapital s → to_lower s ≡ s
unfolding to_lower
to_lower_of_NoCapital [] h = refl
to_lower_of_NoCapital (c ∷ s) h =
    ap₂ ◌∷◌ (lower_by_of_not_capital c _ _ h.0) (to_lower_of_NoCapital s h.1)

pub to_lower_idem : (s : String) → to_lower (to_lower s) ≡ to_lower s
to_lower_idem s = to_lower_of_NoCapital (to_lower s) (to_lower-NoCapital s)

to_lower_test : to_lower "ABz09" ≡ "abz09"
unfolding to_lower
to_lower_test = refl
