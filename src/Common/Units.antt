-- ===== src/Common/Units.antt =====
-- Texts as JavaScript measures them: in UTF-16 code units, and as `JSON.stringify` writes them.
use Prim.Native.Nat.{ℕ, zero, suc, ◌+◌, ◌*◌, ◌≤◌}
use Prim.Native.Char.{Char, code}
use Prim.Native.String.{String, [], ◌∷◌}
use mathlib.Core.Bool.{Bool, true, false, ◌&&◌, ◌||◌, not}
use mathlib.Core.Path.{◌≡◌, refl}
use native.Mathlib.Omega.{arith}
use sentinelmesh.Common.Tests.{ltb, leb, eqb, if◌then◌else◌}

-- `s.length` of a text counts its UTF-16 code units.
abbrev pub units_of : Char → ℕ
units_of c = if ltb (code c) 65536 then 1 else 2

unfoldable pub utf16_length : String → ℕ
utf16_length [] = 0
utf16_length (c ∷ s) = units_of c + utf16_length s

-- A digit or a letter from a to f.
abbrev pub is_lowercase_hex : Char → Bool
is_lowercase_hex c =
    leb b'0' (code c) && leb (code c) b'9' || leb b'a' (code c) && leb (code c) b'f'

unfoldable pub all_lowercase_hex : String → Bool
all_lowercase_hex [] = true
all_lowercase_hex (c ∷ s) = is_lowercase_hex c && all_lowercase_hex s

-- The length of what `JSON.stringify` writes for a character, and for the characters of a text.
abbrev pub escaped_length : Char → ℕ
escaped_length c =
    if eqb (code c) 34 || eqb (code c) 92
    then 2
    else if leb 8 (code c) && leb (code c) 13 && not (eqb (code c) 11)
    then 2
    else if ltb (code c) 32
    then 6
    else units_of c

unfoldable pub escaped_all : String → ℕ
escaped_all [] = 0
escaped_all (c ∷ s) = escaped_length c + escaped_all s

-- `s.startsWith(p)`
unfoldable pub starts_with : String → String → Bool
starts_with s [] = true
starts_with [] (d ∷ p) = false
starts_with (c ∷ s) (d ∷ p) = eqb (code c) (code d) && starts_with s p

-- `s.slice(0, n)`, of a text without surrogates.
unfoldable pub text_prefix : ℕ → String → String
text_prefix zero s = []
text_prefix (suc n) [] = []
text_prefix (suc n) (c ∷ s) = c ∷ text_prefix n s

pub escaped_all-le : (s : String) → escaped_all s ≤ 6 * utf16_length s
unfolding escaped_all utf16_length
escaped_all-le [] = omega arith
escaped_all-le (c ∷ s) = ground (arith, escaped_all-le s)

-- Hexadecimal digits are written as they are.
pub escaped_all-hex : (s : String) → all_lowercase_hex s ≡ true → escaped_all s ≡ utf16_length s
unfolding escaped_all utf16_length all_lowercase_hex
escaped_all-hex [] h = refl
escaped_all-hex (c ∷ s) h = ground (arith, escaped_all-hex s)
