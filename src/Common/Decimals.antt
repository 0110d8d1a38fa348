-- ===== src/Common/Decimals.antt =====
-- Numbers as decimal text, and the tests that the code makes on texts by regular expressions.
use Prim.Native.Nat.{ℕ, zero, suc, ◌+◌, ◌-◌, ◌*◌, ◌/◌}
use Prim.Native.Char.{Char, code}
use Prim.Native.String.{String, [], ◌∷◌, ◌++◌}
use mathlib.Core.Bool.{Bool, true, ◌&&◌, ◌||◌, not}
use text.Mathlib.Text.{◌==◌}
use sentinelmesh.Common.Tests.{ltb, leb, eqb, if◌then◌else◌}
use sentinelmesh.Common.Units.{utf16_length}

-- `Number(s)` of decimal decimal_digits, going on from a number.
unfoldable pub number_from : ℕ → String → ℕ
number_from n [] = n
number_from n (c ∷ s) = number_from (10 * n + (code c - 48)) s

abbrev pub is_digit : Char → Bool
is_digit c = leb b'0' (code c) && leb (code c) b'9'

unfoldable pub all_digits : String → Bool
all_digits [] = true
all_digits (c ∷ s) = is_digit c && all_digits s

-- `/^\d+$/.test(s)`
abbrev pub is_number : String → Bool
is_number s = not (s == "") && all_digits s

unfoldable pub digit : ℕ → String
digit n =
    if eqb n 0
    then "0"
    else if eqb n 1
    then "1"
    else if eqb n 2
    then "2"
    else if eqb n 3
    then "3"
    else if eqb n 4
    then "4"
    else if eqb n 5
    then "5"
    else if eqb n 6
    then "6"
    else if eqb n 7
    then "7"
    else if eqb n 8
    then "8"
    else "9"

-- `String(n)`; the number itself is fuel enough.
unfoldable pub decimal_on : ℕ → ℕ → String
decimal_on zero n = digit n
decimal_on (suc fuel) n =
    let rest = decimal_on fuel (n / 10) in
    if ltb n 10 then digit n else rest ++ digit (n - 10 * (n / 10))

abbrev pub decimal : ℕ → String
decimal n = decimal_on n n

-- A hexadecimal digit in either case, or a hyphen.
abbrev pub is_nonce_char : Char → Bool
is_nonce_char c =
    is_digit c
    || (leb b'a' (code c) && leb (code c) b'f'
        || (leb b'A' (code c) && leb (code c) b'F' || eqb (code c) b'-'))

unfoldable pub all_nonce : String → Bool
all_nonce [] = true
all_nonce (c ∷ s) = is_nonce_char c && all_nonce s

abbrev pub is_nonce : String → Bool
is_nonce s = all_nonce s && eqb (utf16_length s) 36
