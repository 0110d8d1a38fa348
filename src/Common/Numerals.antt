-- ===== src/Common/Numerals.antt =====
-- A number that is written in decimal is read as it was.
use Prim.Native.Nat.{ℕ, zero, suc, ◌+◌, ◌-◌, ◌*◌, ◌/◌, ◌≤◌, ◌<◌}
use Prim.Native.Char.{Char, code}
use Prim.Native.String.{String, [], ◌∷◌, ◌++◌}
use mathlib.Core.Path.{◌≡◌, refl, ◌∙◌}
use mathlib.Core.Bool.{true, false}
use mathlib.Core.Logic.{inl, inr}
use native.Mathlib.Omega.{arith}
use text.Mathlib.Text.{◌==◌}
use text.Mathlib.TextLemmas.{nil-append, cons-append, cons≢nil}
use text.Mathlib.TextEquality.{eq_iff}
use sentinelmesh.Common.Tests.{ltb, Bool-cases}
use sentinelmesh.Common.Decimals.{number_from, all_digits, is_number, digit, decimal_on, decimal}

number_from-append :
    (k : ℕ) (s t : String) → number_from k (s ++ t) ≡ number_from (number_from k s) t
unfolding number_from
number_from-append k [] t = rw (nil-append t) refl
number_from-append k (c ∷ s) t =
    rw (cons-append c s t) (number_from-append (10 * k + (code c - 48)) s t)

all_digits-append :
    (s t : String) → all_digits s ≡ true → all_digits t ≡ true → all_digits (s ++ t) ≡ true
unfolding all_digits
all_digits-append [] t h k = rw (nil-append t) k
all_digits-append (c ∷ s) t h k = rw (cons-append c s t) (ground (arith, all_digits-append s t))

-- Every digit has its value.
number_from-digit :
    (k d : ℕ)
    → d < 10
    → (number_from k (digit d) ≡ 10 * k + d)
      × (all_digits (digit d) ≡ true)
      × ((digit d == "") ≡ false)
unfolding number_from digit all_digits
number_from-digit k zero h = (omega arith, refl, refl)
number_from-digit k (suc zero) h = (omega arith, refl, refl)
number_from-digit k (suc (suc zero)) h = (omega arith, refl, refl)
number_from-digit k (suc (suc (suc zero))) h = (omega arith, refl, refl)
number_from-digit k (suc (suc (suc (suc zero)))) h = (omega arith, refl, refl)
number_from-digit k (suc (suc (suc (suc (suc zero))))) h = (omega arith, refl, refl)
number_from-digit k (suc (suc (suc (suc (suc (suc zero)))))) h = (omega arith, refl, refl)
number_from-digit k (suc (suc (suc (suc (suc (suc (suc zero))))))) h = (omega arith, refl, refl)
number_from-digit k (suc (suc (suc (suc (suc (suc (suc (suc zero)))))))) h =
    (omega arith, refl, refl)
number_from-digit k (suc (suc (suc (suc (suc (suc (suc (suc (suc zero))))))))) h =
    (omega arith, refl, refl)
number_from-digit k (suc (suc (suc (suc (suc (suc (suc (suc (suc (suc d)))))))))) h =
    absurd (omega (arith, h))

is_empty-append : (s t : String) → (t == "") ≡ false → (s ++ t == "") ≡ false
is_empty-append [] t h = rw (nil-append t) h
is_empty-append (c ∷ s) t h = rw (cons-append c s t) (filled c (s ++ t))
  where
    filled : (c : Char) (s : String) → (c ∷ s == "") ≡ false
    filled c s = elim (Bool-cases (c ∷ s == "")) [
      | inl y ↦ absurd (cons≢nil ((eq_iff (c ∷ s) "").0 y))
      | inr n ↦ n
    ]

number_from-decimal_on :
    (fuel n : ℕ)
    → n ≤ fuel
    → (number_from 0 (decimal_on fuel n) ≡ n) × (is_number (decimal_on fuel n) ≡ true)
unfolding decimal_on
number_from-decimal_on zero n h =
    let (a, b, c) = number_from-digit 0 n (omega (arith, h)) in
    (omega (arith, a), ground (arith, b, c))
number_from-decimal_on (suc fuel) n h = elim (Bool-cases (ltb n 10)) [
  | inl short ↦
      let (a, b, c) = number_from-digit 0 n (ground (arith, short)) in
      rw (short, decimal_on) (ground (arith, a), ground (arith, b, c))
  | inr long ↦
      let (a, b) = number_from-decimal_on fuel (n / 10) (omega (arith, h)) in
      let (c, d, e) =
        number_from-digit (number_from 0 (decimal_on fuel (n / 10))) (n - 10 * (n / 10))
          (omega arith) in
      rw (long, decimal_on)
        (
          number_from-append 0 (decimal_on fuel (n / 10)) (digit (n - 10 * (n / 10)))
              ∙ c
              ∙ omega (arith, a),
          ground (
            arith,
            all_digits-append (decimal_on fuel (n / 10)) (digit (n - 10 * (n / 10))),
            is_empty-append (decimal_on fuel (n / 10)) (digit (n - 10 * (n / 10))) e,
            b,
            d,
          ),
        )
]

pub number_from-decimal : (n : ℕ) → (number_from 0 (decimal n) ≡ n) × (is_number (decimal n) ≡ true)
number_from-decimal n = number_from-decimal_on n n (omega arith)
