-- ===== src/Validation/Bounds.antt =====
-- Sizes of serialized events.
use sentinelmesh.Common.{ℕ, zero, suc, ◌/◌, ◌^◌, ◌≤◌, ◌<◌, arith}
use Prim.Native.Nat.pow
use sentinelmesh.Validation.{digits, number_length}

pub digits-le : (k fuel n : ℕ) → n < 10 ^ suc k → digits fuel n ≤ suc k
unfolding digits
digits-le k zero n h = omega arith
digits-le zero (suc fuel) n h = ground (arith, pow.suc 10 0, pow.zero 10)
digits-le (suc k) (suc fuel) n h = ground (arith, pow.suc 10 (suc k), digits-le k fuel (n / 10))

pub number_length-le : (n : ℕ) → n < 10000000000 → number_length n ≤ 10
number_length-le n h = digits-le 9 n n h
