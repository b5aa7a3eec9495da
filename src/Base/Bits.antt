-- ===== src/Base/Bits.antt =====
-- Bounds on `bit_and` and `bit_or` at variables.
use Prim.Native.Nat.{digits, bit_and-bitwise}
use hirpdag.Base.{ℕ, zero, suc, ◌/◌, ◌≤◌, min, bit_and, arith}

and_digits-le : (n a b : ℕ) → digits (λ _. zero) min n a b ≤ b
and_digits-le zero a b = omega arith
and_digits-le (suc n) zero b = omega arith
and_digits-le (suc n) (suc a) b = omega (arith, and_digits-le n (suc a / 2) (b / 2))

-- A masked value is at most the mask.
pub bit_and-le : (a b : ℕ) → bit_and a b ≤ b
bit_and-le a b = rw bit_and-bitwise (and_digits-le a a b)
