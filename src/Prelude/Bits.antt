-- ===== src/Prelude/Bits.antt =====
-- Bounds on the bit operations, by the recursion on binary digits that they stand for.
use Prim.Native.Nat.{ℕ, zero, suc, ◌/◌, ◌^◌, ◌≤◌, ◌<◌, min, max}
use Prim.Native.Nat.{bit_and, bit_or, digits, bit_and-bitwise, bit_or-bitwise}
use native.Mathlib.Nat.{pow-suc}
use native.Mathlib.Omega.{arith}

pub and_digits-le : (fuel word mask : ℕ) → digits (λ rest. zero) min fuel word mask ≤ mask
and_digits-le zero word mask = omega arith
and_digits-le (suc fuel) zero mask = omega arith
and_digits-le (suc fuel) (suc word) mask =
    omega (arith, and_digits-le fuel (suc word / 2) (mask / 2))

-- A mask bounds what it lets through.
pub bit_and-le_right : (word mask : ℕ) → bit_and word mask ≤ mask
bit_and-le_right word mask = rw bit_and-bitwise (and_digits-le word word mask)

or_digits-lt :
    (fuel width x y : ℕ)
    → x < 2 ^ width
    → y < 2 ^ width
    → digits (λ rest. rest) max fuel x y < 2 ^ width
or_digits-lt zero width x y below_x below_y = below_y
or_digits-lt (suc fuel) width zero y below_x below_y = below_y
or_digits-lt (suc fuel) zero (suc x) y below_x below_y = absurd (omega arith)
or_digits-lt (suc fuel) (suc width) (suc x) y below_x below_y =
    let double = pow-suc 2 width in
    omega (
      arith,
      double,
      or_digits-lt fuel width (suc x / 2) (y / 2) (omega (arith, double)) (omega (arith, double)),
    )

-- The union of two words fits their width.
pub bit_or-lt_pow : (width x y : ℕ) → x < 2 ^ width → y < 2 ^ width → bit_or x y < 2 ^ width
bit_or-lt_pow width x y below_x below_y =
    rw bit_or-bitwise (or_digits-lt x width x y below_x below_y)
