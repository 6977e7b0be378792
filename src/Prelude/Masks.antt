-- ===== src/Prelude/Masks.antt =====
-- What masks of adjacent bits let through, by the recursion on binary digits.
use Prim.Native.Nat.{ℕ, zero, suc, ◌+◌, ◌-◌, ◌*◌, ◌/◌, ◌%◌, ◌^◌, ◌≤◌, ◌<◌, min, max}
use Prim.Native.Nat.{bit_and, bit_or, digits, bit_and-bitwise, bit_or-bitwise}
use fast_sync.Prelude.Bits.{and_digits-le}
use mathlib.Core.Path.{◌≡◌, sym, ap, ◌∙◌}
use native.Mathlib.Nat.{pow-suc, mul_assoc, div-add-mod', mod-lt, one-le-pow, div-lt_iff_lt-mul}
use native.Mathlib.Omega.{arith}

-- A number moved up by one more binary place.
scale-suc : (q w : ℕ) → q * 2 ^ suc w ≡ q * 2 ^ w * 2
scale-suc q w = ap (λ t. q * t) (pow-suc 2 w) ∙ sym (mul_assoc q (2 ^ w) 2)

low_digits :
    (fuel w q r x : ℕ)
    → x ≤ fuel
    → x ≡ q * 2 ^ w + r
    → r < 2 ^ w
    → digits (λ rest. zero) min fuel x (2 ^ w - 1) ≡ r
low_digits zero w q r x h e b = omega arith
low_digits (suc fuel) w q r zero h e b = omega arith
low_digits (suc fuel) zero q r (suc x) h e b = omega (arith, and_digits-le fuel (suc x / 2) 0)
low_digits (suc fuel) (suc w) q r (suc x) h e b =
    let double = pow-suc 2 w in
    let half : (2 ^ suc w - 1) / 2 ≡ 2 ^ w - 1 = omega (arith, double) in
    let rest =
      low_digits fuel w q (r / 2) (suc x / 2) (omega arith) (omega (arith, double, scale-suc q w))
        (omega (arith, double)) in
    rw half (omega (arith, double, rest, scale-suc q w))

-- The low bits.
pub bit_and-low : (x w : ℕ) → bit_and x (2 ^ w - 1) ≡ x % 2 ^ w
bit_and-low x w = rw bit_and-bitwise (
    low_digits x w (x / 2 ^ w) (x % 2 ^ w) x (omega arith) (sym (div-add-mod' x (2 ^ w)))
      (mod-lt x (one-le-pow w 2 (omega arith))))

high_digits :
    (fuel v w q r x : ℕ)
    → x ≤ fuel
    → x ≡ q * 2 ^ w + r
    → r < 2 ^ w
    → q < 2 ^ v
    → digits (λ rest. zero) min fuel x ((2 ^ v - 1) * 2 ^ w) ≡ q * 2 ^ w
high_digits zero v w q r x h e b c = omega arith
high_digits (suc fuel) v w q r zero h e b c = omega arith
high_digits (suc fuel) v zero q r (suc x) h e b c =
    let one : (2 ^ v - 1) * 2 ^ 0 ≡ 2 ^ v - 1 = omega arith in
    rw one (low_digits (suc fuel) v 0 q (suc x) h (omega arith) c ∙ omega arith)
high_digits (suc fuel) v (suc w) q r (suc x) h e b c =
    let scaled = scale-suc (2 ^ v - 1) w in
    let half : (2 ^ v - 1) * 2 ^ suc w / 2 ≡ (2 ^ v - 1) * 2 ^ w = omega (arith, scaled) in
    let even : (2 ^ v - 1) * 2 ^ suc w % 2 ≡ 0 = omega (arith, scaled) in
    let rest =
      high_digits fuel v w q (r / 2) (suc x / 2) (omega arith) (omega (arith, scale-suc q w))
        (omega arith) c in
    rw (half, even) (omega (arith, rest, scale-suc q w))

-- The high bits.
pub bit_and-high :
    (x v w : ℕ) → x < 2 ^ v * 2 ^ w → bit_and x ((2 ^ v - 1) * 2 ^ w) ≡ x / 2 ^ w * 2 ^ w
bit_and-high x v w h = rw bit_and-bitwise (
    high_digits x v w (x / 2 ^ w) (x % 2 ^ w) x (omega arith) (sym (div-add-mod' x (2 ^ w)))
      (mod-lt x (one-le-pow w 2 (omega arith)))
      ((div-lt_iff_lt-mul (one-le-pow w 2 (omega arith))).1 h))

or_digits :
    (fuel w v y : ℕ)
    → v ≤ fuel
    → v < 2 ^ w
    → digits (λ rest. rest) max fuel v (y * 2 ^ w) ≡ v + y * 2 ^ w
or_digits zero w v y h b = omega arith
or_digits (suc fuel) w zero y h b = omega arith
or_digits (suc fuel) zero (suc v) y h b = absurd (omega arith)
or_digits (suc fuel) (suc w) (suc v) y h b =
    let half : y * 2 ^ suc w / 2 ≡ y * 2 ^ w = omega (arith, scale-suc y w) in
    let even : y * 2 ^ suc w % 2 ≡ 0 = omega (arith, scale-suc y w) in
    let rest = or_digits fuel w (suc v / 2) y (omega arith) (omega arith) in
    rw (half, even) (omega (arith, rest, scale-suc y w))

-- Bits that do not meet add up.
pub bit_or-add : (v w y : ℕ) → v < 2 ^ w → bit_or v (y * 2 ^ w) ≡ v + y * 2 ^ w
bit_or-add v w y b = rw bit_or-bitwise (or_digits v w v y (omega arith) b)
