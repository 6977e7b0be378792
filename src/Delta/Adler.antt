-- ===== src/Delta/Adler.antt =====
-- `delta_adler32`, and the rolling update of `delta_compute_seeded`.
pub mod Rolling
use fast_sync.Prelude.{ℕ, ◌+◌, ◌-◌, ◌*◌, ◌%◌, ◌^◌, bit_or, List, [], ◌∷◌}

abbrev pub adler32_modulus : ℕ
adler32_modulus = 65521

-- The two running sums, `s1` and `s2`.
pub record Sums : Type 0 where
  pub s1 : ℕ
  pub s2 : ℕ

abbrev pub initial : Sums
initial = record { s1 = 1; s2 = 0 }

unfoldable pub add_byte : Sums → ℕ → Sums
add_byte s byte =
    let s1 = (s.s1 + byte) % 2 ^ 32 % adler32_modulus in
    record { s1 = s1; s2 = (s.s2 + s1) % 2 ^ 32 % adler32_modulus }

unfoldable pub add_bytes : List ℕ → Sums → Sums
add_bytes [] s = s
add_bytes (byte ∷ bytes) s = add_bytes bytes (add_byte s byte)

-- `(s2 << 16) | s1`
unfoldable pub digest : Sums → ℕ
digest s = bit_or (s.s2 * 2 ^ 16 % 2 ^ 32) s.s1

unfoldable pub adler32 : List ℕ → ℕ
adler32 bytes = digest (add_bytes bytes initial)

-- The window moves one byte on: `old_byte` leaves it and `new_byte` enters.
unfoldable pub roll : ℕ → ℕ → ℕ → Sums → Sums
roll block_size old_byte new_byte s =
    let s1 = (s.s1 + adler32_modulus - old_byte + new_byte) % 2 ^ 32 % adler32_modulus in
    let leaving = block_size * old_byte % 2 ^ 64 % adler32_modulus in
    record { s1 = s1; s2 = (s.s2 + adler32_modulus - leaving + s1 - 1) % 2 ^ 32 % adler32_modulus }
