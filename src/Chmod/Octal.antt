-- ===== src/Chmod/Octal.antt =====
-- Octal specifications.
use native.Mathlib.Nat.{mod-eq_of_lt}
use fast_sync.Prelude.{
  ℕ, ◌+◌, ◌-◌, ◌*◌, ◌/◌, ◌%◌, ◌^◌, ◌≤◌, ◌<◌, ◌≡◌, refl, ap, ◌∙◌, List, [], ◌∷◌, true, false, none,
  some, arith, bit_and, bit_or, length, ◌==◌, ltb, inl, inr, if◌then◌else◌, Bool-cases,
}
use fast_sync.Prelude.Masks.{bit_or-add}
use fast_sync.Prelude.Bits.{bit_and-le_right}
use fast_sync.Chmod.Char
use fast_sync.Chmod.{
  Clause, fresh_clause, finish_clause, scan_char, scan, chmod_apply, octal, op_set, is_octal_digit,
  octal_char, first_half_char, clause_char, mode_and, mode_or, clause_bits,
}
use fast_sync.Chmod.Clauses.{merge_bits}

-- The characters of octal digits, and the number that they write after `value`.
abbrev pub IsOctal : List ℕ → Type 0
IsOctal [] = Unit {0}
IsOctal (c ∷ cs) = (48 ≤ c) × (c ≤ 55) × IsOctal cs

abbrev pub octal_value : ℕ → List ℕ → ℕ
octal_value value [] = value
octal_value value (c ∷ cs) = octal_value (value * 8 + (c - 48)) cs

octal_value-le : (value : ℕ) (cs : List ℕ) → value ≤ octal_value value cs
octal_value-le value [] = omega arith
octal_value-le value (c ∷ cs) = omega (arith, octal_value-le (value * 8 + (c - 48)) cs)

abbrev octal_clause : ℕ → Clause
octal_clause value = record fresh_clause { state = octal; op = op_set; who = 1; what = value }

octal_char-eq :
    (value c : ℕ)
    → 48 ≤ c
    → c ≤ 55
    → octal_char (octal_clause value) c ≡ (
        if ltb 4095 (value * 8 + (c - 48))
        then none
        else some (octal_clause (value * 8 + (c - 48))))
unfolding octal_char
octal_char-eq value c h k = let digit : is_octal_digit c ≡ true = ground arith in rw digit refl

finish-octal :
    (umask mode value changed : ℕ)
    → finish_clause umask mode (octal_clause value) changed
      ≡ some (bit_or (bit_and changed 0) (1 * value))
unfolding finish_clause mode_and mode_or clause_bits
finish-octal umask mode value changed = refl

scan-octal :
    (umask mode value changed : ℕ) (cs : List ℕ)
    → IsOctal cs
    → value ≤ 4095
    → scan umask mode cs (record { clause = octal_clause value; changed = changed }) ≡ (
        if ltb 4095 (octal_value value cs)
        then none
        else some (bit_or (bit_and changed 0) (1 * octal_value value cs)))
unfolding scan scan_char clause_char
scan-octal umask mode value changed [] o h =
    let small : ltb 4095 value ≡ false = ground arith in
    rw small (finish-octal umask mode value changed)
scan-octal umask mode value changed (c ∷ cs) o h =
    let no_comma : (c == Char.comma) ≡ false = ground arith in
    let next = value * 8 + (c - 48) in
    elim (Bool-cases (ltb 4095 next)) [
      | inl big ↦
          let all : ltb 4095 (octal_value next cs) ≡ true =
            ground (arith, octal_value-le next cs) in
          rw (no_comma, octal_char-eq value c o.0 o.1, big, all) refl
      | inr small ↦
          rw (no_comma, octal_char-eq value c o.0 o.1, small)
            (scan-octal umask mode next changed cs o.2 (ground arith))
    ]

first_digit :
    (c : ℕ) → 48 ≤ c → c ≤ 55 → first_half_char fresh_clause c ≡ some (octal_clause (c - 48))
unfolding first_half_char
first_digit c h k =
    let upper_d : (c == 68) ≡ false = ground arith in
    let upper_f : (c == 70) ≡ false = ground arith in
    let u : (c == 117) ≡ false = ground arith in
    let g : (c == 103) ≡ false = ground arith in
    let o : (c == 111) ≡ false = ground arith in
    let a : (c == 97) ≡ false = ground arith in
    let plus : (c == 43) ≡ false = ground arith in
    let minus : (c == 45) ≡ false = ground arith in
    let equals : (c == 61) ≡ false = ground arith in
    let digit : is_octal_digit c ≡ true = ground arith in
    rw (upper_d, upper_f, u, g, o, a, plus, minus, equals, digit) refl

set_bits : (changed value : ℕ) → bit_or (bit_and changed 0) (1 * value) ≡ value
set_bits changed value =
    let none_left : bit_and changed 0 ≡ 0 = omega (arith, bit_and-le_right changed 0) in
    let scaled : 1 * value ≡ value * 2 ^ 0 = omega arith in
    rw (none_left, scaled) (bit_or-add 0 0 value (omega arith) ∙ omega arith)

scan-octal_digits :
    (umask mode changed c : ℕ) (cs : List ℕ)
    → IsOctal (c ∷ cs)
    → scan umask mode (c ∷ cs) (record { clause = fresh_clause; changed = changed })
      ≡ (if ltb 4095 (octal_value 0 (c ∷ cs)) then none else some (octal_value 0 (c ∷ cs)))
unfolding scan scan_char clause_char
scan-octal_digits umask mode changed c cs o =
    let no_comma : (c == Char.comma) ≡ false = ground arith in
    let start : 0 * 8 + (c - 48) ≡ c - 48 = omega arith in
    rw (no_comma, first_digit c o.0 o.1, start)
      (scan-octal umask mode (c - 48) changed cs o.2 (omega (arith, o.1))
        ∙ ap (λ v. if ltb 4095 (octal_value (c - 48) cs) then none else some v)
            (set_bits changed (octal_value (c - 48) cs)))

-- A specification of octal digits is refused when it writes a number above 07777; otherwise the
-- number becomes the permission bits and the other bits of the mode stay, whatever the umask; for
-- every 32-bit mode.
pub chmod_apply-octal :
    (umask mode c : ℕ) (cs : List ℕ)
    → IsOctal (c ∷ cs)
    → mode < 2 ^ 32
    → chmod_apply umask mode (c ∷ cs) ≡ (
        if ltb 4095 (octal_value 0 (c ∷ cs))
        then none
        else some (octal_value 0 (c ∷ cs) + mode / 2 ^ 12 * 2 ^ 12))
unfolding chmod_apply
chmod_apply-octal umask mode c cs o h =
    let nonempty : (length (c ∷ cs) == 0) ≡ false = ground arith in
    rw (nonempty, scan-octal_digits umask mode mode c cs o)
      (elim (Bool-cases (ltb 4095 (octal_value 0 (c ∷ cs)))) [
        | inl big ↦ rw big refl
        | inr small ↦
            let low : octal_value 0 (c ∷ cs) % 2 ^ 12 ≡ octal_value 0 (c ∷ cs) =
              mod-eq_of_lt (ground arith) in
            rw small (
              ap some (
                merge_bits mode (octal_value 0 (c ∷ cs)) h
                ∙ ap (λ v. v + mode / 2 ^ 12 * 2 ^ 12) low))
      ])
