-- ===== src/StopCondition/Minutes.antt =====
-- What `--stop-after` accepts.
use fast_sync.Prelude.{
  ℕ, ◌+◌, ◌-◌, ◌*◌, ◌/◌, ◌≤◌, ◌<◌, ◌≡◌, ◌↔◌, ◌⊎◌, inl, inr, refl, sym, ap, ◌∙◌, List, [], ◌∷◌, Bool,
  true, false, not, ◌||◌, Option, none, some, arith, ltb, ◌==◌, if◌then◌else◌, length, get_or,
  Bool-cases, guard-eq-some, >>=-eq-some,
}
use fast_sync.StopCondition.{long_max, int_max, is_digit, minutes_loop, parse_positive_minutes}

-- The characters of decimal digits, and the number that they write after `v`.
abbrev pub IsDecimal : List ℕ → Type 0
IsDecimal [] = Unit {0}
IsDecimal (c ∷ cs) = (48 ≤ c) × (c ≤ 57) × IsDecimal cs

abbrev pub decimal_value : ℕ → List ℕ → ℕ
decimal_value v [] = v
decimal_value v (c ∷ cs) = decimal_value (v * 10 + (c - 48)) cs

decimal_value-le : (v : ℕ) (cs : List ℕ) → v ≤ decimal_value v cs
decimal_value-le v [] = omega arith
decimal_value-le v (c ∷ cs) = omega (arith, decimal_value-le (v * 10 + (c - 48)) cs)

-- The test on one character: a digit that the `long` has room for.
digit_fits :
    (v c : ℕ)
    → ((48 ≤ c)
        × (c ≤ 57)
        × (v * 10 + (c - 48) ≤ long_max)
        × ((not (is_digit c) || ltb ((long_max - (c - 48)) / 10) v) ≡ false))
      ⊎ (((not (is_digit c) || ltb ((long_max - (c - 48)) / 10) v) ≡ true)
          × ((48 ≤ c) → (c ≤ 57) → long_max < v * 10 + (c - 48)))
digit_fits v c = elim (Bool-cases (not (is_digit c) || ltb ((long_max - (c - 48)) / 10) v)) [
  | inl e ↦ inr (e, ground arith)
  | inr e ↦ inl (ground arith, ground arith, ground arith, e)
]

loop_sound :
    (v : ℕ) (cs : List ℕ) (w : ℕ)
    → minutes_loop v cs ≡ some w
    → IsDecimal cs × (decimal_value v cs ≡ w)
unfolding minutes_loop
loop_sound v [] w h = (tt, cc)
loop_sound v (c ∷ cs) w h = elim (digit_fits v c) [
  | inl (low, high, fits, e) ↦
      let (digits, value) = loop_sound (v * 10 + (c - 48)) cs w (sym (rest e) ∙ h) in
      ((low, high, digits), value)
  | inr (e, over) ↦ none_of (sym (stop e) ∙ h)
]
  where
    test : Bool → Option ℕ
    test b = if b then none else minutes_loop (v * 10 + (c - 48)) cs

    rest :
        (not (is_digit c) || ltb ((long_max - (c - 48)) / 10) v) ≡ false
        → test (not (is_digit c) || ltb ((long_max - (c - 48)) / 10) v)
          ≡ minutes_loop (v * 10 + (c - 48)) cs
    rest e = ap test e

    stop :
        (not (is_digit c) || ltb ((long_max - (c - 48)) / 10) v) ≡ true
        → test (not (is_digit c) || ltb ((long_max - (c - 48)) / 10) v) ≡ none
    stop e = ap test e

    none_of : none ≡ some w → IsDecimal (c ∷ cs) × (decimal_value v (c ∷ cs) ≡ w)
    none_of e = cc

loop_complete :
    (v : ℕ) (cs : List ℕ)
    → IsDecimal cs
    → decimal_value v cs ≤ long_max
    → minutes_loop v cs ≡ some (decimal_value v cs)
unfolding minutes_loop
loop_complete v [] d h = refl
loop_complete v (c ∷ cs) d h = elim (digit_fits v c) [
  | inl (low, high, fits, e) ↦ rw e (loop_complete (v * 10 + (c - 48)) cs d.2 h)
  | inr (e, over) ↦ absurd (omega (arith, over d.0 d.1, decimal_value-le (v * 10 + (c - 48)) cs))
]

-- The first two tests of `parse_positive_minutes` hold of what the loop reads as a positive number.
guards_hold :
    (cs : List ℕ)
    → IsDecimal cs
    → 0 < decimal_value 0 cs
    → ((not (length cs == 0)) ≡ true) × (is_digit (get_or cs 0 0) ≡ true)
guards_hold [] d h = absurd (omega arith)
guards_hold (c ∷ cs) d h = let low = d.0 in let high = d.1 in (ground arith, ground arith)

-- `parse_positive_minutes`, so `--stop-after`, accepts exactly the strings of decimal digits that
-- write a number from 1 to INT_MAX, and gives that number; the test for overflow refuses none of
-- them, whatever the number of leading zeros.
pub parse_positive_minutes-eq-some_iff :
    (value : List ℕ) (v : ℕ)
    → (parse_positive_minutes value ≡ some v)
      ↔ (IsDecimal value × (decimal_value 0 value ≡ v) × (0 < v) × (v ≤ int_max))
unfolding parse_positive_minutes
parse_positive_minutes-eq-some_iff value v = (
  λ h.
      let (nonempty, a) = guard-eq-some (not (length value == 0)) _ h in
      let (first, b) = guard-eq-some (is_digit (get_or value 0 0)) _ a in
      let (w, read, c) = >>=-eq-some (minutes_loop 0 value) _ b in
      let (range, last) = guard-eq-some (not (w == 0 || ltb int_max w)) _ c in
      let (digits, value_eq) = loop_sound 0 value w read in
      let same : w ≡ v = cc in
      let bounds = in_range w range in
      (digits, value_eq ∙ same, omega (arith, bounds.0, same), omega (arith, bounds.1, same)),
  λ c.
      let (nonempty, first) = guards_hold value c.0 (omega (arith, c.1, c.2)) in
      let read = loop_complete 0 value c.0 (omega (arith, c.1, c.3)) ∙ ap some c.1 in
      let range : not (v == 0 || ltb int_max v) ≡ true = ground (arith, c.2, c.3) in
      rw (nonempty, first, read, range) refl,
)
  where
    in_range : (w : ℕ) → not (w == 0 || ltb int_max w) ≡ true → (0 < w) × (w ≤ int_max)
    in_range w h = (ground arith, ground arith)
