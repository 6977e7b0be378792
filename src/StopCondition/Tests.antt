-- ===== src/StopCondition/Tests.antt =====
-- `--stop-after=090`, and a condition for 90 minutes.
use fast_sync.Prelude.{◌⊎◌, ℕ, ◌≤◌, ◌<◌, ◌≡◌, ◌↔◌, refl, List, [], ◌∷◌, true, false, none, some}
use fast_sync.StopCondition.{
  int_max, Timespec, make, reached, parse_positive_minutes, parse_relative, strtol, unit_seconds,
  parse_clock_time, parse_two_digits, Zone,
}
use fast_sync.StopCondition.Minutes.{IsDecimal, decimal_value, parse_positive_minutes-eq-some_iff}
use fast_sync.StopCondition.Deadline.{IsNotBefore, reached-make}

abbrev ninety : List ℕ
ninety = 48 ∷ 57 ∷ 48 ∷ []

-- `5m` after `now+`, and the clock time `23:60`.
in_five_minutes : parse_relative 1000 (53 ∷ 109 ∷ []) ≡ some 1300
unfolding parse_relative strtol unit_seconds
in_five_minutes = refl

utc : Zone
utc = record { localtime = λ now. none; mktime = λ tm. none }

bad_minute : parse_clock_time utc (50 ∷ 51 ∷ 58 ∷ 54 ∷ 48 ∷ []) 0 ≡ none
unfolding parse_clock_time parse_two_digits
bad_minute = refl

parse_positive_minutes-eq-some_iff_example :
    (parse_positive_minutes ninety ≡ some 90)
    ↔ (IsDecimal ninety × (decimal_value 0 ninety ≡ 90) × (0 < 90) × (90 ≤ int_max))
parse_positive_minutes-eq-some_iff_example = parse_positive_minutes-eq-some_iff ninety 90

abbrev boot : Timespec
boot = record { tv_sec = 10; tv_nsec = 5 }

abbrev later : Timespec
later = record { tv_sec = 5410; tv_nsec = 5 }

reached-make_example : (reached (make true 90 false 0 boot) 0 (some later) ≡ true) ↔ (
    ((false ≡ true) × (0 ≤ 0))
    ⊎ ((true ≡ true)
        × (0 < 90)
        × ((now : Timespec) × (some later ≡ some now) × IsNotBefore now later)))
reached-make_example = reached-make true false 90 0 0 boot (some later)
