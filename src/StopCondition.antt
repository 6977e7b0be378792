-- ===== src/StopCondition.antt =====
-- src/shared/stop_condition.c: the parsers of `--stop-after` and of the relative and the clock form
-- of `--stop-at`, and the condition that they set up. A string is the list of its bytes; `long` has
-- 64 bits; the current time is not before 1970.
pub mod Minutes
pub mod Deadline
mod Tests
use fast_sync.Prelude.{
  ℕ, zero, suc, ◌+◌, ◌-◌, ◌*◌, ◌/◌, ◌^◌, List, [], ◌∷◌, Bool, true, false, not, ◌&&◌, ◌||◌, Option,
  none, some, ltb, leb, ◌==◌, if◌then◌else◌, guard, ◌>>◌, ◌>>=◌, length, get_or, drop,
}

abbrev pub long_max : ℕ
long_max = 2 ^ 63 - 1

abbrev pub int_max : ℕ
int_max = 2 ^ 31 - 1

abbrev pub is_digit : ℕ → Bool
is_digit c = leb 48 c && leb c 57

-- The loop of `parse_positive_minutes`.
unfoldable pub minutes_loop : ℕ → List ℕ → Option ℕ
minutes_loop v [] = some v
minutes_loop v (c ∷ value) =
    let digit = c - 48 in
    let rest = minutes_loop (v * 10 + digit) value in
    if not (is_digit c) || ltb ((long_max - digit) / 10) v then none else rest

unfoldable pub parse_positive_minutes : List ℕ → Option ℕ
parse_positive_minutes value = do
  guard (not (length value == 0))
  guard (is_digit (get_or value 0 0))
  v ← minutes_loop 0 value
  guard (not (v == 0 || ltb int_max v))
  some v

pub parse_after_minutes : List ℕ → Option ℕ
parse_after_minutes value = parse_positive_minutes value

pub parse_two_digits : ℕ → ℕ → Option ℕ
parse_two_digits a b = do guard (is_digit a && is_digit b); some ((a - 48) * 10 + (b - 48))

-- What `strtol` reads in base 10 from a string that starts with a digit: the number and the rest of
-- the string. `errno` is set when the number is above `LONG_MAX`.
pub record Strtol : Type 0 where
  pub amount : ℕ
  pub end : List ℕ

pub strtol : ℕ → List ℕ → Strtol
strtol v [] = record { amount = v; end = [] }
strtol v (c ∷ p) =
    let rest = strtol (v * 10 + (c - 48)) p in
    if is_digit c then rest else record { amount = v; end = c ∷ p }

-- `s`, `m`, `h` or `d`
pub unit_seconds : ℕ → Option ℕ
unit_seconds unit =
    if unit == 115
    then some 1
    else if unit == 109
    then some 60
    else if unit == 104
    then some 3600
    else if unit == 100
    then some 86400
    else none

-- The form `now+N[smhd]`, from the character after `now+` on.
pub parse_relative : ℕ → List ℕ → Option ℕ
parse_relative now p = do
  guard (is_digit (get_or p 0 0))
  let read = strtol 0 p
  guard (leb read.amount long_max)
  seconds ← unit_seconds (get_or read.end 0 0)
  guard (length read.end == 1)
  guard (leb read.amount (long_max / seconds))
  let delta = read.amount * seconds
  guard (not (ltb 0 now && ltb (long_max - now) delta))
  some (now + delta)

-- `struct tm`, with the date in the one field `date`.
pub record Tm : Type 0 where
  pub date : ℕ
  pub hour : ℕ
  pub min : ℕ
  pub sec : ℕ
  pub isdst : Option ℕ

-- `localtime_r` and `mktime`; a time zone may have no such local time.
pub record Zone : Type 0 where
  pub localtime : ℕ → Option Tm
  pub mktime : Tm → Option ℕ

-- HH:MM or HH:MM:SS on the local day of `now`; -1 in `tm_isdst` is `none`.
pub parse_clock_time : Zone → List ℕ → ℕ → Option ℕ
parse_clock_time zone value now = do
  guard (length value == 5 || length value == 8)
  guard (get_or value 2 0 == 58 && (length value == 5 || get_or value 5 0 == 58))
  hh ← parse_two_digits (get_or value 0 0) (get_or value 1 0)
  mm ← parse_two_digits (get_or value 3 0) (get_or value 4 0)
  ss ← if length value == 8 then parse_two_digits (get_or value 6 0) (get_or value 7 0) else some 0
  guard (leb hh 23 && (leb mm 59 && leb ss 59))
  today ← zone.localtime now
  zone.mktime (record today { hour = hh; min = mm; sec = ss; isdst = none })

pub record Timespec : Type 0 where
  pub tv_sec : ℕ
  pub tv_nsec : ℕ

-- The two deadlines; `none` where `has_monotonic` or `has_wall` is false.
pub record StopCondition : Type 0 where
  pub monotonic_deadline : Option Timespec
  pub wall_deadline : Option ℕ

unfoldable pub make : Bool → ℕ → Bool → ℕ → Timespec → StopCondition
make has_after after_minutes has_at at_time now_mono = record {
  monotonic_deadline =
      if has_after && ltb 0 after_minutes
      then some
          (record { tv_sec = now_mono.tv_sec + after_minutes * 60; tv_nsec = now_mono.tv_nsec })
      else none;
  wall_deadline = if has_at then some at_time else none;
}

abbrev pub at_or_after : Timespec → Timespec → Bool
at_or_after now deadline =
    ltb deadline.tv_sec now.tv_sec
    || now.tv_sec == deadline.tv_sec && leb deadline.tv_nsec now.tv_nsec

-- The results of `time` and of `clock_gettime` are arguments.
unfoldable pub reached : StopCondition → ℕ → Option Timespec → Bool
reached condition wall clock =
    if elim condition.wall_deadline [ none ↦ false | some deadline ↦ leb deadline wall ]
    then true
    else elim condition.monotonic_deadline [
      | none ↦ false
      | some deadline ↦ elim clock [ none ↦ false | some now ↦ at_or_after now deadline ]
    ]
