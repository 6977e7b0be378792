-- ===== src/Chmod.antt =====
-- src/shared/chmod.c: the parser of `--chmod`, which applies each clause as it is completed. A
-- specification is the list of its bytes, a mode is below 2 ^ 32.
pub mod Char
pub mod Clauses
pub mod Octal
mod Tests
use fast_sync.Prelude.{
  ℕ, zero, suc, ◌+◌, ◌-◌, ◌*◌, ◌^◌, List, [], ◌∷◌, Bool, true, false, not, ◌&&◌, ◌||◌, Option, none,
  some, bit_and, bit_or, ltb, leb, ◌==◌, if◌then◌else◌, guard, ◌>>◌, ◌>>=◌, length,
}
use fast_sync.Chmod.Char

-- `CHMOD_BITS`, 07777, and its complement in a `mode_t`.
abbrev pub chmod_bits : ℕ
chmod_bits = 4095

abbrev pub nonperm_mask : ℕ
nonperm_mask = (2 ^ 20 - 1) * 2 ^ 12

-- `enum chmod_op`, with `op_none` for 0.
pub data ChmodOp : Type 0 where
  op_none op_add op_sub op_eq op_set : ChmodOp

-- `enum chmod_state`; the error state is a result of `none`.
pub data ChmodState : Type 0 where
  first_half second_half octal : ChmodState

-- The variables that a comma resets; the three bits of `flags` are the last three fields.
pub record Clause : Type 0 where
  pub state : ChmodState
  pub who : ℕ
  pub what : ℕ
  pub op : ChmodOp
  pub topbits : ℕ
  pub topoct : ℕ
  pub dirs_only : Bool
  pub files_only : Bool
  pub x_keep : Bool

abbrev pub fresh_clause : Clause
fresh_clause = record {
  state = first_half;
  who = 0;
  what = 0;
  op = op_none;
  topbits = 0;
  topoct = 0;
  dirs_only = false;
  files_only = false;
  x_keep = false;
}

abbrev pub is_octal_digit : ℕ → Bool
is_octal_digit c = leb Char.digit_0 c && leb c Char.digit_7

-- `CHMOD_STATE_1ST_HALF`; `who` is the source's `where`.
unfoldable pub first_half_char : Clause → ℕ → Option Clause
first_half_char k c =
    if c == Char.upper_d
    then (if k.files_only then none else some (record k { dirs_only = true }))
    else if c == Char.upper_f
    then (if k.dirs_only then none else some (record k { files_only = true }))
    else if c == Char.u
    then some (record k { who = bit_or k.who 64; topbits = bit_or k.topbits 2048 })
    else if c == Char.g
    then some (record k { who = bit_or k.who 8; topbits = bit_or k.topbits 1024 })
    else if c == Char.o
    then some (record k { who = bit_or k.who 1 })
    else if c == Char.a
    then some (record k { who = bit_or k.who 73 })
    else if c == Char.plus
    then some (record k { op = op_add; state = second_half })
    else if c == Char.minus
    then some (record k { op = op_sub; state = second_half })
    else if c == Char.equals
    then some (record k { op = op_eq; state = second_half })
    else if is_octal_digit c && k.who == 0
    then some (record k { op = op_set; state = octal; who = 1; what = c - Char.digit_0 })
    else none

-- `CHMOD_STATE_2ND_HALF`
unfoldable pub second_half_char : Clause → ℕ → Option Clause
second_half_char k c =
    if c == Char.r
    then some (record k { what = bit_or k.what 4 })
    else if c == Char.w
    then some (record k { what = bit_or k.what 2 })
    else if c == Char.upper_x
    then some (record k { x_keep = true; what = bit_or k.what 1 })
    else if c == Char.x
    then some (record k { what = bit_or k.what 1 })
    else if c == Char.s
    then some (record k { topoct = if k.topbits == 0 then 2048 else bit_or k.topoct k.topbits })
    else if c == Char.t
    then some (record k { topoct = bit_or k.topoct 512 })
    else none

-- `CHMOD_STATE_OCTAL`
unfoldable pub octal_char : Clause → ℕ → Option Clause
octal_char k c =
    if is_octal_digit c
    then (let value = k.what * 8 + (c - Char.digit_0) in
        if ltb chmod_bits value then none else some (record k { what = value }))
    else none

unfoldable pub clause_char : Clause → ℕ → Option Clause
clause_char k c = elim k.state [
  | first_half ↦ first_half_char k c
  | second_half ↦ second_half_char k c
  | octal ↦ octal_char k c
]

-- `S_ISDIR`
abbrev pub is_dir : ℕ → Bool
is_dir mode = bit_and mode 61440 == 16384

-- `where * what`, which the umask restricts when nobody is named.
unfoldable pub clause_bits : ℕ → Clause → ℕ
clause_bits umask k =
    if k.who == 0 then bit_and (73 * k.what) (2 ^ 32 - 1 - umask) else k.who * k.what

-- The masks of the `switch` over `op`.
unfoldable pub mode_and : Clause → ℕ → ℕ
mode_and k bits =
    let who = if k.who == 0 then 73 else k.who in
    elim k.op [
      | op_none ↦ 0
      | op_add ↦ chmod_bits
      | op_sub ↦ chmod_bits - bits - k.topoct
      | op_eq ↦ chmod_bits - who * 7 - (if k.topoct == 0 then 0 else k.topbits)
      | op_set ↦ 0
    ]

unfoldable pub mode_or : Clause → ℕ → ℕ
mode_or k bits = elim k.op [
  | op_none ↦ bits
  | op_add ↦ bits + k.topoct
  | op_sub ↦ 0
  | op_eq ↦ bits + k.topoct
  | op_set ↦ bits
]

-- What the end of a clause makes of `changed`.
unfoldable pub finish_clause : ℕ → ℕ → Clause → ℕ → Option ℕ
finish_clause umask mode k changed =
    let bits = clause_bits umask k in
    let initially_executable = not (bit_and mode 73 == 0) in
    let dir = is_dir (bit_and mode nonperm_mask) in
    let applies = not (k.dirs_only && not dir) && not (k.files_only && dir) in
    let or_mask =
      if k.x_keep && not initially_executable && not dir
      then bit_and (mode_or k bits) (2 ^ 32 - 1 - 73)
      else mode_or k bits in
    elim k.op [
      | op_none ↦ none
      | _ ↦ some (if applies then bit_or (bit_and changed (mode_and k bits)) or_mask else changed)
    ]

-- One character: it completes a clause or belongs to one.
pub record Progress : Type 0 where
  pub clause : Clause
  pub changed : ℕ

unfoldable pub scan_char : ℕ → ℕ → Progress → ℕ → Option Progress
scan_char umask mode st c =
    if c == Char.comma
    then (do
      changed ← finish_clause umask mode st.clause st.changed
      some (record { clause = fresh_clause; changed = changed }))
    else do
      clause ← clause_char st.clause c
      some (record { clause = clause; changed = st.changed })

-- The loop, to the end of the string.
unfoldable pub scan : ℕ → ℕ → List ℕ → Progress → Option ℕ
scan umask mode [] st = finish_clause umask mode st.clause st.changed
scan umask mode (c ∷ spec) st = scan_char umask mode st c >>= scan umask mode spec

unfoldable pub chmod_apply : ℕ → ℕ → List ℕ → Option ℕ
chmod_apply umask mode spec = do
  guard (not (length spec == 0))
  changed ← scan umask mode spec (record { clause = fresh_clause; changed = mode })
  some (bit_or (bit_and changed chmod_bits) (bit_and mode nonperm_mask))
