-- ===== src/Chmod/Tests.antt =====
-- `chmod_apply` on a regular file, 0100644, and on a directory, 040755, with the umask 022.
use fast_sync.Prelude.{
  ℕ, ◌+◌, ◌*◌, ◌/◌, ◌^◌, ◌<◌, ◌≡◌, refl, List, [], ◌∷◌, ◌++◌, none, some, arith, ◌>>=◌,
  if◌then◌else◌, ltb,
}
use fast_sync.Chmod.{
  fresh_clause, chmod_apply, scan, scan_char, finish_clause, clause_char, first_half_char,
  second_half_char, octal_char, mode_and, mode_or, clause_bits,
}
use fast_sync.Chmod.Clauses.{scan-append, chmod_apply-keeps}
use fast_sync.Chmod.Octal.{octal_value, chmod_apply-octal}

-- `u+x`, `go-r`, `600`
abbrev user_executes : List ℕ
user_executes = 117 ∷ 43 ∷ 120 ∷ []

abbrev others_cannot_read : List ℕ
others_cannot_read = 103 ∷ 111 ∷ 45 ∷ 114 ∷ []

joined_clauses : chmod_apply 18 33188 (user_executes ++ (44 ∷ others_cannot_read)) ≡ some 33216
unfolding chmod_apply scan scan_char finish_clause clause_char first_half_char second_half_char
    mode_and mode_or clause_bits
joined_clauses = refl

private_file : chmod_apply 18 33188 (54 ∷ 48 ∷ 48 ∷ []) ≡ some 33152
unfolding chmod_apply scan scan_char finish_clause clause_char first_half_char octal_char mode_and
    mode_or clause_bits
private_file = refl

-- `D+x` leaves a file alone, and `DF+x` is refused.
dirs_only : chmod_apply 18 33188 (68 ∷ 43 ∷ 120 ∷ []) ≡ some 33188
unfolding chmod_apply scan scan_char finish_clause clause_char first_half_char second_half_char
    mode_and mode_or clause_bits
dirs_only = refl

both_selectors : chmod_apply 18 33188 (68 ∷ 70 ∷ 43 ∷ 120 ∷ []) ≡ none
unfolding chmod_apply scan scan_char clause_char first_half_char
both_selectors = refl

scan-append_example :
    scan 18 33188
      (user_executes ++ (44 ∷ others_cannot_read))
      (record { clause = fresh_clause; changed = 33188 })
    ≡ (scan 18 33188 user_executes (record { clause = fresh_clause; changed = 33188 })
        >>= λ changed.
            scan 18 33188 others_cannot_read (record { clause = fresh_clause; changed = changed }))
scan-append_example =
    scan-append 18 33188 user_executes others_cannot_read
      (record { clause = fresh_clause; changed = 33188 })

chmod_apply-keeps_example : (33152 / 2 ^ 12 ≡ 33188 / 2 ^ 12) × (33152 < 2 ^ 32)
chmod_apply-keeps_example =
    chmod_apply-keeps 18 33188 (54 ∷ 48 ∷ 48 ∷ []) 33152 (omega arith) private_file

chmod_apply-octal_example : chmod_apply 18 33188 (54 ∷ 48 ∷ 48 ∷ []) ≡ (
    if ltb 4095 (octal_value 0 (54 ∷ 48 ∷ 48 ∷ []))
    then none
    else some (octal_value 0 (54 ∷ 48 ∷ 48 ∷ []) + 33188 / 2 ^ 12 * 2 ^ 12))
chmod_apply-octal_example =
    chmod_apply-octal 18 33188 54 (48 ∷ 48 ∷ [])
      (omega arith, omega arith, (omega arith, omega arith, (omega arith, omega arith, tt)))
      (omega arith)
