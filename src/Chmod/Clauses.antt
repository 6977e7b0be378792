-- ===== src/Chmod/Clauses.antt =====
-- Clauses joined by commas, and the bits that a specification leaves alone.
use fast_sync.Prelude.{
  ℕ, ◌+◌, ◌*◌, ◌/◌, ◌%◌, ◌^◌, ◌<◌, ◌≡◌, refl, ap₂, ◌∙◌, List, [], ◌∷◌, ◌++◌, Option, none, some,
  arith, bit_and, bit_or, ◌>>=◌, >>=-eq-some, guard-eq-some, length, ◌==◌, not,
}
use fast_sync.Prelude.Masks.{bit_and-low, bit_and-high, bit_or-add}
use fast_sync.Chmod.Char
use fast_sync.Chmod.{
  chmod_bits, nonperm_mask, fresh_clause, Progress, finish_clause, scan_char, scan, chmod_apply,
}

>>=_assoc :
    {A B C : Type 0} (m : Option A) (f : A → Option B) (g : B → Option C)
    → (m >>= f >>= g) ≡ (m >>= λ a. f a >>= g)
>>=_assoc none f g = refl
>>=_assoc (some a) f g = refl

-- Scanning two specifications that a comma joins is scanning the first, and then the second from a
-- fresh clause and from the bits that the first gives.
pub scan-append :
    (umask mode : ℕ) (xs ys : List ℕ) (st : Progress)
    → scan umask mode (xs ++ (Char.comma ∷ ys)) st ≡ (
        scan umask mode xs st >>= λ changed.
        scan umask mode ys (record { clause = fresh_clause; changed = changed }))
unfolding scan scan_char
scan-append umask mode [] ys st =
    >>=_assoc (finish_clause umask mode st.clause st.changed)
      (λ changed. some (record { clause = fresh_clause; changed = changed })) (scan umask mode ys)
scan-append umask mode (c ∷ xs) ys st =
    step (scan_char umask mode st c) (scan-append umask mode xs ys)
  where
    step :
        (m : Option Progress)
        → ((next : Progress)
            → scan umask mode (xs ++ (Char.comma ∷ ys)) next ≡ (
                scan umask mode xs next >>= λ changed.
                scan umask mode ys (record { clause = fresh_clause; changed = changed })))
        → (m >>= scan umask mode (xs ++ (Char.comma ∷ ys))) ≡ (
            m >>= scan umask mode xs >>= λ changed.
            scan umask mode ys (record { clause = fresh_clause; changed = changed }))
    step none ih = refl
    step (some next) ih = ih next

-- The last line of `chmod_apply`: the permission bits of one word and the others of another.
pub merge_bits :
    (mode changed : ℕ)
    → mode < 2 ^ 32
    → bit_or (bit_and changed chmod_bits) (bit_and mode nonperm_mask)
      ≡ changed % 2 ^ 12 + mode / 2 ^ 12 * 2 ^ 12
merge_bits mode changed h =
    ap₂ bit_or (bit_and-low changed 12) (bit_and-high mode 20 12 h)
    ∙ bit_or-add (changed % 2 ^ 12) 12 (mode / 2 ^ 12) (omega arith)

-- What `chmod_apply` accepts changes none of the bits above the 12 permission bits, so the file's
-- type stays, and the result is a 32-bit mode; for every 32-bit mode.
pub chmod_apply-keeps :
    (umask mode : ℕ) (spec : List ℕ) (result : ℕ)
    → mode < 2 ^ 32
    → chmod_apply umask mode spec ≡ some result
    → (result / 2 ^ 12 ≡ mode / 2 ^ 12) × (result < 2 ^ 32)
unfolding chmod_apply
chmod_apply-keeps umask mode spec result h e =
    let (nonempty, rest) = guard-eq-some (not (length spec == 0)) _ e in
    let (changed, scanned, last) =
      >>=-eq-some (scan umask mode spec (record { clause = fresh_clause; changed = mode })) _
        rest in
    let whole = merge_bits mode changed h in
    let same : bit_or (bit_and changed chmod_bits) (bit_and mode nonperm_mask) ≡ result = cc in
    (omega (arith, whole, same), omega (arith, whole, same))
