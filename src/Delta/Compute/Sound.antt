-- ===== src/Delta/Compute/Sound.antt =====
-- What `compute_seeded` returns stands for the new file.
use fast_sync.Prelude.{
  ℕ, ◌-◌, ◌^◌, ◌≤◌, ◌<◌, ◌≡◌, refl, sym, ap, ◌∙◌, List, [], ◌∷◌, ◌++◌, true, false, none, some, inl,
  inr, arith, length, slice, take, ltb, leb, ◌||◌, if◌then◌else◌, Bool-cases, >>=-eq-some,
  guard-eq-some, append_assoc, append-nil,
}
use fast_sync.Delta.{Env, Instruction, literal, max_instructions}
use fast_sync.Delta.Apply.Exact.{bytes_at, expand, InBounds, AllInBounds}
use fast_sync.Delta.Compute.{Buffer, State, append, ensure_capacity, flush_literal}
use fast_sync.Delta.Compute.Step.{flush_pending}

-- The bytes that the loop has passed and not yet written.
abbrev pub pending : List ℕ → State → List ℕ
pending new_file st =
    if st.has_literal then slice new_file st.literal_start (st.i - st.literal_start) else []

module _ (old_file new_file : List ℕ) (block_size : ℕ) where
  -- What has been written and what is pending make up the part of the new file before `i`.
  pub record IsSound (st : State) : Type 0 where
    pub bound : st.i ≤ length new_file
    pub order : st.has_literal ≡ true → st.literal_start ≤ st.i
    pub covers :
        expand old_file block_size st.buffer.instructions ++ pending new_file st
        ≡ take st.i new_file
    pub in_bounds : AllInBounds old_file block_size st.buffer.instructions

  expand-append :
      (xs ys : List Instruction)
      → expand old_file block_size (xs ++ ys)
        ≡ expand old_file block_size xs ++ expand old_file block_size ys
  expand-append [] ys = refl
  expand-append (x ∷ xs) ys =
      ap (λ t. bytes_at old_file block_size x ++ t) (expand-append xs ys)
      ∙ sym (
          append_assoc (bytes_at old_file block_size x) (expand old_file block_size xs)
            (expand old_file block_size ys))

  pub expand-snoc :
      (xs : List Instruction) (x : Instruction)
      → expand old_file block_size (xs ++ (x ∷ []))
        ≡ expand old_file block_size xs ++ bytes_at old_file block_size x
  expand-snoc xs x =
      expand-append xs (x ∷ [])
      ∙ ap (λ t. expand old_file block_size xs ++ t) (append-nil (bytes_at old_file block_size x))

  pub AllInBounds-snoc :
      (xs : List Instruction) (x : Instruction)
      → AllInBounds old_file block_size xs
      → InBounds old_file block_size x
      → AllInBounds old_file block_size (xs ++ (x ∷ []))
  AllInBounds-snoc [] x h p = (p, tt)
  AllInBounds-snoc (y ∷ xs) x h p = (h.0, AllInBounds-snoc xs x h.1 p)

  module _ (env : Env) where
    pub ensure_capacity-instructions :
        (buf buf' : Buffer)
        → ensure_capacity env buf ≡ some buf'
        → buf'.instructions ≡ buf.instructions
    unfolding ensure_capacity
    ensure_capacity-instructions buf buf' h = ground arith

    flush_literal-instructions :
        (buf buf' : Buffer) (start stop : ℕ)
        → start < stop
        → flush_literal env buf new_file start stop ≡ some buf'
        → buf'.instructions
          ≡ buf.instructions ++ (literal (slice new_file start (stop - start)) ∷ [])
    unfolding flush_literal append
    flush_literal-instructions buf buf' start stop h e =
        elim (Bool-cases
          (ltb (2 ^ 32 - 1) (stop - start) || leb max_instructions (length buf.instructions))) [
            | inl refused ↦ let e' : none ≡ some buf' = rw (goes_on, refused) at e in cc
            | inr fits ↦
                let (room, r, e') = >>=-eq-some _ _ (rw (goes_on, fits) at e) in
                let (granted, e'') =
                  guard-eq-some (env.alloc (stop - start)) (some (written room)) e' in
                let same : written room ≡ buf' = cc in
                ap (λ b. b.instructions) (sym same)
                ∙ ap (λ t. t ++ (literal (slice new_file start (stop - start)) ∷ []))
                    (ensure_capacity-instructions buf room r)
          ]
      where
        goes_on : leb stop start ≡ false
        goes_on = ground arith

        written : Buffer → Buffer
        written b = append b (literal (slice new_file start (stop - start)))

    flush_literal_empty :
        (buf buf' : Buffer) (start : ℕ)
        → flush_literal env buf new_file start start ≡ some buf'
        → buf' ≡ buf
    unfolding flush_literal
    flush_literal_empty buf buf' start e = ground arith

    -- Writing the pending literal leaves nothing pending.
    pub flush_pending-expand :
        (st : State) (stop : ℕ) (buf : Buffer)
        → (st.has_literal ≡ true → st.literal_start ≤ stop)
        → flush_pending env new_file st stop ≡ some buf
        → AllInBounds old_file block_size st.buffer.instructions
        → (expand old_file block_size buf.instructions
            ≡ expand old_file block_size st.buffer.instructions
              ++ (if st.has_literal
                  then slice new_file st.literal_start (stop - st.literal_start)
                  else []))
          × AllInBounds old_file block_size buf.instructions
    flush_pending-expand st stop buf order h b = elim (Bool-cases st.has_literal) [
      | inr e ↦
          let same : st.buffer ≡ buf = let h' : some st.buffer ≡ some buf = rw e at h in cc in
          rw (e, append-nil, ← same) (refl, b)
      | inl e ↦ rw e (flushed (order e) (rw e at h))
    ]
      where
        flushed :
            st.literal_start ≤ stop
            → flush_literal env st.buffer new_file st.literal_start stop ≡ some buf
            → (expand old_file block_size buf.instructions
                ≡ expand old_file block_size st.buffer.instructions
                  ++ slice new_file st.literal_start (stop - st.literal_start))
              × AllInBounds old_file block_size buf.instructions
        flushed o h = elim (Bool-cases (ltb st.literal_start stop)) [
          | inl less ↦
              let same =
                flush_literal-instructions st.buffer buf st.literal_start stop (ground arith) h in
              rw (same, expand-snoc) (refl, AllInBounds-snoc st.buffer.instructions _ b tt)
          | inr not_less ↦
              let e : stop ≡ st.literal_start = ground arith in
              let same = flush_literal_empty st.buffer buf st.literal_start (rw e at h) in
              let zero_left : st.literal_start - st.literal_start ≡ 0 = omega arith in
              rw (same, e, zero_left, append-nil) (refl, b)
        ]
