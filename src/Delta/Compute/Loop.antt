-- ===== src/Delta/Compute/Loop.antt =====
-- The loop keeps what it has written and what is pending equal to what it has passed.
use fast_sync.Prelude.{
  ℕ, zero, suc, ◌+◌, ◌-◌, ◌≤◌, ◌<◌, ◌≡◌, refl, sym, ◌∙◌, List, [], ◌++◌, Bool, false, Option, some,
  inl, inr, arith, length, slice, take, ltb, ◌==◌, if◌then◌else◌, Bool-cases, >>=-eq-some,
  append_assoc, append-nil, slice-slice, take-slice,
}
use fast_sync.Prelude.Bytes.{IsBytes}
use fast_sync.Delta.{Env, Signature, block_match}
use fast_sync.Delta.Adler.{Sums, adler32}
use fast_sync.Delta.Apply.Exact.{bytes_at, expand, InBounds}
use fast_sync.Delta.Compute.{Buffer, State, append, ensure_capacity, advance, step, loop}
use fast_sync.Delta.Compute.Step.{
  IsRolling, literal_state, match_state, flush_pending, advance-literal, advance-match, step-eq,
  step-IsRolling,
}
use fast_sync.Delta.Compute.Sound.{
  IsSound, expand-snoc, AllInBounds-snoc, ensure_capacity-instructions, flush_pending-expand,
}
use fast_sync.Delta.Index.{no_block, Index, find_match}
use fast_sync.Delta.Sign.{window_len}

module _ (env : Env) (old_file new_file : List ℕ) (block_size : ℕ) where
  -- A found block stands for the window.
  abbrev pub Hits : ℕ → ℕ → ℕ → Type 0
  Hits i len found =
      (found == no_block) ≡ false
      → InBounds old_file block_size (block_match found 0 len)
        × (bytes_at old_file block_size (block_match found 0 len) ≡ slice new_file i len)

  literal_state-IsSound :
      (st : State) (valid : Bool) (sums : Sums)
      → st.i < length new_file
      → IsSound old_file new_file block_size st
      → IsSound old_file new_file block_size (literal_state st valid sums)
  literal_state-IsSound st valid sums inside s = record {
    bound = omega arith;
    order = λ e. starts;
    covers = grows ∙ take-slice new_file st.i 1;
    in_bounds = s.in_bounds;
  }
    where
      open s use {covers, order}

      starts : (if st.has_literal then st.literal_start else st.i) ≤ st.i + 1
      starts = ground arith

      written : List ℕ
      written = expand old_file block_size st.buffer.instructions

      grows :
          written
            ++ slice new_file
                (if st.has_literal then st.literal_start else st.i)
                (st.i + 1 - (if st.has_literal then st.literal_start else st.i))
          ≡ take st.i new_file ++ slice new_file st.i 1
      grows = elim (Bool-cases st.has_literal) [
        | inl e ↦
            let start = st.literal_start in
            let below : start ≤ st.i = order e in
            let joined : slice new_file start (st.i - start) ++ slice new_file st.i 1
                ≡ slice new_file start (st.i + 1 - start) =
              let at : start + (st.i - start) ≡ st.i = omega arith in
              let len : st.i - start + 1 ≡ st.i + 1 - start = omega arith in
              let j = slice-slice new_file start (st.i - start) 1 in rw (at, len) at j in
            let c : written ++ slice new_file start (st.i - start) ≡ take st.i new_file =
              rw e at covers in
            rw (e, ← joined, ← append_assoc, c) refl
        | inr e ↦
            let c : written ++ [] ≡ take st.i new_file = rw e at covers in
            let one : st.i + 1 - st.i ≡ 1 = omega arith in rw (e, one, ← c, append-nil) refl
      ]

  match_state-IsSound :
      (st : State) (len found : ℕ) (sums : Sums) (flushed room : Buffer)
      → st.i + len ≤ length new_file
      → IsSound old_file new_file block_size st
      → flush_pending env new_file st st.i ≡ some flushed
      → ensure_capacity env flushed ≡ some room
      → InBounds old_file block_size (block_match found 0 len)
      → bytes_at old_file block_size (block_match found 0 len) ≡ slice new_file st.i len
      → IsSound old_file new_file block_size (match_state st len sums found room)
  unfolding append
  match_state-IsSound st len found sums flushed room inside s f r b e =
      let (same, bounds) =
        flush_pending-expand old_file new_file block_size env st st.i flushed s.order f
          s.in_bounds in
      let kept = ensure_capacity-instructions old_file new_file block_size env flushed room r in
      record {
        bound = inside;
        order = λ e. cc;
        covers =
            rw (append-nil, kept, expand-snoc, e, same, s.covers) (take-slice new_file st.i len);
        in_bounds =
            AllInBounds-snoc old_file new_file block_size room.instructions
              (block_match found 0 len) (rw kept bounds) b;
      }

  pub advance-IsSound :
      (st st' : State) (len found : ℕ) (valid : Bool) (sums : Sums)
      → st.i < length new_file
      → st.i + len ≤ length new_file
      → Hits st.i len found
      → IsSound old_file new_file block_size st
      → advance env new_file st len valid sums found ≡ some st'
      → IsSound old_file new_file block_size st'
  advance-IsSound st st' len found valid sums inside room hits s h =
      elim (Bool-cases (found == no_block)) [
        | inl e ↦
            rw (advance-literal env new_file st st' len found valid sums e h)
              (literal_state-IsSound st valid sums inside s)
        | inr e ↦
            let (flushed, grown, f, r, same) =
              advance-match env new_file st st' len found valid sums e h in
            rw same
              (match_state-IsSound st len found sums flushed grown room s f r (hits e).0 (hits e).1)
      ]

module _ (env : Env) (old_file new_file : List ℕ) (block_size seed : ℕ) (sig : Signature)
    (index : Option Index) (mask : ℕ) (bytes : IsBytes new_file) (positive : 0 < block_size)
    (small : block_size ≤ 65536)
    (hits : (i : ℕ)
      → i < length new_file
      → let len = window_len (length new_file) i block_size in
        Hits env old_file new_file block_size i len (
          find_match env
            (slice new_file i len)
            (adler32 (slice new_file i len))
            seed
            (len == block_size)
            sig.blocks
            index
            mask)) where
  step-IsSound :
      (st st' : State)
      → st.i < length new_file
      → IsRolling new_file block_size st
      → IsSound old_file new_file block_size st
      → step env new_file block_size seed sig index mask st ≡ some st'
      → IsSound old_file new_file block_size st'
  unfolding window_len
  step-IsSound st st' inside r s h =
      let len = window_len (length new_file) st.i block_size in
      advance-IsSound env old_file new_file block_size st st' len _ _ _ inside (ground arith)
        (hits st.i inside) s
        (sym (step-eq env new_file block_size seed sig index mask bytes positive small st inside r)
          ∙ h)

  -- When the loop ends it has passed the whole file.
  pub loop-IsSound :
      (fuel : ℕ) (st st' : State)
      → IsRolling new_file block_size st
      → IsSound old_file new_file block_size st
      → loop env new_file block_size seed sig index mask fuel st ≡ some st'
      → IsSound old_file new_file block_size st' × (st'.i ≡ length new_file)
  unfolding loop
  loop-IsSound zero st st' r s h = cc
  loop-IsSound (suc fuel) st st' r s h = elim (Bool-cases (ltb st.i (length new_file))) [
    | inl e ↦
        let inside : st.i < length new_file = ground arith in
        let (mid, first, rest) = >>=-eq-some _ _ (rw e at h) in
        loop-IsSound fuel mid st'
          (step-IsRolling env new_file block_size seed sig index mask bytes positive small st mid
            inside r first)
          (step-IsSound st mid inside r s first) rest
    | inr e ↦
        let h' : some st ≡ some st' = rw e at h in
        let same : st ≡ st' = cc in
        let at_end : length new_file ≤ st.i = ground arith in
        rw (← same) (s, omega (arith, s.bound))
  ]
