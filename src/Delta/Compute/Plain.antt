-- ===== src/Delta/Compute/Plain.antt =====
-- The loop of `delta_compute_seeded` against a loop that never rolls: it takes the Adler-32 checksum of
-- every window from the window's own bytes, and carries neither sums nor `rolling_valid`.
use fast_sync.Prelude.{
  ℕ, zero, suc, ◌+◌, ◌≤◌, ◌<◌, ◌≡◌, refl, ap, ◌∙◌, sym, List, Bool, true, false, Option, none, some,
  length, slice, ltb, ltb→lt, ◌==◌, if◌then◌else◌, ◌>>=◌, inl, inr, Bool-cases,
}
use fast_sync.Prelude.Bytes.{IsBytes}
use fast_sync.Delta.{Env, Signature, block_match}
use fast_sync.Delta.Adler.{Sums, adler32}
use fast_sync.Delta.Index.{no_block, Index, find_match}
use fast_sync.Delta.Sign.{window_len}
use fast_sync.Delta.Compute.{
  Buffer, State, append, flush_literal, ensure_capacity, advance, step, loop, start_state,
}
use fast_sync.Delta.Compute.Step.{IsRolling, step-eq, step-IsRolling}

-- What is left of the loop's variables: the position, the start of the literal that is not yet written,
-- if there is one, and the instructions.
pub record Plain : Type 0 where
  pub i : ℕ
  pub has_literal : Bool
  pub literal_start : ℕ
  pub buffer : Buffer

abbrev pub forget : State → Plain
forget st = record {
  i = st.i;
  has_literal = st.has_literal;
  literal_start = st.literal_start;
  buffer = st.buffer;
}

abbrev pub forget_all : Option State → Option Plain
forget_all none = none
forget_all (some st) = some (forget st)

abbrev plain_match : Plain → ℕ → ℕ → Buffer → Option Buffer → Option Plain
plain_match p len found flushed none = none
plain_match p len found flushed (some room) = some (record {
  i = p.i + len;
  has_literal = false;
  literal_start = p.literal_start;
  buffer = append room (block_match found 0 len);
})

abbrev plain_flushed : Env → Plain → ℕ → ℕ → Option Buffer → Option Plain
plain_flushed env p len found none = none
plain_flushed env p len found (some flushed) =
    plain_match p len found flushed (ensure_capacity env flushed)

-- One byte more of a literal, or the literal before the block and then the block.
abbrev plain_advance : Env → List ℕ → Plain → ℕ → ℕ → Option Plain
plain_advance env new_file p len found =
    if found == no_block
    then some (record {
      i = p.i + 1;
      has_literal = true;
      literal_start = if p.has_literal then p.literal_start else p.i;
      buffer = p.buffer;
    })
    else plain_flushed env p len found (
        if p.has_literal
        then flush_literal env p.buffer new_file p.literal_start p.i
        else some p.buffer)

module _ (env : Env) (new_file : List ℕ) (block_size seed : ℕ) (sig : Signature)
    (index : Option Index) (mask : ℕ) where
  unfoldable pub plain_step : Plain → Option Plain
  plain_step p =
      let len = window_len (length new_file) p.i block_size in
      let window = slice new_file p.i len in
      plain_advance env new_file p len
        (find_match env window (adler32 window) seed (len == block_size) sig.blocks index mask)

  unfoldable pub plain_loop : ℕ → Plain → Option Plain
  plain_loop zero p = none
  plain_loop (suc fuel) p =
      let again = plain_step p >>= plain_loop fuel in
      if ltb p.i (length new_file) then again else some p

advance-eq_plain :
    (env : Env) (new_file : List ℕ) (st : State) (len : ℕ) (valid : Bool) (sums : Sums) (found : ℕ)
    → forget_all (advance env new_file st len valid sums found)
      ≡ plain_advance env new_file (forget st) len found
unfolding advance
advance-eq_plain env new_file st len valid sums found = elim (Bool-cases (found == no_block)) [
  | inl e ↦ rw e refl
  | inr e ↦ rw e (
      flushed (
        if st.has_literal
        then flush_literal env st.buffer new_file st.literal_start st.i
        else some st.buffer))
]
  where
    after : Buffer → State
    after room = record {
      i = st.i + len;
      sums = sums;
      rolling_valid = false;
      has_literal = false;
      literal_start = st.literal_start;
      buffer = append room (block_match found 0 len);
    }

    roomy :
        (b : Buffer) (o : Option Buffer)
        → forget_all (o >>= (λ room. some (after room))) ≡ plain_match (forget st) len found b o
    roomy b none = refl
    roomy b (some room) = refl

    flushed :
        (o : Option Buffer)
        → forget_all (o >>= (λ b. ensure_capacity env b >>= (λ room. some (after room))))
          ≡ plain_flushed env (forget st) len found o
    flushed none = refl
    flushed (some b) = roomy b (ensure_capacity env b)

module _ (env : Env) (new_file : List ℕ) (block_size seed : ℕ) (sig : Signature)
    (index : Option Index) (mask : ℕ) (bytes : IsBytes new_file) (positive : 0 < block_size)
    (small : block_size ≤ 65536) where
  step-eq_plain :
      (st : State)
      → st.i < length new_file
      → IsRolling new_file block_size st
      → forget_all (step env new_file block_size seed sig index mask st)
        ≡ plain_step env new_file block_size seed sig index mask (forget st)
  unfolding plain_step
  step-eq_plain st inside r =
      ap forget_all
        (step-eq env new_file block_size seed sig index mask bytes positive small st inside r)
      ∙ advance-eq_plain env new_file st _ _ _ _

  loop-eq_plain_from :
      (fuel : ℕ) (st : State)
      → IsRolling new_file block_size st
      → forget_all (loop env new_file block_size seed sig index mask fuel st)
        ≡ plain_loop env new_file block_size seed sig index mask fuel (forget st)
  unfolding loop plain_loop
  loop-eq_plain_from zero st r = refl
  loop-eq_plain_from (suc fuel) st r = elim (Bool-cases (ltb st.i (length new_file))) [
    | inr e ↦ rw e refl
    | inl e ↦ rw e (
        bound (step env new_file block_size seed sig index mask st) refl
          (step-eq_plain st (ltb→lt _ _ e) r)
          (λ st' h. loop-eq_plain_from fuel st' (
            step-IsRolling env new_file block_size seed sig index mask bytes positive small st st'
              (ltb→lt _ _ e) r h)))
  ]
    where
      bound :
          (o : Option State)
          → step env new_file block_size seed sig index mask st ≡ o
          → forget_all o ≡ plain_step env new_file block_size seed sig index mask (forget st)
          → ((st' : State)
              → step env new_file block_size seed sig index mask st ≡ some st'
              → forget_all (loop env new_file block_size seed sig index mask fuel st')
                ≡ plain_loop env new_file block_size seed sig index mask fuel (forget st'))
          → forget_all (o >>= loop env new_file block_size seed sig index mask fuel) ≡ (
              plain_step env new_file block_size seed sig index mask (forget st)
              >>= plain_loop env new_file block_size seed sig index mask fuel)
      bound none h same rest = rw (sym same) refl
      bound (some st') h same rest = rw (sym same) (rest st' h)

  -- For every file of bytes and every block size from 1 to 65536, the loop of `delta_compute_seeded`
  -- gives what the loop that never rolls gives, from the start and under every bound on the rounds: both
  -- end with the same instructions, position and unwritten literal, or neither gives a result.
  pub loop-eq_plain :
      (fuel : ℕ)
      → forget_all (loop env new_file block_size seed sig index mask fuel start_state)
        ≡ plain_loop env new_file block_size seed sig index mask fuel (forget start_state)
  loop-eq_plain fuel =
      loop-eq_plain_from fuel start_state (record { behind = λ v. cc; sums = λ v. cc })
