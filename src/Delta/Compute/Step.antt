-- ===== src/Delta/Compute/Step.antt =====
-- In every round the loop looks up the checksum of the whole window: rolling loses nothing.
use fast_sync.Prelude.{
  ℕ, zero, suc, ◌+◌, ◌-◌, ◌≤◌, ◌<◌, ◌≡◌, refl, sym, ap, ◌∙◌, List, ◌∷◌, Bool, true, false, ◌&&◌,
  Option, some, inl, inr, arith, length, get_or, slice, ◌==◌, if◌then◌else◌, Bool-cases,
  >>=-eq-some, length-slice, slice-suc, slice-snoc,
}
use fast_sync.Prelude.Bytes.{IsBytes, IsBytes-slice, get_or-lt}
use fast_sync.Delta.{Env, Signature, block_match}
use fast_sync.Delta.Adler.{Sums, initial, add_bytes, adler32, roll}
use fast_sync.Delta.Index.{no_block, Index, find_match}
use fast_sync.Delta.Adler.Rolling.{roll-add_bytes}
use fast_sync.Delta.Sign.{window_len}
use fast_sync.Delta.Compute.{
  Buffer, State, append, flush_literal, ensure_capacity, window_sums, advance, step,
}

-- The sums that the loop carries are those of the whole window one byte back.
pub record IsRolling (new_file : List ℕ) (block_size : ℕ) (st : State) : Type 0 where
  pub behind : st.rolling_valid ≡ true → 0 < st.i
  pub sums :
      st.rolling_valid ≡ true → st.sums ≡ add_bytes (slice new_file (st.i - 1) block_size) initial

roll-slice :
    (xs : List ℕ) (i m : ℕ)
    → IsBytes xs
    → suc i + suc m ≤ length xs
    → suc m ≤ 65536
    → roll
        (suc m)
        (get_or xs i 0)
        (get_or xs (suc i + m) 0)
        (add_bytes (slice xs i (suc m)) initial)
      ≡ add_bytes (slice xs (suc i) (suc m)) initial
roll-slice xs i m bytes room small =
    let len : length (slice xs (suc i) m) ≡ m = length-slice xs (suc i) m (omega arith) in
    rw (slice-suc xs i m 0 (omega arith), slice-snoc xs (suc i) m 0 (omega arith))
      (ap
          (λ n.
            roll n (get_or xs i 0) (get_or xs (suc i + m) 0)
              (add_bytes (get_or xs i 0 ∷ slice xs (suc i) m) initial))
          {x = suc m} (omega arith)
        ∙ roll-add_bytes (get_or xs i 0) (slice xs (suc i) m) (get_or xs (suc i + m) 0)
            (get_or-lt xs i bytes, IsBytes-slice xs (suc i) m bytes)
            (get_or-lt xs (suc i + m) bytes) (omega arith))

-- The same for the loop's own numbers.
roll-window :
    (xs : List ℕ) (i n : ℕ)
    → IsBytes xs
    → 0 < i
    → 0 < n
    → i + n ≤ length xs
    → n ≤ 65536
    → roll n
        (get_or xs (i - 1) 0)
        (get_or xs (i + n - 1) 0)
        (add_bytes (slice xs (i - 1) n) initial)
      ≡ add_bytes (slice xs i n) initial
roll-window xs zero n bytes p q room small = absurd (omega arith)
roll-window xs (suc i) zero bytes p q room small = absurd (omega arith)
roll-window xs (suc i) (suc m) bytes p q room small =
    let back : suc i - 1 ≡ i = omega arith in
    let front : suc i + suc m - 1 ≡ suc i + m = omega arith in
    rw (back, front) (roll-slice xs i m bytes room small)

-- Whether it rolls or starts afresh, the loop has the sums of its window.
pub window_sums-fresh :
    (new_file : List ℕ) (block_size : ℕ) (st : State)
    → IsBytes new_file
    → 0 < block_size
    → block_size ≤ 65536
    → st.i < length new_file
    → IsRolling new_file block_size st
    → let len = window_len (length new_file) st.i block_size in
      window_sums new_file block_size st len (len == block_size)
      ≡ add_bytes (slice new_file st.i len) initial
unfolding window_sums window_len
window_sums-fresh new_file block_size st bytes positive small inside r =
    ground (arith, roll-window new_file st.i block_size bytes, r.behind, r.sums)

-- The state after a window that matched nothing.
abbrev pub literal_state : State → Bool → Sums → State
literal_state st valid sums = record {
  i = st.i + 1;
  sums = sums;
  rolling_valid = valid;
  has_literal = true;
  literal_start = if st.has_literal then st.literal_start else st.i;
  buffer = st.buffer;
}

-- The state after a window that matched block `found`.
abbrev pub match_state : State → ℕ → Sums → ℕ → Buffer → State
match_state st len sums found room = record {
  i = st.i + len;
  sums = sums;
  rolling_valid = false;
  has_literal = false;
  literal_start = st.literal_start;
  buffer = append room (block_match found 0 len);
}

-- Writing the pending literal, if there is one.
abbrev pub flush_pending : Env → List ℕ → State → ℕ → Option Buffer
flush_pending env new_file st stop =
    if st.has_literal
    then flush_literal env st.buffer new_file st.literal_start stop
    else some st.buffer

module _ (env : Env) (new_file : List ℕ) (st st' : State) (len found : ℕ) (valid : Bool)
    (sums : Sums) where
  pub advance-literal :
      (found == no_block) ≡ true
      → advance env new_file st len valid sums found ≡ some st'
      → st' ≡ literal_state st valid sums
  unfolding advance
  advance-literal e h = let h' : some (literal_state st valid sums) ≡ some st' = rw e at h in cc

  pub advance-match :
      (found == no_block) ≡ false
      → advance env new_file st len valid sums found ≡ some st'
      → (flushed : Buffer) × (room : Buffer) × (flush_pending env new_file st st.i ≡ some flushed)
        × (ensure_capacity env flushed ≡ some room)
        × (st' ≡ match_state st len sums found room)
  unfolding advance
  advance-match e h =
      let h' = rw e at h in
      let (flushed, f, h1) = >>=-eq-some _ _ h' in
      let (room, r, h2) = >>=-eq-some _ _ h1 in (flushed, room, f, r, cc)

module _ (env : Env) (new_file : List ℕ) (block_size seed : ℕ) (sig : Signature)
    (index : Option Index) (mask : ℕ) (bytes : IsBytes new_file) (positive : 0 < block_size)
    (small : block_size ≤ 65536) where
  -- A round is the lookup of the window under its Adler-32 checksum, and what follows from it.
  pub step-eq :
      (st : State)
      → st.i < length new_file
      → IsRolling new_file block_size st
      → let len = window_len (length new_file) st.i block_size in
        let full = len == block_size in
        let window = slice new_file st.i len in
        step env new_file block_size seed sig index mask st
        ≡ advance env new_file st len
            (if st.rolling_valid && full then st.rolling_valid else full)
            (add_bytes window initial)
            (find_match env window (adler32 window) seed full sig.blocks index mask)
  unfolding step adler32
  step-eq st inside r =
      rw (window_sums-fresh new_file block_size st bytes positive small inside r) refl

  advance-IsRolling :
      (st st' : State) (len found : ℕ) (valid : Bool)
      → (valid ≡ true → len ≡ block_size)
      → advance env new_file st len valid (add_bytes (slice new_file st.i len) initial) found
        ≡ some st'
      → IsRolling new_file block_size st'
  advance-IsRolling st st' len found valid full h = elim (Bool-cases (found == no_block)) [
    | inl e ↦
        let same = advance-literal env new_file st st' len found valid _ e h in
        rw same record {
          behind = λ v. omega arith;
          sums = λ v. let back : st.i + 1 - 1 ≡ st.i = omega arith in rw (full v, back) refl;
        }
    | inr e ↦
        let (flushed, room, f, r, same) = advance-match env new_file st st' len found valid _ e h in
        rw same (record { behind = λ v. cc; sums = λ v. cc })
  ]

  pub step-IsRolling :
      (st st' : State)
      → st.i < length new_file
      → IsRolling new_file block_size st
      → step env new_file block_size seed sig index mask st ≡ some st'
      → IsRolling new_file block_size st'
  step-IsRolling st st' inside r h =
      let len = window_len (length new_file) st.i block_size in
      advance-IsRolling st st' len _
        (if st.rolling_valid && len == block_size then st.rolling_valid else len == block_size)
        (λ e. ground arith) (sym (step-eq st inside r) ∙ h)
