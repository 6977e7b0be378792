-- ===== src/Delta/Compute.antt =====
-- `delta_compute_seeded` and the helpers that it calls: the new file as blocks of the old one and
-- literal bytes.
pub mod Step
pub mod Plain
pub mod Sound
pub mod Loop
pub mod Result
pub mod Prepare
pub mod Total
use fast_sync.Prelude.{
  ℕ, zero, suc, ◌+◌, ◌-◌, ◌*◌, ◌/◌, ◌^◌, List, [], ◌∷◌, ◌++◌, Bool, true, false, ◌&&◌, ◌||◌, not,
  Option, none, some, length, get_or, slice, ltb, leb, ◌==◌, if◌then◌else◌, guard, ◌>>=◌, ◌>>◌,
}
use fast_sync.Delta.{
  Env, Signature, Instruction, block_match, literal, Delta, max_instructions, block_size_max,
}
use fast_sync.Delta.Adler.{Sums, initial, add_bytes, digest, roll}
use fast_sync.Delta.Sign.{window_len}
use fast_sync.Delta.Index.{no_block, next_pow2, Index, build_index, find_match}

-- The growing array of instructions; its length is `count`.
pub record Buffer : Type 0 where
  pub instructions : List Instruction
  pub capacity : ℕ

-- 24 is the size of a `DeltaInstruction`.
unfoldable pub ensure_capacity : Env → Buffer → Option Buffer
ensure_capacity env buf =
    if ltb (length buf.instructions) buf.capacity
    then some buf
    else (if ltb (max_instructions / 2) buf.capacity
        then none
        else (let new_cap = buf.capacity * 2 in
            if env.alloc (new_cap * 24) then some (record buf { capacity = new_cap }) else none))

unfoldable pub append : Buffer → Instruction → Buffer
append buf instruction = record buf { instructions = buf.instructions ++ (instruction ∷ []) }

-- The bytes from `start` up to `stop` as one literal.
unfoldable pub flush_literal : Env → Buffer → List ℕ → ℕ → ℕ → Option Buffer
flush_literal env buf bytes start stop =
    if leb stop start
    then some buf
    else (if ltb (2 ^ 32 - 1) (stop - start) || leb max_instructions (length buf.instructions)
        then none
        else do
          buf' ← ensure_capacity env buf
          guard (env.alloc (stop - start))
          some (append buf' (literal (slice bytes start (stop - start)))))

-- The variables of the loop over the new file.
pub record State : Type 0 where
  pub i : ℕ
  pub sums : Sums
  pub rolling_valid : Bool
  pub has_literal : Bool
  pub literal_start : ℕ
  pub buffer : Buffer

-- The sums of the window at `i`: rolled on from those of the window before, or afresh.
unfoldable pub window_sums : List ℕ → ℕ → State → ℕ → Bool → Sums
window_sums new_file block_size st len full_window =
    if st.rolling_valid && full_window
    then roll block_size (get_or new_file (st.i - 1) 0) (get_or new_file (st.i + block_size - 1) 0)
        st.sums
    else add_bytes (slice new_file st.i len) initial

-- What the loop does with the block that the window matches.
unfoldable pub advance : Env → List ℕ → State → ℕ → Bool → Sums → ℕ → Option State
advance env new_file st len valid sums match_block =
    if match_block == no_block
    then some (record {
      i = st.i + 1;
      sums = sums;
      rolling_valid = valid;
      has_literal = true;
      literal_start = if st.has_literal then st.literal_start else st.i;
      buffer = st.buffer;
    })
    else do
      flushed ←
          if st.has_literal
          then flush_literal env st.buffer new_file st.literal_start st.i
          else some st.buffer
      room ← ensure_capacity env flushed
      some (record {
        i = st.i + len;
        sums = sums;
        rolling_valid = false;
        has_literal = false;
        literal_start = st.literal_start;
        buffer = append room (block_match match_block 0 len);
      })

module _ (env : Env) (new_file : List ℕ) (block_size seed : ℕ) (sig : Signature)
    (index : Option Index) (mask : ℕ) where
  unfoldable pub step : State → Option State
  step st =
      let len = window_len (length new_file) st.i block_size in
      let full_window = len == block_size in
      let sums = window_sums new_file block_size st len full_window in
      let valid = if st.rolling_valid && full_window then st.rolling_valid else full_window in
      let found =
        find_match env (slice new_file st.i len) (digest sums) seed full_window sig.blocks index
          mask in
      advance env new_file st len valid sums found

  -- `while (i < new_file_size)`, with fuel.
  unfoldable pub loop : ℕ → State → Option State
  loop zero st = none
  loop (suc fuel) st =
      let again = step st >>= loop fuel in if ltb st.i (length new_file) then again else some st

-- `delta_size`: a byte for the type and the size of each instruction's fields.
unfoldable pub count_sizes : List Instruction → ℕ → Option ℕ
count_sizes [] size = some size
count_sizes (block_match index offset len ∷ instructions) size =
    let rest = count_sizes instructions (size + 1 + 12) in
    if size == 2 ^ 64 - 1 || ltb (2 ^ 64 - 1 - 12) (size + 1) then none else rest
count_sizes (literal bytes ∷ instructions) size =
    let extra = 4 + length bytes in
    let rest = count_sizes instructions (size + 1 + extra) in
    if size == 2 ^ 64 - 1 || ltb (2 ^ 64 - 1 - extra) (size + 1) then none else rest

abbrev pub start_state : State
start_state = record {
  i = 0;
  sums = initial;
  rolling_valid = false;
  has_literal = false;
  literal_start = 0;
  buffer = record { instructions = []; capacity = 64 };
}

-- The index and the mask that the loop runs with.
unfoldable pub prepare_index : Env → Signature → record { index : Option Index; mask : ℕ }
prepare_index env sig =
    if ltb 0 (length sig.blocks)
    then (let bucket_count = next_pow2 (length sig.blocks) in
        let index = build_index env sig.blocks bucket_count in
        record { index = index; mask = elim index [ none ↦ 0 | some ix ↦ bucket_count - 1 ] })
    else record { index = none; mask = 0 }

-- 32 is the size of a `Delta`.
unfoldable pub finish : Env → List ℕ → Buffer → Option Delta
finish env new_file buffer = do
  guard (env.alloc 32)
  size ← count_sizes buffer.instructions 0
  some (record {
    new_file_size = length new_file;
    instructions = buffer.instructions;
    delta_size = size;
  })

-- One round of the loop for each byte and one to see the end are enough.
unfoldable pub compute_seeded : Env → List ℕ → Signature → ℕ → ℕ → Option Delta
compute_seeded env new_file sig block_size seed = do
  guard (not (length new_file == 0 || block_size == 0 || ltb block_size_max block_size))
  guard (sig.block_size == block_size)
  guard (env.alloc (64 * 24))
  let prepared = prepare_index env sig
  st ←
      loop env new_file block_size seed sig prepared.index prepared.mask (length new_file + 1)
        start_state
  buffer ←
      if st.has_literal
      then flush_literal env st.buffer new_file st.literal_start (length new_file)
      else some st.buffer
  finish env new_file buffer

-- `delta_compute`
pub compute : Env → List ℕ → Signature → ℕ → Option Delta
compute env new_file sig block_size = compute_seeded env new_file sig block_size 0
