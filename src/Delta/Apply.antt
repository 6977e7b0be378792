-- ===== src/Delta/Apply.antt =====
-- `delta_apply`: the new file from the old one and a delta.
pub mod Exact
use fast_sync.Prelude.{
  ℕ, ◌+◌, ◌-◌, ◌*◌, ◌^◌, List, [], ◌∷◌, ◌++◌, ◌&&◌, ◌||◌, not, Option, some, length, slice, ltb,
  ◌==◌, if◌then◌else◌, guard, ◌>>=◌, ◌>>◌,
}
use fast_sync.Delta.{Env, Instruction, block_match, literal, Delta, max_file_size}

module _ (old_file : List ℕ) (block_size new_file_size : ℕ) where
  -- The loop's body; `out` is what has been written, `out_pos` its length.
  unfoldable pub apply_instruction : List ℕ → Instruction → Option (List ℕ)
  apply_instruction out (block_match index offset len) = do
    let block_start = index * block_size
    guard (not (ltb (2 ^ 64 - 1 - offset) block_start))
    let src_offset = block_start + offset
    guard (
        not (
          ltb (length old_file) src_offset
          || ltb (length old_file - src_offset) len
          || (ltb new_file_size (length out) || ltb (new_file_size - length out) len)))
    some (out ++ slice old_file src_offset len)
  apply_instruction out (literal bytes) = do
    guard (not (ltb new_file_size (length out) || ltb (new_file_size - length out) (length bytes)))
    some (out ++ bytes)

  unfoldable pub apply_instructions : List Instruction → List ℕ → Option (List ℕ)
  apply_instructions [] out = some out
  apply_instructions (instruction ∷ instructions) out =
      apply_instruction out instruction >>= λ out'. apply_instructions instructions out'

-- The array of no instructions is the null pointer.
unfoldable pub apply : Env → List ℕ → Delta → ℕ → Option (List ℕ)
apply env old_file delta block_size = do
  let size = delta.new_file_size
  let count = length delta.instructions
  guard (not (ltb 0 size && count == 0 || ltb 0 count && block_size == 0 || ltb max_file_size size))
  guard (env.alloc (if ltb 0 size then size else 1))
  out ← apply_instructions old_file block_size size delta.instructions []
  guard (length out == size)
  some out
