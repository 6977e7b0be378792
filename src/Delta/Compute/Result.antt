-- ===== src/Delta/Compute/Result.antt =====
-- The stages that a successful `compute_seeded` has passed through.
use fast_sync.Prelude.{
  ℕ, ◌+◌, ◌≤◌, ◌<◌, ◌≡◌, List, some, not, ◌||◌, arith, length, ltb, ◌==◌, >>=-eq-some,
  guard-eq-some,
}
use fast_sync.Delta.{Env, Signature, Delta, block_size_max}
use fast_sync.Delta.Compute.{
  Buffer, State, loop, start_state, prepare_index, count_sizes, finish, compute_seeded,
}
use fast_sync.Delta.Compute.Step.{flush_pending}

pub record Stages (env : Env) (new_file : List ℕ) (sig : Signature) (block_size seed : ℕ)
    (d : Delta) : Type 0 where
  pub last : State
  pub buffer : Buffer
  pub not_empty : 0 < length new_file
  pub positive : 0 < block_size
  pub small : block_size ≤ block_size_max
  pub same_size : sig.block_size ≡ block_size
  pub looped :
      let p = prepare_index env sig in
      loop env new_file block_size seed sig p.index p.mask (length new_file + 1) start_state
      ≡ some last
  pub flushed : flush_pending env new_file last (length new_file) ≡ some buffer
  pub counted : count_sizes buffer.instructions 0 ≡ some d.delta_size
  pub instructions : d.instructions ≡ buffer.instructions
  pub size : d.new_file_size ≡ length new_file

finish-some :
    (env : Env) (new_file : List ℕ) (buffer : Buffer) {d : Delta}
    → finish env new_file buffer ≡ some d
    → (count_sizes buffer.instructions 0 ≡ some d.delta_size)
      × (d.instructions ≡ buffer.instructions)
      × (d.new_file_size ≡ length new_file)
unfolding finish
finish-some env new_file buffer h = ground arith

pub compute_seeded-Stages :
    (env : Env) (new_file : List ℕ) (sig : Signature) (block_size seed : ℕ) {d : Delta}
    → compute_seeded env new_file sig block_size seed ≡ some d
    → Stages env new_file sig block_size seed d
unfolding compute_seeded
compute_seeded-Stages env new_file sig block_size seed {d} h =
    let (g0, h0) =
      guard-eq-some (not (length new_file == 0 || block_size == 0 || ltb block_size_max block_size))
        _ h in
    let (g1, h1) = guard-eq-some (sig.block_size == block_size) _ h0 in
    let (g2, h2) = guard-eq-some (env.alloc _) _ h1 in
    let (last, looped, h3) = >>=-eq-some _ _ h2 in
    let (buffer, flushed, h4) = >>=-eq-some _ (finish env new_file) h3 in
    let (counted, instructions, size) = finish-some env new_file buffer h4 in
    record {
      last = last;
      buffer = buffer;
      not_empty = ground arith;
      positive = ground arith;
      small = ground arith;
      same_size = ground arith;
      looped = looped;
      flushed = flushed;
      counted = counted;
      instructions = instructions;
      size = size;
    }
