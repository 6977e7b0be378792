-- ===== src/Delta.antt =====
-- src/shared/delta.c and delta.h: block-level delta transfer. The types, the limits and what the
-- component calls outside of it; a child module for each stage.
pub mod Adler
pub mod Sign
pub mod Index
pub mod Compute
pub mod Apply
pub mod Wire
pub mod RoundTrip
pub mod Transfer
mod Tests
use fast_sync.Prelude.{ℕ, ◌*◌, ◌^◌, List, Bool}

abbrev pub block_size_min : ℕ
block_size_min = 1024

abbrev pub block_size_max : ℕ
block_size_max = 65536

abbrev pub max_file_size : ℕ
max_file_size = 256 * 1024 * 1024

abbrev pub max_blocks : ℕ
max_blocks = 1024 * 1024

abbrev pub max_instructions : ℕ
max_instructions = 1024 * 1024

-- What delta.c calls and does not define: xxHash32 of some bytes under a seed; the allocator,
-- which answers whether a request of so many bytes is granted; and the words that memory holds
-- before anything is written to it.
pub record Env : Type 0 where
  pub xxh32 : List ℕ → ℕ → ℕ
  pub alloc : ℕ → Bool
  pub stale : ℕ → ℕ

pub record BlockSig : Type 0 where
  pub adler32 : ℕ
  pub xxhash : ℕ

-- `blocks` is the array together with `block_count`, its length.
pub record Signature : Type 0 where
  pub file_size : ℕ
  pub block_size : ℕ
  pub blocks : List BlockSig

-- A literal's `length` is that of its bytes.
pub data Instruction : Type 0 where
  block_match : ℕ → ℕ → ℕ → Instruction
  literal : List ℕ → Instruction

-- `instructions` is the array together with `instruction_count`, its length.
pub record Delta : Type 0 where
  pub new_file_size : ℕ
  pub instructions : List Instruction
  pub delta_size : ℕ
