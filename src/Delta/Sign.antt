-- ===== src/Delta/Sign.antt =====
-- `delta_signature_create_seeded`: the weak and the strong checksum of each block of the old file.
pub mod Blocks
use fast_sync.Prelude.{
  ℕ, zero, suc, ◌+◌, ◌-◌, ◌*◌, ◌/◌, ◌%◌, ◌^◌, List, [], ◌∷◌, Option, some, not, ◌||◌, length, slice,
  ltb, ◌==◌, if◌then◌else◌, guard, ◌>>◌,
}
use fast_sync.Delta.{Env, BlockSig, Signature, max_file_size, block_size_max}
use fast_sync.Delta.Adler.{adler32}

-- The length of the window at `offset`: a whole block, or what is left of the file.
unfoldable pub window_len : ℕ → ℕ → ℕ → ℕ
window_len file_size offset block_size =
    if ltb (file_size - offset) block_size then file_size - offset else block_size

module _ (env : Env) (old_file : List ℕ) (block_size seed : ℕ) where
  unfoldable pub block_at : ℕ → List ℕ
  block_at i =
      let offset = i * block_size in
      slice old_file offset (window_len (length old_file) offset block_size)

  unfoldable pub sign_block : ℕ → BlockSig
  sign_block i = record { adler32 = adler32 (block_at i); xxhash = env.xxh32 (block_at i) seed }

  -- The loop from block `i` on, with so many blocks left.
  unfoldable pub sign_blocks : ℕ → ℕ → List BlockSig
  sign_blocks zero i = []
  sign_blocks (suc left) i = sign_block i ∷ sign_blocks left (i + 1)

  -- 24 and 8 are the sizes of a `DeltaSignature` and a `DeltaBlockSig`.
  unfoldable pub signature_create_seeded : Option Signature
  signature_create_seeded = do
    let file_size = length old_file
    guard (not (file_size == 0 || block_size == 0))
    guard (
        not (
          ltb max_file_size file_size
          || ltb block_size_max block_size
          || ltb ((2 ^ 32 - 1) * block_size) file_size))
    let block_count = (file_size + block_size - 1) / block_size % 2 ^ 32
    guard (env.alloc 24)
    guard (not (block_count == 0))
    guard (env.alloc (block_count * 8))
    some (record {
      file_size = file_size;
      block_size = block_size;
      blocks = sign_blocks block_count 0;
    })

-- `delta_signature_create`
pub signature_create : Env → List ℕ → ℕ → Option Signature
signature_create env old_file block_size = signature_create_seeded env old_file block_size 0
