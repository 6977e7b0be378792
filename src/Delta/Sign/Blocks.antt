-- ===== src/Delta/Sign/Blocks.antt =====
-- The signature holds the checksums of every block of the old file.
use fast_sync.Prelude.{
  ℕ, zero, suc, ◌+◌, ◌-◌, ◌*◌, ◌/◌, ◌^◌, ◌≤◌, ◌<◌, ◌≡◌, refl, ap, ◌∙◌, List, some, arith, length,
  get_or,
}
use native.Mathlib.Nat.{mul-le-mul_right, div-le_self, div-mul-le_self}
use fast_sync.Delta.{Env, Signature, max_file_size, block_size_max}
use fast_sync.Delta.Sign.{sign_block, sign_blocks, signature_create_seeded}
use fast_sync.Delta.Index.{no_sig}

-- The number of blocks, the last of which may be short.
abbrev pub block_count : ℕ → ℕ → ℕ
block_count file_size block_size = (file_size + block_size - 1) / block_size

module _ (env : Env) (old_file : List ℕ) (block_size seed : ℕ) where
  pub length-sign_blocks : (n i : ℕ) → length (sign_blocks env old_file block_size seed n i) ≡ n
  unfolding sign_blocks
  length-sign_blocks zero i = refl
  length-sign_blocks (suc n) i = ap suc (length-sign_blocks n (i + 1))

  pub get_or-sign_blocks :
      (n i j : ℕ)
      → j < n
      → get_or (sign_blocks env old_file block_size seed n i) j no_sig
        ≡ sign_block env old_file block_size seed (i + j)
  unfolding sign_blocks
  get_or-sign_blocks zero i j h = absurd (omega arith)
  get_or-sign_blocks (suc n) i zero h = ap (sign_block env old_file block_size seed) (omega arith)
  get_or-sign_blocks (suc n) i (suc j) h =
      get_or-sign_blocks n (i + 1) j (omega arith)
      ∙ ap (sign_block env old_file block_size seed) (omega arith)

  pub record IsSigned (sig : Signature) : Type 0 where
    pub file_size : sig.file_size ≡ length old_file
    pub same_size : sig.block_size ≡ block_size
    pub not_empty : 0 < length old_file
    pub file_small : length old_file ≤ max_file_size
    pub positive : 0 < block_size
    pub small : block_size ≤ block_size_max
    pub blocks :
        sig.blocks
        ≡ sign_blocks env old_file block_size seed (block_count (length old_file) block_size) 0
    pub count : length sig.blocks ≡ block_count (length old_file) block_size

  -- A signature that was made is that of the whole file.
  pub signature_create_seeded-IsSigned :
      {sig : Signature}
      → signature_create_seeded env old_file block_size seed ≡ some sig
      → IsSigned sig
  unfolding signature_create_seeded
  signature_create_seeded-IsSigned h = ground (
    arith,
    div-le_self (length old_file + block_size - 1) block_size,
    length-sign_blocks (block_count (length old_file) block_size) 0,
  )

  -- A block of the signature begins inside the file.
  pub block_inside :
      (j : ℕ)
      → 0 < length old_file
      → j < block_count (length old_file) block_size
      → j * block_size < length old_file
  block_inside j h p = omega (
    arith,
    mul-le-mul_right block_size p,
    div-mul-le_self (length old_file + block_size - 1) block_size,
  )

  pub block_count-lt : {sig : Signature} → IsSigned sig → length sig.blocks < 2 ^ 29
  block_count-lt s =
      omega (arith, s.count, div-le_self (length old_file + block_size - 1) block_size)
