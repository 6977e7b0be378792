-- ===== src/Delta/RoundTrip.antt =====
-- From the old file's signature to the new file: create, compute, apply.
use fast_sync.Prelude.{
  ℕ, ◌+◌, ◌*◌, ◌≤◌, ◌<◌, ◌≡◌, refl, sym, ap, ◌∙◌, List, true, some, inr, arith, length, slice, drop,
  get_or, ◌==◌, lt→ltb, length-slice, length-take, length-drop, take_all,
}
use fast_sync.Prelude.Bytes.{IsBytes}
use fast_sync.Delta.{Env, Signature, Delta, max_file_size}
use fast_sync.Delta.Adler.{adler32}
use fast_sync.Delta.Apply.{apply}
use fast_sync.Delta.Apply.Exact.{expand, AllInBounds, apply-eq-some_iff}
use fast_sync.Delta.Compute.{prepare_index, start_state, compute_seeded}
use fast_sync.Delta.Compute.Prepare.{prepared-agrees}
use fast_sync.Delta.Compute.Step.{IsRolling}
use fast_sync.Delta.Compute.Sound.{IsSound, flush_pending-expand}
use fast_sync.Delta.Compute.Result.{compute_seeded-Stages}
use fast_sync.Delta.Compute.Loop.{Hits, loop-IsSound}
use fast_sync.Delta.Index.{no_block, no_sig, find_match}
use fast_sync.Delta.Index.Find.{agrees}
use fast_sync.Delta.Sign.{window_len, block_at, sign_block, signature_create_seeded}
use fast_sync.Delta.Sign.Blocks.{
  block_count, IsSigned, signature_create_seeded-IsSigned, get_or-sign_blocks, block_inside,
  block_count-lt,
}

-- The two checksums together tell the windows of the new file from the blocks of the old one.
abbrev pub Distinguishes : Env → List ℕ → List ℕ → ℕ → ℕ → Type 0
Distinguishes env old_file new_file block_size seed =
    (i j : ℕ)
    → i + block_size ≤ length new_file
    → j * block_size < length old_file
    → let window = slice new_file i block_size in
      let block = block_at env old_file block_size seed j in
      adler32 window ≡ adler32 block → env.xxh32 window seed ≡ env.xxh32 block seed → window ≡ block

module _ (env : Env) (old_file new_file : List ℕ) (block_size seed : ℕ) (sig : Signature)
    (signed : IsSigned env old_file block_size seed sig)
    (distinct : Distinguishes env old_file new_file block_size seed) where
  -- Where the new file has a whole window, that it agrees with a block is that it is the block.
  block_stands :
      (i len j : ℕ)
      → len ≡ block_size
      → i + len ≤ length new_file
      → j < length sig.blocks
      → agrees env (slice new_file i len) (adler32 (slice new_file i len)) seed sig.blocks j ≡ true
      → (j * block_size + 0 + len ≤ length old_file)
        × (slice old_file (j * block_size + 0) len ≡ slice new_file i len)
  unfolding agrees sign_block block_at window_len
  block_stands i len j whole inside below agreed =
      let n = block_count (length old_file) block_size in
      let below' : j < n = omega (arith, signed.count) in
      let signed_as : get_or sig.blocks j no_sig ≡ sign_block env old_file block_size seed j =
        ap (λ b. get_or b j no_sig) signed.blocks
        ∙ get_or-sign_blocks env old_file block_size seed n 0 j below'
        ∙ ap (sign_block env old_file block_size seed) {x = 0 + j} (omega arith) in
      let start = block_inside env old_file block_size seed j signed.not_empty below' in
      let same : slice new_file i len ≡ block_at env old_file block_size seed j = rw whole (
        distinct i j (rw (← whole) inside) start (rw (← whole) (ground (arith, signed_as)))
          (rw (← whole) (ground (arith, signed_as)))) in
      let window_length = length-slice new_file i len inside in
      let zero_more : j * block_size + 0 ≡ j * block_size = omega arith in
      let block_length =
        length-take (window_len (length old_file) (j * block_size) block_size)
          (drop (j * block_size) old_file) in
      let rest_length = length-drop (j * block_size) old_file in
      let same_length = ap length same in
      let full : window_len (length old_file) (j * block_size) block_size ≡ len = ground arith in
      (ground arith, rw (zero_more, same) (ap (λ k. slice old_file (j * block_size) k) (sym full)))

  hits :
      (i : ℕ)
      → i < length new_file
      → let len = window_len (length new_file) i block_size in
        let p = prepare_index env sig in
        Hits env old_file new_file block_size i len (
          find_match env
            (slice new_file i len)
            (adler32 (slice new_file i len))
            seed
            (len == block_size)
            sig.blocks
            p.index
            p.mask)
  unfolding window_len
  hits i inside some_block =
      let len = window_len (length new_file) i block_size in
      let window = slice new_file i len in
      let small : length sig.blocks ≤ no_block =
        omega (arith, block_count-lt env old_file block_size seed signed) in
      let found =
        find_match env window (adler32 window) seed (len == block_size) sig.blocks
          (prepare_index env sig).index (prepare_index env sig).mask in
      let (whole, below, agreed) =
        prepared-agrees env window (adler32 window) seed sig (len == block_size) small some_block in
      block_stands i len found (ground arith) (ground arith) below agreed

start-IsSound :
    (old_file new_file : List ℕ) (block_size : ℕ) → IsSound old_file new_file block_size start_state
start-IsSound old_file new_file block_size = record {
  bound = omega arith;
  order = λ e. cc;
  covers = refl;
  in_bounds = tt;
}

start-IsRolling : (new_file : List ℕ) (block_size : ℕ) → IsRolling new_file block_size start_state
start-IsRolling new_file block_size = record { behind = λ e. cc; sums = λ e. cc }

-- What `delta_compute_seeded` makes of the new file, given the old file's signature, stands for the
-- new file: every match lies inside the old file, and the instructions' bytes are the new file's.
pub compute_seeded-expand :
    (env : Env) (old_file new_file : List ℕ) (block_size seed : ℕ) {sig : Signature} {d : Delta}
    → IsBytes new_file
    → IsSigned env old_file block_size seed sig
    → Distinguishes env old_file new_file block_size seed
    → compute_seeded env new_file sig block_size seed ≡ some d
    → AllInBounds old_file block_size d.instructions
      × (expand old_file block_size d.instructions ≡ new_file)
      × (d.new_file_size ≡ length new_file)
compute_seeded-expand env old_file new_file block_size seed {sig} bytes signed distinct h =
    let s = compute_seeded-Stages env new_file sig block_size seed h in
    let p = prepare_index env sig in
    let (sound, at_end) =
      loop-IsSound env old_file new_file block_size seed sig p.index p.mask bytes s.positive s.small
        (hits env old_file new_file block_size seed sig signed distinct) (length new_file + 1)
        start_state s.last (start-IsRolling new_file block_size)
        (start-IsSound old_file new_file block_size) s.looped in
    let (written, bounds) =
      flush_pending-expand old_file new_file block_size env s.last (length new_file) s.buffer
        (λ e. rw (← at_end) (sound.order e)) s.flushed sound.in_bounds in
    let covered = rw at_end at (sound.covers) in
    (
      rw s.instructions bounds,
      rw s.instructions (written ∙ covered ∙ take_all (length new_file) new_file (omega arith)),
      s.size,
    )

-- The round trip of a delta transfer: the delta that is computed from the new file and the old
-- file's signature, applied to the old file, gives back the new file, if it has at most 256 MiB,
-- memory for it is granted, and the two checksums tell its windows from the old file's blocks.
pub apply-compute_seeded :
    (env : Env) (old_file new_file : List ℕ) (block_size seed : ℕ) {sig : Signature} {d : Delta}
    → IsBytes new_file
    → length new_file ≤ max_file_size
    → env.alloc (length new_file) ≡ true
    → Distinguishes env old_file new_file block_size seed
    → signature_create_seeded env old_file block_size seed ≡ some sig
    → compute_seeded env new_file sig block_size seed ≡ some d
    → apply env old_file d block_size ≡ some new_file
apply-compute_seeded env old_file new_file block_size seed {sig} {d} bytes small granted distinct
      created computed =
    let signed = signature_create_seeded-IsSigned env old_file block_size seed created in
    let s = compute_seeded-Stages env new_file sig block_size seed computed in
    let (bounds, expands, size) =
      compute_seeded-expand env old_file new_file block_size seed bytes signed distinct computed in
    (apply-eq-some_iff env old_file d block_size new_file (omega (arith, signed.file_small))).1 (
      record {
        small = rw size small;
        sized = inr s.positive;
        granted = rw (size, lt→ltb 0 (length new_file) s.not_empty) granted;
      },
      bounds,
      sym expands,
      sym size,
    )
