-- ===== src/Delta/Index.antt =====
-- The lookup of a window among the signature's blocks: the bucket index of `delta_build_index`,
-- its construction, and `delta_find_match` with and without it.
pub mod Chains
pub mod Build
pub mod Find
use fast_sync.Prelude.{
  ℕ, zero, suc, ◌+◌, ◌-◌, ◌*◌, ◌/◌, ◌%◌, ◌^◌, bit_and, bit_or, bit_xor, List, [], ◌∷◌, Bool, true,
  false, Option, none, some, not, ◌||◌, length, get_or, set, replicate, ltb, ◌==◌, if◌then◌else◌,
  guard, ◌>>=◌, ◌>>◌,
}
use fast_sync.Delta.{Env, BlockSig, Signature}

-- `DELTA_NO_BLOCK`
abbrev pub no_block : ℕ
no_block = 2 ^ 32 - 1

unfoldable pub adler_mix : ℕ → ℕ
adler_mix h =
    let h1 = bit_xor h (h / 2 ^ 16) in
    let h2 = h1 * 0x7feb352d % 2 ^ 32 in
    let h3 = bit_xor h2 (h2 / 2 ^ 15) in
    let h4 = h3 * 0x846ca68b % 2 ^ 32 in bit_xor h4 (h4 / 2 ^ 16)

unfoldable pub next_pow2 : ℕ → ℕ
next_pow2 v =
    let v0 = (v + 2 ^ 32 - 1) % 2 ^ 32 in
    let v1 = bit_or v0 (v0 / 2 ^ 1) in
    let v2 = bit_or v1 (v1 / 2 ^ 2) in
    let v3 = bit_or v2 (v2 / 2 ^ 4) in
    let v4 = bit_or v3 (v3 / 2 ^ 8) in let v5 = bit_or v4 (v4 / 2 ^ 16) in (v5 + 1) % 2 ^ 32

-- The three parts of the one allocation: first and last block of each bucket, and each block's
-- link to the next one of its bucket.
pub record Index : Type 0 where
  pub heads : List ℕ
  pub tails : List ℕ
  pub next : List ℕ

unfoldable pub bucket : ℕ → ℕ → ℕ
bucket mask adler = bit_and (adler_mix adler) mask

-- The loop's body for block `j`.
unfoldable pub insert_block : ℕ → Index → ℕ → ℕ → Index
insert_block mask index j adler =
    let b = bucket mask adler in
    let first = get_or index.heads b no_block == no_block in
    record {
      heads = if first then set index.heads b j else index.heads;
      tails = set index.tails b j;
      next =
          set (if first then index.next else set index.next (get_or index.tails b no_block) j) j
            no_block;
    }

unfoldable pub insert_blocks : ℕ → List BlockSig → ℕ → Index → Index
insert_blocks mask [] j index = index
insert_blocks mask (block ∷ blocks) j index =
    insert_blocks mask blocks (j + 1) (insert_block mask index j block.adler32)

-- So many words of memory that nothing has been written to.
unfoldable pub stale_words : Env → ℕ → ℕ → List ℕ
stale_words env zero i = []
stale_words env (suc n) i = env.stale i ∷ stale_words env n (i + 1)

unfoldable pub build_index : Env → List BlockSig → ℕ → Option Index
build_index env blocks bucket_count = do
  guard (not (length blocks == 0 || bucket_count == 0))
  let entries = 2 * bucket_count + length blocks
  guard (not (ltb ((2 ^ 64 - 1) / 4) entries))
  guard (env.alloc (entries * 4))
  some (
      insert_blocks (bucket_count - 1) blocks 0 (record {
        heads = replicate bucket_count no_block;
        tails = replicate bucket_count no_block;
        next = stale_words env (length blocks) 0;
      }))

abbrev pub no_sig : BlockSig
no_sig = record { adler32 = 0; xxhash = 0 }

module _ (env : Env) (window : List ℕ) (adler seed : ℕ) where
  -- The walk along a bucket. `window_xxh` is the strong checksum once it has been computed.
  unfoldable pub walk_bucket : List BlockSig → List ℕ → ℕ → ℕ → Option ℕ → ℕ
  walk_bucket blocks next zero j window_xxh = no_block
  walk_bucket blocks next (suc fuel) j window_xxh = elim (j == no_block) [
    | true ↦ no_block
    | false ↦ elim ((get_or blocks j no_sig).adler32 == adler) [
      | false ↦ walk_bucket blocks next fuel (get_or next j no_block) window_xxh
      | true ↦
          let xxh : ℕ = elim window_xxh [ none ↦ env.xxh32 window seed | some h ↦ h ] in
          elim (xxh == (get_or blocks j no_sig).xxhash) [
            | true ↦ j
            | false ↦ walk_bucket blocks next fuel (get_or next j no_block) (some xxh)
          ]
    ]
  ]

  -- The fallback, from block `j` on.
  unfoldable pub scan_blocks : List BlockSig → ℕ → ℕ
  scan_blocks [] j = no_block
  scan_blocks (block ∷ blocks) j =
      let rest = scan_blocks blocks (j + 1) in
      if block.adler32 == adler
      then (if env.xxh32 window seed == block.xxhash then j else rest)
      else rest

  -- A bucket holds each block at most once, so one round more than blocks is enough.
  unfoldable pub find_match : Bool → List BlockSig → Option Index → ℕ → ℕ
  find_match full_window blocks index mask =
      if not full_window || length blocks == 0 then no_block else elim index [
        | none ↦ scan_blocks blocks 0
        | some ix ↦
            walk_bucket blocks ix.next (length blocks + 1)
              (get_or ix.heads (bucket mask adler) no_block) none
      ]
