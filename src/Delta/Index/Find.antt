-- ===== src/Delta/Index/Find.antt =====
-- The walk along a bucket finds the block that the linear scan finds.
use fast_sync.Prelude.{
  ℕ, zero, suc, ◌+◌, ◌-◌, ◌≤◌, ◌<◌, ◌≡◌, ◌⊎◌, refl, sym, ap, ◌∙◌, List, [], ◌∷◌, Bool, true, false,
  ◌&&◌, Option, none, some, inl, inr, arith, length, get_or, ◌==◌, if◌then◌else◌, Bool-cases,
  Option-cases,
}
use fast_sync.Delta.{Env, BlockSig}
use fast_sync.Delta.Index.{
  no_block, no_sig, Index, bucket, build_index, walk_bucket, scan_blocks, find_match,
}
use fast_sync.Delta.Index.Chains.{Chain, Ascending}
use fast_sync.Delta.Index.Build.{members, owner_of, bucket-lt, build_index-eq, build_index-Holds}

-- The first of the numbers that passes the test.
first_in : (ℕ → Bool) → List ℕ → ℕ
first_in p [] = no_block
first_in p (j ∷ js) = let rest = first_in p js in if p j then j else rest

-- The first of `left` numbers from `lo` on that passes the test.
first_from : (ℕ → Bool) → ℕ → ℕ → ℕ
first_from p lo zero = no_block
first_from p lo (suc left) = let rest = first_from p (lo + 1) left in if p lo then lo else rest

first_in-members :
    (p : ℕ → Bool) (owner : ℕ → ℕ) (b lo left : ℕ)
    → ((j : ℕ) → p j ≡ true → owner j ≡ b)
    → first_in p (members owner b lo left) ≡ first_from p lo left
unfolding first_in first_from members
first_in-members p owner b lo zero h = refl
first_in-members p owner b lo (suc left) h =
    ground (arith, first_in-members p owner b (lo + 1) left h, h lo)

module _ (env : Env) (window : List ℕ) (adler seed : ℕ) (blocks : List BlockSig) where
  -- Both checksums of block `j` are the window's.
  unfoldable pub agrees : ℕ → Bool
  agrees j =
      (get_or blocks j no_sig).adler32 == adler
      && env.xxh32 window seed == (get_or blocks j no_sig).xxhash

  walk_bucket-first_in :
      (next js : List ℕ) (fuel head lo hi : ℕ) (cached : Option ℕ)
      → hi ≤ no_block
      → Ascending lo hi js
      → Chain next js head
      → length js < fuel
      → (cached ≡ none) ⊎ (cached ≡ some (env.xxh32 window seed))
      → walk_bucket env window adler seed blocks next fuel head cached ≡ first_in agrees js
  unfolding walk_bucket first_in agrees
  walk_bucket-first_in next js zero head lo hi cached small asc h enough c = absurd (omega arith)
  walk_bucket-first_in next [] (suc fuel) head lo hi cached small asc h enough c = rw h refl
  walk_bucket-first_in next (j ∷ js) (suc fuel) head lo hi cached small asc h enough c =
      let jump = λ (x : Option ℕ).
        walk_bucket-first_in next js fuel (get_or next j no_block) (suc j) hi x small asc.2 h.1
          (omega arith) in
      rw h.0 (ground (arith, jump cached c, jump (some (env.xxh32 window seed)) (inr refl)))

  scan_blocks-first_from :
      (rest : List BlockSig) (k : ℕ)
      → ((i : ℕ) → i < length rest → get_or blocks (k + i) no_sig ≡ get_or rest i no_sig)
      → scan_blocks env window adler seed rest k ≡ first_from agrees k (length rest)
  unfolding scan_blocks first_from agrees
  scan_blocks-first_from [] k h = refl
  scan_blocks-first_from (block ∷ rest) k h =
      let here : get_or blocks k no_sig ≡ block =
        ap (λ x. get_or blocks x no_sig) (omega arith) ∙ h 0 (omega arith) in
      let later = scan_blocks-first_from rest (k + 1) (λ i i_in.
        ap (λ x. get_or blocks x no_sig) {y = k + suc i} (omega arith) ∙ h (suc i) (omega arith)) in
      ground (arith, here, later)

  members-Chain_bound : (owner : ℕ → ℕ) (b lo left : ℕ) → length (members owner b lo left) ≤ left
  unfolding members
  members-Chain_bound owner b lo zero = omega arith
  members-Chain_bound owner b lo (suc left) =
      ground (arith, members-Chain_bound owner b (lo + 1) left)

  walk-scan :
      (bucket_count : ℕ) (index : Index)
      → length blocks ≤ no_block
      → bucket (bucket_count - 1) adler < bucket_count
      → build_index env blocks bucket_count ≡ some index
      → walk_bucket env window adler seed blocks index.next
          (length blocks + 1)
          (get_or index.heads (bucket (bucket_count - 1) adler) no_block)
          none
        ≡ scan_blocks env window adler seed blocks 0
  unfolding agrees
  walk-scan bucket_count index small b_in built =
      let b = bucket (bucket_count - 1) adler in
      let owner = owner_of blocks bucket_count in
      let n = length blocks in
      let h = build_index-Holds env blocks bucket_count b small built b_in in
      walk_bucket-first_in index.next (members owner b 0 n) (n + 1) (get_or index.heads b no_block)
        0 n none small h.ascending h.chain (omega (arith, members-Chain_bound owner b 0 n))
        (inl refl)
      ∙ first_in-members agrees owner b 0 n
          (λ j found. ap (bucket (bucket_count - 1)) (ground arith))
      ∙ sym (
          scan_blocks-first_from blocks 0
            (λ i i_in. ap (λ x. get_or blocks x no_sig) {x = 0 + i} (omega arith)))

  -- Looking a window up through the index that was built for the blocks, or through none when its
  -- memory was refused, gives the block that the linear scan gives, for every number of buckets.
  pub find_match-build_index :
      (full_window : Bool) (bucket_count mask : ℕ)
      → length blocks ≤ no_block
      → find_match env window adler seed full_window blocks
          (build_index env blocks bucket_count)
          (bucket_count - 1)
        ≡ find_match env window adler seed full_window blocks none mask
  unfolding find_match
  find_match-build_index full_window bucket_count mask small =
      elim (Option-cases (build_index env blocks bucket_count)) [
        | inl e ↦ rw e refl
        | inr (index, e) ↦
            rw
              (
                e,
                walk-scan bucket_count index small
                    (bucket-lt bucket_count adler (build_index-eq env blocks bucket_count e).1) e,
              )
              refl
      ]

-- `r` is the least number from `lo` on and below `hi` that passes the test, or `no_block` where
-- none does.
abbrev pub IsFirst : (ℕ → Bool) → ℕ → ℕ → ℕ → Type 0
IsFirst p lo hi r =
    ((r ≡ no_block) × ((j : ℕ) → lo ≤ j → j < hi → p j ≡ false))
    ⊎ ((lo ≤ r) × (r < hi) × (p r ≡ true) × ((j : ℕ) → lo ≤ j → j < r → p j ≡ false))

fails_from :
    (p : ℕ → Bool) (lo hi : ℕ)
    → p lo ≡ false
    → ((j : ℕ) → lo + 1 ≤ j → j < hi → p j ≡ false)
    → (j : ℕ) → lo ≤ j
    → j < hi
    → p j ≡ false
fails_from p lo hi e f j a b = elim (Bool-cases (lo == j)) [
  | inl same ↦ let same' : lo ≡ j = ground arith in rw (← same') e
  | inr other ↦ f j (ground arith) b
]

IsFirst-skip :
    (p : ℕ → Bool) (lo hi r : ℕ) → p lo ≡ false → IsFirst p (lo + 1) hi r → IsFirst p lo hi r
IsFirst-skip p lo hi r e (inl (a, f)) = inl (a, fails_from p lo hi e f)
IsFirst-skip p lo hi r e (inr (a, b, c, f)) = inr (omega arith, b, c, fails_from p lo r e f)

first_from-IsFirst :
    (p : ℕ → Bool) (lo left hi : ℕ) → lo + left ≡ hi → IsFirst p lo hi (first_from p lo left)
unfolding first_from
first_from-IsFirst p lo zero hi h = inl (refl, λ j a b. absurd (omega arith))
first_from-IsFirst p lo (suc left) hi h = elim (Bool-cases (p lo)) [
  | inl e ↦ rw e (inr (omega arith, omega arith, e, λ j a b. absurd (omega arith)))
  | inr e ↦ rw e (
      IsFirst-skip p lo hi (first_from p (lo + 1) left) e
        (first_from-IsFirst p (lo + 1) left hi (omega arith)))
]

-- The lookup of a full window gives the lowest block whose two checksums are the window's, and no
-- block where there is none; a window that is not full matches nothing.
pub find_match-IsFirst :
    (env : Env) (window : List ℕ) (adler seed : ℕ) (blocks : List BlockSig) (full_window : Bool)
    (bucket_count : ℕ)
    → length blocks ≤ no_block
    → let found =
        find_match env window adler seed full_window blocks
          (build_index env blocks bucket_count)
          (bucket_count - 1) in
      (full_window ≡ false → found ≡ no_block)
      × (full_window ≡ true → IsFirst (agrees env window adler seed blocks) 0 (length blocks) found)
find_match-IsFirst env window adler seed blocks full_window bucket_count small =
    rw (find_match-build_index env window adler seed blocks full_window bucket_count 0 small)
      (unfold find_match in (λ e. rw e refl, λ e. rw e (scanned blocks refl)))
  where
    scanned :
        (bs : List BlockSig)
        → bs ≡ blocks
        → IsFirst
            (agrees env window adler seed blocks)
            0
            (length blocks)
            (if length blocks == 0 then no_block else scan_blocks env window adler seed blocks 0)
    scanned [] e = rw (← e) (inl (refl, λ j a b. absurd (omega arith)))
    scanned (block ∷ rest) e =
        let some_block : (length blocks == 0) ≡ false = rw (← e) (ground arith) in
        rw
          (
            some_block,
            scan_blocks-first_from env window adler seed blocks blocks 0
                (λ i i_in. ap (λ x. get_or blocks x no_sig) {x = 0 + i} (omega arith)),
          )
          (first_from-IsFirst (agrees env window adler seed blocks) 0 (length blocks)
            (length blocks) (omega arith))
