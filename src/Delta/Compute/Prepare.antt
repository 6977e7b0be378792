-- ===== src/Delta/Compute/Prepare.antt =====
-- The lookups that the loop makes, with the index and the mask that are prepared for it.
use fast_sync.Prelude.{
  ℕ, ◌≤◌, ◌<◌, ◌≡◌, ◌≢◌, refl, sym, ◌∙◌, List, Bool, true, false, none, inl, inr, arith, length,
  ltb, ◌==◌, Bool-cases, Option-cases,
}
use fast_sync.Delta.{Env, Signature}
use fast_sync.Delta.Compute.{prepare_index}
use fast_sync.Delta.Index.{no_block, next_pow2, find_match, build_index}
use fast_sync.Delta.Index.Find.{IsFirst, agrees, find_match-build_index, find_match-IsFirst}

-- The index and the mask that the loop runs with change no lookup.
pub find_match-prepare_index :
    (env : Env) (window : List ℕ) (adler seed : ℕ) (sig : Signature) (full_window : Bool)
    → length sig.blocks ≤ no_block
    → let p = prepare_index env sig in
      find_match env window adler seed full_window sig.blocks p.index p.mask
      ≡ find_match env window adler seed full_window sig.blocks none 0
unfolding prepare_index
find_match-prepare_index env window adler seed sig full_window small =
    elim (Bool-cases (ltb 0 (length sig.blocks))) [
      | inr e ↦ rw e refl
      | inl e ↦
          let bucket_count = next_pow2 (length sig.blocks) in
          let same =
            find_match-build_index env window adler seed sig.blocks full_window bucket_count 0
              small in
          elim (Option-cases (build_index env sig.blocks bucket_count)) [
            | inl refused ↦ rw (e, refused) refl
            | inr (index, built) ↦ rw (e, built) (rw built at same)
          ]
    ]

module _ (env : Env) (window : List ℕ) (adler seed : ℕ) (sig : Signature) (full_window : Bool)
    (small : length sig.blocks ≤ no_block) where
  abbrev prepared : ℕ
  prepared =
      find_match env window adler seed full_window sig.blocks (prepare_index env sig).index
        (prepare_index env sig).mask

  prepared-IsFirst :
      (full_window ≡ false → prepared ≡ no_block)
      × (full_window ≡ true
          → IsFirst (agrees env window adler seed sig.blocks) 0 (length sig.blocks) prepared)
  prepared-IsFirst =
      let same =
        find_match-prepare_index env window adler seed sig full_window small
        ∙ sym (find_match-build_index env window adler seed sig.blocks full_window 1 0 small) in
      let first = find_match-IsFirst env window adler seed sig.blocks full_window 1 small in
      (λ e. same ∙ first.0 e, λ e. rw same (first.1 e))

  -- A block that was found stands in the signature, and its checksums are the window's.
  pub prepared-agrees :
      (prepared == no_block) ≡ false
      → (full_window ≡ true)
        × (prepared < length sig.blocks)
        × (agrees env window adler seed sig.blocks prepared ≡ true)
  prepared-agrees some_block = elim (Bool-cases full_window) [
    | inr short ↦ absurd (block_found (prepared-IsFirst.0 short))
    | inl whole ↦ elim (prepared-IsFirst.1 whole) [
      | inl (none_found, _) ↦ absurd (block_found none_found)
      | inr (_, below, agreed, _) ↦ (whole, below, agreed)
    ]
  ]
    where
      block_found : prepared ≢ no_block
      block_found q = ground arith
