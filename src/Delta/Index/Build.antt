-- ===== src/Delta/Index/Build.antt =====
-- The index holds, for each bucket, the chain of that bucket's blocks in ascending order.
use fast_sync.Prelude.{
  ℕ, zero, suc, ◌+◌, ◌-◌, ◌≤◌, ◌<◌, ◌≡◌, ◌≢◌, refl, sym, ap, ◌∙◌, List, [], ◌∷◌, ◌++◌, true, false,
  inl, inr, arith, length, get_or, set, some, replicate, ◌==◌, if◌then◌else◌, Bool-cases,
  get_or-set_self, get_or-set_ne, length-set, length-replicate, get_or-replicate, append-nil,
  append_assoc,
}
use mathlib.Core.Path.{subst}
use fast_sync.Prelude.Bits.{bit_and-le_right}
use fast_sync.Delta.{Env, BlockSig}
use fast_sync.Delta.Index.{
  no_block, no_sig, Index, adler_mix, bucket, insert_block, insert_blocks, stale_words, build_index,
}
use fast_sync.Delta.Index.Chains.{
  Chain, Ascending, All, last_or, last-All, Ascending-ne, Ascending-snoc, Ascending-weaken,
  All-snoc, last_or-snoc, Chain-set, Chain-snoc,
}

-- Bucket `b` holds the blocks `members`, all below `k` and owned by `b`.
pub record Holds (owner : ℕ → ℕ) (index : Index) (b k : ℕ) (members : List ℕ) : Type 0 where
  pub chain : Chain index.next members (get_or index.heads b no_block)
  pub tail : get_or index.tails b no_block ≡ last_or no_block members
  pub ascending : Ascending 0 k members
  pub owned : All (λ j. owner j ≡ b) members

-- The arrays have room for each bucket and each block.
pub record HasRoom (index : Index) (buckets blocks : ℕ) : Type 0 where
  pub heads : length index.heads ≡ buckets
  pub tails : length index.tails ≡ buckets
  pub next : length index.next ≡ blocks

pub insert_block-HasRoom :
    (mask : ℕ) (index : Index) (j adler buckets blocks : ℕ)
    → HasRoom index buckets blocks
    → HasRoom (insert_block mask index j adler) buckets blocks
unfolding insert_block
insert_block-HasRoom mask index j adler buckets blocks r =
    let b = bucket mask adler in
    let t = get_or index.tails b no_block in
    ground (
      arith,
      length-set index.heads b j,
      length-set index.tails b j,
      length-set index.next t j,
      length-set (set index.next t j) j no_block,
      length-set index.next j no_block,
    )

module _ (owner : ℕ → ℕ) (mask adler k buckets blocks : ℕ) (k_small : k < no_block)
    (k_in : k < blocks) (owns : owner k ≡ bucket mask adler)
    (b_in : bucket mask adler < buckets) where
  -- The new block's own bucket gets it at the end.
  insert_block-Holds_self :
      (index : Index) (members : List ℕ)
      → HasRoom index buckets blocks
      → Holds owner index (bucket mask adler) k members
      → Holds owner
          (insert_block mask index k adler)
          (bucket mask adler)
          (suc k)
          (members ++ (k ∷ []))
  unfolding insert_block
  insert_block-Holds_self index [] r h =
      let b = bucket mask adler in
      let first : (get_or index.heads b no_block == no_block) ≡ true = ground (arith, h.chain) in
      rw first record {
        chain = (
          get_or-set_self index.heads b k no_block (omega (arith, r.heads)),
          get_or-set_self index.next k no_block no_block (omega (arith, r.next)),
        );
        tail = get_or-set_self index.tails b k no_block (omega (arith, r.tails));
        ascending = (omega arith, omega arith, tt);
        owned = (owns, tt);
      }
  insert_block-Holds_self index (j ∷ js) r h =
      let b = bucket mask adler in
      let later : (get_or index.heads b no_block == no_block) ≡ false =
        ground (arith, h.chain.0, h.ascending.1) in
      rw (later, h.tail)
        record {
          chain =
              Chain-snoc index.next j js 0 k (get_or index.heads b no_block) h.ascending
                (omega (arith, r.next)) h.chain;
          tail =
              get_or-set_self index.tails b k no_block (omega (arith, r.tails))
              ∙ sym (last_or-snoc no_block (j ∷ js) k);
          ascending = Ascending-snoc 0 k (j ∷ js) (omega arith) h.ascending;
          owned = All-snoc (λ i. owner i ≡ b) (j ∷ js) k h.owned owns;
        }

  owner-ne : (b t : ℕ) (js : List ℕ) → owner t ≢ b → All (λ j. owner j ≡ b) js → All (λ j. t ≢ j) js
  owner-ne b t [] d h = tt
  owner-ne b t (j ∷ js) d h = ((λ e. d (ap owner e ∙ h.0)), owner-ne b t js d h.1)

  -- Every other bucket stays as it is.
  insert_block-Holds_other :
      (index : Index) (b : ℕ) (own members : List ℕ)
      → bucket mask adler ≢ b
      → Holds owner index (bucket mask adler) k own
      → Holds owner index b k members
      → Holds owner (insert_block mask index k adler) b (suc k) members
  unfolding insert_block
  insert_block-Holds_other index b own members ne g h = record {
    chain = rw heads_same (links own g);
    tail = get_or-set_ne index.tails (bucket mask adler) b k no_block ne ∙ h.tail;
    ascending = Ascending-weaken 0 k (suc k) members (omega arith) h.ascending;
    owned = h.owned;
  }
    where
      heads_same :
          get_or
            (if get_or index.heads (bucket mask adler) no_block == no_block
              then set index.heads (bucket mask adler) k
              else index.heads)
            b
            no_block
          ≡ get_or index.heads b no_block
      heads_same = elim (Bool-cases (get_or index.heads (bucket mask adler) no_block == no_block)) [
        | inl e ↦ rw e (get_or-set_ne index.heads (bucket mask adler) b k no_block ne)
        | inr e ↦ rw e refl
      ]

      links :
          (own : List ℕ)
          → Holds owner index (bucket mask adler) k own
          → Chain
              (set
                (if get_or index.heads (bucket mask adler) no_block == no_block
                  then index.next
                  else set index.next (get_or index.tails (bucket mask adler) no_block) k)
                k
                no_block)
              members
              (get_or index.heads b no_block)
      links [] g =
          let first : (get_or index.heads (bucket mask adler) no_block == no_block) ≡ true =
            ground (arith, g.chain) in
          rw first (
            Chain-set index.next members _ k no_block
              (Ascending-ne 0 k k members (omega arith) h.ascending) h.chain)
      links (j ∷ js) g =
          let later : (get_or index.heads (bucket mask adler) no_block == no_block) ≡ false =
            ground (arith, g.chain.0, g.ascending.1) in
          let t_owned = last-All (λ i. owner i ≡ bucket mask adler) j js g.owned in
          rw (later, g.tail)
            (Chain-set (set index.next (last_or j js) k) members _ k no_block
              (Ascending-ne 0 k k members (omega arith) h.ascending)
              (Chain-set index.next members _ (last_or j js) k
                (owner-ne b (last_or j js) members (λ e. ne (sym t_owned ∙ e)) h.owned) h.chain))

-- The blocks of a bucket among `left` blocks from `lo` on.
unfoldable pub members : (ℕ → ℕ) → ℕ → ℕ → ℕ → List ℕ
members owner b lo zero = []
members owner b lo (suc left) =
    let rest = members owner b (lo + 1) left in if owner lo == b then lo ∷ rest else rest

-- What block `k` adds to bucket `b`.
abbrev added : (ℕ → ℕ) → ℕ → ℕ → List ℕ
added owner b k = if owner k == b then k ∷ [] else []

members-suc :
    (owner : ℕ → ℕ) (b lo left : ℕ)
    → members owner b lo (suc left) ≡ added owner b lo ++ members owner b (lo + 1) left
unfolding members
members-suc owner b lo left = elim (Bool-cases (owner lo == b)) [
  | inl e ↦ rw e refl
  | inr e ↦ rw e refl
]

module _ (owner : ℕ → ℕ) (mask buckets blocks : ℕ) (small : blocks ≤ no_block)
    (in_range : (a : ℕ) → bucket mask a < buckets) where
  insert_block-Holds :
      (index : Index) (k adler : ℕ) (before : ℕ → List ℕ)
      → k < blocks
      → owner k ≡ bucket mask adler
      → HasRoom index buckets blocks
      → ((b : ℕ) → b < buckets → Holds owner index b k (before b))
      → (b : ℕ) → b < buckets
      → Holds owner (insert_block mask index k adler) b (k + 1) (before b ++ added owner b k)
  insert_block-Holds index k adler before k_in owns r h b b_in =
      let e : suc k ≡ k + 1 = omega arith in
      elim (Bool-cases (owner k == b)) [
        | inl same ↦
            let b_eq : bucket mask adler ≡ b = ground (arith, owns) in
            rw (same, ← e)
              (subst
                (λ x.
                  Holds owner (insert_block mask index k adler) x (suc k) (before x ++ (k ∷ [])))
                b_eq
                (insert_block-Holds_self owner mask adler k buckets blocks (omega arith) k_in owns
                  (in_range adler) index (before (bucket mask adler)) r
                  (h (bucket mask adler) (in_range adler))))
        | inr other ↦
            let b_ne : bucket mask adler ≢ b = ground (arith, owns) in
            rw (other, append-nil, ← e)
              (insert_block-Holds_other owner mask adler k buckets blocks (omega arith) k_in owns
                (in_range adler) index b (before (bucket mask adler)) (before b) b_ne
                (h (bucket mask adler) (in_range adler)) (h b b_in))
      ]

  pub insert_blocks-Holds :
      (rest : List BlockSig) (k : ℕ) (index : Index) (before : ℕ → List ℕ)
      → k + length rest ≡ blocks
      → ((i : ℕ) → i < length rest → owner (k + i) ≡ bucket mask (get_or rest i no_sig).adler32)
      → HasRoom index buckets blocks
      → ((b : ℕ) → b < buckets → Holds owner index b k (before b))
      → (b : ℕ) → b < buckets
      → Holds owner
          (insert_blocks mask rest k index)
          b
          blocks
          (before b ++ members owner b k (length rest))
  unfolding insert_blocks
  insert_blocks-Holds [] k index before e own r h b b_in =
      let e' : k ≡ blocks = omega arith in unfold members in rw (append-nil, ← e') (h b b_in)
  insert_blocks-Holds (block ∷ rest) k index before e own r h b b_in =
      rw (members-suc, ← append_assoc)
        (insert_blocks-Holds rest (k + 1) (insert_block mask index k block.adler32)
          (λ x. before x ++ added owner x k) (omega arith)
          (λ i i_in. ap owner (omega arith) ∙ own (suc i) (omega arith))
          (insert_block-HasRoom mask index k block.adler32 buckets blocks r)
          (insert_block-Holds index k block.adler32 before (omega arith)
            (ap owner {y = k + 0} (omega arith) ∙ own 0 (omega arith)) r h)
          b b_in)

pub bucket-lt : (count a : ℕ) → 0 < count → bucket (count - 1) a < count
unfolding bucket
bucket-lt count a h = omega (arith, bit_and-le_right (adler_mix a) (count - 1))

length-stale_words : (env : Env) (n i : ℕ) → length (stale_words env n i) ≡ n
unfolding stale_words
length-stale_words env zero i = refl
length-stale_words env (suc n) i = ap suc (length-stale_words env n (i + 1))

-- The bucket of a signature's block.
abbrev pub owner_of : List BlockSig → ℕ → ℕ → ℕ
owner_of blocks bucket_count j = bucket (bucket_count - 1) (get_or blocks j no_sig).adler32

pub empty_index : Env → List BlockSig → ℕ → Index
empty_index env blocks bucket_count = record {
  heads = replicate bucket_count no_block;
  tails = replicate bucket_count no_block;
  next = stale_words env (length blocks) 0;
}

empty_index-Holds :
    (env : Env) (blocks : List BlockSig) (bucket_count b : ℕ)
    → Holds (owner_of blocks bucket_count) (empty_index env blocks bucket_count) b 0 []
unfolding empty_index
empty_index-Holds env blocks bucket_count b = record {
  chain = get_or-replicate bucket_count b no_block;
  tail = get_or-replicate bucket_count b no_block;
  ascending = tt;
  owned = tt;
}

pub build_index-eq :
    (env : Env) (blocks : List BlockSig) (bucket_count : ℕ) {index : Index}
    → build_index env blocks bucket_count ≡ some index
    → (index ≡ insert_blocks (bucket_count - 1) blocks 0 (empty_index env blocks bucket_count))
      × (0 < bucket_count)
unfolding build_index empty_index
build_index-eq env blocks bucket_count h = ground arith

-- Every bucket of a finished index holds exactly the blocks that its mixed weak checksum names, in
-- ascending order.
pub build_index-Holds :
    (env : Env) (blocks : List BlockSig) (bucket_count b : ℕ) {index : Index}
    → length blocks ≤ no_block
    → build_index env blocks bucket_count ≡ some index
    → b < bucket_count
    → Holds
        (owner_of blocks bucket_count)
        index
        b
        (length blocks)
        (members (owner_of blocks bucket_count) b 0 (length blocks))
build_index-Holds env blocks bucket_count b small built b_in =
    let (same, positive) = build_index-eq env blocks bucket_count built in
    rw same (
      insert_blocks-Holds (owner_of blocks bucket_count) (bucket_count - 1) bucket_count
        (length blocks) small (λ a. bucket-lt bucket_count a positive) blocks 0
        (empty_index env blocks bucket_count) (λ x. []) (omega arith)
        (λ i i_in. ap (owner_of blocks bucket_count) {x = 0 + i} (omega arith)) room
        (λ x x_in. empty_index-Holds env blocks bucket_count x) b b_in)
  where
    room : HasRoom (empty_index env blocks bucket_count) bucket_count (length blocks)
    room =
        unfold empty_index in
        record {
          heads = length-replicate bucket_count no_block;
          tails = length-replicate bucket_count no_block;
          next = length-stale_words env (length blocks) 0;
        }
