-- ===== src/Delta/Transfer.antt =====
-- A whole delta transfer, both ways over the wire.
use native.Mathlib.Nat.{le-div_iff_mul-le, div-le_of_le-mul, mod-eq_of_lt}
use fast_sync.Prelude.{
  ℕ, zero, suc, ◌+◌, ◌-◌, ◌*◌, ◌%◌, ◌^◌, ◌≤◌, ◌<◌, ◌≡◌, refl, List, [], ◌∷◌, Option, some, none,
  Bool, inl, inr, if◌then◌else◌, ◌&&◌, Bool-cases, guard, ◌>>◌, arith, length, append-nil, ltb,
  ◌==◌, ◌||◌, not, false, true, ◌>>=◌,
}
use fast_sync.Prelude.Bytes.{IsBytes}
use fast_sync.Delta.{
  Env, Signature, Delta, Instruction, block_match, literal, max_file_size, block_size_min,
  block_size_max,
}
use fast_sync.Delta.Adler.Rolling.{adler32-lt}
use fast_sync.Delta.Apply.{apply}
use fast_sync.Delta.Compute.{compute_seeded}
use fast_sync.Delta.Compute.Total.{compute_seeded-some}
use fast_sync.Delta.RoundTrip.{Distinguishes, apply-compute_seeded}
use fast_sync.Delta.Sign.{sign_block, sign_blocks, signature_create_seeded}
use fast_sync.Delta.Sign.Blocks.{block_count, length-sign_blocks, signature_create_seeded-IsSigned}
use fast_sync.Delta.Wire.{signature_serialize, signature_deserialize, serialize, deserialize}
use fast_sync.Delta.Wire.DeltaLaws.{Grants, deserialize-serialize}
use fast_sync.Delta.Wire.SignatureLaws
use fast_sync.Delta.Wire.SignatureLaws.{AllWords, signature_deserialize-serialize}

-- `delta_is_worthwhile`: some block matches, and the delta has less than 7/10 of the file's size.
-- The source divides two doubles and compares with 0.7; for sizes below 2^48 the quotient is on the
-- side of 0.7 that this test says, since a fraction other than 7/10 is farther off than rounding.
pub has_match : List Instruction → Bool
has_match [] = false
has_match (block_match index offset len ∷ instructions) = true
has_match (literal bytes ∷ instructions) = has_match instructions

pub is_worthwhile : Delta → ℕ → Bool
is_worthwhile d new_file_size =
    if length d.instructions == 0 || new_file_size == 0
    then false
    else has_match d.instructions && ltb (d.delta_size * 10) (new_file_size * 7)

-- `delta_should_attempt`, with the ratio of 10 on whole numbers for the same reason.
pub should_attempt : ℕ → ℕ → ℕ → Bool
should_attempt old_size new_size limit =
    if ltb old_size 16384 || ltb new_size 16384
    then false
    else (if ltb limit old_size || ltb limit new_size
        then false
        else (let large = if ltb new_size old_size then old_size else new_size in
            let small = if ltb new_size old_size then new_size else old_size in
            not (small == 0 || ltb (small * 10) large)))

-- What the sender answers to a signature: STATUS_NEXT and later the whole file, or
-- STATUS_DELTA_DATA and a delta.
pub data Reply : Type 0 where
  next : Reply
  delta_data : List ℕ → Reply

-- `send_delta`, on a session without compression.
pub send_delta : Env → List ℕ → Signature → ℕ → ℕ → Reply
send_delta env new_file sig block_size seed =
    elim (compute_seeded env new_file sig block_size seed) [
      | none ↦ next
      | some d ↦
          if is_worthwhile d (length new_file)
          then elim (serialize env d) [ none ↦ next | some bytes ↦ delta_data bytes ]
          else next
    ]

-- `receive_delta_file` up to the signature that it sends.
pub request_delta : Env → List ℕ → ℕ → ℕ → Option (List ℕ)
request_delta env old_file block_size seed =
    signature_create_seeded env old_file block_size seed >>= λ sig. signature_serialize env sig

-- `receive_delta_file` from the answer on: the contents of the received file. After STATUS_NEXT the
-- whole file follows.
pub receive_reply : Env → List ℕ → ℕ → List ℕ → Reply → Option (List ℕ)
receive_reply env old_file block_size whole_file next = some whole_file
receive_reply env old_file block_size whole_file (delta_data bytes) = do
  d ← deserialize env bytes
  guard (not (ltb max_file_size d.new_file_size))
  apply env old_file d block_size

-- The exchange on a connection that delivers what is sent; a signature that the sender cannot read
-- ends it.
pub exchange : Env → List ℕ → List ℕ → ℕ → ℕ → Option (List ℕ)
exchange env old_file new_file block_size seed = do
  request ← request_delta env old_file block_size seed
  sig ← signature_deserialize env request
  receive_reply env old_file block_size new_file (send_delta env new_file sig block_size seed)

-- xxHash32 is a 32-bit hash.
abbrev pub HashesWords : Env → Type 0
HashesWords env = (bytes : List ℕ) (seed : ℕ) → env.xxh32 bytes seed < 2 ^ 32

module _ (env : Env) (old_file : List ℕ) (block_size seed : ℕ) (grants : Grants env)
    (hashes : HashesWords env) (not_empty : 0 < length old_file)
    (fits : length old_file ≤ max_file_size) (large : block_size_min ≤ block_size)
    (small : block_size ≤ block_size_max) where
  sign_blocks-AllWords : (n i : ℕ) → AllWords (sign_blocks env old_file block_size seed n i)
  unfolding sign_blocks sign_block
  sign_blocks-AllWords zero i = tt
  sign_blocks-AllWords (suc n) i = (adler32-lt _, hashes _ _, sign_blocks-AllWords n (i + 1))

  block_count-le : block_count (length old_file) block_size ≤ 2 ^ 19
  block_count-le = div-le_of_le-mul block_size (omega arith)

  signature_create_seeded-some :
      (sig : Signature) × (signature_create_seeded env old_file block_size seed ≡ some sig)
      × SignatureLaws.IsWireable sig
  unfolding signature_create_seeded
  signature_create_seeded-some =
      let n = length old_file in
      let count = block_count n block_size in
      let sig : Signature = record {
        file_size = n;
        block_size = block_size;
        blocks = sign_blocks env old_file block_size seed count 0;
      } in
      let counted = length-sign_blocks env old_file block_size seed count 0 in
      let pos : 0 < count = positive_count in
      let fresh : (n == 0 || block_size == 0) ≡ false = ground arith in
      let bounded : (ltb max_file_size n
            || ltb block_size_max block_size
            || ltb ((2 ^ 32 - 1) * block_size) n)
          ≡ false =
        ground arith in
      let word : count % 2 ^ 32 ≡ count = mod-eq_of_lt (omega (arith, block_count-le)) in
      let some_blocks : (count == 0) ≡ false = ground arith in
      (
        sig,
        rw (fresh, bounded, grants 24, word, some_blocks, grants (count * 8)) refl,
        record {
          not_empty = not_empty;
          file_small = fits;
          positive = omega arith;
          small = small;
          few = omega (arith, counted, block_count-le);
          count = counted;
          words = sign_blocks-AllWords count 0;
        },
      )
    where
      positive_count : 0 < block_count (length old_file) block_size
      positive_count = (le-div_iff_mul-le (omega arith)).1 (omega arith)

module _ (env : Env) (new_file : List ℕ) (sig : Signature) (block_size seed : ℕ) (d : Delta) where
  send_delta-delta_data :
      (reply : List ℕ)
      → compute_seeded env new_file sig block_size seed ≡ some d
      → is_worthwhile d (length new_file) ≡ true
      → serialize env d ≡ some reply
      → send_delta env new_file sig block_size seed ≡ delta_data reply
  unfolding send_delta
  send_delta-delta_data reply computed worth written = ground arith

  send_delta-next :
      compute_seeded env new_file sig block_size seed ≡ some d
      → is_worthwhile d (length new_file) ≡ false
      → send_delta env new_file sig block_size seed ≡ next
  unfolding send_delta
  send_delta-next computed worthless = ground arith

-- The delta exchange brings the new file over: for files of 1 byte to 256 MiB and a block size from
-- 1024 to 65536, if memory is granted and the two checksums tell the new file's windows from the old
-- file's blocks, the receiver ends with the new file, whether a delta was sent or the whole file.
pub exchange-eq_new :
    (env : Env) (old_file new_file : List ℕ) (block_size seed : ℕ)
    → Grants env
    → HashesWords env
    → 0 < length old_file
    → length old_file ≤ max_file_size
    → IsBytes new_file
    → 0 < length new_file
    → length new_file ≤ max_file_size
    → block_size_min ≤ block_size
    → block_size ≤ block_size_max
    → Distinguishes env old_file new_file block_size seed
    → exchange env old_file new_file block_size seed ≡ some new_file
unfolding exchange request_delta
exchange-eq_new env old_file new_file block_size seed grants hashes old_some old_fits bytes new_some
      new_fits large small distinct =
    let (sig, created, wireable) =
      signature_create_seeded-some env old_file block_size seed grants hashes old_some old_fits
        large small in
    let (request, sent, _, read) = signature_deserialize-serialize env sig grants wireable in
    let read' : signature_deserialize env request ≡ some sig = rw append-nil at (read []) in
    let signed = signature_create_seeded-IsSigned env old_file block_size seed created in
    let (d, computed, size, _, fits) =
      compute_seeded-some env new_file sig block_size seed grants new_some new_fits large small
        signed.same_size (omega (arith, wireable.few)) in
    let (reply, written, _, back) = deserialize-serialize env d grants fits in
    let back' : deserialize env reply ≡ some d = rw append-nil at (back []) in
    let applied =
      apply-compute_seeded env old_file new_file block_size seed bytes new_fits
        (grants (length new_file)) distinct created computed in
    let allowed : ltb max_file_size d.new_file_size ≡ false = ground (arith, size) in
    elim (Bool-cases (is_worthwhile d (length new_file))) [
      | inl e ↦
          let answer =
            send_delta-delta_data env new_file sig block_size seed d reply computed e written in
          rw (created, sent, read', answer) (unfold receive_reply in rw (back', allowed) applied)
      | inr e ↦
          let answer = send_delta-next env new_file sig block_size seed d computed e in
          rw (created, sent, read', answer) (unfold receive_reply in refl)
    ]
