-- ===== src/Delta/Tests.antt =====
-- The delta component at concrete inputs: tests of the stages, and the theorems at files that meet
-- their conditions.
use fast_sync.Prelude.{
  ℕ, zero, suc, ◌+◌, ◌*◌, ◌%◌, ◌^◌, ◌≤◌, ◌≡◌, ◌↔◌, refl, List, [], ◌∷◌, ◌++◌, true, false, none,
  some, arith, ◌-◌, length, drop, replicate, length-replicate,
}
use fast_sync.Prelude.Bytes.{IsBytes, word_of, read_word}
use fast_sync.Delta.{Env, Signature, block_match, literal, Delta}
use fast_sync.Delta.Adler.{initial, add_bytes, add_byte, adler32, digest, roll}
use fast_sync.Delta.Adler.Rolling.{roll-add_bytes}
use fast_sync.Delta.Sign.{block_at, sign_block, sign_blocks, signature_create_seeded, window_len}
use fast_sync.Delta.Apply.Exact.{IsAccepted, AllInBounds, expand, apply-eq-some_iff}
use fast_sync.Delta.Compute.Plain.{forget, forget_all, plain_loop, loop-eq_plain}
use fast_sync.Delta.Compute.Total.{compute_seeded-some}
use fast_sync.Delta.Index.Find.{IsFirst, agrees, find_match-build_index, find_match-IsFirst}
use fast_sync.Delta.Wire.{
  signature_serialize, signature_deserialize, serialize, deserialize, write_delta,
  read_instructions, read_instruction, read_literal,
}
use fast_sync.Delta.Wire.DeltaLaws
use fast_sync.Delta.Wire.DeltaLaws.{deserialize-serialize}
use fast_sync.Delta.Wire.Canonical.{deserialize_sound}
use fast_sync.Delta.Wire.SignatureLaws.{signature_deserialize-serialize}
use fast_sync.Delta.Transfer.{exchange, HashesWords, exchange-eq_new}
use fast_sync.Delta.Apply.{apply}
use fast_sync.Delta.Index.{
  next_pow2, build_index, insert_blocks, insert_block, bucket, adler_mix, stale_words, find_match,
  walk_bucket, no_block,
}
use fast_sync.Delta.Compute.{
  compute_seeded, start_state, prepare_index, loop, step, window_sums, advance, flush_literal,
  ensure_capacity, append, finish, count_sizes,
}
use fast_sync.Delta.RoundTrip.{Distinguishes, apply-compute_seeded}

-- An allocator that grants all, and the sum of the bytes for a hash.
toy_hash : List ℕ → ℕ → ℕ
toy_hash bytes seed = (word_of bytes + seed) % 2 ^ 32

abbrev toy : Env
toy = record { xxh32 = toy_hash; alloc = λ n. true; stale = λ i. 7 }

-- A file of one block of 1024 bytes.
abbrev block_file : List ℕ
block_file = replicate 1024 7

replicate-IsBytes : (n : ℕ) → IsBytes (replicate n 7)
replicate-IsBytes zero = tt
replicate-IsBytes (suc n) = (omega arith, replicate-IsBytes n)

roll-add_bytes_example :
    roll 3 250 9 (add_bytes (250 ∷ 1 ∷ 2 ∷ []) initial) ≡ add_bytes (1 ∷ 2 ∷ 9 ∷ []) initial
roll-add_bytes_example = roll-add_bytes 250 (1 ∷ 2 ∷ []) 9 (omega arith) (omega arith) (omega arith)

toy-HashesWords : HashesWords toy
unfolding toy_hash
toy-HashesWords bytes seed = omega arith

block_file-length : length block_file ≡ 1024
block_file-length = length-replicate {A = ℕ} 1024 7

-- There is one window and one block.
block_file-Distinguishes : Distinguishes toy block_file block_file 1024 0
unfolding block_at window_len
block_file-Distinguishes i j h k a x =
    let i0 : i ≡ 0 = omega (arith, block_file-length) in
    let j0 : j ≡ 0 = omega (arith, block_file-length) in rw (i0, j0) refl

exchange-eq_new_example : exchange toy block_file block_file 1024 0 ≡ some block_file
exchange-eq_new_example =
    exchange-eq_new toy block_file block_file 1024 0 (λ n. refl) toy-HashesWords
      (omega (arith, block_file-length)) (omega (arith, block_file-length)) (replicate-IsBytes 1024)
      (omega (arith, block_file-length)) (omega (arith, block_file-length)) (omega arith)
      (omega arith) block_file-Distinguishes

-- A file of two blocks of two bytes, and one that keeps the second.
abbrev old_pair : List ℕ
old_pair = 1 ∷ 2 ∷ 3 ∷ 4 ∷ []

abbrev new_pair : List ℕ
new_pair = 9 ∷ 3 ∷ 4 ∷ []

abbrev pair_sig : Signature
pair_sig = record {
  file_size = 4;
  block_size = 2;
  blocks =
      record { adler32 = 393220; xxhash = 513 } ∷ record { adler32 = 786440; xxhash = 1027 } ∷ [];
}

abbrev pair_delta : Delta
pair_delta = record {
  new_file_size = 3;
  instructions = literal (9 ∷ []) ∷ block_match 1 0 2 ∷ [];
  delta_size = 19;
}

pair_signed : signature_create_seeded toy old_pair 2 0 ≡ some pair_sig
unfolding signature_create_seeded sign_blocks sign_block block_at window_len adler32 add_bytes
    add_byte digest toy_hash word_of
pair_signed = refl

-- The window of the second block is found through the index.
pair_computed : compute_seeded toy new_pair pair_sig 2 0 ≡ some pair_delta
unfolding compute_seeded prepare_index next_pow2 build_index insert_blocks insert_block bucket
    adler_mix stale_words loop step window_len window_sums roll add_bytes add_byte digest find_match
    walk_bucket toy_hash word_of advance flush_literal ensure_capacity append finish count_sizes
pair_computed = refl

pair_Distinguishes : Distinguishes toy old_pair new_pair 2 0
unfolding block_at window_len toy_hash word_of
pair_Distinguishes zero zero h k a x = absurd (omega arith)
pair_Distinguishes zero (suc zero) h k a x = absurd (omega arith)
pair_Distinguishes (suc zero) zero h k a x = absurd (omega arith)
pair_Distinguishes (suc zero) (suc zero) h k a x = refl
pair_Distinguishes i (suc (suc j)) h k a x = absurd (omega arith)
pair_Distinguishes (suc (suc i)) j h k a x = absurd (omega arith)

apply-compute_seeded_example : apply toy old_pair pair_delta 2 ≡ some new_pair
apply-compute_seeded_example =
    apply-compute_seeded toy old_pair new_pair 2 0 (omega arith) (omega arith) refl
      pair_Distinguishes pair_signed pair_computed

find_match-build_index_example :
    find_match toy
      (3 ∷ 4 ∷ [])
      786440
      0
      true
      pair_sig.blocks
      (build_index toy pair_sig.blocks 4)
      (4 - 1)
    ≡ find_match toy (3 ∷ 4 ∷ []) 786440 0 true pair_sig.blocks none 0
find_match-build_index_example =
    find_match-build_index toy (3 ∷ 4 ∷ []) 786440 0 pair_sig.blocks true 4 0 (omega arith)

find_match-IsFirst_example :
    let found =
      find_match toy
        (3 ∷ 4 ∷ [])
        786440
        0
        true
        pair_sig.blocks
        (build_index toy pair_sig.blocks 4)
        (4 - 1) in
    (true ≡ false → found ≡ no_block)
    × (true ≡ true → IsFirst (agrees toy (3 ∷ 4 ∷ []) 786440 0 pair_sig.blocks) 0 2 found)
find_match-IsFirst_example =
    find_match-IsFirst toy (3 ∷ 4 ∷ []) 786440 0 pair_sig.blocks true 4 (omega arith)

loop-eq_plain_example :
    forget_all (loop toy new_pair 2 0 pair_sig none 0 4 start_state)
    ≡ plain_loop toy new_pair 2 0 pair_sig none 0 4 (forget start_state)
loop-eq_plain_example =
    loop-eq_plain toy new_pair 2 0 pair_sig none 0 (omega arith) (omega arith) (omega arith) 4

abbrev block_sig : Signature
block_sig = record {
  file_size = 1024;
  block_size = 1024;
  blocks = record { adler32 = 1; xxhash = 1 } ∷ [];
}

compute_seeded-some_example :
    (d : Delta) × (compute_seeded toy block_file block_sig 1024 0 ≡ some d)
    × (d.new_file_size ≡ length block_file)
    × (length d.instructions ≤ 2 ^ 19 + 1)
    × DeltaLaws.IsWireable d
compute_seeded-some_example =
    compute_seeded-some toy block_file block_sig 1024 0 (λ n. refl)
      (omega (arith, block_file-length)) (omega (arith, block_file-length)) (omega arith)
      (omega arith) refl (omega arith)

apply-eq-some_iff_example : (apply toy old_pair pair_delta 2 ≡ some new_pair) ↔ (
    IsAccepted toy pair_delta 2
    × AllInBounds old_pair 2 pair_delta.instructions
    × (new_pair ≡ expand old_pair 2 pair_delta.instructions)
    × (length new_pair ≡ 3))
apply-eq-some_iff_example = apply-eq-some_iff toy old_pair pair_delta 2 new_pair (omega arith)

pair_delta-IsWireable : DeltaLaws.IsWireable pair_delta
pair_delta-IsWireable = omega arith

deserialize-serialize_example :
    (bytes : List ℕ) × (serialize toy pair_delta ≡ some bytes)
    × (length bytes ≡ 12 + 19)
    × ((rest : List ℕ) → deserialize toy (bytes ++ rest) ≡ some pair_delta)
deserialize-serialize_example =
    deserialize-serialize toy pair_delta (λ n. refl) pair_delta-IsWireable

-- The wire form of a delta of one literal byte, and a byte behind it.
abbrev one_byte : List ℕ
one_byte = 1 ∷ 0 ∷ 0 ∷ 0 ∷ 0 ∷ 0 ∷ 0 ∷ 0 ∷ 1 ∷ 0 ∷ 0 ∷ 0 ∷ 2 ∷ 1 ∷ 0 ∷ 0 ∷ 0 ∷ 65 ∷ 99 ∷ []

abbrev one_byte_delta : Delta
one_byte_delta = record { new_file_size = 1; instructions = literal (65 ∷ []) ∷ []; delta_size = 6 }

one_byte-read : deserialize toy one_byte ≡ some one_byte_delta
unfolding deserialize read_instructions read_instruction read_literal read_word word_of
one_byte-read = refl

deserialize_sound_example :
    DeltaLaws.IsWireable one_byte_delta
    × (one_byte ≡ write_delta one_byte_delta ++ drop (12 + 6) one_byte)
deserialize_sound_example = deserialize_sound toy one_byte (omega arith) one_byte-read

signature_deserialize-serialize_example :
    (bytes : List ℕ) × (signature_serialize toy pair_sig ≡ some bytes)
    × (length bytes ≡ 16 + 2 * 8)
    × ((rest : List ℕ) → signature_deserialize toy (bytes ++ rest) ≡ some pair_sig)
signature_deserialize-serialize_example =
    signature_deserialize-serialize toy pair_sig (λ n. refl) (omega arith)
