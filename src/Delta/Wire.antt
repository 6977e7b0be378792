-- ===== src/Delta/Wire.antt =====
-- The wire form of signatures and deltas: `delta_signature_serialize`, `delta_serialize` and their
-- inverses. A position in the buffer is the bytes from there on.
pub mod Words
pub mod SignatureLaws
pub mod DeltaLaws
pub mod Canonical
use fast_sync.Prelude.{
  ℕ, zero, suc, ◌+◌, ◌-◌, ◌*◌, ◌/◌, ◌^◌, List, [], ◌∷◌, ◌++◌, ◌||◌, not, Option, none, some, length,
  get_or, take, drop, ltb, ◌==◌, if◌then◌else◌, guard, ◌>>=◌, ◌>>◌,
}
use fast_sync.Prelude.Bytes.{bytes_of, read_word}
use fast_sync.Delta.{
  Env, BlockSig, Signature, Instruction, block_match, literal, Delta, max_blocks, max_instructions,
  max_file_size, block_size_max,
}

-- `data_create`; 32 is the size of a `Data`.
pub data_create : Env → List ℕ → Option (List ℕ)
data_create env bytes = do guard (env.alloc 32); some bytes

pub write_blocks : List BlockSig → List ℕ
write_blocks [] = []
write_blocks (block ∷ blocks) =
    bytes_of 4 block.adler32 ++ (bytes_of 4 block.xxhash ++ write_blocks blocks)

-- What is written to the buffer.
pub write_signature : Signature → List ℕ
write_signature sig =
    bytes_of 8 sig.file_size
    ++ (bytes_of 4 sig.block_size ++ (bytes_of 4 (length sig.blocks) ++ write_blocks sig.blocks))

pub signature_serialize : Env → Signature → Option (List ℕ)
signature_serialize env sig = do
  let block_bytes = length sig.blocks * 8
  let total = 16 + block_bytes
  guard (not (ltb (2 ^ 64 - 1 - 16) block_bytes || ltb (2 ^ 64 - 1) total))
  guard (env.alloc total)
  data_create env (write_signature sig)

pub read_blocks : ℕ → List ℕ → List BlockSig
read_blocks zero rest = []
read_blocks (suc left) rest =
    record { adler32 = read_word 4 rest; xxhash = read_word 4 (drop 4 rest) }
    ∷ read_blocks left (drop 8 rest)

pub signature_deserialize : Env → List ℕ → Option Signature
signature_deserialize env bytes = do
  guard (not (ltb (length bytes) 16))
  guard (env.alloc 24)
  let file_size = read_word 8 bytes
  let block_size = read_word 4 (drop 8 bytes)
  let block_count = read_word 4 (drop 12 bytes)
  guard (not (ltb max_blocks block_count))
  guard (
      not (
        block_size == 0
        || ltb block_size_max block_size
        || ltb max_file_size file_size
        || file_size == 0
        || not ((file_size + block_size - 1) / block_size == block_count)))
  guard (not (ltb (length bytes) (16 + block_count * 8)))
  guard (env.alloc (block_count * 8))
  some (record {
    file_size = file_size;
    block_size = block_size;
    blocks = read_blocks block_count (drop 16 bytes);
  })

-- 1 is DELTA_OP_BLOCK_MATCH and 2 is DELTA_OP_LITERAL.
pub write_instruction : Instruction → List ℕ
write_instruction (block_match index offset len) =
    1 ∷ bytes_of 4 index ++ (bytes_of 4 offset ++ bytes_of 4 len)
write_instruction (literal bytes) = 2 ∷ bytes_of 4 (length bytes) ++ bytes

pub write_instructions : List Instruction → List ℕ
write_instructions [] = []
write_instructions (instruction ∷ instructions) =
    write_instruction instruction ++ write_instructions instructions

pub write_delta : Delta → List ℕ
write_delta d =
    bytes_of 8 d.new_file_size
    ++ (bytes_of 4 (length d.instructions) ++ write_instructions d.instructions)

-- The buffer has room for 12 bytes and `delta_size`; what is written fills it when `delta_size` is
-- the size of the instructions.
pub serialize : Env → Delta → Option (List ℕ)
serialize env d = do
  guard (not (ltb (2 ^ 64 - 1 - 12) d.delta_size || ltb (2 ^ 64 - 1) (12 + d.delta_size)))
  guard (env.alloc (12 + d.delta_size))
  data_create env (write_delta d)

-- An instruction, the bytes behind it and the running `delta_size`.
pub record Parsed (A : Type 0) : Type 0 where
  pub value : A
  pub rest : List ℕ
  pub size : ℕ

pub read_match : List ℕ → ℕ → Option (Parsed Instruction)
read_match rest size =
    if ltb (length rest) 12
    then none
    else some (record {
      value =
          block_match (read_word 4 rest) (read_word 4 (drop 4 rest)) (read_word 4 (drop 8 rest));
      rest = drop 12 rest;
      size = size + 12;
    })

unfoldable pub read_literal : Env → List ℕ → ℕ → Option (Parsed Instruction)
read_literal env rest size =
    if ltb (length rest) 4
    then none
    else (let lit_len = read_word 4 rest in
        let body = drop 4 rest in
        if ltb (length body) lit_len
        then none
        else (if env.alloc (if ltb 0 lit_len then lit_len else 1)
            then some (record {
              value = literal (take lit_len body);
              rest = drop lit_len body;
              size = size + (4 + lit_len);
            })
            else none))

unfoldable pub read_instruction : Env → List ℕ → ℕ → Option (Parsed Instruction)
read_instruction env [] size = none
read_instruction env (type ∷ rest) size =
    if type == 1
    then read_match rest (size + 1)
    else if type == 2
    then read_literal env rest (size + 1)
    else none

unfoldable pub read_instructions : Env → ℕ → List ℕ → ℕ → Option (Parsed (List Instruction))
read_instructions env zero rest size = some (record { value = []; rest = rest; size = size })
read_instructions env (suc left) rest size = do
  first ← read_instruction env rest size
  others ← read_instructions env left first.rest first.size
  some (record others { value = first.value ∷ others.value })

unfoldable pub deserialize : Env → List ℕ → Option Delta
deserialize env bytes = do
  guard (not (ltb (length bytes) 12))
  guard (env.alloc 32)
  let new_file_size = read_word 8 bytes
  let count = read_word 4 (drop 8 bytes)
  guard (not (ltb max_instructions count))
  guard (count == 0 || env.alloc (count * 24))
  parsed ← read_instructions env count (drop 12 bytes) 0
  some (record {
    new_file_size = new_file_size;
    instructions = parsed.value;
    delta_size = parsed.size;
  })
