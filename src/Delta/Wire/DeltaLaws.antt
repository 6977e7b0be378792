-- ===== src/Delta/Wire/DeltaLaws.antt =====
-- `delta_deserialize` is the inverse of `delta_serialize`.
use fast_sync.Prelude.{
  ℕ, ◌+◌, ◌-◌, ◌*◌, ◌^◌, ◌≤◌, ◌<◌, ◌≡◌, refl, sym, ap, ◌∙◌, List, [], ◌∷◌, ◌++◌, true, false, ◌||◌,
  some, arith, length, drop, ltb, ◌==◌, append_assoc, length-append, take-append, drop-append,
  drop-drop,
}
use fast_sync.Prelude.Bytes.{bytes_of, length-bytes_of, drop-bytes_of, read_word-bytes_of}
use fast_sync.Delta.{Env, Instruction, block_match, literal, Delta, max_instructions}
use fast_sync.Delta.Wire.{
  write_instruction, write_instructions, write_delta, read_match, read_literal, read_instruction,
  read_instructions, data_create, serialize, deserialize,
}
use fast_sync.Delta.Wire.Words.{drop_words, length_words}

-- The fields of an instruction are 32-bit words.
abbrev pub Fits : Instruction → Type 0
Fits (block_match index offset len) = (index < 2 ^ 32) × (offset < 2 ^ 32) × (len < 2 ^ 32)
Fits (literal bytes) = length bytes < 2 ^ 32

abbrev pub AllFit : List Instruction → Type 0
AllFit [] = Unit {0}
AllFit (instruction ∷ instructions) = Fits instruction × AllFit instructions

-- The bytes that an instruction takes on the wire.
abbrev pub wire_size : Instruction → ℕ
wire_size (block_match index offset len) = 1 + 12
wire_size (literal bytes) = 1 + (4 + length bytes)

abbrev pub wire_sizes : List Instruction → ℕ
wire_sizes [] = 0
wire_sizes (instruction ∷ instructions) = wire_size instruction + wire_sizes instructions

-- The allocator grants every request.
abbrev pub Grants : Env → Type 0
Grants env = (n : ℕ) → env.alloc n ≡ true

pub length-write_instruction :
    (instruction : Instruction) → length (write_instruction instruction) ≡ wire_size instruction
unfolding write_instruction
length-write_instruction (block_match index offset len) = omega (
  arith,
  length-append (bytes_of 4 index) (bytes_of 4 offset ++ bytes_of 4 len),
  length-append (bytes_of 4 offset) (bytes_of 4 len),
  length-bytes_of 4 index,
  length-bytes_of 4 offset,
  length-bytes_of 4 len,
)
length-write_instruction (literal bytes) =
    omega (arith, length-append (bytes_of 4 (length bytes)) bytes, length-bytes_of 4 (length bytes))

pub length-write_instructions :
    (instructions : List Instruction)
    → length (write_instructions instructions) ≡ wire_sizes instructions
unfolding write_instructions
length-write_instructions [] = refl
length-write_instructions (instruction ∷ instructions) = omega (
  arith,
  length-append (write_instruction instruction) (write_instructions instructions),
  length-write_instruction instruction,
  length-write_instructions instructions,
)

read_match-write :
    (index offset len size : ℕ) (rest : List ℕ)
    → (index < 2 ^ 32) × (offset < 2 ^ 32) × (len < 2 ^ 32)
    → read_match (bytes_of 4 index ++ (bytes_of 4 offset ++ (bytes_of 4 len ++ rest))) size
      ≡ some (record { value = block_match index offset len; rest = rest; size = size + 12 })
unfolding read_match
read_match-write index offset len size rest h =
    let behind = bytes_of 4 len ++ rest in
    let whole = bytes_of 4 index ++ (bytes_of 4 offset ++ behind) in
    let long : ltb (length whole) 12 ≡ false = ground (
      arith,
      length_words 4 4 index offset behind,
      length-append (bytes_of 4 len) rest,
      length-bytes_of 4 len,
    ) in
    let last : drop 12 whole ≡ rest =
      sym (drop-drop 4 8 whole)
      ∙ ap (λ t. drop 4 t) (drop_words 4 4 index offset behind)
      ∙ drop-bytes_of 4 len rest in
    rw
      (
        long,
        last,
        drop_words 4 4 index offset behind,
        drop-bytes_of 4 index (bytes_of 4 offset ++ behind),
        read_word-bytes_of 4 index (bytes_of 4 offset ++ behind) h.0,
        read_word-bytes_of 4 offset behind h.1,
        read_word-bytes_of 4 len rest h.2,
      )
      refl

read_literal-write :
    (env : Env) (bytes : List ℕ) (size : ℕ) (rest : List ℕ)
    → Grants env
    → length bytes < 2 ^ 32
    → read_literal env (bytes_of 4 (length bytes) ++ (bytes ++ rest)) size
      ≡ some (record { value = literal bytes; rest = rest; size = size + (4 + length bytes) })
unfolding read_literal
read_literal-write env bytes size rest grants h =
    let n = length bytes in
    let whole = bytes_of 4 n ++ (bytes ++ rest) in
    let word = read_word-bytes_of 4 n (bytes ++ rest) h in
    let behind = drop-bytes_of 4 n (bytes ++ rest) in
    let long : ltb (length whole) 4 ≡ false =
      ground (arith, length-append (bytes_of 4 n) (bytes ++ rest), length-bytes_of 4 n) in
    let room : ltb (length (bytes ++ rest)) n ≡ false = ground (arith, length-append bytes rest) in
    rw (long, word, behind, room, grants _, take-append bytes rest, drop-append bytes rest) refl

read_instruction-write :
    (env : Env) (x : Instruction) (size : ℕ) (rest : List ℕ)
    → Grants env
    → Fits x
    → read_instruction env (write_instruction x ++ rest) size
      ≡ some (record { value = x; rest = rest; size = size + wire_size x })
unfolding read_instruction write_instruction
read_instruction-write env (block_match index offset len) size rest grants h =
    let e : size + 1 + 12 ≡ size + (1 + 12) = omega arith in
    rw
      (
        append_assoc (bytes_of 4 index) (bytes_of 4 offset ++ bytes_of 4 len) rest,
        append_assoc (bytes_of 4 offset) (bytes_of 4 len) rest,
        read_match-write index offset len (size + 1) rest h,
        e,
      )
      refl
read_instruction-write env (literal bytes) size rest grants h =
    let e : size + 1 + (4 + length bytes) ≡ size + (1 + (4 + length bytes)) = omega arith in
    rw
      (
        append_assoc (bytes_of 4 (length bytes)) bytes rest,
        read_literal-write env bytes (size + 1) rest grants h,
        e,
      )
      refl

read_instructions-write :
    (env : Env) (xs : List Instruction) (size : ℕ) (rest : List ℕ)
    → Grants env
    → AllFit xs
    → read_instructions env (length xs) (write_instructions xs ++ rest) size
      ≡ some (record { value = xs; rest = rest; size = size + wire_sizes xs })
unfolding read_instructions write_instructions
read_instructions-write env [] size rest grants h =
    let e : size ≡ size + 0 = omega arith in
    ap (λ n. some (record { value = []; rest = rest; size = n })) e
read_instructions-write env (x ∷ xs) size rest grants h =
    let e : size + wire_size x + wire_sizes xs ≡ size + (wire_size x + wire_sizes xs) =
      omega arith in
    rw
      (
        append_assoc (write_instruction x) (write_instructions xs) rest,
        read_instruction-write env x size (write_instructions xs ++ rest) grants h.0,
        read_instructions-write env xs (size + wire_size x) rest grants h.1,
        e,
      )
      refl

-- A delta that fits the wire: a 64-bit size, at most 2^20 instructions of 32-bit fields, and
-- `delta_size` the size of the instructions on the wire.
pub record IsWireable (d : Delta) : Type 0 where
  pub size : d.new_file_size < 2 ^ 64
  pub count : length d.instructions ≤ max_instructions
  pub fit : AllFit d.instructions
  pub counted : d.delta_size ≡ wire_sizes d.instructions

deserialize-write_delta :
    (env : Env) (d : Delta) (rest : List ℕ)
    → Grants env
    → IsWireable d
    → deserialize env (write_delta d ++ rest) ≡ some d
unfolding deserialize write_delta
deserialize-write_delta env d rest grants w =
    let n = length d.instructions in
    let tail = write_instructions d.instructions ++ rest in
    let whole = bytes_of 8 d.new_file_size ++ (bytes_of 4 n ++ tail) in
    let flat : (bytes_of 8 d.new_file_size ++ (bytes_of 4 n ++ write_instructions d.instructions))
          ++ rest
        ≡ whole =
      append_assoc (bytes_of 8 d.new_file_size) (bytes_of 4 n ++ write_instructions d.instructions)
        rest
      ∙ ap (λ t. bytes_of 8 d.new_file_size ++ t)
          (append_assoc (bytes_of 4 n) (write_instructions d.instructions) rest) in
    let long : ltb (length whole) 12 ≡ false =
      ground (arith, length_words 8 4 d.new_file_size n tail) in
    let few : ltb max_instructions n ≡ false = ground (arith, w.count) in
    let granted : (n == 0 || env.alloc (n * 24)) ≡ true = ground (arith, grants (n * 24)) in
    rw
      (
        flat,
        long,
        grants 32,
        read_word-bytes_of 8 d.new_file_size (bytes_of 4 n ++ tail) w.size,
        drop-bytes_of 8 d.new_file_size (bytes_of 4 n ++ tail),
        read_word-bytes_of 4 n tail (omega (arith, w.count)),
        few,
        granted,
        drop_words 8 4 d.new_file_size n tail,
        read_instructions-write env d.instructions 0 rest grants w.fit,
      )
      (ap
        (λ s. some (record {
          new_file_size = d.new_file_size;
          instructions = d.instructions;
          delta_size = s;
        }))
        (omega (arith, w.counted)))

pub wire_sizes-le : (xs : List Instruction) → AllFit xs → wire_sizes xs ≤ length xs * (2 ^ 32 + 4)
wire_sizes-le [] h = omega arith
wire_sizes-le (block_match index offset len ∷ xs) h = omega (arith, wire_sizes-le xs h.1)
wire_sizes-le (literal bytes ∷ xs) h = omega (arith, wire_sizes-le xs h.1)

pub length-write_delta : (d : Delta) → length (write_delta d) ≡ 12 + wire_sizes d.instructions
unfolding write_delta
length-write_delta d = omega (
  arith,
  length_words 8 4 d.new_file_size (length d.instructions) (write_instructions d.instructions),
  length-write_instructions d.instructions,
)

-- A delta that fits the wire is serialized, if memory is granted, into a buffer of 12 bytes and
-- `delta_size`, and reading that buffer, whatever follows it, gives the delta back.
pub deserialize-serialize :
    (env : Env) (d : Delta)
    → Grants env
    → IsWireable d
    → (bytes : List ℕ) × (serialize env d ≡ some bytes)
      × (length bytes ≡ 12 + d.delta_size)
      × ((rest : List ℕ) → deserialize env (bytes ++ rest) ≡ some d)
unfolding serialize data_create
deserialize-serialize env d grants w =
    let bound = wire_sizes-le d.instructions w.fit in
    let fits : (ltb (2 ^ 64 - 1 - 12) d.delta_size || ltb (2 ^ 64 - 1) (12 + d.delta_size))
        ≡ false =
      ground (arith, bound, w.counted, w.count) in
    (
      write_delta d,
      rw (fits, grants (12 + d.delta_size), grants 32) refl,
      omega (arith, length-write_delta d, w.counted),
      λ rest. deserialize-write_delta env d rest grants w,
    )
