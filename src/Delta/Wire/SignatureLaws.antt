-- ===== src/Delta/Wire/SignatureLaws.antt =====
-- `delta_signature_deserialize` is the inverse of `delta_signature_serialize`.
use fast_sync.Prelude.{
  ℕ, ◌+◌, ◌-◌, ◌*◌, ◌/◌, ◌^◌, ◌≤◌, ◌<◌, ◌≡◌, refl, sym, ap, ◌∙◌, List, [], ◌∷◌, ◌++◌, some, not,
  ◌||◌, false, arith, length, drop, ltb, ◌==◌, append_assoc, drop-drop, length-append,
}
use fast_sync.Prelude.Bytes.{bytes_of, length-bytes_of, drop-bytes_of, read_word-bytes_of}
use fast_sync.Delta.{Env, BlockSig, Signature, max_blocks, max_file_size, block_size_max}
use fast_sync.Delta.Sign.Blocks.{block_count}
use fast_sync.Delta.Wire.{
  data_create, write_blocks, write_signature, signature_serialize, read_blocks,
  signature_deserialize,
}
use fast_sync.Delta.Wire.Words.{drop_words, length_words}
use fast_sync.Delta.Wire.DeltaLaws.{Grants}

abbrev pub AllWords : List BlockSig → Type 0
AllWords [] = Unit {0}
AllWords (block ∷ blocks) = (block.adler32 < 2 ^ 32) × (block.xxhash < 2 ^ 32) × AllWords blocks

-- What both sides ask of a signature.
pub record IsWireable (sig : Signature) : Type 0 where
  pub not_empty : 0 < sig.file_size
  pub file_small : sig.file_size ≤ max_file_size
  pub positive : 0 < sig.block_size
  pub small : sig.block_size ≤ block_size_max
  pub few : length sig.blocks ≤ max_blocks
  pub count : length sig.blocks ≡ block_count sig.file_size sig.block_size
  pub words : AllWords sig.blocks

read_blocks-write :
    (blocks : List BlockSig) (rest : List ℕ)
    → AllWords blocks
    → read_blocks (length blocks) (write_blocks blocks ++ rest) ≡ blocks
unfolding read_blocks write_blocks
read_blocks-write [] rest h = refl
read_blocks-write (block ∷ blocks) rest h =
    let a = block.adler32 in
    let x = block.xxhash in
    let tail = write_blocks blocks ++ rest in
    rw
      (
        append_assoc (bytes_of 4 a) (bytes_of 4 x ++ write_blocks blocks) rest,
        append_assoc (bytes_of 4 x) (write_blocks blocks) rest,
        read_word-bytes_of 4 a (bytes_of 4 x ++ tail) h.0,
        drop-bytes_of 4 a (bytes_of 4 x ++ tail),
        read_word-bytes_of 4 x tail h.1,
        drop_words 4 4 a x tail,
        read_blocks-write blocks rest h.2,
      )
      refl

length-write_blocks : (blocks : List BlockSig) → length (write_blocks blocks) ≡ length blocks * 8
unfolding write_blocks
length-write_blocks [] = refl
length-write_blocks (block ∷ blocks) = omega (
  arith,
  length_words 4 4 block.adler32 block.xxhash (write_blocks blocks),
  length-write_blocks blocks,
)

signature_deserialize-write :
    (env : Env) (sig : Signature) (rest : List ℕ)
    → Grants env
    → IsWireable sig
    → signature_deserialize env (write_signature sig ++ rest) ≡ some sig
unfolding signature_deserialize write_signature
signature_deserialize-write env sig rest grants w =
    let f = sig.file_size in
    let b = sig.block_size in
    let n = length sig.blocks in
    let tail = write_blocks sig.blocks ++ rest in
    let inner = bytes_of 4 b ++ (bytes_of 4 n ++ tail) in
    let whole = bytes_of 8 f ++ inner in
    let flat : (bytes_of 8 f ++ (bytes_of 4 b ++ (bytes_of 4 n ++ write_blocks sig.blocks))) ++ rest
        ≡ whole =
      append_assoc (bytes_of 8 f) (bytes_of 4 b ++ (bytes_of 4 n ++ write_blocks sig.blocks)) rest
      ∙ ap (λ t. bytes_of 8 f ++ t)
          (append_assoc (bytes_of 4 b) (bytes_of 4 n ++ write_blocks sig.blocks) rest
            ∙ ap (λ t. bytes_of 4 b ++ t)
                (append_assoc (bytes_of 4 n) (write_blocks sig.blocks) rest)) in
    let sized : length whole ≡ 16 + n * 8 + length rest = omega (
      arith,
      length_words 8 4 f b (bytes_of 4 n ++ tail),
      length-append (bytes_of 4 n) tail,
      length-bytes_of 4 n,
      length-append (write_blocks sig.blocks) rest,
      length-write_blocks sig.blocks,
    ) in
    let long : ltb (length whole) 16 ≡ false = ground (arith, sized) in
    let longer : ltb (length whole) (16 + n * 8) ≡ false = ground (arith, sized) in
    let at12 : drop 12 whole ≡ bytes_of 4 n ++ tail = drop_words 8 4 f b (bytes_of 4 n ++ tail) in
    let at16 : drop 16 whole ≡ tail =
      sym (drop-drop 4 12 whole) ∙ ap (λ t. drop 4 t) at12 ∙ drop-bytes_of 4 n tail in
    let checks : (b == 0
          || ltb block_size_max b
          || ltb max_file_size f
          || f == 0
          || not ((f + b - 1) / b == n))
        ≡ false =
      ground (arith, w.count, w.positive, w.small, w.file_small, w.not_empty) in
    let few : ltb max_blocks n ≡ false = ground (arith, w.few) in
    rw
      (
        flat,
        long,
        grants 24,
        read_word-bytes_of 8 f inner (omega (arith, w.file_small)),
        drop-bytes_of 8 f inner,
        read_word-bytes_of 4 b (bytes_of 4 n ++ tail) (omega (arith, w.small)),
        at12,
        read_word-bytes_of 4 n tail (omega (arith, w.few)),
        few,
        checks,
        longer,
        grants (n * 8),
        at16,
        read_blocks-write sig.blocks rest w.words,
      )
      refl

-- A signature that both sides accept is serialized, if memory is granted, into 16 bytes and 8 for
-- each block, and reading that buffer, whatever follows it, gives the signature back.
pub signature_deserialize-serialize :
    (env : Env) (sig : Signature)
    → Grants env
    → IsWireable sig
    → (bytes : List ℕ) × (signature_serialize env sig ≡ some bytes)
      × (length bytes ≡ 16 + length sig.blocks * 8)
      × ((rest : List ℕ) → signature_deserialize env (bytes ++ rest) ≡ some sig)
unfolding signature_serialize data_create
signature_deserialize-serialize env sig grants w =
    let n = length sig.blocks in
    let fits : (ltb (2 ^ 64 - 1 - 16) (n * 8) || ltb (2 ^ 64 - 1) (16 + n * 8)) ≡ false =
      ground (arith, w.few) in
    (
      write_signature sig,
      rw (fits, grants (16 + n * 8), grants 32) refl,
      written,
      λ rest. signature_deserialize-write env sig rest grants w,
    )
  where
    written : length (write_signature sig) ≡ 16 + length sig.blocks * 8
    written =
        unfold write_signature in
        omega (
          arith,
          length_words 8 4 sig.file_size sig.block_size
              (bytes_of 4 (length sig.blocks) ++ write_blocks sig.blocks),
          length-append (bytes_of 4 (length sig.blocks)) (write_blocks sig.blocks),
          length-bytes_of 4 (length sig.blocks),
          length-write_blocks sig.blocks,
        )
