-- ===== src/Delta/Apply/Exact.antt =====
-- What `apply` accepts, and what it returns.
use fast_sync.Prelude.{
  ℕ, ◌+◌, ◌*◌, ◌^◌, ◌≤◌, ◌<◌, ◌≡◌, ◌⊎◌, ◌↔◌, refl, sym, ap, ◌∙◌, List, [], ◌∷◌, ◌++◌, some, true,
  length, slice, ltb, if◌then◌else◌, arith, length-append, length-slice, append_assoc, append-nil,
  >>=-eq-some,
}
use fast_sync.Delta.{Env, Instruction, block_match, literal, Delta, max_file_size}
use fast_sync.Delta.Apply.{apply_instruction, apply_instructions, apply}

module _ (old_file : List ℕ) (block_size : ℕ) where
  -- The bytes that an instruction stands for.
  abbrev pub bytes_at : Instruction → List ℕ
  bytes_at (block_match index offset len) = slice old_file (index * block_size + offset) len
  bytes_at (literal bytes) = bytes

  -- The bytes that instructions stand for, one after the other.
  abbrev pub expand : List Instruction → List ℕ
  expand [] = []
  expand (instruction ∷ instructions) = bytes_at instruction ++ expand instructions

  -- A match reads inside the old file.
  abbrev pub InBounds : Instruction → Type 0
  InBounds (block_match index offset len) = index * block_size + offset + len ≤ length old_file
  InBounds (literal bytes) = Unit {0}

  abbrev pub AllInBounds : List Instruction → Type 0
  AllInBounds [] = Unit {0}
  AllInBounds (instruction ∷ instructions) = InBounds instruction × AllInBounds instructions

  module _ (size : ℕ) (fits : length old_file < 2 ^ 64) where
    apply_instruction-some :
        (out : List ℕ) (instruction : Instruction)
        → InBounds instruction
        → length out + length (bytes_at instruction) ≤ size
        → apply_instruction old_file block_size size out instruction
          ≡ some (out ++ bytes_at instruction)
    unfolding apply_instruction
    apply_instruction-some out (block_match index offset len) b room =
        ground (arith, length-slice old_file (index * block_size + offset) len b)
    apply_instruction-some out (literal bytes) b room = ground arith

    apply_instruction-exact :
        (out out' : List ℕ) (instruction : Instruction)
        → apply_instruction old_file block_size size out instruction ≡ some out'
        → InBounds instruction
          × (out' ≡ out ++ bytes_at instruction)
          × (length out + length (bytes_at instruction) ≤ size)
    unfolding apply_instruction
    apply_instruction-exact out out' (block_match index offset len) h =
        ground (arith, length-slice old_file (index * block_size + offset) len)
    apply_instruction-exact out out' (literal bytes) h = ground arith

    pub apply_instructions-some :
        (instructions : List Instruction) (out : List ℕ)
        → AllInBounds instructions
        → length out + length (expand instructions) ≤ size
        → apply_instructions old_file block_size size instructions out
          ≡ some (out ++ expand instructions)
    unfolding apply_instructions
    apply_instructions-some [] out b room = rw append-nil refl
    apply_instructions-some (instruction ∷ instructions) out b room =
        let whole = length-append (bytes_at instruction) (expand instructions) in
        let written = length-append out (bytes_at instruction) in
        rw (apply_instruction-some out instruction b.0 (omega (arith, whole))) (
          apply_instructions-some instructions (out ++ bytes_at instruction) b.1
            (omega (arith, whole, written))
          ∙ ap some (append_assoc out (bytes_at instruction) (expand instructions)))

    pub apply_instructions-exact :
        (instructions : List Instruction) (out out' : List ℕ)
        → apply_instructions old_file block_size size instructions out ≡ some out'
        → AllInBounds instructions × (out' ≡ out ++ expand instructions)
    unfolding apply_instructions
    apply_instructions-exact [] out out' h = (tt, rw append-nil (ground arith))
    apply_instructions-exact (instruction ∷ instructions) out out' h =
        let (mid, first, rest) =
          >>=-eq-some (apply_instruction old_file block_size size out instruction)
            (λ mid. apply_instructions old_file block_size size instructions mid) h in
        let (b, e, room) = apply_instruction-exact out mid instruction first in
        let (bs, e') = apply_instructions-exact instructions mid out' rest in
        (
          (b, bs),
          e'
              ∙ ap (λ x. x ++ expand instructions) e
              ∙ append_assoc out (bytes_at instruction) (expand instructions),
        )

-- What `apply` asks before it copies anything: a file of at most 256 MiB, a block size where there
-- are instructions, and memory for the output.
pub record IsAccepted (env : Env) (delta : Delta) (block_size : ℕ) : Type 0 where
  pub small : delta.new_file_size ≤ max_file_size
  pub sized : (length delta.instructions ≡ 0) ⊎ (0 < block_size)
  pub granted : env.alloc (if ltb 0 delta.new_file_size then delta.new_file_size else 1) ≡ true

apply-inversion :
    (env : Env) (old_file : List ℕ) (delta : Delta) (block_size : ℕ) (out : List ℕ)
    → apply env old_file delta block_size ≡ some out
    → IsAccepted env delta block_size
      × (apply_instructions old_file block_size delta.new_file_size delta.instructions []
          ≡ some out)
      × (length out ≡ delta.new_file_size)
unfolding apply
apply-inversion env old_file delta block_size out h = ground arith

apply-accepted :
    (env : Env) (old_file : List ℕ) (delta : Delta) (block_size : ℕ) (out : List ℕ)
    → IsAccepted env delta block_size
    → apply_instructions old_file block_size delta.new_file_size delta.instructions [] ≡ some out
    → (length delta.instructions ≡ 0 → length out ≡ 0)
    → length out ≡ delta.new_file_size
    → apply env old_file delta block_size ≡ some out
unfolding apply
apply-accepted env old_file delta block_size out a copied empty total = ground arith

length-expand_nil :
    (old_file : List ℕ) (block_size : ℕ) (instructions : List Instruction)
    → length instructions ≡ 0
    → length (expand old_file block_size instructions) ≡ 0
length-expand_nil old_file block_size [] h = refl
length-expand_nil old_file block_size (instruction ∷ instructions) h = absurd (omega arith)

-- `delta_apply` returns a file exactly when the request is accepted, every match lies inside the old
-- file, and the instructions' bytes have together the length that the delta announces; the file is
-- then those bytes.
pub apply-eq-some_iff :
    (env : Env) (old_file : List ℕ) (delta : Delta) (block_size : ℕ) (out : List ℕ)
    → length old_file < 2 ^ 64
    → (apply env old_file delta block_size ≡ some out) ↔ (
        IsAccepted env delta block_size
        × AllInBounds old_file block_size delta.instructions
        × (out ≡ expand old_file block_size delta.instructions)
        × (length out ≡ delta.new_file_size))
apply-eq-some_iff env old_file delta block_size out fits = (
  λ h.
      let (a, copied, total) = apply-inversion env old_file delta block_size out h in
      let (b, e) =
        apply_instructions-exact old_file block_size delta.new_file_size fits delta.instructions []
          out copied in
      (a, b, e, total),
  λ h.
      let (a, b, e, total) = h in
      apply-accepted env old_file delta block_size out a
        (apply_instructions-some old_file block_size delta.new_file_size fits delta.instructions []
            b (omega (arith, ap length e))
          ∙ ap some (sym e))
        (λ none_left.
          ap length e ∙ length-expand_nil old_file block_size delta.instructions none_left)
        total,
)
