-- ===== src/Delta/Compute/Total.antt =====
-- `compute_seeded` returns a delta for every file of at most 256 MiB and every block size from
-- 1024 on: the fuel, the array of instructions and the sizes suffice.
use native.Mathlib.Nat.{pow-le-pow_right, pow-suc, mul-le-mul_right, mul-le-mul_left}
use fast_sync.Prelude.{
  ℕ, suc, zero, ◌+◌, ◌-◌, ◌*◌, ◌/◌, ◌^◌, ◌≤◌, ◌<◌, ◌≡◌, refl, ap, List, [], ◌∷◌, ◌++◌, Bool, true,
  false, Option, some, inl, inr, arith, length, slice, drop, ltb, leb, ◌==◌, ◌||◌, Bool-cases,
  length-append, length-take,
}
use fast_sync.Delta.{
  Env, Signature, Instruction, block_match, literal, Delta, max_instructions, max_file_size,
  block_size_min, block_size_max,
}
use fast_sync.Delta.Adler.{Sums}
use fast_sync.Delta.Compute.{
  Buffer, State, append, ensure_capacity, flush_literal, advance, step, loop, count_sizes,
  start_state, prepare_index, finish, compute_seeded,
}
use fast_sync.Delta.Compute.Step.{literal_state, match_state, flush_pending}
use fast_sync.Delta.Index.{no_block, Index, find_match}
use fast_sync.Delta.Compute.Prepare.{prepared-agrees}
use fast_sync.Delta.Sign.{window_len}
use fast_sync.Delta.Wire.DeltaLaws.{Fits, AllFit, Grants, wire_sizes, wire_sizes-le, IsWireable}

-- The capacity is a power of two, and every instruction fits the wire.
pub record IsRoomy (buf : Buffer) : Type 0 where
  pub power : ℕ
  pub capacity : buf.capacity ≡ 2 ^ power
  pub fit : AllFit buf.instructions

AllFit-snoc :
    (xs : List Instruction) (x : Instruction) → AllFit xs → Fits x → AllFit (xs ++ (x ∷ []))
AllFit-snoc [] x h p = (p, tt)
AllFit-snoc (y ∷ xs) x h p = (h.0, AllFit-snoc xs x h.1 p)

-- Above a half of the limit a power of two has reached the limit.
pow_reaches : (k : ℕ) → 2 ^ 19 < 2 ^ k → 2 ^ 20 ≤ 2 ^ k
pow_reaches k h = elim (Bool-cases (leb 20 k)) [
  | inl e ↦ pow-le-pow_right {n = 2} (omega arith) {i = 20} {j = k} (ground arith)
  | inr e ↦
      let below : 2 ^ k ≤ 2 ^ 19 =
        pow-le-pow_right {n = 2} (omega arith) {i = k} {j = 19} (ground arith) in
      absurd (omega arith)
]

module _ (env : Env) (grants : Grants env) where
  ensure_capacity-some :
      (buf : Buffer)
      → IsRoomy buf
      → length buf.instructions < 2 ^ 20
      → (room : Buffer) × (ensure_capacity env buf ≡ some room)
        × IsRoomy room
        × (room.instructions ≡ buf.instructions)
  unfolding ensure_capacity
  ensure_capacity-some buf r few = elim (Bool-cases (ltb (length buf.instructions) buf.capacity)) [
    | inl e ↦ (buf, rw e refl, r, refl)
    | inr e ↦
        let not_over : ltb (max_instructions / 2) buf.capacity ≡ false =
          ground (arith, r.capacity, pow_reaches r.power) in
        (
          record buf { capacity = buf.capacity * 2 },
          rw (e, not_over, grants (buf.capacity * 2 * 24)) refl,
          record {
            power = suc r.power;
            capacity = omega (arith, r.capacity, pow-suc 2 r.power);
            fit = r.fit;
          },
          refl,
        )
  ]

  append-IsRoomy : (buf : Buffer) (x : Instruction) → IsRoomy buf → Fits x → IsRoomy (append buf x)
  unfolding append
  append-IsRoomy buf x r f = record {
    power = r.power;
    capacity = r.capacity;
    fit = AllFit-snoc buf.instructions x r.fit f;
  }

  flush_literal-some :
      (buf : Buffer) (bytes : List ℕ) (start stop : ℕ)
      → IsRoomy buf
      → length buf.instructions < 2 ^ 20
      → stop < 2 ^ 32
      → (room : Buffer) × (flush_literal env buf bytes start stop ≡ some room)
        × IsRoomy room
        × (length room.instructions ≤ length buf.instructions + 1)
  unfolding flush_literal
  flush_literal-some buf bytes start stop r few small = elim (Bool-cases (leb stop start)) [
    | inl e ↦ (buf, rw e refl, r, omega arith)
    | inr e ↦
        let fits : (ltb (2 ^ 32 - 1) (stop - start)
              || leb max_instructions (length buf.instructions))
            ≡ false =
          ground arith in
        let (grown, g, gr, same) = ensure_capacity-some buf r few in
        let x = literal (slice bytes start (stop - start)) in
        let len = length-take (stop - start) (drop start bytes) in
        (
          append grown x,
          rw (e, fits, g, grants (stop - start)) refl,
          append-IsRoomy grown x gr (omega (arith, len)),
          unfold append in omega (arith, length-append grown.instructions (x ∷ []), ap length same),
        )
  ]

  flush_pending-some :
      (bytes : List ℕ) (st : State) (stop : ℕ)
      → IsRoomy st.buffer
      → length st.buffer.instructions < 2 ^ 20
      → stop < 2 ^ 32
      → (room : Buffer) × (flush_pending env bytes st stop ≡ some room)
        × IsRoomy room
        × (length room.instructions ≤ length st.buffer.instructions + 1)
  flush_pending-some bytes st stop r few small = elim (Bool-cases st.has_literal) [
    | inl e ↦ rw e (flush_literal-some st.buffer bytes st.literal_start stop r few small)
    | inr e ↦ rw e (st.buffer, refl, r, omega arith)
  ]

-- The loop has written at most two instructions for each block that it has passed.
record IsRunning (block_size size : ℕ) (st : State) : Type 0 where
  bound : st.i ≤ size
  few : length st.buffer.instructions * block_size ≤ 2 * st.i
  roomy : IsRoomy st.buffer

few_instructions :
    (n block_size i : ℕ)
    → 1024 ≤ block_size
    → i ≤ max_file_size
    → n * block_size ≤ 2 * i
    → n ≤ 2 ^ 19
few_instructions n block_size i h p q = omega (arith, mul-le-mul_left n h)

module _ (env : Env) (grants : Grants env) (new_file : List ℕ) (block_size : ℕ)
    (large : 1024 ≤ block_size) (small : block_size ≤ 65536)
    (fits : length new_file ≤ max_file_size) where
  advance-some :
      (st : State) (len found : ℕ) (valid : Bool) (sums : Sums)
      → st.i < length new_file
      → st.i + len ≤ length new_file
      → IsRunning block_size (length new_file) st
      → ((found == no_block) ≡ false → (len ≡ block_size) × (found < 2 ^ 32))
      → (st' : State) × (advance env new_file st len valid sums found ≡ some st')
        × IsRunning block_size (length new_file) st'
        × (st.i < st'.i)
  unfolding advance
  advance-some st len found valid sums inside room r hit =
      let few =
        few_instructions (length st.buffer.instructions) block_size st.i large (omega arith)
          r.few in
      elim (Bool-cases (found == no_block)) [
        | inl e ↦ (
          literal_state st valid sums,
          rw e refl,
          record { bound = omega arith; few = omega (arith, r.few); roomy = r.roomy },
          omega arith,
        )
        | inr e ↦
            let (flushed, f, fr, more) =
              flush_pending-some env grants new_file st st.i r.roomy (omega arith) (omega arith) in
            let (grown, g, gr, same) = ensure_capacity-some env grants flushed fr (omega arith) in
            let (whole, word) = hit e in
            let x = block_match found 0 len in
            (
              match_state st len sums found grown,
              rw (e, f, g) refl,
              record {
                bound = room;
                few =
                    unfold append in
                    omega (
                      arith,
                      length-append grown.instructions (x ∷ []),
                      ap length same,
                      r.few,
                      whole,
                      mul-le-mul_right block_size (
                          appended grown (length st.buffer.instructions) x
                            (omega (arith, more, ap length same))),
                    );
                roomy = append-IsRoomy env grants grown x gr (word, omega arith, omega arith);
              },
              omega arith,
            )
      ]
    where
      appended :
          (buf : Buffer) (n : ℕ) (x : Instruction)
          → length buf.instructions ≤ n + 1
          → length (append buf x).instructions ≤ n + 2
      appended buf n x h = unfold append in omega (arith, length-append buf.instructions (x ∷ []))

  module _ (seed : ℕ) (sig : Signature) (index : Option Index) (mask : ℕ)
      (bounded : (window : List ℕ) (adler : ℕ) (full : Bool)
        → (find_match env window adler seed full sig.blocks index mask == no_block) ≡ false
        → (full ≡ true)
          × (find_match env window adler seed full sig.blocks index mask < 2 ^ 32)) where
    step-some :
        (st : State)
        → st.i < length new_file
        → IsRunning block_size (length new_file) st
        → (st' : State) × (step env new_file block_size seed sig index mask st ≡ some st')
          × IsRunning block_size (length new_file) st'
          × (st.i < st'.i)
    unfolding step window_len
    step-some st inside r =
        let len = window_len (length new_file) st.i block_size in
        advance-some st len _ _ _ inside (ground arith) r
          (λ e. let (whole, word) = bounded _ _ _ e in (ground arith, word))

    loop-some :
        (fuel : ℕ) (st : State)
        → length new_file < fuel + st.i
        → IsRunning block_size (length new_file) st
        → (st' : State) × (loop env new_file block_size seed sig index mask fuel st ≡ some st')
          × IsRunning block_size (length new_file) st'
    unfolding loop
    loop-some zero st enough r = absurd (omega (arith, r.bound))
    loop-some (suc fuel) st enough r = elim (Bool-cases (ltb st.i (length new_file))) [
      | inr e ↦ (st, rw e refl, r)
      | inl e ↦
          let (mid, s, mr, further) = step-some st (ground arith) r in
          let (st', l, done) = loop-some fuel mid (omega arith) mr in (st', rw (e, s) l, done)
    ]

count_sizes-some :
    (xs : List Instruction) (size : ℕ)
    → size + wire_sizes xs < 2 ^ 64 - 1
    → count_sizes xs size ≡ some (size + wire_sizes xs)
unfolding count_sizes
count_sizes-some [] size h = ap some (omega arith)
count_sizes-some (block_match index offset len ∷ xs) size h =
    let passes : (size == 2 ^ 64 - 1 || ltb (2 ^ 64 - 1 - 12) (size + 1)) ≡ false = ground arith in
    rw (passes, count_sizes-some xs (size + 1 + 12) (omega arith)) (ap some (omega arith))
count_sizes-some (literal bytes ∷ xs) size h =
    let passes : (size == 2 ^ 64 - 1 || ltb (2 ^ 64 - 1 - (4 + length bytes)) (size + 1)) ≡ false =
      ground arith in
    rw (passes, count_sizes-some xs (size + 1 + (4 + length bytes)) (omega arith))
      (ap some (omega arith))

-- For a file of 1 byte to 256 MiB, a block size from 1024 to 65536 and any signature of that block
-- size with fewer than 2^32 - 1 blocks, if memory is granted, `delta_compute_seeded` returns a
-- delta; it announces the file's size, has at most 2^19 + 1 instructions and fits the wire.
pub compute_seeded-some :
    (env : Env) (new_file : List ℕ) (sig : Signature) (block_size seed : ℕ)
    → Grants env
    → 0 < length new_file
    → length new_file ≤ max_file_size
    → block_size_min ≤ block_size
    → block_size ≤ block_size_max
    → sig.block_size ≡ block_size
    → length sig.blocks < no_block
    → (d : Delta) × (compute_seeded env new_file sig block_size seed ≡ some d)
      × (d.new_file_size ≡ length new_file)
      × (length d.instructions ≤ 2 ^ 19 + 1)
      × IsWireable d
unfolding compute_seeded finish
compute_seeded-some env new_file sig block_size seed grants not_empty fits large small same few =
    let p = prepare_index env sig in
    let n = length new_file in
    let (last, looped, r) =
      loop-some env grants new_file block_size large small fits seed sig p.index p.mask
        (λ window adler full e.
          let (whole, below, _) = prepared-agrees env window adler seed sig full (omega arith) e in
          (whole, omega arith))
        (n + 1) start_state (omega arith)
        (record {
          bound = omega arith;
          few = omega arith;
          roomy = record { power = 6; capacity = refl; fit = tt };
        }) in
    let written =
      few_instructions (length last.buffer.instructions) block_size last.i large
        (omega (arith, r.bound)) r.few in
    let (buffer, flushed, roomy, more) =
      flush_pending-some env grants new_file last n r.roomy (omega arith) (omega arith) in
    let size = wire_sizes buffer.instructions in
    let bound = wire_sizes-le buffer.instructions roomy.fit in
    let counted = count_sizes-some buffer.instructions 0 (omega arith) in
    let fresh : (n == 0 || block_size == 0 || ltb block_size_max block_size) ≡ false =
      ground arith in
    let sized : (sig.block_size == block_size) ≡ true = ground arith in
    (
      record { new_file_size = n; instructions = buffer.instructions; delta_size = 0 + size },
      rw (fresh, sized, grants (64 * 24), looped, flushed, grants 32, counted) refl,
      refl,
      omega arith,
      record { size = omega arith; count = omega arith; fit = roomy.fit; counted = omega arith },
    )
