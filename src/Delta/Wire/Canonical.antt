-- ===== src/Delta/Wire/Canonical.antt =====
-- What `delta_deserialize` accepts is the wire form of the delta that it returns.
use fast_sync.Prelude.{
  ℕ, zero, suc, ◌+◌, ◌*◌, ◌≤◌, ◌≡◌, refl, sym, ap, ◌∙◌, List, [], ◌∷◌, ◌++◌, false, ◌||◌, not, none,
  some, inl, inr, arith, length, take, drop, ltb, ◌==◌, Bool-cases, >>=-eq-some, guard-eq-some,
  append_assoc, length-take, drop-append, take-append-drop,
}
use fast_sync.Prelude.Bytes.{
  IsBytes, bytes_of, read_word, read_word-lt, IsBytes-drop, bytes_of-read_word,
}
use fast_sync.Delta.{Env, Instruction, block_match, literal, Delta, max_instructions}
use fast_sync.Delta.Wire.{
  write_instruction, write_instructions, write_delta, Parsed, read_match, read_literal,
  read_instruction, read_instructions, deserialize,
}
use fast_sync.Delta.Wire.Words.{rewrite_word}
use fast_sync.Delta.Wire.DeltaLaws.{
  Fits, AllFit, wire_size, wire_sizes, IsWireable, length-write_delta,
}

-- An instruction that was read is what stood at the front of the buffer.
record IsRead (before : List ℕ) (size : ℕ) (p : Parsed Instruction) : Type 0 where
  wire : before ≡ write_instruction p.value ++ p.rest
  grown : p.size ≡ size + wire_size p.value
  fits : Fits p.value
  behind : IsBytes p.rest

read_match-IsRead :
    (rest : List ℕ) (size : ℕ) {p : Parsed Instruction}
    → IsBytes rest
    → read_match rest (size + 1) ≡ some p
    → IsRead (1 ∷ rest) size p
unfolding read_match write_instruction
read_match-IsRead rest size {p} bytes h = elim (Bool-cases (ltb (length rest) 12)) [
  | inl short ↦ let h' : none ≡ some p = rw short at h in cc
  | inr long ↦
      let index = read_word 4 rest in
      let offset = read_word 4 (drop 4 rest) in
      let len = read_word 4 (drop 8 rest) in
      let parsed : Parsed Instruction = record {
        value = block_match index offset len;
        rest = drop 12 rest;
        size = size + 1 + 12;
      } in
      let h' : some parsed ≡ some p = rw long at h in
      let same : parsed ≡ p = cc in
      let w1 = bytes_of-read_word 4 rest bytes (ground arith) in
      let w2 = rewrite_word 4 4 rest bytes (ground arith) in
      let w3 = rewrite_word 8 4 rest bytes (ground arith) in
      let whole : bytes_of 4 index ++ (bytes_of 4 offset ++ (bytes_of 4 len ++ drop 12 rest))
          ≡ rest =
        ap (λ t. bytes_of 4 index ++ (bytes_of 4 offset ++ t)) w3
        ∙ ap (λ t. bytes_of 4 index ++ t) w2
        ∙ w1 in
      rw (← same) record {
        wire =
            ap (λ t. 1 ∷ t)
              (sym (
                append_assoc (bytes_of 4 index) (bytes_of 4 offset ++ bytes_of 4 len) (drop 12 rest)
                ∙ ap (λ t. bytes_of 4 index ++ t)
                    (append_assoc (bytes_of 4 offset) (bytes_of 4 len) (drop 12 rest))
                ∙ whole));
        grown = omega arith;
        fits = (
          read_word-lt 4 rest bytes,
          read_word-lt 4 (drop 4 rest) (IsBytes-drop 4 rest bytes),
          read_word-lt 4 (drop 8 rest) (IsBytes-drop 8 rest bytes),
        );
        behind = IsBytes-drop 12 rest bytes;
      }
]

read_literal-IsRead :
    (env : Env) (rest : List ℕ) (size : ℕ) {p : Parsed Instruction}
    → IsBytes rest
    → read_literal env rest (size + 1) ≡ some p
    → IsRead (2 ∷ rest) size p
unfolding read_literal write_instruction
read_literal-IsRead env rest size {p} bytes h =
    let n = read_word 4 rest in
    let body = drop 4 rest in
    let shape : (ltb (length rest) 4 ≡ false)
        × (ltb (length body) n ≡ false)
        × (p ≡ record {
          value = literal (take n body);
          rest = drop n body;
          size = size + 1 + (4 + n);
        }) =
      ground arith in
    let full : length (take n body) ≡ n = ground (arith, length-take n body) in
    rw shape.2 record {
      wire =
          ap (λ t. 2 ∷ t)
            (sym (
              append_assoc (bytes_of 4 (length (take n body))) (take n body) (drop n body)
              ∙ ap (λ t. bytes_of 4 (length (take n body)) ++ t) (take-append-drop n body)
              ∙ ap (λ k. bytes_of 4 k ++ body) full
              ∙ bytes_of-read_word 4 rest bytes (ground arith)));
      grown = omega (arith, full);
      fits = rw full (read_word-lt 4 rest bytes);
      behind = IsBytes-drop n body (IsBytes-drop 4 rest bytes);
    }

read_instruction-IsRead :
    (env : Env) (before : List ℕ) (size : ℕ) {p : Parsed Instruction}
    → IsBytes before
    → read_instruction env before size ≡ some p
    → IsRead before size p
unfolding read_instruction
read_instruction-IsRead env [] size bytes h = cc
read_instruction-IsRead env (type ∷ rest) size {p} bytes h = elim (Bool-cases (type == 1)) [
  | inl one ↦
      let e : type ≡ 1 = ground arith in rw e (read_match-IsRead rest size bytes.1 (rw one at h))
  | inr other ↦ elim (Bool-cases (type == 2)) [
    | inl two ↦
        let e : type ≡ 2 = ground arith in
        rw e (read_literal-IsRead env rest size bytes.1 (rw (other, two) at h))
    | inr unknown ↦ let h' : none ≡ some p = rw (other, unknown) at h in cc
  ]
]

record AreRead (before : List ℕ) (count size : ℕ) (p : Parsed (List Instruction)) : Type 0 where
  wire : before ≡ write_instructions p.value ++ p.rest
  grown : p.size ≡ size + wire_sizes p.value
  counted : length p.value ≡ count
  fit : AllFit p.value

read_instructions-AreRead :
    (env : Env) (count : ℕ) (before : List ℕ) (size : ℕ) {p : Parsed (List Instruction)}
    → IsBytes before
    → read_instructions env count before size ≡ some p
    → AreRead before count size p
unfolding read_instructions write_instructions
read_instructions-AreRead env zero before size {p} bytes h =
    let same : record { value = []; rest = before; size = size } ≡ p = cc in
    rw (← same) record { wire = refl; grown = omega arith; counted = refl; fit = tt }
read_instructions-AreRead env (suc count) before size {p} bytes h =
    let (first, h1, h') = >>=-eq-some (read_instruction env before size) _ h in
    let (others, h2, h'') =
      >>=-eq-some (read_instructions env count first.rest first.size)
        (λ (o : Parsed (List Instruction)). some (record o { value = first.value ∷ o.value })) h' in
    let same : record others { value = first.value ∷ others.value } ≡ p = cc in
    let one = read_instruction-IsRead env before size bytes h1 in
    let more = read_instructions-AreRead env count first.rest first.size one.behind h2 in
    rw (← same) record {
      wire =
          one.wire
          ∙ ap (λ t. write_instruction first.value ++ t) more.wire
          ∙ sym (
              append_assoc (write_instruction first.value) (write_instructions others.value)
                others.rest);
      grown = omega (arith, one.grown, more.grown);
      counted = ap suc more.counted;
      fit = (one.fits, more.fit);
    }

deserialize-inversion :
    (env : Env) (bytes : List ℕ) {d : Delta}
    → deserialize env bytes ≡ some d
    → let count = read_word 4 (drop 8 bytes) in
      (p : Parsed (List Instruction)) × (12 ≤ length bytes)
      × (count ≤ max_instructions)
      × (read_instructions env count (drop 12 bytes) 0 ≡ some p)
      × (d ≡ record {
        new_file_size = read_word 8 bytes;
        instructions = p.value;
        delta_size = p.size;
      })
unfolding deserialize
deserialize-inversion env bytes {d} e =
    let count = read_word 4 (drop 8 bytes) in
    let (g0, e0) = guard-eq-some (not (ltb (length bytes) 12)) _ e in
    let (g1, e1) = guard-eq-some (env.alloc 32) _ e0 in
    let (g2, e2) = guard-eq-some (not (ltb max_instructions count)) _ e1 in
    let (g3, e3) = guard-eq-some (count == 0 || env.alloc (count * 24)) _ e2 in
    let (p, e4, e5) =
      >>=-eq-some (read_instructions env count (drop 12 bytes) 0)
        (λ (p : Parsed (List Instruction)). some (record {
          new_file_size = read_word 8 bytes;
          instructions = p.value;
          delta_size = p.size;
        }))
        e3 in
    (p, ground arith, ground arith, e4, cc)

-- A list that begins with another one goes on behind its length.
drop-length :
    (n : ℕ) (whole front back : List ℕ)
    → whole ≡ front ++ back
    → length front ≡ n
    → whole ≡ front ++ drop n whole
drop-length n whole front back e len =
    e
    ∙ ap (λ t. front ++ t)
        (sym (drop-append front back)
          ∙ ap (λ t. drop (length front) t) (sym e)
          ∙ ap (λ k. drop k whole) len)

-- Whatever bytes arrive: a delta that `delta_deserialize` returns fits the wire, its `delta_size` is
-- the size of its instructions, and its own wire form stands at the front of the bytes.
pub deserialize_sound :
    (env : Env) (bytes : List ℕ) {d : Delta}
    → IsBytes bytes
    → deserialize env bytes ≡ some d
    → IsWireable d × (bytes ≡ write_delta d ++ drop (12 + d.delta_size) bytes)
unfolding write_delta
deserialize_sound env bytes {d} h e =
    let count = read_word 4 (drop 8 bytes) in
    let (p, long, few, parsed, same) = deserialize-inversion env bytes e in
    let r =
      read_instructions-AreRead env count (drop 12 bytes) 0 (IsBytes-drop 12 bytes h) parsed in
    let w1 = bytes_of-read_word 8 bytes h (omega arith) in
    let w2 = rewrite_word 8 4 bytes h long in
    let d' : Delta = record {
      new_file_size = read_word 8 bytes;
      instructions = p.value;
      delta_size = p.size;
    } in
    let front = bytes_of 8 (read_word 8 bytes) in
    let whole : bytes ≡ write_delta d' ++ p.rest =
      sym w1
      ∙ ap (λ t. front ++ t) (sym w2)
      ∙ ap (λ t. front ++ (bytes_of 4 count ++ t)) r.wire
      ∙ ap (λ k. front ++ (bytes_of 4 k ++ (write_instructions p.value ++ p.rest))) (sym r.counted)
      ∙ sym (
          append_assoc front (bytes_of 4 (length p.value) ++ write_instructions p.value) p.rest
          ∙ ap (λ t. front ++ t)
              (append_assoc (bytes_of 4 (length p.value)) (write_instructions p.value) p.rest)) in
    rw same (
      record {
        size = read_word-lt 8 bytes h;
        count = omega (arith, r.counted);
        fit = r.fit;
        counted = r.grown ∙ omega arith;
      },
      drop-length (12 + p.size) bytes (write_delta d') p.rest whole
          (omega (arith, length-write_delta d', r.grown)),
    )
