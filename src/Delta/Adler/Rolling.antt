-- ===== src/Delta/Adler/Rolling.antt =====
-- The rolling sums are those of the whole window, computed afresh.
use fast_sync.Prelude.{
  ℕ, suc, ◌+◌, ◌*◌, ◌/◌, ◌%◌, ◌^◌, ◌≤◌, ◌<◌, ◌≡◌, ap, ◌∙◌, List, [], ◌∷◌, ◌++◌, arith, length,
  length-append,
}
use fast_sync.Prelude.Bytes.{IsBytes}
use fast_sync.Prelude.Bits.{bit_or-lt_pow}
use fast_sync.Delta.Adler.{
  digest, adler32, adler32_modulus, Sums, initial, add_byte, add_bytes, roll,
}
use native.Mathlib.Nat.{mul-le-mul_right}

abbrev sum : List ℕ → ℕ
sum [] = 0
sum (b ∷ bs) = b + sum bs

-- Each byte weighted by the number of bytes from it to the end.
abbrev weighted : List ℕ → ℕ
weighted [] = 0
weighted (b ∷ bs) = suc (length bs) * b + weighted bs

sum-snoc : (bs : List ℕ) (c : ℕ) → sum (bs ++ (c ∷ [])) ≡ sum bs + c
sum-snoc [] c = omega arith
sum-snoc (b ∷ bs) c = omega (arith, sum-snoc bs c)

weighted-snoc : (bs : List ℕ) (c : ℕ) → weighted (bs ++ (c ∷ [])) ≡ weighted bs + sum bs + c
weighted-snoc [] c = omega arith
weighted-snoc (b ∷ bs) c =
    omega (arith, weighted-snoc bs c, ap (λ (t : ℕ). t * b) (length-append bs (c ∷ [])))

Sums_ext : {a b : Sums} → a.s1 ≡ b.s1 → a.s2 ≡ b.s2 → a ≡ b
Sums_ext p q = λ i. record { s1 = p i; s2 = q i }

-- The closed form of the loop.
abbrev closed_form : List ℕ → ℕ → ℕ → Sums
closed_form bs s1 s2 = record {
  s1 = (s1 + sum bs) % adler32_modulus;
  s2 = (s2 + length bs * s1 + weighted bs) % adler32_modulus;
}

add_bytes-closed :
    (bs : List ℕ) (s1 s2 : ℕ)
    → IsBytes bs
    → s1 < adler32_modulus
    → s2 < adler32_modulus
    → add_bytes bs (record { s1 = s1; s2 = s2 }) ≡ closed_form bs s1 s2
unfolding add_bytes add_byte
add_bytes-closed [] s1 s2 h p q = ground arith
add_bytes-closed (b ∷ bs) s1 s2 h p q =
    let t1 = (s1 + b) % 2 ^ 32 % adler32_modulus in
    let t2 = (s2 + t1) % 2 ^ 32 % adler32_modulus in
    let whole : 65521 * ((s1 + b) / 65521) + t1 ≡ s1 + b = omega arith in
    add_bytes-closed bs t1 t2 h.1 (omega arith) (omega arith)
    ∙ Sums_ext (omega arith) (omega (arith, ap (λ (t : ℕ). length bs * t) whole))

product_fits : (n b : ℕ) → n ≤ 65536 → b < 256 → n * b < 2 ^ 64
product_fits n b p q = omega (arith, mul-le-mul_right b p)

IsBytes-snoc : (bs : List ℕ) (c : ℕ) → IsBytes bs → c < 256 → IsBytes (bs ++ (c ∷ []))
IsBytes-snoc [] c h p = (p, tt)
IsBytes-snoc (b ∷ bs) c h p = (h.0, IsBytes-snoc bs c h.1 p)

-- Moving a window of bytes by one: the update of the running sums gives the sums that a fresh pass
-- over the moved window gives, for every window of at most 65536 bytes.
pub roll-add_bytes :
    (old : ℕ) (bytes : List ℕ) (new : ℕ)
    → IsBytes (old ∷ bytes)
    → new < 256
    → length (old ∷ bytes) ≤ 65536
    → roll (length (old ∷ bytes)) old new (add_bytes (old ∷ bytes) initial)
      ≡ add_bytes (bytes ++ (new ∷ [])) initial
unfolding roll
roll-add_bytes old bytes new h p fits =
    rw
      (
        add_bytes-closed (old ∷ bytes) 1 0 h (omega arith) (omega arith),
        add_bytes-closed (bytes ++ (new ∷ [])) 1 0 (IsBytes-snoc bytes new h.1 p) (omega arith)
            (omega arith),
      )
      (Sums_ext (omega (arith, sum-snoc bytes new)) (
        omega (
          arith,
          product_fits (suc (length bytes)) old fits h.0,
          sum-snoc bytes new,
          weighted-snoc bytes new,
          length-append bytes (new ∷ []),
        )))

s1-lt : (bs : List ℕ) (s : Sums) → s.s1 < 65521 → (add_bytes bs s).s1 < 65521
unfolding add_bytes add_byte
s1-lt [] s h = h
s1-lt (b ∷ bs) s h = s1-lt bs _ (omega arith)

-- The checksum is a 32-bit word.
pub adler32-lt : (bytes : List ℕ) → adler32 bytes < 2 ^ 32
unfolding adler32 digest
adler32-lt bytes =
    bit_or-lt_pow 32 _ _ (omega arith) (omega (arith, s1-lt bytes initial (omega arith)))
