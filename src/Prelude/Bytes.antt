-- ===== src/Prelude/Bytes.antt =====
-- Words in memory: `memcpy` to and from a byte buffer, lowest byte first (the hosts are
-- little-endian).
use native.Mathlib.Nat.{pow-suc, pow-le-pow_right, lt_of_lt_of_le}
use native.Mathlib.Omega.{arith}
use Prim.Native.Nat.{ℕ, zero, suc, ◌+◌, ◌*◌, ◌/◌, ◌%◌, ◌^◌, ◌≤◌, ◌<◌}
use mathlib.Core.Path.{◌≡◌, refl, sym, ap, ◌∙◌}
use mathlib.Core.List.{List, [], ◌∷◌, ◌++◌}
use fast_sync.Prelude.Lists.{length, take, drop, slice, get_or, length-take, take-append-drop}

-- The `k` bytes that hold `n`.
pub bytes_of : ℕ → ℕ → List ℕ
bytes_of zero n = []
bytes_of (suc k) n = n % 256 ∷ bytes_of k (n / 256)

-- The word that bytes hold.
unfoldable pub word_of : List ℕ → ℕ
word_of [] = 0
word_of (b ∷ bs) = b + 256 * word_of bs

abbrev pub IsBytes : List ℕ → Type 0
IsBytes [] = Unit {0}
IsBytes (b ∷ bs) = (b < 256) × IsBytes bs

pub length-bytes_of : (k n : ℕ) → length (bytes_of k n) ≡ k
unfolding bytes_of
length-bytes_of zero n = refl
length-bytes_of (suc k) n = ap suc (length-bytes_of k (n / 256))

pub bytes_of-IsBytes : (k n : ℕ) → IsBytes (bytes_of k n)
unfolding bytes_of
bytes_of-IsBytes zero n = tt
bytes_of-IsBytes (suc k) n = (omega arith, bytes_of-IsBytes k (n / 256))

pub word_of-bytes_of : (k n : ℕ) → n < 256 ^ k → word_of (bytes_of k n) ≡ n
unfolding bytes_of word_of
word_of-bytes_of zero n h = omega arith
word_of-bytes_of (suc k) n h =
    omega (arith, word_of-bytes_of k (n / 256) (omega (arith, pow-suc 256 k)))

pub bytes_of-word_of : (bs : List ℕ) → IsBytes bs → bytes_of (length bs) (word_of bs) ≡ bs
unfolding bytes_of word_of
bytes_of-word_of [] h = refl
bytes_of-word_of (b ∷ bs) h =
    let low : (b + 256 * word_of bs) % 256 ≡ b = omega arith in
    let high : (b + 256 * word_of bs) / 256 ≡ word_of bs = omega arith in
    rw (low, high) (ap (λ t. b ∷ t) (bytes_of-word_of bs h.1))

pub word_of-lt : (bs : List ℕ) → IsBytes bs → word_of bs < 256 ^ length bs
unfolding word_of
word_of-lt [] h = omega arith
word_of-lt (b ∷ bs) h = omega (arith, word_of-lt bs h.1, pow-suc 256 (length bs))

pub IsBytes-take : (n : ℕ) (bs : List ℕ) → IsBytes bs → IsBytes (take n bs)
IsBytes-take zero bs h = tt
IsBytes-take (suc n) [] h = tt
IsBytes-take (suc n) (b ∷ bs) h = (h.0, IsBytes-take n bs h.1)

pub IsBytes-drop : (n : ℕ) (bs : List ℕ) → IsBytes bs → IsBytes (drop n bs)
IsBytes-drop zero bs h = h
IsBytes-drop (suc n) [] h = tt
IsBytes-drop (suc n) (b ∷ bs) h = IsBytes-drop n bs h.1

pub IsBytes-slice : (bs : List ℕ) (i n : ℕ) → IsBytes bs → IsBytes (slice bs i n)
IsBytes-slice bs i n h = IsBytes-take n (drop i bs) (IsBytes-drop i bs h)

pub get_or-lt : (bs : List ℕ) (i : ℕ) → IsBytes bs → get_or bs i 0 < 256
get_or-lt [] i h = omega arith
get_or-lt (b ∷ bs) zero h = h.0
get_or-lt (b ∷ bs) (suc i) h = get_or-lt bs i h.1

pub take-bytes_of : (k n : ℕ) (ys : List ℕ) → take k (bytes_of k n ++ ys) ≡ bytes_of k n
unfolding bytes_of
take-bytes_of zero n ys = refl
take-bytes_of (suc k) n ys = ap (λ t. n % 256 ∷ t) (take-bytes_of k (n / 256) ys)

pub drop-bytes_of : (k n : ℕ) (ys : List ℕ) → drop k (bytes_of k n ++ ys) ≡ ys
unfolding bytes_of
drop-bytes_of zero n ys = refl
drop-bytes_of (suc k) n ys = drop-bytes_of k (n / 256) ys

-- The word at the front of a buffer.
unfoldable pub read_word : ℕ → List ℕ → ℕ
read_word k xs = word_of (take k xs)

pub read_word-bytes_of :
    (k n : ℕ) (ys : List ℕ) → n < 256 ^ k → read_word k (bytes_of k n ++ ys) ≡ n
unfolding read_word
read_word-bytes_of k n ys h = rw (take-bytes_of k n ys) (word_of-bytes_of k n h)

pub read_word-lt : (k : ℕ) (xs : List ℕ) → IsBytes xs → read_word k xs < 256 ^ k
unfolding read_word
read_word-lt k xs h =
    lt_of_lt_of_le (word_of-lt (take k xs) (IsBytes-take k xs h))
      (pow-le-pow_right (omega arith) (omega (arith, length-take k xs)))

-- Writing back the word that was read gives the bytes that held it.
pub bytes_of-read_word :
    (k : ℕ) (xs : List ℕ)
    → IsBytes xs
    → k ≤ length xs
    → bytes_of k (read_word k xs) ++ drop k xs ≡ xs
unfolding read_word
bytes_of-read_word k xs h room =
    let full : length (take k xs) ≡ k = omega (arith, length-take k xs) in
    ap (λ n. bytes_of n (word_of (take k xs)) ++ drop k xs) (sym full)
    ∙ ap (λ t. t ++ drop k xs) (bytes_of-word_of (take k xs) (IsBytes-take k xs h))
    ∙ take-append-drop k xs
