-- ===== src/Delta/Wire/Words.antt =====
-- Reading words one behind the other, as they were written.
use fast_sync.Prelude.{
  ℕ, ◌+◌, ◌≤◌, ◌≡◌, sym, ap, ◌∙◌, List, ◌++◌, arith, length, drop, drop-drop, length-append,
  length-drop,
}
use fast_sync.Prelude.Bytes.{
  IsBytes, bytes_of, read_word, length-bytes_of, drop-bytes_of, bytes_of-read_word, IsBytes-drop,
}

module _ (m k a b : ℕ) (ys : List ℕ) where
  pub drop_words : drop (m + k) (bytes_of m a ++ (bytes_of k b ++ ys)) ≡ ys
  drop_words =
      sym (drop-drop k m (bytes_of m a ++ (bytes_of k b ++ ys)))
      ∙ ap (λ t. drop k t) (drop-bytes_of m a (bytes_of k b ++ ys))
      ∙ drop-bytes_of k b ys

  pub length_words : length (bytes_of m a ++ (bytes_of k b ++ ys)) ≡ m + k + length ys
  length_words = omega (
    arith,
    length-append (bytes_of m a) (bytes_of k b ++ ys),
    length-append (bytes_of k b) ys,
    length-bytes_of m a,
    length-bytes_of k b,
  )

-- A word that was read, and the rest behind it, written back in front of a position.
pub rewrite_word :
    (n k : ℕ) (xs : List ℕ)
    → IsBytes xs
    → n + k ≤ length xs
    → bytes_of k (read_word k (drop n xs)) ++ drop (n + k) xs ≡ drop n xs
rewrite_word n k xs bytes room =
    ap (λ t. bytes_of k (read_word k (drop n xs)) ++ t) (sym (drop-drop k n xs))
    ∙ bytes_of-read_word k (drop n xs) (IsBytes-drop n xs bytes) (omega (arith, length-drop n xs))
