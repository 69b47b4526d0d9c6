-- ===== src/Key/Lex.antt =====
-- The comparison of slices and lengths, layer by layer, is the lexicographic order of the keys.
use Prim.Native.Nat.{compare, Ordering, min}
use mathlib.Core.Path.{ap₂}
use yakushima.Common.{ℕ, zero, suc, ◌≡◌, ◌≢◌, refl, sym, ◌∙◌, ap, [], ◌∷◌, length, arith}
use yakushima.Scheme.{slice_size}
use yakushima.Key.{
  Bytes, memcmp, load, remove_prefix, key_length, prepare, and_then, key_compare, prefix_compare,
  shorter,
}

-- The order of the keys as strings of bytes.
unfoldable pub lex : Bytes → Bytes → Ordering
lex [] [] = Ordering.eq
lex [] (y ∷ k) = Ordering.lt
lex (x ∷ j) [] = Ordering.gt
lex (x ∷ j) (y ∷ k) = and_then (compare x y) (lex j k)

-- Slices of `n` bytes.
slice_compare : ℕ → Bytes → Bytes → Ordering
slice_compare n j k =
    and_then (memcmp n (load n j) (load n k))
      (compare (min (length j) (suc n)) (min (length k) (suc n)))

-- Zeros come first.
zeros_first : (n : ℕ) (a : Bytes) → memcmp n (load n []) a ≢ Ordering.gt
unfolding memcmp load
zeros_first zero a e = ground arith
zeros_first (suc n) [] e = ground arith
zeros_first (suc n) (x ∷ a) e = ground (arith, zeros_first n a)

zeros_last : (n : ℕ) (a : Bytes) → memcmp n a (load n []) ≢ Ordering.lt
unfolding memcmp load
zeros_last zero a e = ground arith
zeros_last (suc n) [] e = ground arith
zeros_last (suc n) (x ∷ a) e = ground (arith, zeros_last n a)

pub memcmp_self : (n : ℕ) (a : Bytes) → memcmp n a a ≡ Ordering.eq
unfolding memcmp
memcmp_self zero a = refl
memcmp_self (suc n) [] = refl
memcmp_self (suc n) (x ∷ a) = ground (arith, memcmp_self n a)

lex-slice_compare :
    (n : ℕ) (j k : Bytes)
    → lex j k ≡ and_then (slice_compare n j k) (lex (remove_prefix n j) (remove_prefix n k))
unfolding lex slice_compare memcmp load remove_prefix
lex-slice_compare zero [] [] = ground arith
lex-slice_compare zero [] (y ∷ k) = ground arith
lex-slice_compare zero (x ∷ j) [] = ground arith
lex-slice_compare zero (x ∷ j) (y ∷ k) = ground arith
lex-slice_compare (suc n) [] [] = ground (arith, memcmp_self (suc n) (load (suc n) []))
lex-slice_compare (suc n) [] (y ∷ k) = ground (arith, zeros_first n (load n k))
lex-slice_compare (suc n) (x ∷ j) [] = ground (arith, zeros_last n (load n j))
lex-slice_compare (suc n) (x ∷ j) (y ∷ k) = ground (arith, lex-slice_compare n j k)

-- Only the bytes that both keys have matter: behind them the lengths decide.
common_bytes-slice_compare :
    (m n : ℕ) (j k : Bytes)
    → m ≡ min (min (length j) (length k)) n
    → and_then
        (memcmp m (load n j) (load n k))
        (compare (min (length j) (suc n)) (min (length k) (suc n)))
      ≡ slice_compare n j k
unfolding slice_compare memcmp load
common_bytes-slice_compare zero zero j k e = refl
common_bytes-slice_compare (suc m) zero j k e = absurd (omega arith)
common_bytes-slice_compare zero (suc n) [] [] e =
    ground (arith, memcmp_self (suc n) (load (suc n) []))
common_bytes-slice_compare zero (suc n) [] (y ∷ k) e = ground (arith, zeros_first n (load n k))
common_bytes-slice_compare zero (suc n) (x ∷ j) [] e = ground (arith, zeros_last n (load n j))
common_bytes-slice_compare zero (suc n) (x ∷ j) (y ∷ k) e = absurd (omega arith)
common_bytes-slice_compare (suc m) (suc n) [] k e = absurd (omega arith)
common_bytes-slice_compare (suc m) (suc n) (x ∷ j) [] e = absurd (omega arith)
common_bytes-slice_compare (suc m) (suc n) (x ∷ j) (y ∷ k) e =
    ground (arith, common_bytes-slice_compare m n j k)

key_length-min : (k : Bytes) → key_length k ≡ min (length k) 9
key_length-min k = ground arith

key_compare-slices : (j k : Bytes) → key_compare (prepare j) (prepare k) ≡ slice_compare 8 j k
unfolding key_compare slice_compare
key_compare-slices j k = rw (key_length-min, key_length-min) refl

-- The entries of two keys in a layer compare as the keys do; only where slices and lengths are
-- the same is it left to the bytes behind the slice, in the next layer.
pub lex-key_compare :
    (j k : Bytes)
    → lex j k
      ≡ and_then
          (key_compare (prepare j) (prepare k))
          (lex (remove_prefix slice_size j) (remove_prefix slice_size k))
lex-key_compare j k =
    lex-slice_compare 8 j k
    ∙ ap (λ o. and_then o (lex (remove_prefix 8 j) (remove_prefix 8 k)))
        (sym (key_compare-slices j k))

-- The interior nodes compare only the bytes that two keys have both, with the same result.
pub prefix_compare-key_compare :
    (j k : Bytes) → prefix_compare (prepare j) (prepare k) ≡ key_compare (prepare j) (prepare k)
unfolding prefix_compare
prefix_compare-key_compare j k =
    let n = shorter (shorter (key_length j) (key_length k)) 8 in
    let shared : n ≡ min (min (length j) (length k)) 8 = ground arith in
    rw (key_compare-slices, ← common_bytes-slice_compare n 8 j k shared)
      (ap₂ (λ a b. and_then (memcmp n (load 8 j) (load 8 k)) (compare a b)) (key_length-min j)
        (key_length-min k))
