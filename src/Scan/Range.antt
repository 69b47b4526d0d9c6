-- ===== src/Scan/Range.antt =====
-- What a scan decides about an entry, against the order of the keys as strings of bytes.
use Prim.Native.Nat.{compare, Ordering, min}
use yakushima.Common.{
  ℕ, zero, suc, ◌≤◌, ◌<◌, ◌≡◌, refl, sym, ◌∙◌, ap, Bool, true, false, not, [], ◌∷◌, ◌++◌, length,
  take, Option, none, some, leb, if◌then◌else◌, arith,
}
use yakushima.Scheme.{ScanEndpoint}
use yakushima.Key.{
  Bytes, memcmp, load, key_slice, key_length, prepare, remove_prefix, shorter, and_then,
  key_compare,
}
use yakushima.Key.Lex.{lex, lex-key_compare}
use yakushima.Scan.{
  Query, is_inf, full_key, below_left, below_right, Visit, skip, hand_out, leave, left_out,
  right_in, visit,
}

-- Whether a key is within an end of the range, by how the end compares to the key.
abbrev pub in_left : ScanEndpoint → Ordering → Bool
in_left ScanEndpoint.inf o = true
in_left ScanEndpoint.inclusive o = elim o [ Ordering.gt ↦ false | _ ↦ true ]
in_left ScanEndpoint.exclusive o = elim o [ Ordering.lt ↦ true | _ ↦ false ]

abbrev pub in_right : ScanEndpoint → Ordering → Bool
in_right ScanEndpoint.inf o = true
in_right ScanEndpoint.inclusive o = elim o [ Ordering.lt ↦ false | _ ↦ true ]
in_right ScanEndpoint.exclusive o = elim o [ Ordering.gt ↦ true | _ ↦ false ]

-- What the range makes of a key.
abbrev pub placed : Bool → Bool → Visit
placed false r = skip
placed true false = leave
placed true true = hand_out

remove_prefix-short : (n : ℕ) (k : Bytes) → length k ≤ n → remove_prefix n k ≡ []
unfolding remove_prefix
remove_prefix-short zero [] h = refl
remove_prefix-short zero (x ∷ k) h = absurd (omega arith)
remove_prefix-short (suc n) [] h = refl
remove_prefix-short (suc n) (x ∷ k) h = remove_prefix-short n k (omega arith)

lex-remove_prefix : (n : ℕ) (k : Bytes) → n < length k → lex [] (remove_prefix n k) ≡ Ordering.lt
unfolding remove_prefix lex
lex-remove_prefix zero [] h = absurd (omega arith)
lex-remove_prefix zero (x ∷ k) h = refl
lex-remove_prefix (suc n) [] h = absurd (omega arith)
lex-remove_prefix (suc n) (x ∷ k) h = lex-remove_prefix n k (omega arith)

-- The bytes of a short key come back from its slice.
pub take-load : (n : ℕ) (k : Bytes) → length k ≤ n → take (length k) (load n k) ≡ k
unfolding load
take-load zero [] h = refl
take-load zero (x ∷ k) h = absurd (omega arith)
take-load (suc n) [] h = refl
take-load (suc n) (x ∷ k) h = ap (λ r. x ∷ r) (take-load n k (omega arith))

pub full_key-short : (p k : Bytes) → length k ≤ 8 → full_key p (prepare k) ≡ p ++ k
full_key-short p k h =
    let size : shorter (key_length k) 8 ≡ length k = ground arith in
    ap (λ n. p ++ take n (load 8 k)) size ∙ ap (λ r. p ++ r) (take-load 8 k h)

-- `memcmp` over the bytes that both have, and then the lengths.
memcmp-lex :
    (n : ℕ) (a b : Bytes)
    → n ≡ min (length a) (length b)
    → and_then (memcmp n a b) (compare (length a) (length b)) ≡ lex a b
unfolding memcmp lex
memcmp-lex zero [] [] e = ground arith
memcmp-lex zero [] (y ∷ b) e = ground arith
memcmp-lex zero (x ∷ a) [] e = ground arith
memcmp-lex zero (x ∷ a) (y ∷ b) e = absurd (omega arith)
memcmp-lex (suc n) [] b e = absurd (omega arith)
memcmp-lex (suc n) (x ∷ a) [] e = absurd (omega arith)
memcmp-lex (suc n) (x ∷ a) (y ∷ b) e = ground (arith, memcmp-lex n a b)

lex-shorter :
    (a b : Bytes)
    → lex a b
      ≡ and_then (memcmp (shorter (length a) (length b)) a b) (compare (length a) (length b))
lex-shorter a b = sym (memcmp-lex (shorter (length a) (length b)) a b (ground arith))

lex_nil : lex [] [] ≡ Ordering.eq
unfolding lex
lex_nil = refl

-- A key that ends in a layer compares as its entry does.
lex-left :
    (l k : Bytes)
    → length k ≤ 8
    → lex l k ≡ and_then (memcmp 8 (key_slice l) (key_slice k)) (compare (length l) (length k))
unfolding key_compare
lex-left l k h =
    let whole = lex-key_compare l k in
    let rest : length l ≤ 8 → lex (remove_prefix 8 l) (remove_prefix 8 k) ≡ lex [] [] =
      λ short. rw (remove_prefix-short 8 l short, remove_prefix-short 8 k h) refl in
    let nothing : lex [] [] ≡ Ordering.eq = lex_nil in ground (arith, whole, rest, nothing)

left_out-in_left :
    (q : Query) (k : Bytes)
    → length k ≤ 8
    → is_inf q.l_end ≡ false
    → left_out q (prepare k) ≡ not (in_left q.l_end (lex q.l_key k))
unfolding left_out
left_out-in_left q k h bounded = ground (arith, lex-left q.l_key k h)

right_in-in_right :
    (q : Query) (full : Bytes)
    → is_inf q.r_end ≡ false
    → right_in q full ≡ in_right q.r_end (lex q.r_key full)
unfolding right_in
right_in-in_right q full bounded = ground (arith, lex-shorter q.r_key full)

-- For an entry with a value, whose key ends in this layer, a scan does what the order of the keys
-- says: it leaves out the key where the rest of the left key excludes it, ends where the right key
-- excludes the whole key, and hands it out otherwise. The comparison with padded slices and with
-- common lengths decides nothing else.
pub visit-placed :
    (q : Query) (k full : Bytes)
    → length k ≤ 8
    → visit q (prepare k) full
      ≡ placed (in_left q.l_end (lex q.l_key k)) (in_right q.r_end (lex q.r_key full))
unfolding visit
visit-placed q k full h =
    let left = left_out-in_left q k h in
    let right = right_in-in_right q full in ground (arith, left, right)

-- The rest of a key is within the end that a scan passes to the layer below, if it goes there.
abbrev pub left_below : Option (Bytes × ScanEndpoint) → Bytes → Bool
left_below none rest = false
left_below (some l) rest = in_left l.1 (lex l.0 rest)

abbrev pub right_below : Option (Bytes × ScanEndpoint) → Bytes → Bool
right_below none whole = false
right_below (some r) whole = in_right r.1 (lex r.0 whole)

-- For an entry that goes on in the layer below, the left end that a scan passes down admits the rest of a key
-- there if and only if the left end of the scan admits the key; an entry that the scan skips has no
-- such key.
pub below_left-in_left :
    (q : Query) (k : Bytes)
    → 8 < length k
    → left_below (below_left q (key_slice k)) (remove_prefix 8 k) ≡ in_left q.l_end (lex q.l_key k)
unfolding below_left key_compare
below_left-in_left q k long =
    let whole = lex-key_compare q.l_key k in
    let least = lex-remove_prefix 8 k long in ground (arith, whole, least)

lex-append :
    (n : ℕ) (a b : Bytes) (x : ℕ) (rest : Bytes)
    → n ≡ min (length a) (length b)
    → lex a (b ++ x ∷ rest)
      ≡ and_then (memcmp n a b) (
          if leb (length a) (length b)
          then Ordering.lt
          else lex (remove_prefix (length b) a) (x ∷ rest))
unfolding memcmp lex remove_prefix
lex-append zero [] [] x rest e = refl
lex-append zero [] (y ∷ b) x rest e = ground arith
lex-append zero (z ∷ a) [] x rest e = ground arith
lex-append zero (z ∷ a) (y ∷ b) x rest e = absurd (omega arith)
lex-append (suc n) [] b x rest e = absurd (omega arith)
lex-append (suc n) (z ∷ a) [] x rest e = absurd (omega arith)
lex-append (suc n) (z ∷ a) (y ∷ b) x rest e = ground (arith, lex-append n a b x rest)

-- The same for the right end and the whole key: where the bytes up to this layer and those behind
-- them, of which there are some, make the key.
pub below_right-in_right :
    (q : Query) (full : Bytes) (x : ℕ) (rest : Bytes)
    → right_below (below_right q full) (full ++ x ∷ rest)
      ≡ in_right q.r_end (lex q.r_key (full ++ x ∷ rest))
unfolding below_right
below_right-in_right q full x rest =
    let whole =
      lex-append (shorter (length q.r_key) (length full)) q.r_key full x rest (ground arith) in
    ground (arith, whole)
