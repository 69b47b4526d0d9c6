-- ===== src/BorderNode/SplitOrder.antt =====
-- Keys, ranks and order in the two parts of a split border node.
use Prim.Native.Nat.{Ordering}
use yakushima.Common.{
  ℕ, suc, ◌+◌, ◌≡◌, ◌≢◌, refl, sym, subst, ◌∙◌, ap, List, [], ◌∷◌, ◌++◌, length, get_elem?, All,
  none, some, arith, inl, inr, ordering_cases,
}
use yakushima.Key.{KeyTuple, key_compare}
use yakushima.Permutation.Split.{count_from}
use yakushima.BorderNode.Entries.{WellFormed, Sorted, key_compare_trans}
use yakushima.BorderNode.Divided.{apart_in_front}
use yakushima.BorderNode.Search.{lookup, count_smaller}

module _ (f : ℕ → KeyTuple) (k : KeyTuple) where
  pub count_smaller-append :
      (xs ys : List ℕ) → count_smaller f k (xs ++ ys) ≡ count_smaller f k xs + count_smaller f k ys
  unfolding count_smaller
  count_smaller-append [] ys = omega arith
  count_smaller-append (x ∷ xs) ys = ground (arith, count_smaller-append xs ys)

  pub count_smaller-above :
      (xs : List ℕ)
      → All (λ x. key_compare k (f x) ≡ Ordering.gt) xs
      → count_smaller f k xs ≡ length xs
  unfolding count_smaller
  count_smaller-above [] h = refl
  count_smaller-above (x ∷ xs) h = ground (arith, h.0, count_smaller-above xs h.1)

-- The order of the entries in other slots.
All-count_from :
    (f g : ℕ → KeyTuple) (k k' : KeyTuple) (j : ℕ) (ys : List ℕ)
    → ((i q : ℕ) → get_elem? ys i ≡ some q → g (j + i) ≡ f q)
    → k' ≡ k
    → All (λ q. key_compare k (f q) ≡ Ordering.lt) ys
    → All (λ q. key_compare k' (g q) ≡ Ordering.lt) (count_from j (length ys))
All-count_from f g k k' j [] same e a = tt
All-count_from f g k k' j (y ∷ ys) same e a =
    let here : g j ≡ f y = ap g {x = j} {y = j + 0} (omega arith) ∙ same 0 y refl in
    (
      ap (λ c. key_compare c (g j)) e ∙ ap (key_compare k) here ∙ a.0,
      All-count_from f g k k' (suc j) ys
          (λ i q h. ap g {x = suc j + i} {y = j + suc i} (omega arith) ∙ same (suc i) q h) e a.1,
    )

pub Sorted-count_from :
    (f g : ℕ → KeyTuple) (j : ℕ) (ys : List ℕ)
    → ((i q : ℕ) → get_elem? ys i ≡ some q → g (j + i) ≡ f q)
    → Sorted f ys
    → Sorted g (count_from j (length ys))
Sorted-count_from f g j [] same s = tt
Sorted-count_from f g j (y ∷ ys) same s =
    let here : g j ≡ f y = ap g {x = j} {y = j + 0} (omega arith) ∙ same 0 y refl in
    let later = λ (i : ℕ) (q : ℕ) (h : get_elem? ys i ≡ some q).
      ap g {x = suc j + i} {y = j + suc i} (omega arith) ∙ same (suc i) q h in
    (
      subst WellFormed (sym here) s.0,
      All-count_from f g (f y) (g j) (suc j) ys later here s.1,
      Sorted-count_from f g (suc j) ys later s.2,
    )

pub Sorted-front : (f : ℕ → KeyTuple) (xs ys : List ℕ) → Sorted f (xs ++ ys) → Sorted f xs
Sorted-front f [] ys s = tt
Sorted-front f (x ∷ xs) ys s = (s.0, front xs s.1, Sorted-front f xs ys s.2)
  where
    front :
        (zs : List ℕ)
        → All (λ q. key_compare (f x) (f q) ≡ Ordering.lt) (zs ++ ys)
        → All (λ q. key_compare (f x) (f q) ≡ Ordering.lt) zs
    front [] a = tt
    front (z ∷ zs) a = (a.0, front zs a.1)

module _ (f : ℕ → KeyTuple) (k : KeyTuple) where
  -- A key that is looked for in vain is not equal to an entry.
  pub new-apart :
      (xs : List ℕ) (y : ℕ) (ys : List ℕ)
      → lookup f k (xs ++ y ∷ ys) ≡ none
      → key_compare k (f y) ≢ Ordering.eq
  unfolding lookup
  new-apart [] y ys e = λ hit. absurd (ground (arith, e, hit))
  new-apart (x ∷ xs) y ys e = new-apart xs y ys (ground (arith, e))

  -- A key behind an entry is greater than the entries in front of it.
  pub greater_in_front :
      (xs : List ℕ) (y : ℕ) (ys : List ℕ)
      → WellFormed k
      → key_compare k (f y) ≢ Ordering.lt
      → Sorted f (xs ++ y ∷ ys)
      → All (λ x. key_compare k (f x) ≡ Ordering.gt) xs
  greater_in_front [] y ys w h s = tt
  greater_in_front (x ∷ xs) y ys w h s =
      let at_y = in_front xs s.1 in
      let fine = well xs s.2 in
      let apart = (apart_in_front f k (x ∷ xs) y ys w h s).0 in
      (
        elim (ordering_cases (key_compare k (f x))) [
          | inl less ↦ absurd (h ((key_compare_trans w s.0 fine).0 less at_y))
          | inr (inl equal) ↦ absurd (apart equal)
          | inr (inr more) ↦ more
        ],
        greater_in_front xs y ys w h s.2,
      )
    where
      in_front :
          (zs : List ℕ)
          → All (λ q. key_compare (f x) (f q) ≡ Ordering.lt) (zs ++ y ∷ ys)
          → key_compare (f x) (f y) ≡ Ordering.lt
      in_front [] a = a.0
      in_front (z ∷ zs) a = in_front zs a.1

      well : (zs : List ℕ) → Sorted f (zs ++ y ∷ ys) → WellFormed (f y)
      well [] t = t.0
      well (z ∷ zs) t = well zs t.2

pub count_smaller-count_from :
    (f g : ℕ → KeyTuple) (k : KeyTuple) (j : ℕ) (ys : List ℕ)
    → ((i q : ℕ) → get_elem? ys i ≡ some q → g (j + i) ≡ f q)
    → count_smaller g k (count_from j (length ys)) ≡ count_smaller f k ys
unfolding count_smaller
count_smaller-count_from f g k j [] same = refl
count_smaller-count_from f g k j (y ∷ ys) same =
    let here : key_compare k (g j) ≡ key_compare k (f y) =
      ap (λ (i : ℕ). key_compare k (g i)) {x = j} {y = j + 0} (omega arith)
      ∙ ap (key_compare k) (same 0 y refl) in
    let rest =
      count_smaller-count_from f g k (suc j) ys
        (λ i q h. ap g {x = suc j + i} {y = j + suc i} (omega arith) ∙ same (suc i) q h) in
    ground (arith, here, rest)
