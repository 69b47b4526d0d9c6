-- ===== src/Permutation/EmptySlot.antt =====
-- `permutation::get_empty_slot` finds the lowest slot that no rank uses.
use yakushima.Common.{
  ℕ, zero, suc, ◌+◌, ◌≤◌, ◌<◌, ◌≡◌, refl, ap, ◌∙◌, ◌⊎◌, inl, inr, Bool, true, false, ◌||◌, List, [],
  ◌∷◌, Option, some, sym, Distinct, arith, length, All, has, Array, update, set_at, ◌==◌,
  if◌then◌else◌, Bool-cases, lt→ltb, shr, bit_and,
}
use yakushima.Common.Word.{shr-div}
use yakushima.Permutation.{mark_slots, first_clear, get_empty_slot, cnk_mask}
use yakushima.Permutation.Slots.{Slot, word, mask-word}
use yakushima.Permutation.Refinement.{IsOrder, encode}

-- What the marking loop does to the bits.
record Marked (ps : List ℕ) (bs : Array Bool) (result : Option (Array Bool)) : Type 0 where
  bits : Array Bool
  returns : result ≡ some bits
  union : (j : ℕ) → bits j ≡ (has j ps || bs j)

mark_slots-Marked :
    (c : ℕ) (ps : List ℕ) (bs : Array Bool)
    → c < 16
    → All Slot ps
    → Marked ps bs (mark_slots (length ps) (word c ps) bs)
unfolding mark_slots
mark_slots-Marked c [] bs hc h = record { bits = bs; returns = refl; union = λ j. refl }
mark_slots-Marked c (p ∷ ps) bs hc h =
    let bs' = update bs p true in
    let rest = mark_slots-Marked p ps bs' (omega (arith, h.0)) h.1 in
    let next : shr (word c (p ∷ ps)) 4 ≡ some (word p ps) =
      shr-div (word c (p ∷ ps)) 4 (omega arith) ∙ ap some (omega arith) in
    let set : set_at 15 bs (bit_and (word p ps) cnk_mask) true ≡ some bs' =
      rw (mask-word p ps (omega (arith, h.0)), lt→ltb p 15 h.0) refl in
    record {
      bits = rest.bits;
      returns = rw (next, set) rest.returns;
      union = λ j. ground (arith, rest.union j);
    }

-- What the search from bit `i` finds: all bits are set, or the first one that is clear.
abbrev FirstClear : (left i r : ℕ) (bs : Array Bool) → Type 0
FirstClear left i r bs =
    ((j : ℕ) → i ≤ j → j < i + left → bs j ≡ true)
    ⊎ ((i ≤ r) × (r < i + left) × (bs r ≡ false) × ((j : ℕ) → i ≤ j → j < r → bs j ≡ true))

first_clear-FirstClear :
    (left i : ℕ) (bs : Array Bool) → FirstClear left i (first_clear left i bs) bs
unfolding first_clear
first_clear-FirstClear zero i bs = inl (λ j lo hi. absurd (omega arith))
first_clear-FirstClear (suc left) i bs = elim (Bool-cases (bs i)) [
  | inr clear ↦ rw clear (inr (omega arith, omega arith, clear, λ j lo hi. absurd (omega arith)))
  | inl taken ↦ rw taken (elim (first_clear-FirstClear left (i + 1) bs) [
    | inl all ↦ inl (λ j lo hi. ground (arith, all j))
    | inr found ↦ inr (
      omega (arith, found.0),
      omega (arith, found.1),
      found.2,
      λ j lo hi. ground (arith, found.3 j),
    )
  ])
]

-- Pigeonholes: a list that holds every number below `n` has `n` elements at least.
without : ℕ → List ℕ → List ℕ
without a [] = []
without a (x ∷ xs) = if x == a then xs else x ∷ without a xs

length-without : (a : ℕ) (xs : List ℕ) → has a xs ≡ true → suc (length (without a xs)) ≡ length xs
unfolding without
length-without a [] h = absurd (ground arith)
length-without a (x ∷ xs) h = ground (arith, length-without a xs)

has-without : (a b : ℕ) (xs : List ℕ) → b < a → has b xs ≡ true → has b (without a xs) ≡ true
unfolding without
has-without a b [] lt h = h
has-without a b (x ∷ xs) lt h = ground (arith, has-without a b xs)

cover-le-length : (n : ℕ) (xs : List ℕ) → ((j : ℕ) → j < n → has j xs ≡ true) → n ≤ length xs
cover-le-length zero xs h = omega arith
cover-le-length (suc n) xs h =
    let rest : n ≤ length (without n xs) =
      cover-le-length n (without n xs) (λ j lt. has-without n j xs lt (h j (omega arith))) in
    omega (arith, rest, length-without n xs (h n (omega arith)))

-- In a node that is not full `get_empty_slot` returns the lowest slot that no rank uses: it is
-- below 15, it is free, and all slots below it are taken.
pub get_empty_slot-free :
    {ps : List ℕ}
    → IsOrder ps
    → length ps < 15
    → (p : ℕ) × (get_empty_slot (encode ps) ≡ some p)
      × (p < 15)
      × (has p ps ≡ false)
      × ((q : ℕ) → q < p → has q ps ≡ true)
unfolding get_empty_slot
get_empty_slot-free {ps = []} o few = (0, refl, omega arith, refl, λ q lt. absurd (omega arith))
get_empty_slot-free {ps = p ∷ ps} o few = elim found [
  | inl all ↦ absurd (
      omega (
        arith,
        few,
        cover-le-length 15 (p ∷ ps)
            λ j lt. ground (arith, all j (omega arith) (omega arith), marked.union j),
      ))
  | inr first ↦ (
    first_clear 15 0 marked.bits,
    rw (mask-word (length (p ∷ ps)) (p ∷ ps) (omega arith), nonzero, marked.returns) refl,
    omega (arith, first.1),
    ground (arith, first.2, marked.union (first_clear 15 0 marked.bits)),
    λ q lt. ground (arith, first.3 q (omega arith) lt, marked.union q),
  )
]
  where
    marked :
        Marked (p ∷ ps) (λ _. false) (mark_slots (length (p ∷ ps)) (encode (p ∷ ps)) (λ _. false))
    marked = mark_slots-Marked (length (p ∷ ps)) (p ∷ ps) (λ _. false) (omega arith) o.small

    found : FirstClear 15 0 (first_clear 15 0 marked.bits) marked.bits
    found = first_clear-FirstClear 15 0 marked.bits

    nonzero : (length (p ∷ ps) == 0) ≡ false
    nonzero = ground arith

-- And a list of different numbers below `n` has `n` elements at most.
has-without_other : (a b : ℕ) (xs : List ℕ) → has b xs ≡ false → has b (without a xs) ≡ false
unfolding without
has-without_other a b [] h = refl
has-without_other a b (x ∷ xs) h = ground (arith, has-without_other a b xs)

below-others :
    (n : ℕ) (xs : List ℕ) → has n xs ≡ false → All (λ x. x < suc n) xs → All (λ x. x < n) xs
below-others n [] h a = tt
below-others n (x ∷ xs) h a = (ground (arith, h, a.0), below-others n xs (ground (arith, h)) a.1)

below-without :
    (n : ℕ) (xs : List ℕ)
    → Distinct xs
    → All (λ x. x < suc n) xs
    → Distinct (without n xs) × All (λ x. x < n) (without n xs)
unfolding without
below-without n [] d a = (tt, tt)
below-without n (x ∷ xs) d a = elim (Bool-cases (x == n)) [
  | inl e ↦
      let same : x ≡ n = ground arith in
      rw e (d.1, below-others n xs (ap (λ y. has y xs) (sym same) ∙ d.0) a.1)
  | inr e ↦
      let rest = below-without n xs d.1 a.1 in
      rw e ((has-without_other n x xs d.0, rest.0), (ground (arith, a.0, e), rest.1))
]

length-le-bound : (n : ℕ) (xs : List ℕ) → Distinct xs → All (λ x. x < n) xs → length xs ≤ n
length-le-bound zero [] d a = omega arith
length-le-bound zero (x ∷ xs) d a = absurd (omega (arith, a.0))
length-le-bound (suc n) xs d a = elim (Bool-cases (has n xs)) [
  | inl e ↦
      let rest = below-without n xs d a in
      omega (arith, length-without n xs e, length-le-bound n (without n xs) rest.0 rest.1)
  | inr e ↦ omega (arith, length-le-bound n xs d (below-others n xs e a))
]

-- A full node uses every slot.
pub full-has : {ps : List ℕ} (p : ℕ) → IsOrder ps → length ps ≡ 15 → p < 15 → has p ps ≡ true
full-has {ps} p o full fits = elim (Bool-cases (has p ps)) [
  | inl e ↦ e
  | inr e ↦
      absurd (omega (arith, full, length-le-bound 15 (p ∷ ps) (e, o.distinct) (fits, o.small)))
]
