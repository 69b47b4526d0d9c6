-- ===== src/Permutation/Split.antt =====
-- `permutation::split_dest` writes the order of a node that was filled from slot 0 on.
use yakushima.Common.{
  ℕ, zero, suc, ◌+◌, ◌≤◌, ◌<◌, ◌≡◌, refl, Bool, true, false, ◌&&◌, List, [], ◌∷◌, Option, none,
  some, arith, length, All, has, Distinct, ◌==◌, shl,
}
use yakushima.Permutation.{split_dest, split_loop}
use yakushima.Permutation.Slots.{Slot}
use yakushima.Permutation.Refinement.{IsOrder, encode}

-- The `n` numbers from `i` on.
abbrev pub count_from : ℕ → ℕ → List ℕ
count_from i zero = []
count_from i (suc n) = i ∷ count_from (suc i) n

length-count_from : (i n : ℕ) → length (count_from i n) ≡ n
length-count_from i zero = refl
length-count_from i (suc n) = omega (arith, length-count_from (suc i) n)

small-count_from : (i n : ℕ) → i + n ≤ 15 → All Slot (count_from i n)
small-count_from i zero h = tt
small-count_from i (suc n) h = (omega arith, small-count_from (suc i) n (omega arith))

has-count_from : (a i n : ℕ) → a < i → has a (count_from i n) ≡ false
has-count_from a i zero h = refl
has-count_from a i (suc n) h = ground (arith, has-count_from a (suc i) n)

Distinct-count_from : (i n : ℕ) → Distinct (count_from i n)
Distinct-count_from i zero = tt
Distinct-count_from i (suc n) =
    (has-count_from i (suc i) n (omega arith), Distinct-count_from (suc i) n)

-- The word has 64 bits, so the sixteen counts are checked one by one.
returns : ℕ → Option ℕ → Bool
returns a none = false
returns a (some b) = b == a

returns-some : (a : ℕ) (o : Option ℕ) → returns a o ≡ true → o ≡ some a
unfolding returns
returns-some a none h = absurd (ground arith)
returns-some a (some b) h = ground arith

every_below : ℕ → (ℕ → Bool) → Bool
every_below zero p = true
every_below (suc n) p = p n && every_below n p

every_below-at : (n : ℕ) (p : ℕ → Bool) (i : ℕ) → every_below n p ≡ true → i < n → p i ≡ true
unfolding every_below
every_below-at zero p i h lt = elim lt [ ]
every_below-at (suc n) p i h lt = ground (arith, every_below-at n p i)

table : every_below 16 (λ n. returns (encode (count_from 0 n)) (split_dest n)) ≡ true
unfolding every_below returns split_dest split_loop shl
table = refl

-- `split_dest num` gives the ranks the slots 0, 1, 2, ... in this order, for the counts that fit
-- a node, and that is an order.
pub split_dest-encode :
    (num : ℕ)
    → num ≤ 15
    → (split_dest num ≡ some (encode (count_from 0 num))) × IsOrder (count_from 0 num)
split_dest-encode num h = (
  returns-some _ _ (every_below-at 16 _ num table (omega arith)),
  record {
    few = omega (arith, length-count_from 0 num);
    small = small-count_from 0 num (omega arith);
    distinct = Distinct-count_from 0 num;
  },
)
