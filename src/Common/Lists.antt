-- ===== src/Common/Lists.antt =====
-- Lists measured and indexed by native numbers, with insertion and removal at an index.
use Prim.Native.Nat.{ℕ, zero, suc, ◌<◌}
use mathlib.Core.Path.{◌≡◌, refl, ap}
use mathlib.Core.List.{List, [], ◌∷◌}
use mathlib.Core.Bool.{Bool, false, ◌||◌}
use mathlib.Core.Option.{Option, none, some}
use native.Mathlib.Omega.{arith}
use yakushima.Common.Tests.{◌==◌}

module _ {ℓ} {A : Type ℓ} where
  abbrev pub length : List A → ℕ
  length [] = 0
  length (x ∷ xs) = suc (length xs)

  abbrev pub get_elem? : List A → ℕ → Option A
  get_elem? [] i = none
  get_elem? (x ∷ xs) zero = some x
  get_elem? (x ∷ xs) (suc i) = get_elem? xs i

  abbrev pub take : ℕ → List A → List A
  take zero xs = []
  take (suc n) [] = []
  take (suc n) (x ∷ xs) = x ∷ take n xs

  -- Past the end the new element goes to the end.
  abbrev pub insert_at : ℕ → A → List A → List A
  insert_at zero a xs = a ∷ xs
  insert_at (suc i) a [] = a ∷ []
  insert_at (suc i) a (x ∷ xs) = x ∷ insert_at i a xs

  -- Past the end nothing is removed.
  abbrev pub remove_at : ℕ → List A → List A
  remove_at i [] = []
  remove_at zero (x ∷ xs) = xs
  remove_at (suc i) (x ∷ xs) = x ∷ remove_at i xs

  abbrev pub All {κ} : (A → Type κ) → List A → Type κ
  All P [] = Unit
  All P (x ∷ xs) = P x × All P xs

  pub lt-length_of_get_elem? :
      (xs : List A) (i : ℕ) {a : A} → get_elem? xs i ≡ some a → i < length xs
  lt-length_of_get_elem? [] i h = absurd (ground arith)
  lt-length_of_get_elem? (x ∷ xs) zero h = omega arith
  lt-length_of_get_elem? (x ∷ xs) (suc i) h = omega (arith, lt-length_of_get_elem? xs i h)

  pub length-insert_at : (i : ℕ) (a : A) (xs : List A) → length (insert_at i a xs) ≡ suc (length xs)
  length-insert_at zero a xs = refl
  length-insert_at (suc i) a [] = refl
  length-insert_at (suc i) a (x ∷ xs) = ap suc (length-insert_at i a xs)

  pub length-remove_at :
      (i : ℕ) (xs : List A) → i < length xs → suc (length (remove_at i xs)) ≡ length xs
  length-remove_at i [] h = elim h [ ]
  length-remove_at zero (x ∷ xs) h = refl
  length-remove_at (suc i) (x ∷ xs) h = ap suc (length-remove_at i xs (omega arith))

module _ {ℓ κ} {A : Type ℓ} (P : A → Type κ) where
  pub All-insert_at : (i : ℕ) (a : A) (xs : List A) → P a → All P xs → All P (insert_at i a xs)
  All-insert_at zero a xs p h = (p, h)
  All-insert_at (suc i) a [] p h = (p, tt)
  All-insert_at (suc i) a (x ∷ xs) p h = (h.0, All-insert_at i a xs p h.1)

  pub All-remove_at : (i : ℕ) (xs : List A) → All P xs → All P (remove_at i xs)
  All-remove_at i [] h = tt
  All-remove_at zero (x ∷ xs) h = h.1
  All-remove_at (suc i) (x ∷ xs) h = (h.0, All-remove_at i xs h.1)

-- Membership of a number, as a test.
abbrev pub has : ℕ → List ℕ → Bool
has a [] = false
has a (x ∷ xs) = x == a || has a xs

-- No number stands twice.
abbrev pub Distinct : List ℕ → Type 0
Distinct [] = Unit
Distinct (x ∷ xs) = (has x xs ≡ false) × Distinct xs

pub has-insert_at : (b i a : ℕ) (xs : List ℕ) → has b (insert_at i a xs) ≡ (a == b || has b xs)
has-insert_at b zero a xs = refl
has-insert_at b (suc i) a [] = refl
has-insert_at b (suc i) a (x ∷ xs) = ground (arith, has-insert_at b i a xs)

pub has-remove_at : (b i : ℕ) (xs : List ℕ) → has b xs ≡ false → has b (remove_at i xs) ≡ false
has-remove_at b i [] h = refl
has-remove_at b zero (x ∷ xs) h = ground arith
has-remove_at b (suc i) (x ∷ xs) h = ground (arith, has-remove_at b i xs)

pub Distinct-insert_at :
    (i a : ℕ) (xs : List ℕ) → has a xs ≡ false → Distinct xs → Distinct (insert_at i a xs)
Distinct-insert_at zero a xs h d = (h, d)
Distinct-insert_at (suc i) a [] h d = (refl, tt)
Distinct-insert_at (suc i) a (x ∷ xs) h d =
    (ground (arith, has-insert_at x i a xs), Distinct-insert_at i a xs (ground arith) d.1)

pub Distinct-remove_at : (i : ℕ) (xs : List ℕ) → Distinct xs → Distinct (remove_at i xs)
Distinct-remove_at i [] d = tt
Distinct-remove_at zero (x ∷ xs) d = d.1
Distinct-remove_at (suc i) (x ∷ xs) d = (has-remove_at x i xs d.0, Distinct-remove_at i xs d.1)
