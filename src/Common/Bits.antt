-- ===== src/Common/Bits.antt =====
-- `&` and `|` on words as arithmetic: both act on the low `k` bits and on the rest apart.
use Prim.Native.Nat.{
  ℕ, zero, suc, ◌+◌, ◌-◌, ◌*◌, ◌/◌, ◌%◌, ◌^◌, ◌≤◌, ◌<◌, min, max, digits, bitwise, bit_and, bit_or,
  bit_and-bitwise, bit_or-bitwise,
}
use mathlib.Core.Path.{◌≡◌, refl, ap}
use mathlib.Core.WellFounded.{Acc, WellFounded, induction}
use native.Mathlib.Nat.{le_refl, pow-suc, one-le-pow, div-lt_iff_lt-mul}
use native.Mathlib.Decide.{dec_lt}
use native.Mathlib.Omega.{arith}

-- Strong induction on the native numbers.
below : (k n : ℕ) → n < k → Acc ◌<◌ n
below zero n h = absurd (omega arith)
below (suc k) n h = Acc.intro n (λ j less. below k j (omega arith))

lt_wf : WellFounded ◌<◌
lt_wf = record { apply = λ n. below (suc n) n (le_refl _) }

-- `bitwise` recurs on fuel that starts at its first number; any fuel from that number on will do.
module _ (rest : ℕ → ℕ) (op : ℕ → ℕ → ℕ) where
  fuel_irrelevant :
      {f g : ℕ} (a b : ℕ) → a ≤ f → a ≤ g → digits rest op f a b ≡ digits rest op g a b
  fuel_irrelevant {f = zero} {g = zero} a b hf hg = refl
  fuel_irrelevant {f = zero} {g = suc g} zero b hf hg = refl
  fuel_irrelevant {f = suc f} {g = zero} zero b hf hg = refl
  fuel_irrelevant {f = suc f} {g = suc g} zero b hf hg = refl
  fuel_irrelevant {f = zero} {g = suc g} (suc a) b hf hg = elim hf [ ]
  fuel_irrelevant {f = suc f} {g = zero} (suc a) b hf hg = elim hg [ ]
  fuel_irrelevant {f = suc f} {g = suc g} (suc a) b hf hg =
      let half = fuel_irrelevant {f = f} {g = g} (suc a / 2) (b / 2) (omega arith) (omega arith) in
      ap (λ (d : ℕ). d * 2 + op (suc a % 2) (b % 2)) half

  lowest_digit :
      (a b : ℕ)
      → bitwise rest op (suc a) b ≡ bitwise rest op (suc a / 2) (b / 2) * 2 + op (suc a % 2) (b % 2)
  lowest_digit a b =
      ap (λ (d : ℕ). d * 2 + op (suc a % 2) (b % 2))
        (fuel_irrelevant {f = a} {g = suc a / 2} (suc a / 2) (b / 2) (omega arith) (le_refl _))

-- `&` takes the smaller digit, `|` the larger one.
pub bit_and_step : (x y : ℕ) → bit_and x y ≡ min (x % 2) (y % 2) + 2 * bit_and (x / 2) (y / 2)
bit_and_step (suc x) y = simp bit_and-bitwise (omega (arith, lowest_digit (λ d. 0) min x y))
bit_and_step zero y = simp bit_and-bitwise (omega arith)

pub bit_or_step : (x y : ℕ) → bit_or x y ≡ max (x % 2) (y % 2) + 2 * bit_or (x / 2) (y / 2)
bit_or_step (suc x) y = simp bit_or-bitwise (omega (arith, lowest_digit (λ d. d) max x y))
bit_or_step zero y = simp bit_or-bitwise (omega arith)

pub bit_or-zero : (a : ℕ) → bit_or a 0 ≡ a
bit_or-zero a = induction lt_wf {C = λ n. bit_or n 0 ≡ n} a λ n ih. elim (dec_lt 0 n) [
  | yes pos ↦ omega (arith, bit_or_step n 0, ih (n / 2) (omega arith))
  | no z ↦ let e : n ≡ 0 = omega arith in rw e
]

pub bit_and-zero : (a : ℕ) → bit_and a 0 ≡ 0
bit_and-zero a = induction lt_wf {C = λ n. bit_and n 0 ≡ 0} a λ n ih. elim (dec_lt 0 n) [
  | yes pos ↦ omega (arith, bit_and_step n 0, ih (n / 2) (omega arith))
  | no z ↦ let e : n ≡ 0 = omega arith in rw e
]

pub zero-bit_or : (a : ℕ) → bit_or 0 a ≡ a
zero-bit_or a = simp bit_or-bitwise

pub zero-bit_and : (b : ℕ) → bit_and 0 b ≡ 0
zero-bit_and b = simp bit_and-bitwise

double_field : (k q : ℕ) → 2 * (q * 2 ^ k) ≡ q * 2 ^ suc k
double_field k q = omega (arith, ap (λ (w : ℕ). w * q) (pow-suc 2 k))

-- The low `k` bits and the bits above them do not meet.
pub bit_and_split :
    (k a b x y : ℕ)
    → x < 2 ^ k
    → y < 2 ^ k
    → bit_and (a * 2 ^ k + x) (b * 2 ^ k + y) ≡ bit_and a b * 2 ^ k + bit_and x y
bit_and_split zero a b x y p q = ground (arith, zero-bit_and y)
bit_and_split (suc k) a b x y p q = ground (
  arith,
  bit_and_step (a * 2 ^ suc k + x) (b * 2 ^ suc k + y),
  bit_and_step x y,
  double_field k a,
  double_field k b,
  double_field k (bit_and a b),
  bit_and_split k a b (x / 2) (y / 2),
)

pub bit_or_split :
    (k a b x y : ℕ)
    → x < 2 ^ k
    → y < 2 ^ k
    → bit_or (a * 2 ^ k + x) (b * 2 ^ k + y) ≡ bit_or a b * 2 ^ k + bit_or x y
bit_or_split zero a b x y p q = ground (arith, zero-bit_or y)
bit_or_split (suc k) a b x y p q = ground (
  arith,
  bit_or_step (a * 2 ^ suc k + x) (b * 2 ^ suc k + y),
  bit_or_step x y,
  double_field k a,
  double_field k b,
  double_field k (bit_or a b),
  bit_or_split k a b (x / 2) (y / 2),
)

-- A mask of `k` ones keeps what fits `k` bits, on either side.
pub bit_and-ones : (k x : ℕ) → x < 2 ^ k → bit_and x (2 ^ k - 1) ≡ x
bit_and-ones zero x h = let e : x ≡ 0 = omega arith in rw e
bit_and-ones (suc k) x h =
    ground
      (arith, bit_and_step x (2 ^ suc k - 1), pow-suc 2 k, one-le-pow k 2, bit_and-ones k (x / 2))

pub bit_and_mask : (k a : ℕ) → bit_and a (2 ^ k - 1) ≡ a % 2 ^ k
bit_and_mask k a = ground (
  arith,
  one-le-pow k 2,
  bit_and_split k (a / 2 ^ k) 0 (a % 2 ^ k) (2 ^ k - 1),
  bit_and-zero (a / 2 ^ k),
  bit_and-ones k (a % 2 ^ k),
)

-- Clearing the low `k` bits of a word of `k + j` bits.
pub bit_and_clear :
    (j k a : ℕ) → a < 2 ^ j * 2 ^ k → bit_and a ((2 ^ j - 1) * 2 ^ k) ≡ a / 2 ^ k * 2 ^ k
bit_and_clear j k a h =
    let pos : 0 < 2 ^ k = one-le-pow k 2 (omega arith) in
    let high : a / 2 ^ k < 2 ^ j = (div-lt_iff_lt-mul pos).1 h in
    let whole : a / 2 ^ k * 2 ^ k + a % 2 ^ k ≡ a = omega arith in
    let split = bit_and_split k (a / 2 ^ k) (2 ^ j - 1) (a % 2 ^ k) 0 (omega arith) pos in
    ground (arith, split, whole, bit_and-zero (a % 2 ^ k), bit_and-ones j (a / 2 ^ k) high)

-- `|` of fields that do not overlap is a sum.
pub bit_or_fields : (k q r : ℕ) → r < 2 ^ k → bit_or (q * 2 ^ k) r ≡ q * 2 ^ k + r
bit_or_fields k q r h =
    ground (arith, one-le-pow k 2, bit_or_split k q 0 0 r, bit_or-zero q, zero-bit_or r)

-- One flag of a word: reading it, clearing it in a word of `k + 1 + j` bits, and setting it above
-- the bits of a smaller number.
pub bit_and_flag : (k w : ℕ) → bit_and w (2 ^ k) ≡ w / 2 ^ k % 2 * 2 ^ k
bit_and_flag k w =
    let pos = one-le-pow k 2 (omega arith) in
    ground (
      arith,
      bit_and_split k (w / 2 ^ k) 1 (w % 2 ^ k) 0,
      bit_and-zero (w % 2 ^ k),
      bit_and_mask 1 (w / 2 ^ k),
      pos,
    )

pub bit_or_flag : (k r : ℕ) → r < 2 ^ k → bit_or r (2 ^ k) ≡ 2 ^ k + r
bit_or_flag k r h =
    let pos = one-le-pow k 2 (omega arith) in
    ground (arith, bit_or_split k 0 1 r 0, bit_or-zero r, zero-bit_or 1, pos)
