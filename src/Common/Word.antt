-- ===== src/Common/Word.antt =====
-- Unsigned 64-bit words: `std::uint64_t`, `std::size_t` and `uintptr_t`.
use Prim.Native.Nat.{ℕ, zero, suc, ◌+◌, ◌-◌, ◌*◌, ◌/◌, ◌%◌, ◌^◌, ◌≤◌, ◌<◌}
use mathlib.Core.Path.{◌≡◌, ap, ◌∙◌}
use mathlib.Core.Option.{Option, none, some}
use native.Mathlib.Nat.{pow-suc, one-le-pow, mul-div_cancel, mul-div-mul_right, div-add-mod}
use native.Mathlib.Omega.{arith}
use yakushima.Common.Tests.{ltb, if◌then◌else◌, lt→ltb}

abbrev pub add64 : ℕ → ℕ → ℕ
add64 a b = (a + b) % 2 ^ 64

abbrev pub sub64 : ℕ → ℕ → ℕ
sub64 a b = (a + 2 ^ 64 - b) % 2 ^ 64

abbrev pub mul64 : ℕ → ℕ → ℕ
mul64 a b = (a * b) % 2 ^ 64

-- `~m`
abbrev pub complement : ℕ → ℕ
complement m = 2 ^ 64 - 1 - m

-- `x << k` and `x >> k`; a shift by the width or more is undefined.
unfoldable pub shl : ℕ → ℕ → Option ℕ
shl x k = if ltb k 64 then some (x * 2 ^ k % 2 ^ 64) else none

unfoldable pub shr : ℕ → ℕ → Option ℕ
shr x k = if ltb k 64 then some (x / 2 ^ k) else none

pub pow-add : (n m : ℕ) → 2 ^ (n + m) ≡ 2 ^ n * 2 ^ m
pow-add zero m = ground arith
pow-add (suc n) m =
    let shift : 2 ^ (suc n + m) ≡ 2 ^ suc (n + m) =
      ap (λ (j : ℕ). 2 ^ j) {x = suc n + m} (omega arith) in
    let two : 2 ^ suc n * 2 ^ m ≡ 2 * (2 ^ n * 2 ^ m) =
      omega (arith, ap (λ (j : ℕ). j * 2 ^ m) (pow-suc 2 n)) in
    omega (arith, shift, two, pow-suc 2 (n + m), pow-add n m)

-- A shift that loses no bit is a product.
pub shl-mul : (x k : ℕ) → k < 64 → x * 2 ^ k < 2 ^ 64 → shl x k ≡ some (x * 2 ^ k)
unfolding shl
shl-mul x k h fits = ground (arith, lt→ltb k 64)

pub shr-div : (x k : ℕ) → k < 64 → shr x k ≡ some (x / 2 ^ k)
unfolding shr
shr-div x k h = ground (arith, lt→ltb k 64)

-- Shifting to the left and back keeps the low bits.
mul-mod-mul : (w a c : ℕ) → 0 < a → 0 < c → w * a % (c * a) / a ≡ w % c
mul-mod-mul w a c p q =
    let same : w * a / (c * a) ≡ w / c = mul-div-mul_right w c p in
    let scaled : c * a * (w / c) + w * a % (c * a) ≡ w * a =
      rw same at (div-add-mod (w * a) (c * a)) in
    let left : w * a % (c * a) ≡ w % c * a =
      omega (arith, scaled, ap (λ (j : ℕ). j * a) (div-add-mod w c)) in
    rw left (mul-div_cancel (w % c) p)

pub shl-shr : (w k : ℕ) → k ≤ 64 → w * 2 ^ k % 2 ^ 64 / 2 ^ k ≡ w % 2 ^ (64 - k)
shl-shr w k h =
    let e : 2 ^ 64 ≡ 2 ^ (64 - k) * 2 ^ k =
      ap (λ (j : ℕ). 2 ^ j) {x = 64} (omega arith) ∙ pow-add (64 - k) k in
    let pos : 0 < 2 ^ k = one-le-pow k 2 (omega arith) in
    let pos' : 0 < 2 ^ (64 - k) = one-le-pow (64 - k) 2 (omega arith) in
    ap (λ (j : ℕ). w * 2 ^ k % j / 2 ^ k) e ∙ mul-mod-mul w (2 ^ k) (2 ^ (64 - k)) pos pos'
