-- ===== src/Common/Fault.antt =====
-- Computations that may fault: `none` stands for undefined behaviour of C++ (a shift by the
-- width or more, a read through a dangling pointer) and for the exception of `at` out of range.
use Prim.Native.Nat.{ℕ}
use mathlib.Core.Path.{◌≡◌, refl}
use mathlib.Core.Option.{Option, none, some}
use native.Mathlib.Omega.{arith}
use yakushima.Common.Tests.{ltb, some_inj, ◌==◌, if◌then◌else◌}

infixl 5 ◌>>=◌ ◌>>◌
abbrev pub ◌>>=◌ {ℓ κ} : {A : Type ℓ} {B : Type κ} → Option A → (A → Option B) → Option B
none >>= f = none
some a >>= f = f a

abbrev pub ◌>>◌ {ℓ} : {B : Type ℓ} → Option (Unit {0}) → Option B → Option B
m >> k = m >>= λ _. k

-- A result that comes of a computation that may fault.
pub bind-some {ℓ κ} :
    {A : Type ℓ} {B : Type κ} (x : Option A) (f : A → B) {y : B}
    → (x >>= λ a. some (f a)) ≡ some y
    → (a : A) × (x ≡ some a) × (f a ≡ y)
bind-some none f e = absurd (ground arith)
bind-some (some a) f e = (a, refl, some_inj e)

-- `f` at `i` set to `a`.
abbrev pub update {ℓ} : {A : Type ℓ} → (ℕ → A) → ℕ → A → ℕ → A
update f i a j = if j == i then a else f j

-- A `std::array` of a fixed size is a function that is read below the size only.
abbrev pub Array {ℓ} : Type ℓ → Type ℓ
Array A = ℕ → A

-- `at`: an index out of range throws.
abbrev pub at {ℓ} : {A : Type ℓ} → (size : ℕ) → Array A → ℕ → Option A
at size f i = if ltb i size then some (f i) else none

abbrev pub set_at {ℓ} : {A : Type ℓ} → (size : ℕ) → Array A → ℕ → A → Option (Array A)
set_at size f i a = if ltb i size then some (update f i a) else none
