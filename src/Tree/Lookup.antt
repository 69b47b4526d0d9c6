-- ===== src/Tree/Lookup.antt =====
-- `get` on a tree that nobody changes finds what the tree stores.
use yakushima.Common.{
  ℕ, zero, suc, ◌+◌, ◌*◌, ◌≤◌, ◌≡◌, refl, ap, false, Option, some, ◌==◌, arith, some_inj,
}
use yakushima.Key.{Bytes}
use yakushima.BaseNode.{Ptr}
use yakushima.Tree.{World}
use yakushima.Tree.Descent.{still}
use yakushima.Tree.Get.{Found, get_find_border, get_step, get_from, get}
use yakushima.Tree.Layers.{
  Stores, absent, ends, goes_on, answer, find_step-Layer, fetch_step-absent, fetch_step-slot,
  value_step, below_step,
}

get_from-Stores :
    (jumps : ℕ) {w : World} {most layers : ℕ} {root : Ptr} {key : Bytes} {o : Option ℕ} {f : Found}
    (fuel t : ℕ) (whole : Bytes)
    → most ≤ fuel
    → 2 * layers + 3 ≤ jumps
    → Stores w most layers root key o
    → answer w.memory o ≡ some f
    → (t' : ℕ) × (get_from jumps (suc (suc (suc fuel))) (still w) whole (get_find_border root key) t
        ≡ some (f, t'))
unfolding get_from
get_from-Stores zero fuel t whole enough many s a = absurd (omega arith)
get_from-Stores (suc zero) fuel t whole enough many s a = absurd (omega arith)
get_from-Stores (suc (suc zero)) fuel t whole enough many s a = absurd (omega arith)
get_from-Stores (suc (suc (suc jumps))) {w} {most} fuel t whole enough many (absent root key l e)
      a =
    let (v, t', step, at_b, live) = find_step-Layer w most l fuel t whole enough in
    (
      t' + 1 + 1 + 1,
      simp (get_from, step, fetch_step-absent w most l (suc fuel) t' whole v at_b live e)
          (ap (λ g. some (g, t' + 1 + 1 + 1)) (some_inj a)),
    )
get_from-Stores (suc (suc (suc jumps))) {w} {most} fuel t whole enough many
      (ends root key l q e short) a =
    let (v, t', step, at_b, live) = find_step-Layer w most l fuel t whole enough in
    (
      t' + 1 + 1 + 1 + 1 + 1,
      simp
          (
            get_from,
            step,
            fetch_step-slot w most l (suc fuel) t' whole v at_b live q e,
            value_step w most l (suc fuel) (t' + 1 + 1 + 1) whole v at_b live q e short a,
          )
          refl,
    )
get_from-Stores (suc (suc (suc jumps))) {w} {most} fuel t whole enough many
      (goes_on root key l q layers o e long rest) a =
    let (v, t', step, at_b, live) = find_step-Layer w most l fuel t whole enough in
    let (t'', below) =
      get_from-Stores (suc jumps) fuel (t' + 1 + 1 + 1 + 1 + 1) whole enough (omega arith) rest a in
    (
      t'',
      simp
          (
            get_from,
            step,
            fetch_step-slot w most l (suc fuel) t' whole v at_b live q e,
            below_step w most l (suc fuel) (t' + 1 + 1 + 1) whole v at_b live q e long,
          )
          below,
    )

-- On a tree that nobody changes, `get` returns what the tree stores for the key: the value of the
-- word that the border node of the last layer holds for it, or `warn_not_exist` where that node
-- holds no such key. Two jumps for each layer below the first and four more are enough, and as much fuel for each
-- descent and wait as a layer has turns, and three more.
pub get-Stores :
    {w : World} {most layers : ℕ} {key : Bytes} {o : Option ℕ} {f : Found} (jumps fuel t : ℕ)
    → (w.root == 0) ≡ false
    → Stores w most layers w.root key o
    → answer w.memory o ≡ some f
    → most ≤ fuel
    → 2 * layers + 3 ≤ jumps
    → (t' : ℕ) × (get (suc jumps) (suc (suc (suc fuel))) (still w) key t ≡ some (f, t'))
unfolding get get_from get_step
get-Stores {w} {key = key} jumps fuel t there s a enough many =
    let (t', e) = get_from-Stores jumps fuel (t + 1) key enough many s a in
    (t', simp (get_from, there) e)
