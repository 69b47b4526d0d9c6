-- ===== src/DestroyManager/Room.antt =====
-- The counter of the destroying threads counts them, and stays within the number of processors.
use native.Mathlib.Decide.{dec_lt}
use yakushima.Common.{ℕ, zero, suc, ◌+◌, ◌≤◌, ◌<◌, ◌≡◌, refl, sym, ap, ◌^◌, update, arith}
use yakushima.DestroyManager.{
  Thread, outside, expecting, in_room, Rooms, check_room_round, return_room, Step, calls,
  goes_round, returns, Reachable, start, then_step,
}

abbrev pub one : Thread → ℕ
one outside = 0
one (expecting e) = 0
one in_room = 1

-- How many of `n` threads have a room.
unfoldable pub occupied : ℕ → (ℕ → Thread) → ℕ
occupied zero f = 0
occupied (suc n) f = one (f n) + occupied n f

occupied-outside : (n : ℕ) → occupied n (λ i. outside) ≡ 0
unfolding occupied
occupied-outside zero = refl
occupied-outside (suc n) = ground (arith, occupied-outside n)

occupied-same :
    (n i : ℕ) (f : ℕ → Thread) (x : Thread) → n ≤ i → occupied n (update f i x) ≡ occupied n f
unfolding occupied
occupied-same zero i f x h = refl
occupied-same (suc n) i f x h =
    let rest = occupied-same n i f x (omega arith) in ground (arith, rest)

occupied-update :
    (n i : ℕ) (f : ℕ → Thread) (x : Thread)
    → i < n
    → one (f i) + occupied n (update f i x) ≡ one x + occupied n f
unfolding occupied
occupied-update zero i f x h = absurd (omega arith)
occupied-update (suc n) i f x h = elim (dec_lt i n) [
  | no late ↦
      let last : i ≡ n = omega (arith, late) in
      let rest = occupied-same n i f x (omega arith) in
      let here = ap (λ j. one (f j)) last in ground (arith, rest, here, last)
  | yes before ↦ let rest = occupied-update n i f x (omega arith) in ground (arith, rest, before)
]

-- The counter is the number of the threads with a room.
pub record Counts (hardware_concurrency n : ℕ) (r : Rooms) : Type 0 where
  pub exact : r.destroy_threads_num ≡ occupied n r.threads
  pub bounded : r.destroy_threads_num ≤ hardware_concurrency

module _ {hardware_concurrency n : ℕ} where
  Step-Counts :
      {r s : Rooms}
      → hardware_concurrency < 2 ^ 64
      → Counts hardware_concurrency n r
      → Step hardware_concurrency n r s
      → Counts hardware_concurrency n s
  unfolding check_room_round return_room
  Step-Counts {r} small c (calls i h e) =
      let moved = occupied-update n i r.threads (expecting r.destroy_threads_num) h in
      record { exact = ground (arith, moved, e, c.exact); bounded = c.bounded }
  Step-Counts {r} small c (goes_round i x lucky h e) =
      let round = check_room_round hardware_concurrency lucky r.destroy_threads_num x in
      let moved = occupied-update n i r.threads round.1 h in
      record {
        exact = ground (arith, moved, e, c.exact, c.bounded);
        bounded = ground (arith, c.bounded);
      }
  Step-Counts {r} small c (returns i h e) =
      let moved = occupied-update n i r.threads outside h in
      record {
        exact = ground (arith, moved, e, c.exact, c.bounded, small);
        bounded = ground (arith, moved, e, c.exact, c.bounded, small);
      }

  -- In whatever order the threads run, the counter is the number of the threads that have taken a
  -- room and not returned it, and never exceeds the number of processors, which fits in
  -- 64 bits: no exchange of `check_room` goes past the limit, and no `return_room` goes below 0.
  pub Reachable-Counts :
      {r : Rooms}
      → hardware_concurrency < 2 ^ 64
      → Reachable hardware_concurrency n r
      → Counts hardware_concurrency n r
  Reachable-Counts small start = record { exact = sym (occupied-outside n); bounded = omega arith }
  Reachable-Counts small (then_step before step) =
      Step-Counts small (Reachable-Counts small before) step
