-- ===== src/DestroyManager.antt =====
-- include/destroy_manager.h: the counter of the threads that destroy trees. The number that
-- `std::thread::hardware_concurrency` returns is an argument.
pub mod Room
use yakushima.Common.{
  ℕ, ◌+◌, Bool, true, false, Option, none, some, ◌==◌, ◌<◌, ◌≡◌, update, leb, if◌then◌else◌, sub64,
}

-- Where a thread stands: outside of both functions, in `check_room` with what it expects, or with
-- a room that it has taken.
pub data Thread : Type 0 where
  outside : Thread
  expecting : ℕ → Thread
  in_room : Thread

-- `destroy_threads_num_` and the threads.
pub record Rooms : Type 0 where
  pub destroy_threads_num : ℕ
  pub threads : ℕ → Thread

-- A round of the loop of `check_room`; the exchange can fail on its own, and reloads in any case.
abbrev pub Round : Type 0
Round = ℕ × Thread × Option Bool

unfoldable pub check_room_round : ℕ → Bool → ℕ → ℕ → Round
check_room_round hardware_concurrency lucky num expected =
    if leb hardware_concurrency expected
    then (num, outside, some false)
    else if num == expected
    then (if lucky then (expected + 1, in_room, some true) else (num, expecting num, none))
    else (num, expecting num, none)

-- `destroy_threads_num_ -= 1`
unfoldable pub return_room : ℕ → ℕ
return_room num = sub64 num 1

abbrev pub finished : Rooms → ℕ → Round → Rooms
finished r i round = record { destroy_threads_num = round.0; threads = update r.threads i round.1 }

-- A step of one of `n` threads: it calls `check_room`, it goes round the loop there, or it calls
-- `return_room` for the room that it has.
pub data Step (hardware_concurrency n : ℕ) (r : Rooms) : Rooms → Type 0 where
  calls :
      (i : ℕ)
      → i < n
      → r.threads i ≡ outside
      → Step hardware_concurrency n r
          (record r { threads = update r.threads i (expecting r.destroy_threads_num) })
  goes_round :
      (i expected : ℕ) (lucky : Bool)
      → i < n
      → r.threads i ≡ expecting expected
      → Step hardware_concurrency n r (
          finished r i (check_room_round hardware_concurrency lucky r.destroy_threads_num expected))
  returns :
      (i : ℕ)
      → i < n
      → r.threads i ≡ in_room
      → Step hardware_concurrency n r (record {
        destroy_threads_num = return_room r.destroy_threads_num;
        threads = update r.threads i outside;
      })

pub data Reachable (hardware_concurrency n : ℕ) : Rooms → Type 0 where
  start :
      Reachable hardware_concurrency n (record { destroy_threads_num = 0; threads = λ i. outside })
  then_step :
      {r s : Rooms}
      → Reachable hardware_concurrency n r
      → Step hardware_concurrency n r s
      → Reachable hardware_concurrency n s
