-- ===== src/Epoch.antt =====
-- include/epoch.h, include/thread_info.h, include/thread_info_table.h, include/manager_thread.h:
-- the global epoch, the table of the sessions, and the thread that moves both epochs on.
pub mod Sessions
pub mod Reclaim
pub mod Invariant
pub mod Safety
pub mod Stale
use yakushima.Common.{
  ℕ, zero, suc, ◌+◌, ◌-◌, ◌%◌, ◌^◌, Bool, true, false, not, ◌&&◌, ◌||◌, Option, none, some, ◌==◌,
  ltb, if◌then◌else◌, Array, update, add64, sub64,
}
use yakushima.Scheme.{Status}

-- `thread_info` without its garbage collector; 0 stands for no epoch.
pub record ThreadInfo : Type 0 where
  pub begin_epoch : ℕ
  pub running : Bool

abbrev pub Table : Type 0
Table = Array ThreadInfo

-- The first value of `epoch_`.
abbrev pub first_epoch : ℕ
first_epoch = 1

-- `fetch_add(1)`
unfoldable pub epoch_inc : ℕ → ℕ
epoch_inc epoch = add64 epoch 1

-- `thread_info_table::init`
abbrev pub init_table : Table
init_table i = record { begin_epoch = 0; running = false }

-- `gain_the_right`, as one exchange: what it leaves, or nothing where the session is taken.
unfoldable pub gain_the_right : ThreadInfo → Option ThreadInfo
gain_the_right t = if t.running then none else some (record t { running = true })

-- The loop of `assign_thread_info` at `i`, with the sessions that are left.
unfoldable pub assign_from : ℕ → Table → ℕ → ℕ → Option (ℕ × Table)
assign_from zero table epoch i = none
assign_from (suc left) table epoch i =
    let rest = assign_from left table epoch (i + 1) in
    elim (gain_the_right (table i)) [
      | none ↦ rest
      | some t ↦ some (i, update table i (record t { begin_epoch = epoch }))
    ]

-- The token of the session and the table; nothing for `WARN_MAX_SESSIONS`.
unfoldable pub assign_thread_info : ℕ → Table → ℕ → Option (ℕ × Table)
assign_thread_info sessions table epoch = assign_from sessions table epoch 0

abbrev pub assign_status : Option (ℕ × Table) → Status
assign_status none = Status.warn_max_sessions
assign_status (some r) = Status.ok

unfoldable pub leave_thread_info : Table → ℕ → Table
leave_thread_info table token = update table token (record { begin_epoch = 0; running = false })

-- The loop of `epoch_thread` that compares the sessions with the current epoch.
unfoldable pub verify_from : ℕ → Table → ℕ → ℕ → Bool
verify_from zero table cur_epoch i = true
verify_from (suc left) table cur_epoch i =
    let rest = verify_from left table cur_epoch (i + 1) in
    let check_epoch = (table i).begin_epoch in
    if not (check_epoch == 0) && not (check_epoch == cur_epoch) then false else rest

abbrev pub max_epoch : ℕ
max_epoch = 2 ^ 64 - 1

abbrev pub smaller : ℕ → ℕ → ℕ
smaller a b = if ltb b a then b else a

-- Its loop for the oldest session.
unfoldable pub min_epoch_from : ℕ → Table → ℕ → ℕ → ℕ
min_epoch_from zero table i min_epoch = min_epoch
min_epoch_from (suc left) table i min_epoch =
    let itr_epoch = (table i).begin_epoch in
    min_epoch_from left table (i + 1)
      (if itr_epoch == 0 then min_epoch else smaller min_epoch itr_epoch)

-- The epoch that it hands to `set_gc_epoch`.
unfoldable pub next_gc_epoch : ℕ → Table → ℕ → ℕ
next_gc_epoch sessions table epoch =
    let min_epoch = min_epoch_from sessions table 0 max_epoch in
    if min_epoch == max_epoch then sub64 epoch 1 else sub64 min_epoch 1
