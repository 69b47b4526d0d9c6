-- ===== src/Epoch/Reclaim.antt =====
-- include/thread_info_table.h and include/manager_thread.h as one system of steps, each of which
-- reads or writes one shared word: sessions that come and go, and the epoch thread.
use yakushima.Common.{
  ℕ, ◌+◌, ◌<◌, ◌≡◌, ◌≢◌, ◌⊎◌, Bool, false, some, update, if◌then◌else◌, ◌==◌, sub64,
}
use yakushima.Epoch.{
  ThreadInfo, Table, first_epoch, epoch_inc, init_table, gain_the_right, max_epoch, smaller,
}

-- Where the epoch thread stands: asleep, in the loop that compares the sessions with `cur_epoch`, or
-- in the loop that takes the smallest epoch, at a session in both.
pub data EpochThread : Type 0 where
  asleep : EpochThread
  verifying : ℕ → ℕ → EpochThread
  taking_min : ℕ → ℕ → EpochThread

-- Where the caller of a session stands: in `assign_thread_info` before or behind the load of the
-- epoch, with the session in use, or in `leave_thread_info` between its two stores.
pub data Caller : Type 0 where
  idle : Caller
  gained : Caller
  loaded : ℕ → Caller
  inside : Caller
  leaving : Caller

-- The shared words, the callers of the sessions, and the epoch thread.
pub record System : Type 0 where
  pub epoch : ℕ
  pub gc_epoch : ℕ
  pub table : Table
  pub caller : ℕ → Caller
  pub thread : EpochThread

abbrev pub start : System
start = record {
  epoch = first_epoch;
  gc_epoch = 0;
  table = init_table;
  caller = λ _. idle;
  thread = asleep;
}

abbrev pub set_begin_epoch : Table → ℕ → ℕ → Table
set_begin_epoch table i epoch = update table i (record (table i) { begin_epoch = epoch })

abbrev pub set_running : Table → ℕ → Bool → Table
set_running table i running = update table i (record (table i) { running = running })

-- What the loop makes of an epoch of a session; 0 is none.
abbrev pub next_min : ℕ → ℕ → ℕ
next_min itr_epoch min_epoch = if itr_epoch == 0 then min_epoch else smaller min_epoch itr_epoch

-- What is handed to `set_gc_epoch`, with the epoch loaded again if there is no session.
abbrev pub gc_epoch_from : ℕ → ℕ → ℕ
gc_epoch_from min_epoch epoch = if min_epoch == max_epoch then sub64 epoch 1 else sub64 min_epoch 1

-- The steps with so many sessions. A session is taken (`gain_the_right`), loads the epoch, publishes
-- what it has loaded, and leaves by two stores. The epoch thread looks at one session in a step and
-- starts its loop again where one has another epoch; it does not leave the loop for the end of the
-- program. The epoch does not wrap.
pub data Step (sessions : ℕ) : System → System → Type 0 where
  gain :
      (s : System) (i : ℕ) (t : ThreadInfo)
      → i < sessions
      → gain_the_right (s.table i) ≡ some t
      → Step sessions s (record s { table = update s.table i t; caller = update s.caller i gained })
  load_epoch :
      (s : System) (i : ℕ)
      → i < sessions
      → s.caller i ≡ gained
      → Step sessions s (record s { caller = update s.caller i (loaded s.epoch) })
  publish :
      (s : System) (i epoch : ℕ)
      → i < sessions
      → s.caller i ≡ loaded epoch
      → Step sessions s
          (record s { table = set_begin_epoch s.table i epoch; caller = update s.caller i inside })
  withdraw :
      (s : System) (i : ℕ)
      → i < sessions
      → s.caller i ≡ inside
      → Step sessions s
          (record s { table = set_begin_epoch s.table i 0; caller = update s.caller i leaving })
  stop_running :
      (s : System) (i : ℕ)
      → i < sessions
      → s.caller i ≡ leaving
      → Step sessions s
          (record s { table = set_running s.table i false; caller = update s.caller i idle })
  load_current :
      (s : System) → s.thread ≡ asleep → Step sessions s (record s { thread = verifying s.epoch 0 })
  verify :
      (s : System) (cur_epoch i : ℕ)
      → s.thread ≡ verifying cur_epoch i
      → i < sessions
      → ((s.table i).begin_epoch ≡ 0) ⊎ ((s.table i).begin_epoch ≡ cur_epoch)
      → Step sessions s (record s { thread = verifying cur_epoch (i + 1) })
  wait :
      (s : System) (cur_epoch i : ℕ)
      → s.thread ≡ verifying cur_epoch i
      → i < sessions
      → (s.table i).begin_epoch ≢ 0
      → (s.table i).begin_epoch ≢ cur_epoch
      → Step sessions s (record s { thread = asleep })
  advance :
      (s : System) (cur_epoch : ℕ)
      → s.thread ≡ verifying cur_epoch sessions
      → s.epoch + 1 < max_epoch
      → Step sessions s (record s { epoch = epoch_inc s.epoch; thread = taking_min max_epoch 0 })
  take_min :
      (s : System) (min_epoch i : ℕ)
      → s.thread ≡ taking_min min_epoch i
      → i < sessions
      → Step sessions s
          (record s { thread = taking_min (next_min (s.table i).begin_epoch min_epoch) (i + 1) })
  set_gc_epoch :
      (s : System) (min_epoch : ℕ)
      → s.thread ≡ taking_min min_epoch sessions
      → Step sessions s (record s { gc_epoch = gc_epoch_from min_epoch s.epoch; thread = asleep })

pub data Steps (sessions : ℕ) : System → System → Type 0 where
  done : (s : System) → Steps sessions s s
  more : (s t u : System) → Steps sessions s t → Step sessions t u → Steps sessions s u

-- Steps during which a session stays in use.
pub data Held (sessions i : ℕ) : System → System → Type 0 where
  held_here : (s : System) → s.caller i ≡ inside → Held sessions i s s
  held_on :
      (s t u : System)
      → Held sessions i s t
      → Step sessions t u
      → u.caller i ≡ inside
      → Held sessions i s u
