-- ===== src/Version/Protocol.antt =====
-- Threads that share one `node_version64`, interleaved in any order, one access of the word at a
-- time: `lock`, the updates of a lock holder, `unlock`, and the one update that is made without
-- the lock (`atomic_set_version_root` on a sibling, in include/interior_node.h).
use yakushima.Common.{ℕ, ◌+◌, ◌<◌, ◌≡◌, Bool, true, false, update}
use yakushima.Version.{
  VersionBody, set_border, set_deleted, set_inserting_deleting, set_locked, set_root, set_splitting,
  released, bit,
}

-- An update that the holder of the lock makes.
pub data Op : Type 0 where
  inserting splitting : Op
  deleted root border : Bool → Op

abbrev pub apply : Op → VersionBody → VersionBody
apply inserting = set_inserting_deleting true
apply splitting = set_splitting true
apply (deleted tf) = set_deleted tf
apply (root tf) = set_root tf
apply (border tf) = set_border tf

-- Where a thread stands, with its `expected` where it is about to exchange.
pub data Pc : Type 0 where
  idle : Pc
  spin : Pc  -- in `lock`, before its load
  trying : (expected : VersionBody) → Pc
  holding : Pc
  updating : (op : Op) (expected : VersionBody) → Pc
  leaving : (expected : VersionBody) → Pc  -- in `unlock`
  rooting : (tf : Bool) (expected : VersionBody) → Pc  -- without the lock

-- One access of the word `m`. An exchange may fail where it could succeed: it is the weak one.
pub data Move (m : VersionBody) : Pc → VersionBody → Pc → Type 0 where
  call_lock : Move m idle m spin
  see_locked : m.locked ≡ true → Move m spin m spin
  see_free : m.locked ≡ false → Move m spin m (trying m)
  lock_win : {e : VersionBody} → m ≡ e → Move m (trying e) (set_locked true e) holding
  lock_lose : {e : VersionBody} → Move m (trying e) m spin
  call_update : (op : Op) → Move m holding m (updating op m)
  update_win : {op : Op} {e : VersionBody} → m ≡ e → Move m (updating op e) (apply op e) holding
  update_lose : {op : Op} {e : VersionBody} → Move m (updating op e) m (updating op m)
  call_unlock : Move m holding m (leaving m)
  unlock_win : {e : VersionBody} → m ≡ e → Move m (leaving e) (released e) idle
  unlock_lose : {e : VersionBody} → Move m (leaving e) m (leaving m)
  call_root : (tf : Bool) → Move m idle m (rooting tf m)
  root_win : {tf : Bool} {e : VersionBody} → m ≡ e → Move m (rooting tf e) (set_root tf e) idle
  root_lose : {tf : Bool} {e : VersionBody} → Move m (rooting tf e) m (rooting tf m)

-- The sections that a move completes: those whose mark a release takes away.
abbrev pub inserts_ended : {m m' : VersionBody} {p p' : Pc} → Move m p m' p' → ℕ
inserts_ended (unlock_win {e} h) = bit e.inserting_deleting
inserts_ended _ = 0

abbrev pub splits_ended : {m m' : VersionBody} {p p' : Pc} → Move m p m' p' → ℕ
splits_ended (unlock_win {e} h) = bit e.splitting
splits_ended _ = 0

-- The word, the threads, and how many marked sections have been completed so far.
pub record System : Type 0 where
  pub body : VersionBody
  pub pc : ℕ → Pc
  pub inserts : ℕ
  pub splits : ℕ

-- A move of one of the `n` threads.
pub data Step (n : ℕ) (s : System) : System → Type 0 where
  pick :
      (i : ℕ) {m : VersionBody} {p : Pc}
      → i < n
      → (mv : Move s.body (s.pc i) m p)
      → Step n s (record {
        body = m;
        pc = update s.pc i p;
        inserts = s.inserts + inserts_ended mv;
        splits = s.splits + splits_ended mv;
      })

pub data Steps (n : ℕ) (s : System) : System → Type 0 where
  here : Steps n s s
  next : {t u : System} → Steps n s t → Step n t u → Steps n s u

-- Every thread is outside, on a word that is not locked.
abbrev pub start : VersionBody → System
start v = record { body = v; pc = λ _. idle; inserts = 0; splits = 0 }

-- Between the return of `lock` and the exchange of `unlock`.
abbrev pub critical : Pc → Bool
critical holding = true
critical (updating op e) = true
critical (leaving e) = true
critical _ = false
