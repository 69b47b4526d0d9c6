-- ===== src/Epoch/Safety.antt =====
-- What the epoch thread keeps to, whatever the sessions do between its reads.
use yakushima.Common.{
  ℕ, Bool, ◌+◌, ◌%◌, ◌^◌, ◌≤◌, ◌<◌, ◌≡◌, ◌≢◌, refl, sym, subst, ap, ◌∙◌, inl, inr, true, false,
  Bool-cases, update, arith, ◌==◌,
}
use yakushima.Epoch.{ThreadInfo, Table, epoch_inc}
use yakushima.Epoch.Invariant.{
  CallerOk, ThreadOk, IsOk, same_index, IsOk-step, IsOk-start, Steps-IsOk,
}
use yakushima.Epoch.Reclaim.{
  EpochThread, asleep, verifying, taking_min, Caller, idle, gained, loaded, inside, leaving, System,
  start, Step, gain, load_epoch, publish, withdraw, stop_running, load_current, verify, wait,
  advance, take_min, set_gc_epoch, Steps, Held, held_here, held_on,
}

-- A session that stays in use keeps its epoch.
is_inside : Caller → Bool
is_inside inside = true
is_inside _ = false

begin-update :
    (table : Table) (caller : ℕ → Caller) (i k : ℕ) (c : Caller) (t : ThreadInfo)
    → is_inside c ≡ false
    → update caller k c i ≡ inside
    → (update table k t i).begin_epoch ≡ (table i).begin_epoch
unfolding is_inside
begin-update table caller i k c t out stays = elim (Bool-cases (i == k)) [
  | inl e ↦
      let other : c ≡ inside = rw (e) at stays in absurd (ground (arith, out, ap is_inside other))
  | inr e ↦ rw (e) refl
]

begin-step :
    {sessions i : ℕ} {s u : System}
    → Step sessions s u
    → s.caller i ≡ inside
    → u.caller i ≡ inside
    → (u.table i).begin_epoch ≡ (s.table i).begin_epoch
unfolding is_inside
begin-step {i = i} (gain s k t lt e) from to = begin-update s.table s.caller i k gained t refl to
begin-step (load_epoch s k lt at_k) from to = refl
begin-step {i = i} (publish s k epoch lt at_k) from to = elim (Bool-cases (i == k)) [
  | inl e ↦
      let both : inside ≡ loaded epoch = sym from ∙ ap s.caller (same_index i k e) ∙ at_k in
      absurd (ground (arith, ap is_inside both))
  | inr e ↦ rw (e) refl
]
begin-step {i = i} (withdraw s k lt at_k) from to =
    begin-update s.table s.caller i k leaving (record (s.table k) { begin_epoch = 0 }) refl to
begin-step {i = i} (stop_running s k lt at_k) from to =
    begin-update s.table s.caller i k idle (record (s.table k) { running = false }) refl to
begin-step (load_current s at_thread) from to = refl
begin-step (verify s cur_epoch k at_thread lt e) from to = refl
begin-step (wait s cur_epoch k at_thread lt e f) from to = refl
begin-step (advance s cur_epoch at_thread lt) from to = refl
begin-step (take_min s min_epoch k at_thread lt) from to = refl
begin-step (set_gc_epoch s min_epoch at_thread) from to = refl

-- What holds since the epoch was `epoch` and the session `i` had published `e`: the epoch thread does
-- not come past this session any more when the epoch has moved on.
abbrev HeldThread : ℕ → ℕ → ℕ → EpochThread → Type 0
HeldThread epoch i now asleep = now ≡ now
HeldThread epoch i now (verifying cur_epoch j) = now ≡ epoch + 1 → j ≤ i
HeldThread epoch i now (taking_min min_epoch j) = now ≡ now

record HeldOk (epoch i e : ℕ) (s : System) : Type 0 where
  published : (s.table i).begin_epoch ≡ e
  once : s.epoch ≤ epoch + 1
  in_front : HeldThread epoch i s.epoch s.thread

module _ {sessions i epoch e : ℕ} (lt_i : i < sessions) (some_e : 0 < e) (le_e : e ≤ epoch) where
  thread-step :
      {s u : System}
      → Step sessions s u
      → IsOk s
      → HeldOk epoch i e s
      → (u.epoch ≤ epoch + 1) × HeldThread epoch i u.epoch u.thread
  unfolding epoch_inc
  thread-step (gain s k t lt f) ok h = (h.once, h.in_front)
  thread-step (load_epoch s k lt at_k) ok h = (h.once, h.in_front)
  thread-step (publish s k f lt at_k) ok h = (h.once, h.in_front)
  thread-step (withdraw s k lt at_k) ok h = (h.once, h.in_front)
  thread-step (stop_running s k lt at_k) ok h = (h.once, h.in_front)
  thread-step (load_current s at_thread) ok h = (h.once, λ now. omega arith)
  thread-step (verify s cur_epoch k at_thread lt f) ok h =
      let front : HeldThread epoch i s.epoch (verifying cur_epoch k) =
        subst (HeldThread epoch i s.epoch) at_thread h.in_front in
      let current : cur_epoch ≡ s.epoch = subst (ThreadOk s.epoch) at_thread ok.thread_ok in
      (
        h.once,
        λ now. elim (Bool-cases (k == i)) [
          | inl same ↦
              let k_is = same_index k i same in
              let read : (s.table k).begin_epoch ≡ e =
                ap (λ x. (s.table x).begin_epoch) k_is ∙ h.published in
              absurd (ground (arith, f, read, current, now, some_e, le_e))
          | inr other ↦ let at_most : k ≤ i = front now in ground (arith, at_most, other)
        ],
      )
  thread-step (wait s cur_epoch k at_thread lt f g) ok h = (h.once, refl)
  thread-step (advance s cur_epoch at_thread lt) ok h =
      let front : HeldThread epoch i s.epoch (verifying cur_epoch sessions) =
        subst (HeldThread epoch i s.epoch) at_thread h.in_front in
      let next : (s.epoch + 1) % 2 ^ 64 ≡ s.epoch + 1 = omega arith in
      let before : s.epoch ≢ epoch + 1 = λ now. absurd (omega (arith, front now, lt_i)) in
      (rw (epoch_inc, next) (omega (arith, before, h.once)), refl)
  thread-step (take_min s min_epoch k at_thread lt) ok h = (h.once, refl)
  thread-step (set_gc_epoch s min_epoch at_thread) ok h = (h.once, refl)

  Held-HeldOk :
      {s u : System}
      → Held sessions i s u
      → IsOk s
      → HeldOk epoch i e s
      → (u.caller i ≡ inside) × IsOk u × HeldOk epoch i e u
  Held-HeldOk (held_here s stays) ok h = (stays, ok, h)
  Held-HeldOk (held_on s t u path step stays) ok h =
      let (from, ok_t, h_t) = Held-HeldOk path ok h in
      let (once, front) = thread-step step ok_t h_t in
      (
        stays,
        IsOk-step step ok_t,
        record {
          published = begin-step step from stays ∙ h_t.published;
          once = once;
          in_front = front;
        },
      )

front-start : (epoch i : ℕ) (thread : EpochThread) → HeldThread epoch i epoch thread
front-start epoch i asleep = refl
front-start epoch i (verifying cur_epoch j) = λ now. absurd (omega (arith, now))
front-start epoch i (taking_min min_epoch j) = refl

inside-at : {sessions i : ℕ} {s t : System} → Held sessions i s t → s.caller i ≡ inside
inside-at (held_here s stays) = stays
inside-at (held_on s t u path step stays) = inside-at path

-- Over all interleavings of the loads and stores of the sessions with those of the epoch thread, also
-- where a session publishes an epoch that is no longer the current one: from any state that is
-- reached in which a session has published its epoch, and for as long as it does not leave, it keeps
-- that epoch, the global epoch moves on at most once, and the epoch for the collection does not pass
-- the epoch of that state. The epoch does not wrap.
pub epoch_moves_once :
    {sessions i : ℕ} {s t : System}
    → Steps sessions start s
    → Held sessions i s t
    → i < sessions
    → ((t.table i).begin_epoch ≡ (s.table i).begin_epoch)
      × (t.epoch ≤ s.epoch + 1)
      × (t.gc_epoch ≤ s.epoch)
epoch_moves_once {sessions} {i} {s} {t} reached held lt =
    let ok = Steps-IsOk reached IsOk-start in
    let mine : CallerOk s.epoch inside (s.table i) =
      subst (λ c. CallerOk s.epoch c (s.table i)) (inside-at held) (ok.callers i) in
    let (stays, ok_t, h) = Held-HeldOk lt mine.1 mine.2 held ok (record {
      published = refl;
      once = omega arith;
      in_front = front-start s.epoch i s.thread;
    }) in
    (h.published, h.once, omega (arith, ok_t.behind, h.once))
