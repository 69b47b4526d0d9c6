-- ===== src/Epoch/Invariant.antt =====
-- What the sessions and the epoch thread keep true of what they share.
use yakushima.Common.{
  ℕ, ◌+◌, ◌%◌, ◌^◌, ◌≤◌, ◌<◌, ◌≡◌, ◌⊎◌, refl, sym, subst, ap, ◌∙◌, inl, inr, true, false, some,
  Bool-cases, some_inj, update, arith, ◌==◌,
}
use yakushima.Epoch.{ThreadInfo, Table, epoch_inc, gain_the_right, max_epoch}
use yakushima.Epoch.Reclaim.{
  EpochThread, asleep, verifying, taking_min, Caller, idle, gained, loaded, inside, leaving, System,
  start, next_min, gc_epoch_from, Step, gain, load_epoch, publish, withdraw, stop_running,
  load_current, verify, wait, advance, take_min, set_gc_epoch, Steps, done, more,
}

-- What a session has published, by where its caller stands.
abbrev pub CallerOk : ℕ → Caller → ThreadInfo → Type 0
CallerOk epoch idle t = (t.running ≡ false) × (t.begin_epoch ≡ 0)
CallerOk epoch gained t = (t.running ≡ true) × (t.begin_epoch ≡ 0)
CallerOk epoch (loaded e) t = (t.running ≡ true) × (t.begin_epoch ≡ 0) × (0 < e) × (e ≤ epoch)
CallerOk epoch inside t = (t.running ≡ true) × (0 < t.begin_epoch) × (t.begin_epoch ≤ epoch)
CallerOk epoch leaving t = (t.running ≡ true) × (t.begin_epoch ≡ 0)

-- What the epoch thread knows.
abbrev pub ThreadOk : ℕ → EpochThread → Type 0
ThreadOk epoch asleep = epoch ≡ epoch
ThreadOk epoch (verifying cur_epoch i) = cur_epoch ≡ epoch
ThreadOk epoch (taking_min min_epoch i) =
    (0 < min_epoch) × ((min_epoch ≡ max_epoch) ⊎ (min_epoch ≤ epoch))

pub record IsOk (s : System) : Type 0 where
  pub positive : 0 < s.epoch
  pub bounded : s.epoch < max_epoch
  pub behind : s.gc_epoch < s.epoch
  pub callers : (i : ℕ) → CallerOk s.epoch (s.caller i) (s.table i)
  pub thread_ok : ThreadOk s.epoch s.thread

callers-update :
    (epoch : ℕ) (table : Table) (caller : ℕ → Caller) (i : ℕ) (c : Caller) (t : ThreadInfo)
    → ((j : ℕ) → CallerOk epoch (caller j) (table j))
    → CallerOk epoch c t
    → (j : ℕ) → CallerOk epoch (update caller i c j) (update table i t j)
callers-update epoch table caller i c t h x j = elim (Bool-cases (j == i)) [
  | inl e ↦ simp (e) x
  | inr e ↦ simp (e) (h j)
]

pub same_index : (j i : ℕ) → (j == i) ≡ true → j ≡ i
same_index j i e = ground (arith, e)

callers-alone :
    (epoch : ℕ) (table : Table) (caller : ℕ → Caller) (i : ℕ) (c : Caller)
    → ((j : ℕ) → CallerOk epoch (caller j) (table j))
    → CallerOk epoch c (table i)
    → (j : ℕ) → CallerOk epoch (update caller i c j) (table j)
callers-alone epoch table caller i c h x j = elim (Bool-cases (j == i)) [
  | inl e ↦ simp (e) (subst (λ k. CallerOk epoch c (table k)) (sym (same_index j i e)) x)
  | inr e ↦ simp (e) (h j)
]

callers-advance :
    (epoch : ℕ) (c : Caller) (t : ThreadInfo) → CallerOk epoch c t → CallerOk (epoch + 1) c t
callers-advance epoch idle t h = h
callers-advance epoch gained t h = h
callers-advance epoch (loaded e) t h = (h.0, h.1, h.2, omega (arith, h.3))
callers-advance epoch inside t h = (h.0, h.1, omega (arith, h.2))
callers-advance epoch leaving t h = h

begin-le : (epoch : ℕ) (c : Caller) (t : ThreadInfo) → CallerOk epoch c t → t.begin_epoch ≤ epoch
begin-le epoch idle t h = omega (arith, h.1)
begin-le epoch gained t h = omega (arith, h.1)
begin-le epoch (loaded e) t h = omega (arith, h.1)
begin-le epoch inside t h = h.2
begin-le epoch leaving t h = omega (arith, h.1)

free-begin :
    (epoch : ℕ) (c : Caller) (t : ThreadInfo)
    → CallerOk epoch c t
    → t.running ≡ false
    → t.begin_epoch ≡ 0
free-begin epoch idle t h free = h.1
free-begin epoch gained t h free = h.1
free-begin epoch (loaded e) t h free = h.1
free-begin epoch inside t h free = absurd (ground (arith, h.0, free))
free-begin epoch leaving t h free = h.1

gain_the_right-some :
    (t u : ThreadInfo)
    → gain_the_right t ≡ some u
    → (t.running ≡ false) × (u.running ≡ true) × (u.begin_epoch ≡ t.begin_epoch)
unfolding gain_the_right
gain_the_right-some t u e = elim (Bool-cases t.running) [
  | inl busy ↦ absurd (ground (arith, e, busy))
  | inr free ↦
      let same : some (record t { running = true }) ≡ some u = rw (gain_the_right, free) at e in
      let u_is = some_inj same in
      (free, ap (λ x. x.running) (sym u_is), ap (λ x. x.begin_epoch) (sym u_is))
]

next_min-Ok :
    (epoch begin_epoch min_epoch : ℕ)
    → begin_epoch ≤ epoch
    → (0 < min_epoch) × ((min_epoch ≡ max_epoch) ⊎ (min_epoch ≤ epoch))
    → (0 < next_min begin_epoch min_epoch)
      × ((next_min begin_epoch min_epoch ≡ max_epoch) ⊎ (next_min begin_epoch min_epoch ≤ epoch))
next_min-Ok epoch begin_epoch min_epoch le h = ground (arith, h.0, h.1, le)

gc_epoch_from-behind :
    (epoch min_epoch : ℕ)
    → 0 < epoch
    → epoch < max_epoch
    → (0 < min_epoch) × ((min_epoch ≡ max_epoch) ⊎ (min_epoch ≤ epoch))
    → gc_epoch_from min_epoch epoch < epoch
gc_epoch_from-behind epoch min_epoch pos lt h = ground (arith, h.0, h.1)

pub IsOk-step : {sessions : ℕ} {s u : System} → Step sessions s u → IsOk s → IsOk u
unfolding epoch_inc
IsOk-step (gain s i t lt e) h =
    let g = gain_the_right-some (s.table i) t e in
    let nothing = free-begin s.epoch (s.caller i) (s.table i) (h.callers i) g.0 in
    record {
      positive = h.positive;
      bounded = h.bounded;
      behind = h.behind;
      callers = callers-update s.epoch s.table s.caller i gained t h.callers (g.1, g.2 ∙ nothing);
      thread_ok = h.thread_ok;
    }
IsOk-step (load_epoch s i lt at_i) h =
    let ok : CallerOk s.epoch gained (s.table i) =
      subst (λ c. CallerOk s.epoch c (s.table i)) at_i (h.callers i) in
    record {
      positive = h.positive;
      bounded = h.bounded;
      behind = h.behind;
      callers =
          callers-alone s.epoch s.table s.caller i (loaded s.epoch) h.callers
            (ok.0, ok.1, h.positive, omega arith);
      thread_ok = h.thread_ok;
    }
IsOk-step (publish s i epoch lt at_i) h =
    let ok : CallerOk s.epoch (loaded epoch) (s.table i) =
      subst (λ c. CallerOk s.epoch c (s.table i)) at_i (h.callers i) in
    record {
      positive = h.positive;
      bounded = h.bounded;
      behind = h.behind;
      callers =
          callers-update s.epoch s.table s.caller i inside
            (record (s.table i) { begin_epoch = epoch }) h.callers (ok.0, ok.2, ok.3);
      thread_ok = h.thread_ok;
    }
IsOk-step (withdraw s i lt at_i) h =
    let ok : CallerOk s.epoch inside (s.table i) =
      subst (λ c. CallerOk s.epoch c (s.table i)) at_i (h.callers i) in
    record {
      positive = h.positive;
      bounded = h.bounded;
      behind = h.behind;
      callers =
          callers-update s.epoch s.table s.caller i leaving (record (s.table i) { begin_epoch = 0 })
            h.callers (ok.0, refl);
      thread_ok = h.thread_ok;
    }
IsOk-step (stop_running s i lt at_i) h =
    let ok : CallerOk s.epoch leaving (s.table i) =
      subst (λ c. CallerOk s.epoch c (s.table i)) at_i (h.callers i) in
    record {
      positive = h.positive;
      bounded = h.bounded;
      behind = h.behind;
      callers =
          callers-update s.epoch s.table s.caller i idle (record (s.table i) { running = false })
            h.callers (refl, ok.1);
      thread_ok = h.thread_ok;
    }
IsOk-step (load_current s at_thread) h = record {
  positive = h.positive;
  bounded = h.bounded;
  behind = h.behind;
  callers = h.callers;
  thread_ok = refl;
}
IsOk-step (verify s cur_epoch i at_thread lt e) h = record {
  positive = h.positive;
  bounded = h.bounded;
  behind = h.behind;
  callers = h.callers;
  thread_ok = subst (ThreadOk s.epoch) at_thread h.thread_ok;
}
IsOk-step (wait s cur_epoch i at_thread lt e f) h = record {
  positive = h.positive;
  bounded = h.bounded;
  behind = h.behind;
  callers = h.callers;
  thread_ok = refl;
}
IsOk-step (advance s cur_epoch at_thread lt) h =
    let next : (s.epoch + 1) % 2 ^ 64 ≡ s.epoch + 1 = omega arith in
    rw (epoch_inc, next)
      record {
        positive = omega arith;
        bounded = lt;
        behind = omega (arith, h.behind);
        callers = λ i. callers-advance s.epoch (s.caller i) (s.table i) (h.callers i);
        thread_ok = (omega arith, inl refl);
      }
IsOk-step (take_min s min_epoch i at_thread lt) h = record {
  positive = h.positive;
  bounded = h.bounded;
  behind = h.behind;
  callers = h.callers;
  thread_ok =
      next_min-Ok s.epoch (s.table i).begin_epoch min_epoch
        (begin-le s.epoch (s.caller i) (s.table i) (h.callers i))
        (subst (ThreadOk s.epoch) at_thread h.thread_ok);
}
IsOk-step (set_gc_epoch s min_epoch at_thread) h = record {
  positive = h.positive;
  bounded = h.bounded;
  behind =
      gc_epoch_from-behind s.epoch min_epoch h.positive h.bounded
        (subst (ThreadOk s.epoch) at_thread h.thread_ok);
  callers = h.callers;
  thread_ok = refl;
}

pub IsOk-start : IsOk start
IsOk-start = record {
  positive = omega arith;
  bounded = omega arith;
  behind = omega arith;
  callers = λ i. (refl, refl);
  thread_ok = refl;
}

pub Steps-IsOk : {sessions : ℕ} {s t : System} → Steps sessions s t → IsOk s → IsOk t
Steps-IsOk (done s) h = h
Steps-IsOk (more s t u path step) h = IsOk-step step (Steps-IsOk path h)
