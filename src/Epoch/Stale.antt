-- ===== src/Epoch/Stale.antt =====
-- A session that publishes an epoch that is no longer the current one.
use yakushima.Common.{
  ℕ, zero, suc, ◌+◌, ◌<◌, ◌≡◌, refl, sym, subst, ap, ◌∙◌, inl, true, update, arith,
}
use yakushima.Epoch.{epoch_inc, gain_the_right, max_epoch, init_table}
use yakushima.Epoch.Reclaim.{
  asleep, verifying, taking_min, gained, loaded, inside, System, start, set_begin_epoch, next_min,
  gc_epoch_from, Step, gain, load_epoch, publish, load_current, verify, advance, take_min,
  set_gc_epoch, Steps, done, more,
}

chain :
    {sessions : ℕ} {s t u : System} → Steps sessions s t → Steps sessions t u → Steps sessions s u
chain p (done t) = p
chain p (more t u v q step) = more _ u v (chain p q) step

-- No session has published an epoch.
abbrev IsQuiet : System → Type 0
IsQuiet s = (j : ℕ) → (s.table j).begin_epoch ≡ 0

verify_loop :
    {sessions : ℕ} (left i : ℕ) (s : System)
    → IsQuiet s
    → s.thread ≡ verifying s.epoch i
    → i + left ≡ sessions
    → Steps sessions s (record s { thread = verifying s.epoch sessions })
verify_loop {sessions} zero i s quiet at_i e =
    let last : i ≡ sessions = omega (arith, e) in
    subst (λ th. Steps sessions s (record s { thread = th })) (at_i ∙ ap (verifying s.epoch) last)
      (done s)
verify_loop {sessions} (suc left) i s quiet at_i e =
    let next : System = record s { thread = verifying s.epoch (i + 1) } in
    chain (more s s next (done s) (verify s s.epoch i at_i (omega (arith, e)) (inl (quiet i))))
      (verify_loop left (i + 1) next quiet refl (omega (arith, e)))

take_min_loop :
    {sessions : ℕ} (left i : ℕ) (s : System)
    → IsQuiet s
    → s.thread ≡ taking_min max_epoch i
    → i + left ≡ sessions
    → Steps sessions s (record s { thread = taking_min max_epoch sessions })
take_min_loop {sessions} zero i s quiet at_i e =
    let last : i ≡ sessions = omega (arith, e) in
    subst (λ th. Steps sessions s (record s { thread = th }))
      (at_i ∙ ap (taking_min max_epoch) last) (done s)
take_min_loop {sessions} (suc left) i s quiet at_i e =
    let next : System = record s { thread = taking_min max_epoch (i + 1) } in
    let step : Step sessions s next =
      subst (λ b. Step sessions s (record s { thread = taking_min (next_min b max_epoch) (i + 1) }))
        (quiet i) (take_min s max_epoch i at_i (omega (arith, e))) in
    chain (more s s next (done s) step)
      (take_min_loop left (i + 1) next quiet refl (omega (arith, e)))

-- A round of the epoch thread.
round :
    {sessions : ℕ} (s : System)
    → IsQuiet s
    → s.thread ≡ asleep
    → 0 < s.epoch
    → s.epoch + 1 < max_epoch
    → Steps sessions s (record s { epoch = s.epoch + 1; gc_epoch = s.epoch })
unfolding epoch_inc
round {sessions} s quiet sleeps pos lt =
    let loading : System = record s { thread = verifying s.epoch 0 } in
    let verified : System = record s { thread = verifying s.epoch sessions } in
    let moved : System = record s { epoch = epoch_inc s.epoch; thread = taking_min max_epoch 0 } in
    let taken : System = record moved { thread = taking_min max_epoch sessions } in
    let p1 = more s s loading (done s) (load_current s sleeps) in
    let p2 = chain p1 (verify_loop sessions 0 loading quiet refl (omega arith)) in
    let p3 = more s verified moved p2 (advance verified s.epoch refl lt) in
    let p4 = chain p3 (take_min_loop sessions 0 moved quiet refl (omega arith)) in
    let p5 = more s taken _ p4 (set_gc_epoch taken max_epoch refl) in
    let inc : epoch_inc s.epoch ≡ s.epoch + 1 = omega (arith, lt) in
    let gc : gc_epoch_from max_epoch (epoch_inc s.epoch) ≡ s.epoch = omega (arith, lt) in
    subst
      (λ th. Steps sessions s (record s { epoch = s.epoch + 1; gc_epoch = s.epoch; thread = th }))
      (sym sleeps)
      (subst
        (λ g. Steps sessions s (record s { epoch = s.epoch + 1; gc_epoch = g; thread = asleep })) gc
        (subst
          (λ now. Steps sessions s (record s {
            epoch = now;
            gc_epoch = gc_epoch_from max_epoch (epoch_inc s.epoch);
            thread = asleep;
          }))
          inc p5))

-- Session 0 is taken and has loaded the first epoch.
abbrev loading : System
loading = record start {
  table = update init_table 0 (record { begin_epoch = 0; running = true });
  caller = update (update start.caller 0 gained) 0 (loaded 1);
}

loading-Steps : {sessions : ℕ} → 0 < sessions → Steps sessions start loading
unfolding gain_the_right
loading-Steps lt =
    let taken : System = record start {
      table = update init_table 0 (record { begin_epoch = 0; running = true });
      caller = update start.caller 0 gained;
    } in
    more start taken loading
      (more start start taken (done start)
        (gain start 0 (record { begin_epoch = 0; running = true }) lt refl))
      (load_epoch taken 0 lt refl)

loading-IsQuiet : IsQuiet loading
loading-IsQuiet j = ground arith

-- The epoch thread goes round so many times before session 0 publishes what it has loaded.
abbrev moved : ℕ → System
moved n = record loading { epoch = n + 1; gc_epoch = n }

moved-Steps : {sessions : ℕ} (n : ℕ) → n + 1 < max_epoch → Steps sessions loading (moved n)
moved-Steps zero lt = done loading
moved-Steps {sessions} (suc n) lt =
    let next : n + 1 ≡ suc n = omega arith in
    chain (moved-Steps n (omega (arith, lt))) (
      subst (λ k. Steps sessions (moved n) (record loading { epoch = k + 1; gc_epoch = k })) next
        (round (moved n) loading-IsQuiet refl (omega arith) (omega (arith, lt))))

-- Session 0 publishes its epoch, and session 1 comes.
abbrev published : ℕ → System
published n = record (moved n) {
  table = set_begin_epoch loading.table 0 1;
  caller = update loading.caller 0 inside;
}

abbrev joined : ℕ → System
joined n = record (published n) {
  table = update (published n).table 1 (record { begin_epoch = 0; running = true });
  caller = update (update (published n).caller 1 gained) 1 (loaded (n + 1));
}

abbrev stale : ℕ → System
stale n = record (joined n) {
  table = set_begin_epoch (joined n).table 1 (n + 1);
  caller = update (joined n).caller 1 inside;
}

stale-Steps :
    {sessions : ℕ} (n : ℕ) → 1 < sessions → n + 1 < max_epoch → Steps sessions start (stale n)
unfolding gain_the_right
stale-Steps {sessions} n two lt =
    let one : 0 < sessions = omega (arith, two) in
    let gains : System = record (published n) {
      table = update (published n).table 1 (record { begin_epoch = 0; running = true });
      caller = update (published n).caller 1 gained;
    } in
    let p1 = chain (loading-Steps one) (moved-Steps n lt) in
    let p2 = more start (moved n) (published n) p1 (publish (moved n) 0 1 one refl) in
    let p3 =
      more start (published n) gains p2
        (gain (published n) 1 (record { begin_epoch = 0; running = true }) two refl) in
    let p4 = more start gains (joined n) p3 (load_epoch gains 1 two refl) in
    more start (joined n) (stale n) p4 (publish (joined n) 1 (n + 1) two refl)

-- For each number of rounds of the epoch thread up to the bound of the epoch, the loads and stores of
-- two sessions and of the epoch thread reach a state in which both sessions are in use, session 0 has
-- published the epoch 1, session 1 and the global epoch are at that number plus 1, and the epoch for
-- the collection is at that number. So, from two rounds on, the epoch for the collection has passed
-- the epoch that session 0 gives to what it retires, while session 1 reads.
pub stale_epoch :
    (sessions n : ℕ)
    → 1 < sessions
    → n + 1 < max_epoch
    → (s : System) × Steps sessions start s
      × (s.caller 0 ≡ inside)
      × (s.caller 1 ≡ inside)
      × ((s.table 0).begin_epoch ≡ 1)
      × ((s.table 1).begin_epoch ≡ n + 1)
      × (s.epoch ≡ n + 1)
      × (s.gc_epoch ≡ n)
stale_epoch sessions n two lt = (stale n, stale-Steps n two lt, refl, refl, refl, refl, refl, refl)
