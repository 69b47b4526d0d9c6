-- ===== src/Version/Atomic.antt =====
-- The read-modify-write loops of the version word act at once on the value in memory.
use yakushima.Common.{
  sym, subst, some_inj, ◌∙◌, ==_refl, ◌+◌, ◌%◌, ◌≡◌, refl, true, false, List, [], ◌∷◌, some, arith,
  Bool-cases, inl, inr, ap,
}
use yakushima.Version.{
  VersionBody, Attempt, Exchange, image, exchanges, exchange_loop, lock, unlock, released, bit,
  counter_mod, equal, set_locked,
}
use yakushima.Version.Layout.{IsBody, equal_iff}

-- Every value that an attempt sees has its counters in range.
abbrev pub AreBodies : List Attempt → Type 0
AreBodies [] = Unit
AreBodies (a ∷ later) = IsBody a.loaded × IsBody a.found × AreBodies later

exchanges-found :
    (v : VersionBody) (a : Attempt) → IsBody v → IsBody a.found → exchanges v a ≡ true → a.found ≡ v
exchanges-found v a p q h = (equal_iff q p).0 (ground arith)

-- A loop that returns has replaced the value that it found in memory by the update of that very
-- value, whatever the other threads did between its rounds.
exchange_loop-atomic :
    (f : VersionBody → VersionBody) (v : VersionBody) (rounds : List Attempt) {x : Exchange}
    → IsBody v
    → AreBodies rounds
    → exchange_loop f v rounds ≡ some x
    → x.after ≡ f x.before
unfolding exchange_loop
exchange_loop-atomic f v [] p q h = absurd (ground arith)
exchange_loop-atomic f v (a ∷ later) {x} p q h = elim (Bool-cases (exchanges v a)) [
  | inl won ↦
      let same : a.found ≡ v = exchanges-found v a p q.1 won in
      let this : record { before = a.found; after = f v } ≡ x = some_inj (rw won at h) in
      sym (ap (λ (y : Exchange). y.after) this)
      ∙ ap f (sym same)
      ∙ ap (λ (y : Exchange). f y.before) this
  | inr lost ↦ exchange_loop-atomic f a.found later q.1 q.2 (rw lost at h)
]

-- What a release leaves: no lock and no mark, a section that was marked counted once, the other
-- fields as they were.
pub record Released (v w : VersionBody) : Type 0 where
  pub locked : w.locked ≡ false
  pub inserting_deleting : w.inserting_deleting ≡ false
  pub splitting : w.splitting ≡ false
  pub vinsert_delete :
      w.vinsert_delete ≡ (v.vinsert_delete + bit v.inserting_deleting) % counter_mod
  pub vsplit : w.vsplit ≡ (v.vsplit + bit v.splitting) % counter_mod
  pub deleted : w.deleted ≡ v.deleted
  pub root : w.root ≡ v.root
  pub border : w.border ≡ v.border

pub released-Released : (v : VersionBody) → IsBody v → Released v (released v)
unfolding released
released-Released v p = ground arith

-- If `unlock` returns, it has released the value that it found in memory: one exchange clears the
-- lock and both marks, counts each marked section modulo `2 ^ 29`, and keeps the other fields.
pub unlock-Released :
    (v : VersionBody) (rounds : List Attempt) {x : Exchange}
    → IsBody v
    → AreBodies rounds
    → unlock v rounds ≡ some x
    → IsBody x.before
    → Released x.before x.after
unfolding unlock
unlock-Released v rounds {x} p q h b =
    subst (Released x.before) (sym (exchange_loop-atomic released v rounds p q h))
      (released-Released x.before b)

-- `lock` returns only by an exchange of a value that was not locked for the same value locked.
pub lock_lem :
    (rounds : List Attempt) {x : Exchange}
    → AreBodies rounds
    → lock rounds ≡ some x
    → (x.before.locked ≡ false) × (x.after ≡ set_locked true x.before)
unfolding lock
lock_lem [] q h = absurd (ground arith)
lock_lem (a ∷ later) {x} q h = elim (Bool-cases a.loaded.locked) [
  | inl busy ↦ lock_lem later q.2 (rw busy at h)
  | inr free ↦ elim (Bool-cases (exchanges a.loaded a)) [
    | inl won ↦
        let same : a.found ≡ a.loaded = exchanges-found a.loaded a q.0 q.1 won in
        let this : record { before = a.found; after = set_locked true a.loaded } ≡ x =
          some_inj (rw (won, free) at h) in
        (
          ap (λ (y : Exchange). y.before.locked) (sym this)
              ∙ ap (λ (b : VersionBody). b.locked) same
              ∙ free,
          sym (ap (λ (y : Exchange). y.after) this)
              ∙ ap (set_locked true) (sym same)
              ∙ ap (λ (y : Exchange). set_locked true y.before) this,
        )
    | inr lost ↦ lock_lem later q.2 (rw (lost, free) at h)
  ]
]

-- A loop ends at the latest with the second of two rounds that find the same value, unless the
-- exchange fails spuriously: another thread's update, or a spurious failure, is behind each round
-- more.
exchange_loop-returns :
    (f : VersionBody → VersionBody) (v : VersionBody) (a b : Attempt) (later : List Attempt)
    → b.found ≡ a.found
    → b.spurious ≡ false
    → (x : Exchange) × (exchange_loop f v (a ∷ b ∷ later) ≡ some x)
unfolding exchange_loop equal
exchange_loop-returns f v a b later same sure = elim (Bool-cases (exchanges v a)) [
  | inl won ↦ (record { before = a.found; after = f v }, rw won)
  | inr lost ↦
      let wins : exchanges a.found b ≡ true =
        rw (ap image same, ==_refl (image a.found), sure) refl in
      (record { before = b.found; after = f a.found }, rw (lost, wins))
]

-- `unlock` ends at the latest with the second of two rounds that find the same value, if the second
-- exchange does not fail spuriously.
pub unlock-returns :
    (v : VersionBody) (a b : Attempt) (later : List Attempt)
    → b.found ≡ a.found
    → b.spurious ≡ false
    → (x : Exchange) × (unlock v (a ∷ b ∷ later) ≡ some x)
unfolding unlock
unlock-returns v a b later same sure = exchange_loop-returns released v a b later same sure
