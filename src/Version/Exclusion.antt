-- ===== src/Version/Exclusion.antt =====
-- What every step of the threads on a version word keeps, and mutual exclusion.
use yakushima.Common.{ℕ, ◌+◌, ◌%◌, ◌≡◌, refl, true, false, update, arith}
use yakushima.Version.{VersionBody, released, counter_mod}
use yakushima.Version.Layout.{IsBody}
use yakushima.Version.Protocol.{
  Pc, trying, inserting, Move, see_free, lock_win, update_win, unlock_win, root_win, inserts_ended,
  splits_ended, System, Step, pick, Steps, here, next, start, critical,
}

-- What the local `expected` of a thread says: `lock` tries only on a word that was free.
abbrev pub IsFree : Pc → Type 0
IsFree (trying e) = e.locked ≡ false
IsFree _ = Unit

-- `v` is the word at the start.
pub record Inv (v : VersionBody) (s : System) : Type 0 where
  pub alone : (i j : ℕ) → critical (s.pc i) ≡ true → critical (s.pc j) ≡ true → i ≡ j
  pub held : (i : ℕ) → critical (s.pc i) ≡ true → s.body.locked ≡ true
  pub free : (i : ℕ) → IsFree (s.pc i)
  pub inserts : s.body.vinsert_delete ≡ (v.vinsert_delete + s.inserts) % counter_mod
  pub splits : s.body.vsplit ≡ (v.vsplit + s.splits) % counter_mod

module _ {v : VersionBody} {s : System} (inv : Inv v s) (i : ℕ) where
  open inv use {alone, held, free, inserts, splits}

  Move-alone :
      {p p' : Pc} {m' : VersionBody}
      → Move s.body p m' p'
      → s.pc i ≡ p
      → (a b : ℕ) → critical (update s.pc i p' a) ≡ true
      → critical (update s.pc i p' b) ≡ true
      → a ≡ b
  Move-alone (lock_win g) e a b x y = ground (arith, held a, held b, free i)
  Move-alone mv e a b x y = ground (arith, alone a b, alone i a, alone i b)

  Move-held :
      {p p' : Pc} {m' : VersionBody}
      → Move s.body p m' p'
      → s.pc i ≡ p
      → (a : ℕ) → critical (update s.pc i p' a) ≡ true
      → m'.locked ≡ true
  unfolding released
  Move-held (unlock_win g) e a x = ground (arith, alone i a)
  Move-held (update_win {op = inserting} g) e a x = ground (arith, held i)
  Move-held (update_win g) e a x = ground (arith, held i)
  Move-held (root_win g) e a x = ground (arith, held a)
  Move-held mv e a x = ground (arith, held a, held i)

  Move-IsFree :
      {p p' : Pc} {m' : VersionBody}
      → Move s.body p m' p'
      → s.pc i ≡ p
      → (a : ℕ) → IsFree (update s.pc i p' a)
  Move-IsFree (see_free g) e a = ground (arith, free a)
  Move-IsFree mv e a = ground (arith, free a)

  Move-counts :
      {p p' : Pc} {m' : VersionBody}
      → (mv : Move s.body p m' p')
      → (m'.vinsert_delete ≡ (v.vinsert_delete + (s.inserts + inserts_ended mv)) % counter_mod)
        × (m'.vsplit ≡ (v.vsplit + (s.splits + splits_ended mv)) % counter_mod)
  unfolding released
  Move-counts (unlock_win g) = ground arith
  Move-counts (update_win {op = inserting} g) = ground arith
  Move-counts (update_win g) = ground arith
  Move-counts (lock_win g) = ground arith
  Move-counts (root_win g) = ground arith
  Move-counts mv = ground arith

-- Every step keeps the invariant.
Step-Inv : {n : ℕ} {v : VersionBody} {s t : System} → Inv v s → Step n s t → Inv v t
Step-Inv inv (pick i lt mv) = record {
  alone = Move-alone inv i mv refl;
  held = Move-held inv i mv refl;
  free = Move-IsFree inv i mv refl;
  inserts = (Move-counts inv i mv).0;
  splits = (Move-counts inv i mv).1;
}

start-Inv : {v : VersionBody} → IsBody v → Inv v (start v)
start-Inv h = record {
  alone = λ i j p q. absurd (ground arith);
  held = λ i p. absurd (ground arith);
  free = λ i. tt;
  inserts = omega (arith, h.vinsert_delete);
  splits = omega (arith, h.vsplit);
}

pub Steps-Inv : {n : ℕ} {v : VersionBody} {s t : System} → Inv v s → Steps n s t → Inv v t
Steps-Inv inv here = inv
Steps-Inv inv (next r st) = Step-Inv (Steps-Inv inv r) st

pub reached-Inv : {n : ℕ} {v : VersionBody} {s : System} → IsBody v → Steps n (start v) s → Inv v s
reached-Inv h r = Steps-Inv (start-Inv h) r

-- Two threads are never between `lock` and `unlock` together, and while one is the word is locked,
-- in every state that any number of threads reaches from a word that is not locked.
pub mutual_exclusion :
    {n : ℕ} {v : VersionBody} {s : System}
    → IsBody v
    → Steps n (start v) s
    → (i j : ℕ) → critical (s.pc i) ≡ true
    → critical (s.pc j) ≡ true
    → (i ≡ j) × (s.body.locked ≡ true)
mutual_exclusion h r i j p q = let inv = reached-Inv h r in (inv.alone i j p q, inv.held i p)
