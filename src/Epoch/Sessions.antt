-- ===== src/Epoch/Sessions.antt =====
-- The loops over the table of the sessions.
use yakushima.Common.{
  ℕ, zero, suc, ◌+◌, ◌≤◌, ◌<◌, ◌≡◌, refl, sym, ap, ◌⊎◌, inl, inr, true, false, some, Bool-cases,
  some_inj, ◌==◌, if◌then◌else◌, update, arith,
}
use yakushima.Epoch.{Table, gain_the_right, assign_from, verify_from, min_epoch_from, smaller}

-- What `assign_from` does to the table: it takes the first session that is not running.
pub record Assigned (left i : ℕ) (table : Table) (epoch : ℕ) (token : ℕ) (after : Table)
    : Type 0 where
  pub lower : i ≤ token
  pub upper : token < i + left
  pub free : (table token).running ≡ false
  pub entered : after ≡ update table token (record { begin_epoch = epoch; running = true })
  pub taken : (j : ℕ) → i ≤ j → j < token → (table j).running ≡ true

pub assign_from-Assigned :
    (left i : ℕ) (table : Table) (epoch token : ℕ) (after : Table)
    → assign_from left table epoch i ≡ some (token, after)
    → Assigned left i table epoch token after
unfolding assign_from gain_the_right
assign_from-Assigned zero i table epoch token after e = absurd (ground arith)
assign_from-Assigned (suc left) i table epoch token after e = elim (Bool-cases (table i).running) [
  | inl busy ↦
      let r =
        assign_from-Assigned left (i + 1) table epoch token after (rw (assign_from, busy) at e) in
      record {
        lower = omega (arith, r.lower);
        upper = omega (arith, r.upper);
        free = r.free;
        entered = r.entered;
        taken = λ j lo hi. ground (arith, r.taken j);
      }
  | inr idle ↦
      let same : some (i, update table i (record { begin_epoch = epoch; running = true }))
          ≡ some (token, after) =
        rw (assign_from, idle) at e in
      let at_i : i ≡ token = ap (λ p. p.0) (some_inj same) in
      let entered = ap (λ p. p.1) (some_inj same) in
      record {
        lower = omega (arith, at_i);
        upper = omega (arith, at_i);
        free = rw (← at_i) idle;
        entered = rw (← at_i) (sym entered);
        taken = λ j lo hi. absurd (omega (arith, at_i));
      }
]

pub verify_from-all :
    (left i : ℕ) (table : Table) (epoch : ℕ)
    → verify_from left table epoch i ≡ true
    → (j : ℕ) → i ≤ j
    → j < i + left
    → ((table j).begin_epoch ≡ 0) ⊎ ((table j).begin_epoch ≡ epoch)
unfolding verify_from
verify_from-all zero i table epoch v j lo hi = absurd (omega arith)
verify_from-all (suc left) i table epoch v j lo hi =
    ground (arith, verify_from-all left (i + 1) table epoch _ j)

-- The smallest epoch of the sessions, or the bound that the loop starts with.
pub record Least (left i : ℕ) (table : Table) (bound epoch result : ℕ) : Type 0 where
  pub positive : 0 < bound → 0 < result
  pub at_most : result ≤ bound
  pub below_all :
      (j : ℕ) → i ≤ j → j < i + left → 0 < (table j).begin_epoch → result ≤ (table j).begin_epoch
  pub attained : (result ≡ bound) ⊎ (result ≤ epoch)

pub min_epoch_from-Least :
    (left i : ℕ) (table : Table) (bound epoch : ℕ)
    → ((j : ℕ) → (table j).begin_epoch ≤ epoch)
    → Least left i table bound epoch (min_epoch_from left table i bound)
unfolding min_epoch_from
min_epoch_from-Least zero i table bound epoch h = record {
  positive = λ p. p;
  at_most = omega arith;
  below_all = λ j lo hi. absurd (omega arith);
  attained = inl refl;
}
min_epoch_from-Least (suc left) i table bound epoch h =
    let e = (table i).begin_epoch in
    let bound' = if e == 0 then bound else smaller bound e in
    let r = min_epoch_from-Least left (i + 1) table bound' epoch h in
    record {
      positive = λ p. ground (arith, r.positive);
      at_most = ground (arith, r.at_most);
      below_all = λ j lo hi pos. ground (arith, r.at_most, r.below_all j);
      attained = ground (arith, r.attained, h i);
    }
