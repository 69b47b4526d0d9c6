-- ===== src/GarbageCollection/Collected.antt =====
-- What a collection frees, and what it keeps.
use yakushima.Common.{
  ℕ, zero, suc, ◌≤◌, ◌<◌, ◌≡◌, refl, ap, true, false, List, [], ◌∷◌, ◌++◌, length, All, Option,
  some, Bool-cases, inl, inr, ◌==◌, leb, if◌then◌else◌, arith,
}
use yakushima.GarbageCollection.{
  ConcurrentQueue, Elem, Container, Freed, also_freed, no_target, gc_node_loop, gc_node,
  gc_value_loop, gc_value, fin_loop, fin,
}

module _ {A : Type 0} (Q : ConcurrentQueue (Elem A)) where
  -- Everything that a container holds, the oldest first.
  unfoldable pub held : Container Q → List (Elem A)
  held c = if c.cache.1 == 0 then Q.contents c.queue else c.cache ∷ Q.contents c.queue

  -- The oldest object is not older than the epoch for the collection.
  unfoldable pub IsDone : ℕ → List (Elem A) → Type 0
  IsDone gc_epoch [] = Unit
  IsDone gc_epoch (x ∷ xs) = gc_epoch ≤ x.0

  -- No address is null.
  abbrev pub HasTargets : List (Elem A) → Type 0
  HasTargets = All (λ (x : Elem A). (x.1 == 0) ≡ false)

  -- What was held is what is freed and then what is kept; only objects of earlier epochs are
  -- freed, and the collection stops only at one that has to stay.
  pub record Collected (gc_epoch : ℕ) (before : List (Elem A)) (result : Option (Freed Q))
      : Type 0 where
    pub freed : List (Elem A)
    pub left : Container Q
    pub returns : result ≡ some (freed, left)
    pub whole : freed ++ held left ≡ before
    pub old : All (λ (x : Elem A). x.0 < gc_epoch) freed
    pub done : IsDone gc_epoch (held left)

  Collected-also :
      (gc_epoch : ℕ) (x : Elem A) {before : List (Elem A)} {result : Option (Freed Q)}
      → x.0 < gc_epoch
      → Collected gc_epoch before result
      → Collected gc_epoch (x ∷ before) (also_freed Q x result)
  Collected-also gc_epoch x h r = record {
    freed = x ∷ r.freed;
    left = r.left;
    returns = ap (also_freed Q x) r.returns;
    whole = ap (λ xs. x ∷ xs) r.whole;
    old = (h, r.old);
    done = r.done;
  }

  gc_node_loop-Collected :
      (fuel gc_epoch : ℕ) (cache : Elem A) (q : Q.Queue) (before : List (Elem A))
      → (cache.1 == 0) ≡ true
      → Q.contents q ≡ before
      → HasTargets before
      → length before < fuel
      → Collected gc_epoch before (gc_node_loop Q fuel gc_epoch cache q)
  unfolding gc_node_loop held IsDone
  gc_node_loop-Collected zero gc_epoch cache q before none_cached e h enough = absurd (omega arith)
  gc_node_loop-Collected (suc fuel) gc_epoch cache q [] none_cached e h enough = record {
    freed = [];
    left = record { cache = cache; queue = q };
    returns = rw (gc_node_loop, Q.empty-contents q e) refl;
    whole = rw none_cached e;
    old = tt;
    done = rw (none_cached, e) tt;
  }
  gc_node_loop-Collected (suc fuel) gc_epoch cache q (x ∷ before) none_cached e h enough =
      let (filled, q', popped, rest) = Q.try_pop-contents q x before e in
      elim (Bool-cases (leb gc_epoch x.0)) [
        | inl young ↦ record {
          freed = [];
          left = record { cache = x; queue = q' };
          returns = rw (gc_node_loop, filled, popped, young) refl;
          whole = rw (h.0, rest) refl;
          old = tt;
          done = rw h.0 (ground arith);
        }
        | inr older ↦
            rw (gc_node_loop, filled, popped, older)
              (Collected-also gc_epoch x (ground arith) (
                gc_node_loop-Collected fuel gc_epoch cache q' before none_cached rest h.1
                  (omega arith)))
      ]

  gc_value_loop-Collected :
      (fuel gc_epoch : ℕ) (cache : Elem A) (q : Q.Queue) (before : List (Elem A))
      → (cache.1 == 0) ≡ true
      → Q.contents q ≡ before
      → HasTargets before
      → length before < fuel
      → Collected gc_epoch before (gc_value_loop Q fuel gc_epoch cache q)
  unfolding gc_value_loop held IsDone
  gc_value_loop-Collected zero gc_epoch cache q before none_cached e h enough = absurd (omega arith)
  gc_value_loop-Collected (suc fuel) gc_epoch cache q [] none_cached e h enough = record {
    freed = [];
    left = record { cache = cache; queue = q };
    returns = rw (gc_value_loop, Q.empty-contents q e) refl;
    whole = rw none_cached e;
    old = tt;
    done = rw (none_cached, e) tt;
  }
  gc_value_loop-Collected (suc fuel) gc_epoch cache q (x ∷ before) none_cached e h enough =
      let (filled, q', popped, rest) = Q.try_pop-contents q x before e in
      elim (Bool-cases (leb gc_epoch x.0)) [
        | inl young ↦ record {
          freed = [];
          left = record { cache = x; queue = q' };
          returns = rw (gc_value_loop, filled, popped, young) refl;
          whole = rw (h.0, rest) refl;
          old = tt;
          done = rw h.0 (ground arith);
        }
        | inr older ↦
            rw (gc_value_loop, filled, popped, older)
              (Collected-also gc_epoch x (ground arith) (
                gc_value_loop-Collected fuel gc_epoch cache q' before none_cached rest h.1
                  (omega arith)))
      ]

  -- With fuel for all that the queue holds, and no null address in it, `gc_node` frees the oldest
  -- nodes, in order, up to the
  -- first one whose epoch is not before the epoch for the collection: none of those that it frees
  -- is as young as that epoch, and no node is lost, kept behind its turn or freed twice.
  pub gc_node-Collected :
      (fuel gc_epoch : ℕ) (c : Container Q)
      → HasTargets (Q.contents c.queue)
      → length (Q.contents c.queue) < fuel
      → Collected gc_epoch (held c) (gc_node Q fuel gc_epoch c)
  unfolding gc_node held IsDone
  gc_node-Collected fuel gc_epoch c h enough = elim (Bool-cases (c.cache.1 == 0)) [
    | inl free ↦ rw free (gc_node_loop-Collected fuel gc_epoch c.cache c.queue _ free refl h enough)
    | inr cached ↦ elim (Bool-cases (leb gc_epoch c.cache.0)) [
      | inl young ↦
          rw (cached, young)
            record {
              freed = [];
              left = c;
              returns = refl;
              whole = rw cached refl;
              old = tt;
              done = rw cached (ground arith);
            }
      | inr older ↦
          rw (cached, older)
            (Collected-also gc_epoch c.cache (ground arith) (
              gc_node_loop-Collected fuel gc_epoch (no_target Q c.cache) c.queue _ refl refl h
                enough))
    ]
  ]

  -- With fuel for all that the queue holds, and no null address in it, `gc_value` frees the oldest
  -- values, in order, up to the first one whose epoch is not before the epoch for the collection,
  -- and keeps all others in order.
  pub gc_value-Collected :
      (fuel gc_epoch : ℕ) (c : Container Q)
      → HasTargets (Q.contents c.queue)
      → length (Q.contents c.queue) < fuel
      → Collected gc_epoch (held c) (gc_value Q fuel gc_epoch c)
  unfolding gc_value held IsDone
  gc_value-Collected fuel gc_epoch c h enough = elim (Bool-cases (c.cache.1 == 0)) [
    | inl free ↦
        rw free (gc_value_loop-Collected fuel gc_epoch c.cache c.queue _ free refl h enough)
    | inr cached ↦ elim (Bool-cases (leb gc_epoch c.cache.0)) [
      | inl young ↦
          rw (cached, young)
            record {
              freed = [];
              left = c;
              returns = refl;
              whole = rw cached refl;
              old = tt;
              done = rw cached (ground arith);
            }
      | inr older ↦
          rw (cached, older)
            (Collected-also gc_epoch c.cache (ground arith) (
              gc_value_loop-Collected fuel gc_epoch (no_target Q c.cache) c.queue _ refl refl h
                enough))
    ]
  ]

  -- All that was held is freed, the oldest first, and nothing is left.
  pub record Finished (before : List (Elem A)) (result : Option (Freed Q)) : Type 0 where
    pub left : Container Q
    pub returns : result ≡ some (before, left)
    pub nothing : held left ≡ []

  fin_loop-Finished :
      (fuel : ℕ) (cache : Elem A) (q : Q.Queue) (before : List (Elem A))
      → (cache.1 == 0) ≡ true
      → Q.contents q ≡ before
      → length before < fuel
      → Finished before (fin_loop Q fuel cache q)
  unfolding fin_loop held
  fin_loop-Finished zero cache q before none_cached e enough = absurd (omega arith)
  fin_loop-Finished (suc fuel) cache q [] none_cached e enough = record {
    left = record { cache = cache; queue = q };
    returns = rw (fin_loop, Q.empty-contents q e) refl;
    nothing = rw none_cached e;
  }
  fin_loop-Finished (suc fuel) cache q (x ∷ before) none_cached e enough =
      let (filled, q', popped, rest) = Q.try_pop-contents q x before e in
      let r = fin_loop-Finished fuel cache q' before none_cached rest (omega arith) in
      record {
        left = r.left;
        returns = rw (fin_loop, filled, popped) (ap (also_freed Q x) r.returns);
        nothing = r.nothing;
      }

  -- With fuel for all that the queue holds, `fin` frees all that a container holds, the object in the cache first, and leaves it empty.
  pub fin-Finished :
      (fuel : ℕ) (c : Container Q)
      → length (Q.contents c.queue) < fuel
      → Finished (held c) (fin Q fuel c)
  unfolding fin held
  fin-Finished fuel c enough = elim (Bool-cases (c.cache.1 == 0)) [
    | inl free ↦ rw free (fin_loop-Finished fuel c.cache c.queue _ free refl enough)
    | inr cached ↦
        let r = fin_loop-Finished fuel (no_target Q c.cache) c.queue _ refl refl enough in
        rw cached record {
          left = r.left;
          returns = ap (also_freed Q c.cache) r.returns;
          nothing = r.nothing;
        }
  ]
