-- ===== src/Tree/PutSteps.antt =====
-- The steps of `put` for a key that the first layer of the tree does not hold.
use yakushima.Common.{ℕ, zero, suc, ◌+◌, ◌≤◌, ◌≡◌, refl, false, none, some, ◌==◌, ==_refl, arith}
use yakushima.Scheme.{Status}
use yakushima.Key.{Bytes, prepare}
use yakushima.Version.{VersionBody}
use yakushima.InteriorNode.Routing.{tuple_at}
use yakushima.BorderNode.Search.{lookup}
use yakushima.Tree.{World, version_at}
use yakushima.Tree.Descent.{still, IsLive, border_at-here, find_border-Arrived}
use yakushima.Tree.Layers.{Layer, lv_of_at-still, is_wrong_self, found-Layer}
use yakushima.Tree.Put.{
  Putting, changes, put_done, put_entry_at, put, put_root_step, put_from, put_step, put_fetch_lv,
  locked_at, under_lock,
}

module _ (c : Putting) {w w' : World} {most : ℕ} {key : Bytes} (l : Layer w w.root key most)
    (new : lookup (tuple_at l.node.base) (prepare key) l.slots ≡ none)
    (entry : put_entry_at c w l.border key ≡ some (put_done Status.ok (changes w' none none))) where
  fetch_step :
      (fuel t : ℕ) (v : VersionBody)
      → version_at w l.border ≡ some v
      → IsLive v
      → put_step c (suc (suc fuel)) (still w) key (put_fetch_lv l.border v key) t
        ≡ some (put_done Status.ok (changes w' none none), t + 1 + 1 + 1 + 1)
  unfolding put_step under_lock locked_at
  fetch_step fuel t v at_b live =
      let free : v.locked ≡ false = ground (arith, live.quiet) in
      simp
        (
          lv_of_at-still w (prepare key) l.border fuel t (border_at-here w l.border l.here) at_b
              live (found-Layer w most l new),
          is_wrong_self v live,
        )
        (simp (locked_at, at_b, free)
          (simp (is_wrong_self v live, ==_refl v.vinsert_delete, entry) refl))

  -- `put` comes to the border node and makes the change there.
  pub put-entry :
      (jumps fuel : ℕ)
      → (w.root == 0) ≡ false
      → most ≤ fuel
      → 5 ≤ jumps
      → (t : ℕ) × (put jumps c (suc (suc (suc fuel))) (still w) key 0
          ≡ some (Status.ok, changes w' none none, t))
  unfolding put put_from put_step put_root_step
  put-entry zero fuel there enough many = absurd (omega arith)
  put-entry (suc zero) fuel there enough many = absurd (omega arith)
  put-entry (suc (suc zero)) fuel there enough many = absurd (omega arith)
  put-entry (suc (suc (suc zero))) fuel there enough many = absurd (omega arith)
  put-entry (suc (suc (suc (suc zero)))) fuel there enough many = absurd (omega arith)
  put-entry (suc (suc (suc (suc (suc jumps))))) fuel there enough many =
      let d =
        find_border-Arrived {key = prepare key} fuel 2 (omega (arith, l.few)) l.path l.is_root in
      (
        d.time + 1 + 1 + 1 + 1,
        simp (put_from, there)
            (simp (d.returns) (simp (fetch_step (suc fuel) d.time d.version d.here d.live) refl)),
      )
