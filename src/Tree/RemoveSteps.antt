-- ===== src/Tree/RemoveSteps.antt =====
-- The steps of `remove` for a key that the first layer of the tree holds.
use yakushima.Common.{
  ℕ, zero, suc, ◌+◌, ◌≤◌, ◌<◌, ◌≡◌, refl, true, false, length, some, ◌==◌, ==_refl, ltb, arith,
  lt→ltb, leb,
}
use yakushima.Scheme.{Status}
use yakushima.Key.{Bytes, prepare}
use yakushima.BaseNode.{get_key_length_at}
use yakushima.Version.{VersionBody}
use yakushima.Permutation.Slots.{Slot}
use yakushima.InteriorNode.Routing.{tuple_at}
use yakushima.BorderNode.Search.{lookup, lookup-found}
use yakushima.Tree.{World, version_at}
use yakushima.Tree.Descent.{still, IsLive, border_at-here, find_border-Arrived}
use yakushima.Tree.Layers.{key_compare-size, Layer, lv_of_at-still, is_wrong_self, found-Layer}
use yakushima.Tree.Put.{locked_at}
use yakushima.Tree.Remove.{
  remove_done, remove_fetch_lv, remove_under_lock, remove_locked, remove_at_slot, remove_step,
  Removal, remove_from, remove,
}

module _ {w : World} {most : ℕ} {key : Bytes} (l : Layer w w.root key most) {q : ℕ}
    (found : lookup (tuple_at l.node.base) (prepare key) l.slots ≡ some q) (short : length key ≤ 8)
    (begin_epoch : ℕ) {e : Removal} (fuel : ℕ)
    (done : remove_under_lock begin_epoch (suc (suc (suc fuel))) w l.border key
      ≡ some (remove_done Status.ok e)) where
  fits : q < 15
  fits =
      (lookup-found Slot (tuple_at l.node.base) (prepare key) l.slots l.holds.order.small found).0

  short_length : leb (l.node.base.lengths q) 8 ≡ true
  short_length =
      let same =
        key_compare-size (prepare key) (tuple_at l.node.base q)
          (lookup-found Slot (tuple_at l.node.base) (prepare key) l.slots l.holds.order.small
            found).1 in
      ground (arith, same, short)

  fetch_step :
      (t : ℕ) (v : VersionBody)
      → version_at w l.border ≡ some v
      → IsLive v
      → remove_step begin_epoch
          (suc (suc (suc fuel)))
          (still w)
          key
          (remove_fetch_lv l.border v key)
          t
        ≡ some (remove_done Status.ok e, t + 1 + 1 + 1 + 1 + 1)
  unfolding remove_step remove_at_slot remove_locked locked_at get_key_length_at
  fetch_step t v at_b live =
      let free : v.locked ≡ false = ground (arith, live.quiet) in
      let small : ltb 8 (l.node.base.lengths q) ≡ false = ground (arith, short_length) in
      simp
        (
          lv_of_at-still w (prepare key) l.border (suc fuel) t (border_at-here w l.border l.here)
              at_b live (found-Layer w most l found),
          is_wrong_self v live,
        )
        (simp (border_at-here w l.border l.here, lt→ltb q 15 fits)
          (simp (small, locked_at, at_b, free)
            (simp (is_wrong_self v live, ==_refl v.vinsert_delete, done) refl)))

  -- `remove` comes to the border node and makes the change there.
  pub remove-entry :
      (jumps : ℕ)
      → (w.root == 0) ≡ false
      → (l.border == 0) ≡ false
      → most ≤ fuel
      → 4 ≤ jumps
      → (t : ℕ) × (remove jumps begin_epoch (suc (suc (suc fuel))) (still w) key 0
          ≡ some (Status.ok, e, t))
  unfolding remove remove_from remove_step
  remove-entry zero there some_border enough many = absurd (omega arith)
  remove-entry (suc zero) there some_border enough many = absurd (omega arith)
  remove-entry (suc (suc zero)) there some_border enough many = absurd (omega arith)
  remove-entry (suc (suc (suc zero))) there some_border enough many = absurd (omega arith)
  remove-entry (suc (suc (suc (suc jumps)))) there some_border enough many =
      let d =
        find_border-Arrived {key = prepare key} fuel 1 (omega (arith, l.few)) l.path l.is_root in
      (
        d.time + 1 + 1 + 1 + 1 + 1,
        simp (remove_from, there)
            (simp (d.returns, some_border) (simp (fetch_step d.time d.version d.here d.live) refl)),
      )
