-- ===== src/Tree/Absent.antt =====
-- `remove` of a key that is not there.
use yakushima.Common.{ℕ, zero, suc, ◌+◌, ◌≤◌, ◌≡◌, refl, false, none, some, ◌==◌, ==_refl, arith}
use yakushima.Scheme.{Status}
use yakushima.Key.{Bytes, prepare}
use yakushima.InteriorNode.Routing.{tuple_at}
use yakushima.BorderNode.Search.{lookup}
use yakushima.Tree.{World}
use yakushima.Tree.Descent.{still, find_border-Arrived, border_at-here, stable_version_at-still}
use yakushima.Tree.Layers.{Layer, lv_of_at-still, is_wrong_self, found-Layer}
use yakushima.Tree.Remove.{remove, remove_from, remove_step, remove_nothing, keeps}

-- On a tree that nobody changes, `remove` of a key that the border node of the first layer does not
-- hold returns `OK_NOT_FOUND` and changes nothing; four jumps are enough. The node is not at the null
-- address.
pub remove-absent :
    {w : World} {most : ℕ} {key : Bytes} (l : Layer w w.root key most) (jumps fuel begin_epoch : ℕ)
    → lookup (tuple_at l.node.base) (prepare key) l.slots ≡ none
    → (w.root == 0) ≡ false
    → (l.border == 0) ≡ false
    → most ≤ fuel
    → 4 ≤ jumps
    → (t : ℕ) × (remove jumps begin_epoch (suc (suc (suc fuel))) (still w) key 0
        ≡ some (Status.ok_not_found, keeps, t))
unfolding remove remove_from remove_step remove_nothing
remove-absent l zero fuel begin_epoch new there some_border enough many = absurd (omega arith)
remove-absent l (suc zero) fuel begin_epoch new there some_border enough many = absurd (omega arith)
remove-absent l (suc (suc zero)) fuel begin_epoch new there some_border enough many =
    absurd (omega arith)
remove-absent l (suc (suc (suc zero))) fuel begin_epoch new there some_border enough many =
    absurd (omega arith)
remove-absent {w} {most} {key} l (suc (suc (suc (suc jumps)))) fuel begin_epoch new there
      some_border enough many =
    let d =
      find_border-Arrived {key = prepare key} fuel 1 (omega (arith, l.few)) l.path l.is_root in
    let fetched =
      lv_of_at-still w (prepare key) l.border (suc fuel) d.time (border_at-here w l.border l.here)
        d.here d.live (found-Layer w most l new) in
    let check =
      stable_version_at-still (suc (suc fuel)) w l.border (d.time + 1 + 1 + 1) d.here
        d.live.quiet in
    (
      d.time + 1 + 1 + 1 + 1,
      simp (remove_from, there)
          (simp (d.returns, some_border)
            (simp (fetched, is_wrong_self d.version d.live)
              (simp (check, ==_refl d.version.vinsert_delete) refl))),
    )
