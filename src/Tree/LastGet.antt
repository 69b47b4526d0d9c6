-- ===== src/Tree/LastGet.antt =====
-- The last key of a tree of one border node is removed, and no key is found, where no other thread
-- runs.
use yakushima.Common.{
  ℕ, zero, suc, ◌+◌, ◌≤◌, ◌≡◌, ◌≢◌, refl, sym, subst, ◌∙◌, ap, true, false, List, [], ◌∷◌, length,
  Option, none, some, ◌>>=◌, ◌==◌, ==_refl, arith,
}
use yakushima.Scheme.{Status}
use yakushima.Key.{Bytes, KeyTuple, prepare}
use yakushima.BaseNode.{Ptr}
use yakushima.Version.{VersionBody, set_locked, released, stable}
use yakushima.Permutation.{get_cnk}
use yakushima.LinkOrValue.{get_value}
use yakushima.InteriorNode.Routing.{tuple_at}
use yakushima.BorderNode.{BorderNode, get_lv_of_without_lock, search}
use yakushima.BorderNode.Change.{RetiredValue, delete_of, mark_empty}
use yakushima.BorderNode.Entries.{Holds}
use yakushima.BorderNode.Search.{lookup, search-lookup, get_lv_of_without_lock-search, cnk-Holds}
use yakushima.BorderNode.Insertion.{prepare-WellFormed}
use yakushima.BorderNode.Deletion.{IsOwned, Deleted, deleted_version, delete_of-Deleted}
use yakushima.Tree.{
  World, border_node, version_at, cast_border, find_border, find_from, find_step, find_retry,
  find_done,
}
use yakushima.Tree.Descent.{still, border_at-here, stable_version_at-still}
use yakushima.Tree.Nodes.{write_node, with_base, on_version, version_unlock}
use yakushima.Tree.Moved.{update_here}
use yakushima.Tree.Rooted.{edit_base-here}
use yakushima.Tree.Get.{get, get_step, get_from, is_wrong}
use yakushima.Tree.Layers.{Layer, node-IsLive, lv_of_at-stable}
use yakushima.Tree.Put.{put_version, put_node}
use yakushima.Tree.Unlink.{RetiredNodes, leave_chain, leave_parent, unlink}
use yakushima.Tree.Remove.{remove, removes, removal, remove_done, remove_under_lock}
use yakushima.Tree.RemoveSteps.{remove-entry}

-- A tree whose root is a border node without entries, unlocked, with the root mark and marked as
-- deleted.
pub record Emptied (w : World) : Type 0 where
  pub node : BorderNode
  pub here : w.nodes w.root ≡ some (border_node node)
  pub holds : Holds node []
  pub quiet : stable node.base.version ≡ true
  pub is_root : node.base.version.root ≡ true
  pub gone : node.base.version.deleted ≡ true
  pub there : (w.root == 0) ≡ false

module _ {w : World} (e : Emptied w) where
  root_version : version_at w w.root ≡ some e.node.base.version
  unfolding version_at
  root_version = simp (e.here) refl

  cast_root : cast_border w w.root ≡ w.root
  unfolding cast_border
  cast_root = rw (cast_border, border_at-here w w.root e.here) refl

  find_step-Emptied :
      (fuel t : ℕ) (key : KeyTuple)
      → find_step (suc (suc (suc fuel))) (still w) w.root key find_retry t
        ≡ some (find_done w.root e.node.base.version, t + 1)
  unfolding find_step
  find_step-Emptied fuel t key =
      simp (stable_version_at-still (suc (suc fuel)) w w.root t root_version e.quiet)
        (simp (e.is_root, e.gone) (simp (cast_root) refl))

  find_border-Emptied :
      (fuel t : ℕ) (key : KeyTuple)
      → find_border (suc (suc (suc fuel))) (still w) w.root key t
        ≡ some (find_done w.root e.node.base.version, t + 1)
  unfolding find_border find_from
  find_border-Emptied fuel t key = simp (find_step-Emptied fuel t key) refl

  nothing : (key : Bytes) → search e.node (prepare key) ≡ some none
  unfolding lookup
  nothing key = search-lookup (prepare key) e.holds tt (prepare-WellFormed key)

  -- `get` finds nothing in it.
  get-Emptied :
      (jumps fuel : ℕ) (key : Bytes)
      → 3 ≤ jumps
      → (t : ℕ) × (get (suc jumps) (suc (suc (suc fuel))) (still w) key 0
          ≡ some (record { status = Status.warn_not_exist; out = none }, t))
  unfolding get get_from get_step
  get-Emptied zero fuel key many = absurd (omega arith)
  get-Emptied (suc zero) fuel key many = absurd (omega arith)
  get-Emptied (suc (suc zero)) fuel key many = absurd (omega arith)
  get-Emptied (suc (suc (suc jumps))) fuel key many =
      let v = e.node.base.version in
      let right : is_wrong v v ≡ false = ground (arith, e.is_root) in
      (
        1 + 1 + 1 + 1 + 1,
        simp (get_from, e.there)
            (simp (find_border-Emptied fuel 1 (prepare key)) (
              simp
                (lv_of_at-stable w (prepare key) w.root (suc fuel) (1 + 1)
                  (border_at-here w w.root e.here) root_version e.quiet (nothing key))
                (simp (right) refl))),
      )

-- The version of an empty root.
emptied_version : VersionBody → VersionBody
emptied_version v = released (mark_empty true (set_locked true v))

emptied_version-root :
    (v : VersionBody)
    → stable v ≡ true
    → v.root ≡ true
    → (stable (emptied_version v) ≡ true)
      × ((emptied_version v).root ≡ true)
      × ((emptied_version v).deleted ≡ true)
unfolding emptied_version released
emptied_version-root v quiet root =
    (ground (arith, quiet), ground (arith, quiet, root), ground (arith, quiet))

leave_chain-alone :
    (w : World) (b : Ptr) (n : BorderNode)
    → w.nodes b ≡ some (border_node n)
    → n.prev ≡ 0
    → n.next ≡ 0
    → leave_chain w b ≡ some w
unfolding leave_chain
leave_chain-alone w b n here no_prev no_next =
    let p : (n.prev == 0) ≡ true = ground (arith, no_prev) in
    let q : (n.next == 0) ≡ true = ground (arith, no_next) in
    rw (leave_chain, border_at-here w b here, p, q) refl

leave_parent-none :
    (u : World → Ptr → Option (World × RetiredNodes)) (w : World) (begin_epoch : ℕ) (b pn : Ptr)
    → (pn == 0) ≡ true
    → leave_parent u w begin_epoch b pn ≡ (do w' ← version_unlock w b; some (w', []))
unfolding leave_parent
leave_parent-none u w begin_epoch b pn e = rw (leave_parent, e) refl

-- An empty node without neighbours and parent is only unlocked.
unlink-alone :
    (fuel : ℕ) (w : World) (begin_epoch : ℕ) (b : Ptr) (n : BorderNode)
    → w.nodes b ≡ some (border_node n)
    → n.prev ≡ 0
    → n.next ≡ 0
    → n.base.parent ≡ 0
    → unlink (suc fuel) w begin_epoch b
      ≡ some (write_node w b (with_base (on_version released) (border_node n)), [])
unfolding unlink version_unlock
unlink-alone fuel w begin_epoch b n here no_prev no_next no_parent =
    let r : (n.base.parent == 0) ≡ true = ground (arith, no_parent) in
    rw (unlink, leave_chain-alone w b n here no_prev no_next, border_at-here w b here)
      (leave_parent-none (λ w'' p. unlink fuel w'' begin_epoch p) w begin_epoch b n.base.parent r
        ∙ simp (edit_base-here w b (on_version released) here) refl)

-- A root without neighbours, from which `remove` takes its only key.
pub record LastKey (w : World) (b : Ptr) (n : BorderNode) : Type 0 where
  pub is_tree_root : w.root ≡ b
  pub no_prev : n.prev ≡ 0
  pub no_next : n.next ≡ 0
  pub no_parent : n.base.parent ≡ 0
  pub marked : n.base.version.root ≡ true

no_slots : (ps qs : List ℕ) → length qs ≡ 1 → suc (length ps) ≡ length qs → ps ≡ []
no_slots [] qs one fewer = refl
no_slots (p ∷ ps) qs one fewer = absurd (omega (arith, one, fewer))

module _ {w : World} {most : ℕ} {key : Bytes} (l : Layer w w.root key most) {q : ℕ}
    (found : lookup (tuple_at l.node.base) (prepare key) l.slots ≡ some q)
    (one : length l.slots ≡ 1) (owned : IsOwned w.memory (get_value (l.node.lv q)))
    (alone : LastKey w l.border l.node) (there : (w.root == 0) ≡ false) (begin_epoch fuel : ℕ) where
  taken : BorderNode
  taken = put_version (set_locked true l.node.base.version) l.node

  deleted :
      Deleted taken l.slots
        (prepare key)
        q
        (deleted_version (length l.slots) (w.root == l.border) taken.base.version)
        (delete_of taken w.memory begin_epoch (prepare key) true (w.root == l.border))
  unfolding taken
  deleted =
      delete_of-Deleted {n = taken} (prepare key) w.memory begin_epoch true (w.root == l.border)
        (record { order = l.holds.order; word = l.holds.word }) l.sorted (prepare-WellFormed key)
        found owned

  left_world : World
  left_world = put_node (record w { memory = deleted.after.memory }) l.border deleted.after.node

  last_world : World
  last_world =
      write_node left_world l.border
        (with_base (on_version released) (border_node deleted.after.node))

  remove_under_lock-last :
      remove_under_lock begin_epoch (suc fuel) w l.border key
      ≡ some (remove_done Status.ok (removes last_world deleted.after.retired []))
  unfolding remove_under_lock taken left_world last_world
  remove_under_lock-last =
      let wf = prepare-WellFormed key in
      let o : Holds taken l.slots = record { order = l.holds.order; word = l.holds.word } in
      let again : get_lv_of_without_lock taken (prepare key) ≡ some (some q) =
        get_lv_of_without_lock-search (prepare key) o l.sorted wf
        ∙ search-lookup (prepare key) o l.sorted wf
        ∙ ap some found in
      let cnk : get_cnk l.node.permutation ≡ length l.slots = cnk-Holds (prepare key) l.holds wf in
      let last : (length l.slots == 1) ≡ true = ground (arith, one) in
      let gone =
        unlink-alone fuel left_world begin_epoch l.border deleted.after.node (ground arith)
          (deleted.same_prev ∙ alone.no_prev) (deleted.same_next ∙ alone.no_next)
          (deleted.same_parent ∙ alone.no_parent) in
      let removed : removal (suc fuel) begin_epoch w l.border (length l.slots) deleted.after
          ≡ some (removes last_world deleted.after.retired []) =
        rw (removal, last) (simp (gone) refl) in
      simp (border_at-here w l.border l.here, again)
        (simp (deleted.returns) (simp (cnk) (simp (removed) refl)))

  last-Emptied : Emptied last_world
  unfolding taken left_world last_world emptied_version
  last-Emptied =
      let live = (node-IsLive l).0 in
      let v : deleted.after.node.base.version
          ≡ mark_empty true (set_locked true l.node.base.version) =
        deleted.version
        ∙ ap (λ t. deleted_version (length l.slots) t taken.base.version)
            (ap (λ r. r == l.border) alone.is_tree_root ∙ ==_refl l.border)
        ∙ ap (λ c. deleted_version c true taken.base.version) one in
      let facts = emptied_version-root l.node.base.version live.quiet alone.marked in
      let same : released deleted.after.node.base.version ≡ emptied_version l.node.base.version =
        ap released v in
      let holds =
        subst (Holds deleted.after.node) (no_slots deleted.left l.slots one deleted.fewer)
          deleted.holds in
      record {
        node = put_version (released deleted.after.node.base.version) deleted.after.node;
        here =
            ap last_world.nodes alone.is_tree_root
            ∙ update_here left_world.nodes l.border
                (some (with_base (on_version released) (border_node deleted.after.node)));
        holds = record { order = holds.order; word = holds.word };
        quiet = ap stable same ∙ facts.0;
        is_root = ap (λ x. x.root) same ∙ facts.1;
        gone = ap (λ x. x.deleted) same ∙ facts.2;
        there = there;
      }

-- Where no other thread runs: `remove` of a key of at most 8 bytes that is the only one in a tree of one
-- border node returns `OK`, retires no node and leaves the node as an empty root: the tree still has
-- it as its root, and it has no entries, keeps the root mark, is marked as deleted and is unlocked; no
-- other node changes. In this tree `get` finds no key at all, the removed one included. The root has no neighbours and no parent, and the
-- value can be read. Four jumps are enough for each.
pub get-remove_last :
    {w : World} {most : ℕ} {key : Bytes} (l : Layer w w.root key most) {q : ℕ}
    (begin_epoch jumps fuel : ℕ)
    → lookup (tuple_at l.node.base) (prepare key) l.slots ≡ some q
    → length key ≤ 8
    → length l.slots ≡ 1
    → IsOwned w.memory (get_value (l.node.lv q))
    → LastKey w l.border l.node
    → (w.root == 0) ≡ false
    → most ≤ fuel
    → 4 ≤ jumps
    → (w' : World) × (retired : Option RetiredValue) × (t : ℕ) × (remove jumps begin_epoch
          (suc (suc (suc fuel)))
          (still w)
          key
          0
        ≡ some (Status.ok, removes w' retired [], t))
      × Emptied w'
      × (w'.root ≡ w.root)
      × ((p : Ptr) → p ≢ w.root → w'.nodes p ≡ w.nodes p)
      × ((k : Bytes)
          → (t' : ℕ) × (get jumps (suc (suc (suc fuel))) (still w') k 0
              ≡ some (record { status = Status.warn_not_exist; out = none }, t')))
unfolding last_world left_world
get-remove_last {w} {key = key} l begin_epoch zero fuel found short one owned alone there enough
      many =
    absurd (omega arith)
get-remove_last {w} {key = key} l begin_epoch (suc jumps) fuel found short one owned alone there
      enough many =
    let entry = remove_under_lock-last l found one owned alone there begin_epoch (suc (suc fuel)) in
    let some_border : (l.border == 0) ≡ false = ap (λ r. r == 0) (sym alone.is_tree_root) ∙ there in
    let (t, e) =
      remove-entry l found short begin_epoch fuel entry (suc jumps) there some_border enough many in
    (
      last_world l found one owned alone there begin_epoch (suc (suc fuel)),
      (deleted l found one owned alone there begin_epoch (suc (suc fuel))).after.retired,
      t,
      e,
      last-Emptied l found one owned alone there begin_epoch (suc (suc fuel)),
      refl,
      λ p other. ground (arith, alone.is_tree_root, other),
      λ k.
          get-Emptied (last-Emptied l found one owned alone there begin_epoch (suc (suc fuel)))
            jumps fuel k (omega (arith, many)),
    )
