-- ===== src/Tree/Unlink.antt =====
-- include/border_node.h and include/interior_node.h: a border node that `delete_of` has emptied
-- leaves the chain of its neighbours and its parent, which can become empty in turn. The nodes on
-- the way are locked, so that the steps are made on the tree as one.
use yakushima.Common.{
  ℕ, zero, suc, ◌+◌, true, false, List, [], ◌∷◌, ◌++◌, Option, none, some, ◌>>=◌, ◌==◌,
  if◌then◌else◌,
}
use yakushima.BaseNode.{Ptr, key_at}
use yakushima.Version.{set_root, set_deleted, set_locked, released}
use yakushima.Permutation.{get_cnk, get_index_of_rank}
use yakushima.LinkOrValue.{get_next_layer, set_next_layer}
use yakushima.InteriorNode.{
  InteriorNode, get_child_at, find_child, remove_child, swap_child, mark_inserting,
  n_keys_decrement,
}
use yakushima.BorderNode.{BorderNode, get_lv, get_lv_at, put_lv_at}
use yakushima.BorderNode.Change.{delete_of}
use yakushima.Tree.{World, border_node, interior_node, border_at, interior_at}
use yakushima.Tree.Nodes.{write_node, edit_base, set_parent, on_version, version_unlock}

-- `set_next` and `set_prev` on the node at `p`.
unfoldable pub set_next : World → Ptr → Ptr → Option World
set_next w p next = do
  n ← border_at w p
  some (write_node w p (border_node (record n { next = next })))

unfoldable pub set_prev : World → Ptr → Ptr → Option World
set_prev w p prev = do
  n ← border_at w p
  some (write_node w p (border_node (record n { prev = prev })))

abbrev pub set_prev_of_next : World → Ptr → Ptr → Option World
set_prev_of_next w next prev = if next == 0 then some w else set_prev w next prev

-- The neighbours of the empty node at `b` are linked to each other; the one in front is locked
-- meanwhile. While that one is deleted, the code waits for other threads, of which there are none.
unfoldable pub leave_chain : World → Ptr → Option World
leave_chain w b = do
  n ← border_at w b
  if n.prev == 0 then set_prev_of_next w n.next 0 else do
    front ← border_at w n.prev
    w1 ←
        if front.base.version.deleted
        then none
        else edit_base w n.prev (on_version (set_locked true))
    w2 ← set_next w1 n.prev n.next
    w3 ← set_prev_of_next w2 n.next n.prev
    version_unlock w3 n.prev

-- The nodes that an operation hands to the garbage collector, with their epochs, the newest last.
abbrev pub RetiredNodes : Type 0
RetiredNodes = List (ℕ × Ptr)

-- `interior_node::delete_of` on a node with one key, without a parent: the other child becomes the
-- root of the tree.
unfoldable pub raise_root : World → Ptr → Option World
raise_root w sibling = do
  w1 ← edit_base w sibling (on_version (set_root true))
  edit_base (record w1 { root = sibling }) sibling (set_parent 0)

-- With the border node `pn` above, which is locked: the other child becomes the root of the layer.
unfoldable pub raise_layer : World → Ptr → Ptr → Ptr → Option World
raise_layer w pn p sibling = do
  n ← border_at w pn
  i ← get_lv n p
  n' ← put_lv_at n i (set_next_layer sibling)
  edit_base (write_node w pn (border_node n')) sibling (on_version (set_root true))

-- With the interior node `pn` above, which is locked: the other child takes the place.
unfoldable pub raise_child : World → Ptr → Ptr → Ptr → Option World
raise_child w pn p sibling = do
  n ← interior_at w pn
  n' ← swap_child n p sibling
  some (write_node w pn (interior_node n'))

abbrev pub raise_under : World → Ptr → Ptr → Ptr → Option World
raise_under w pn p sibling = do
  w' ← edit_base w pn (on_version (set_locked true))
  parent ← w'.nodes pn
  raised ← elim parent [
    | border_node b ↦ raise_layer w' pn p sibling
    | interior_node i ↦ raise_child w' pn p sibling
  ]
  w'' ← edit_base raised sibling (set_parent pn)
  version_unlock w'' pn

-- The marks on an interior node that goes, whose children stay readable.
abbrev pub mark_gone : InteriorNode → InteriorNode
mark_gone n =
    n_keys_decrement
      (record n { base = on_version (λ v. set_root false (set_deleted true v)) n.base })

-- `interior_node::delete_of` with one key left, on the node at `p` whose child `i` goes.
unfoldable pub pull_up : World → ℕ → Ptr → InteriorNode → ℕ → Option (World × RetiredNodes)
pull_up w begin_epoch p n i = do
  let w' = write_node w p (interior_node (mark_gone n))
  sibling ← get_child_at n (if i == 0 then 1 else 0)
  raised ← elim (n.base.parent == 0) [
    | true ↦ raise_root w' sibling
    | false ↦ raise_under w' n.base.parent p sibling
  ]
  w'' ← version_unlock raised p
  some (w'', (begin_epoch, p) ∷ [])

-- `interior_node::delete_of` on the node at `p`, which is locked. A child that is not there is only
-- logged.
unfoldable pub delete_child : World → ℕ → Ptr → Ptr → Option (World × RetiredNodes)
delete_child w begin_epoch p child = do
  n ← interior_at w p
  let n' = mark_inserting n
  let w' = write_node w p (interior_node n')
  found ← find_child (n.n_keys + 1) n' child 0
  elim found [
    | none ↦ some (w', [])
    | some i ↦ elim (n.n_keys == 1) [
      | true ↦ pull_up w' begin_epoch p n' i
      | false ↦ do n'' ← remove_child n' i; some (write_node w' p (interior_node n''), [])
    ]
  ]

-- The loop of `border_node::delete_of(child)` at the rank `i`: the slot of the link to `child`.
unfoldable pub link_rank_from : ℕ → BorderNode → Ptr → ℕ → Option (Option ℕ)
link_rank_from zero n child i = some none
link_rank_from (suc left) n child i = do
  index ← get_index_of_rank n.permutation i
  word ← get_lv_at n index
  let rest = link_rank_from left n child (i + 1)
  if child == get_next_layer word then some (some index) else rest

-- The end of `delete_of`: a node that was emptied goes, with the nodes that it takes with it.
abbrev pub retired_behind : ℕ → Ptr → Option (World × RetiredNodes) → Option (World × RetiredNodes)
retired_behind begin_epoch b result = do
  (w, nodes) ← result
  some (w, nodes ++ (begin_epoch, b) ∷ [])

-- `delete_of(child)` on the border node at `pn`, which is locked; `unlink` is what `delete_of` does
-- to a node that it has emptied.
unfoldable pub delete_link :
    (World → Ptr → Option (World × RetiredNodes))
    → World
    → ℕ
    → Ptr
    → Ptr
    → Option (World × RetiredNodes)
delete_link unlink w begin_epoch pn child = do
  n ← border_at w pn
  found ← link_rank_from (get_cnk n.permutation) n child 0
  elim found [
    | none ↦ some (w, [])
    | some index ↦ do
      key ← key_at n.base index
      r ← delete_of n w.memory begin_epoch key false (w.root == pn)
      let w' = write_node (record w { memory = r.memory }) pn (border_node r.node)
      elim (get_cnk n.permutation == 1) [ true ↦ unlink w' pn | false ↦ some (w', []) ]
  ]

-- The part of `delete_of` behind the chain, for an empty node at `b` with the parent `pn`; without a
-- parent it stays as an empty root.
unfoldable pub leave_parent :
    (World → Ptr → Option (World × RetiredNodes))
    → World
    → ℕ
    → Ptr
    → Ptr
    → Option (World × RetiredNodes)
leave_parent unlink w begin_epoch b pn = elim (pn == 0) [
  | true ↦ do w' ← version_unlock w b; some (w', [])
  | false ↦ do
    w1 ← edit_base w pn (on_version (set_locked true))
    w2 ← edit_base w1 b (on_version (λ v. released (set_root false v)))
    parent ← w2.nodes pn
    retired_behind begin_epoch b (elim parent [
      | border_node p ↦ delete_link unlink w2 begin_epoch pn b
      | interior_node p ↦ delete_child w2 begin_epoch pn b
    ])
]

-- The rest of `delete_of` for a node that is empty now, on fuel for the layers above it.
unfoldable pub unlink : ℕ → World → ℕ → Ptr → Option (World × RetiredNodes)
unlink zero w begin_epoch b = none
unlink (suc fuel) w begin_epoch b = do
  w' ← leave_chain w b
  n ← border_at w' b
  leave_parent (λ w'' p. unlink fuel w'' begin_epoch p) w' begin_epoch b n.base.parent
