-- ===== src/Tree/Grow.antt =====
-- include/border_helper.h and include/interior_helper.h: behind the split of a node, its parent
-- takes the new node: a parent with room, a full one, which is split in turn, the border node of
-- the layer above, or, at the root of the tree, a new interior node. The nodes on the way are
-- locked, so that the steps are made on the tree as one.
use yakushima.Common.{
  ℕ, zero, suc, ◌+◌, ◌-◌, Bool, true, false, List, [], ◌∷◌, Option, none, some, ◌>>=◌, ◌==◌,
  if◌then◌else◌,
}
use yakushima.Scheme.{key_slice_length}
use yakushima.Key.{KeyTuple}
use yakushima.BaseNode.{Ptr, BaseNode, key_at, set_key}
use yakushima.Version.{set_root, set_locked, set_inserting_deleting, released}
use yakushima.LinkOrValue.{set_next_layer}
use yakushima.InteriorNode.{
  InteriorNode, child_length, init_interior, get_child_at, set_child_at, n_keys_increment,
  goes_left, insert,
}
use yakushima.InteriorNode.Split.{pivot_key_pos, halve, insert_into_half}
use yakushima.BorderNode.{get_lv, put_lv_at}
use yakushima.BorderNode.Split.{Parts}
use yakushima.Tree.{World, border_node, interior_node, border_at, interior_at, base_of}
use yakushima.Tree.Nodes.{
  write_node, edit_base, set_parent, on_version, version_unlock, set_parents,
}

-- The new interior node of `create_interior_parent_of_border` and
-- `create_interior_parent_of_interior`: a root, locked, with one key and two children.
unfoldable pub new_parent : Ptr → Ptr → KeyTuple → Option InteriorNode
new_parent left right pivot = do
  let v = set_root true init_interior.base.version
  let v' = set_locked true (set_inserting_deleting true v)
  base ← set_key (record init_interior.base { version = v' }) 0 pivot.slice pivot.size
  n ← set_child_at (n_keys_increment (record init_interior { base = base })) 0 left
  set_child_at n 1 right

-- A node that gets the new parent is no root any more.
abbrev pub below_parent : Ptr → BaseNode → BaseNode
below_parent ni b = set_parent ni (on_version (set_root false) b)

unfoldable pub create_interior_parent : World → Ptr → Ptr → KeyTuple → Option (Ptr × World)
create_interior_parent w left right pivot = elim w.fresh [
  | [] ↦ none
  | ni ∷ later ↦ do
    n ← new_parent left right pivot
    w' ← edit_base (record w { fresh = later }) left (below_parent ni)
    w'' ← edit_base w' right (below_parent ni)
    some (ni, write_node w'' ni (interior_node n))
]

-- The split node was the root of the tree.
unfoldable pub grow_root : World → Ptr → Ptr → KeyTuple → Option World
grow_root w left right pivot = do
  (ni, w1) ← create_interior_parent w left right pivot
  w2 ← version_unlock w1 left
  w3 ← version_unlock w2 right
  version_unlock (record w3 { root = ni }) ni

-- The split node was the root of a layer: the link in the border node `p` above, which is locked,
-- goes to the new interior node.
unfoldable pub grow_layer : World → Ptr → Ptr → Ptr → KeyTuple → Option World
grow_layer w p left right pivot = do
  w0 ← edit_base w p (on_version (set_inserting_deleting true))
  (ni, w1) ← create_interior_parent w0 left right pivot
  w2 ← version_unlock w1 left
  w3 ← version_unlock w2 right
  pb ← border_at w3 p
  i ← get_lv pb left
  pb' ← put_lv_at pb i (set_next_layer ni)
  w4 ← edit_base (write_node w3 p (border_node pb')) ni (set_parent p)
  w5 ← version_unlock w4 ni
  version_unlock w5 p

-- The unlocking of the two nodes under an interior node; border nodes lose the mark of a root first.
abbrev pub let_go : Bool → BaseNode → BaseNode
let_go true b = on_version released (on_version (set_root false) b)
let_go false b = on_version released b

-- The parent `p` of the split node is an interior node, which is locked. `split_above` is the call
-- of `interior_split` for a full one.
unfoldable pub insert_above :
    Bool → (World → Ptr → Option World) → World → Ptr → Ptr → Ptr → KeyTuple → Option World
insert_above is_border split_above w p left right pivot = do
  w1 ← edit_base w left (let_go is_border)
  w2 ← edit_base w1 right (let_go is_border)
  w3 ← edit_base w2 right (set_parent p)
  n ← interior_at w3 p
  elim (n.n_keys == key_slice_length) [
    | true ↦ split_above w3 p
    | false ↦ do n' ← insert n right pivot; version_unlock (write_node w3 p (interior_node n')) p
  ]

-- From the search for the parent of the split node on.
unfoldable pub climb :
    Bool → (World → Ptr → Option World) → World → Ptr → Ptr → KeyTuple → Option World
climb is_border split_above w left right pivot = do
  n ← w.nodes left
  let p = (base_of n).parent
  if p == 0 then grow_root w left right pivot else do
    w' ← edit_base w p (on_version (set_locked true))
    parent ← w'.nodes p
    elim parent [
      | border_node pb ↦ grow_layer w' p left right pivot
      | interior_node pi ↦ insert_above is_border split_above w' p left right pivot
    ]

-- The children that `move_children_to_interior_range` moves to the new node, from `i` on.
unfoldable pub moved_children : ℕ → InteriorNode → ℕ → Option (List Ptr)
moved_children zero n i = some []
moved_children (suc left) n i = do
  c ← get_child_at n i
  later ← moved_children left n (i + 1)
  some (c ∷ later)

-- The first part of `interior_split`, on the node at `p` with the new node at `fresh`: the key that
-- moves up, and the tree with the two halves.
unfoldable pub split_at : World → Ptr → Ptr → Ptr → KeyTuple → Option (KeyTuple × World)
split_at w p fresh child key = do
  n ← interior_at w p
  h ← halve n
  moved ← moved_children (child_length - (pivot_key_pos + 1)) h.right 0
  r ← insert_into_half h child key
  let w1 = write_node (write_node w p (interior_node r.left)) fresh (interior_node r.right)
  w2 ← set_parents w1 fresh moved
  w3 ← edit_base w2 child (set_parent (if goes_left key h.pivot then p else fresh))
  some (h.pivot, w3)

-- `interior_split` on the addresses that are left for new nodes, of which each level takes one.
unfoldable pub interior_split : List Ptr → World → Ptr → Ptr → KeyTuple → Option World
interior_split [] w p child key = none
interior_split (fresh ∷ later) w p child key = do
  (pivot, w') ← split_at (record w { fresh = later }) p fresh child key
  climb false (λ w'' q. interior_split later w'' q fresh pivot) w' p fresh pivot

-- The two border nodes come into the tree, with the nodes whose `parent` or `prev` they become.
unfoldable pub spread : World → Ptr → Ptr → Parts → Option World
spread w b fresh parts = do
  let w1 = write_node (write_node w b (border_node parts.lower)) fresh (border_node parts.higher)
  w2 ← set_parents w1 fresh parts.moved_layers
  if parts.relinked == 0 then some w2 else do
    n ← border_at w2 parts.relinked
    some (write_node w2 parts.relinked (border_node (record n { prev = fresh })))

-- `border_split` behind the insertion.
unfoldable pub border_grow : World → Ptr → Ptr → Parts → Option World
border_grow w b fresh parts = do
  w' ← spread w b fresh parts
  front ← key_at parts.higher.base 0
  climb true (λ w'' q. interior_split w''.fresh w'' q fresh front) w' b fresh front
