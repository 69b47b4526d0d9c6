-- ===== src/Tree/Destroy.antt =====
-- include/link_or_value.h, include/border_node.h and include/interior_node.h: `destroy` deletes what
-- hangs below a node. The code hands a child to a thread of its own where `check_room` has room
-- (DestroyManager.antt), and joins the threads; the children share nothing, and are destroyed one
-- after the other here.
use yakushima.Common.{
  ℕ, zero, suc, ◌+◌, true, false, Option, none, some, ◌>>=◌, ◌==◌, if◌then◌else◌, update,
}
use yakushima.Scheme.{Status}
use yakushima.BaseNode.{Ptr}
use yakushima.Permutation.{get_cnk, get_index_of_rank}
use yakushima.Value.{Memory, need_delete, delete_value}
use yakushima.LinkOrValue.{get_next_layer, get_value, init_lv}
use yakushima.InteriorNode.{get_child_at}
use yakushima.BorderNode.{get_lv_at, put_lv_at}
use yakushima.Tree.{World, border_node, interior_node, border_at, interior_at}
use yakushima.Tree.Nodes.{write_node}

-- `delete` on the node at `p`.
abbrev pub delete_node : World → Ptr → World
delete_node w p = record w { nodes = update w.nodes p none }

-- `child->destroy(); delete child`
abbrev pub destroy_child : (World → Ptr → Option (World × Status)) → World → Ptr → Option World
destroy_child destroy_node w child = do
  (w', status) ← destroy_node w child
  some (delete_node w' child)

-- A value is deleted if it is active.
unfoldable pub destroy_value : Memory → ℕ → Option Memory
destroy_value m v =
    if v == 0
    then some m
    else do active ← need_delete m v; if active then delete_value m v else some m

-- What hangs on a word.
unfoldable pub destroy_word : (World → Ptr → Option (World × Status)) → World → ℕ → Option World
destroy_word destroy_node w word = elim (get_next_layer word == 0) [
  | false ↦ destroy_child destroy_node w (get_next_layer word)
  | true ↦ do m ← destroy_value w.memory (get_value word); some (record w { memory = m })
]

-- `link_or_value::destroy` on a slot of the border node at `b`.
unfoldable pub destroy_lv : (World → Ptr → Option (World × Status)) → World → Ptr → ℕ → Option World
destroy_lv destroy_node w b index = do
  n ← border_at w b
  word ← get_lv_at n index
  w' ← destroy_word destroy_node w word
  n' ← border_at w' b
  n'' ← put_lv_at n' index init_lv
  some (write_node w' b (border_node n''))

-- The loop of `border_node::destroy` at the rank `i`, with the rounds that are left.
unfoldable pub destroy_entries :
    ℕ → (World → Ptr → Option (World × Status)) → World → Ptr → ℕ → Option World
destroy_entries zero destroy_node w b i = some w
destroy_entries (suc left) destroy_node w b i = do
  n ← border_at w b
  index ← get_index_of_rank n.permutation i
  w' ← destroy_lv destroy_node w b index
  destroy_entries left destroy_node w' b (i + 1)

-- The loop of `interior_node::destroy` at `i`.
unfoldable pub destroy_children :
    ℕ → (World → Ptr → Option (World × Status)) → World → Ptr → ℕ → Option World
destroy_children zero destroy_node w p i = some w
destroy_children (suc left) destroy_node w p i = do
  n ← interior_at w p
  child ← get_child_at n i
  w' ← destroy_child destroy_node w child
  destroy_children left destroy_node w' p (i + 1)

-- `destroy` on the node at `p`, on fuel for the nodes on the way down.
unfoldable pub destroy : ℕ → World → Ptr → Option (World × Status)
destroy zero w p = none
destroy (suc fuel) w p = do
  n ← w.nodes p
  elim n [
    | border_node b ↦ do
      w' ← destroy_entries (get_cnk b.permutation) (λ w'' c. destroy fuel w'' c) w p 0
      some (w', Status.ok_destroy_border)
    | interior_node i ↦ do
      w' ← destroy_children (i.n_keys + 1) (λ w'' c. destroy fuel w'' c) w p 0
      some (w', Status.ok_destroy_interior)
  ]

-- `destroy` of a storage (include/interface_destroy.h): the tree goes, if there is one.
unfoldable pub destroy_tree : ℕ → World → Option World
destroy_tree fuel w =
    if w.root == 0
    then some w
    else do (w', status) ← destroy fuel w w.root; some (record (delete_node w' w.root) { root = 0 })
