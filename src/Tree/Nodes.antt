-- ===== src/Tree/Nodes.antt =====
-- include/base_node.h: the members of a node that an operation sets through a `base_node*`, on the
-- nodes of the tree.
use yakushima.Common.{List, [], ◌∷◌, Option, some, ◌>>=◌, update}
use yakushima.BaseNode.{Ptr, BaseNode}
use yakushima.Version.{VersionBody, released}
use yakushima.Tree.{World, Node, border_node, interior_node}

abbrev pub with_base : (BaseNode → BaseNode) → Node → Node
with_base f (border_node n) = border_node (record n { base = f n.base })
with_base f (interior_node n) = interior_node (record n { base = f n.base })

abbrev pub write_node : World → Ptr → Node → World
write_node w p n = record w { nodes = update w.nodes p (some n) }

-- A member of the node at `p` changes; a pointer to nothing is a fault.
unfoldable pub edit_base : World → Ptr → (BaseNode → BaseNode) → Option World
edit_base w p f = do n ← w.nodes p; some (write_node w p (with_base f n))

abbrev pub set_parent : Ptr → BaseNode → BaseNode
set_parent p b = record b { parent = p }

abbrev pub on_version : (VersionBody → VersionBody) → BaseNode → BaseNode
on_version f b = record b { version = f b.version }

-- `version_unlock` on the node at `p`.
unfoldable pub version_unlock : World → Ptr → Option World
version_unlock w p = edit_base w p (on_version released)

-- `set_parent` on each of a list of nodes.
unfoldable pub set_parents : World → Ptr → List Ptr → Option World
set_parents w parent [] = some w
set_parents w parent (p ∷ ps) = do w' ← edit_base w p (set_parent parent); set_parents w' parent ps
