-- ===== src/Tree/SplitTree.antt =====
-- The tree that `put` leaves behind the split of its only border node.
use yakushima.Common.{ℕ, ◌≡◌, ◌≢◌, true, false, List, some}
use yakushima.Key.{Bytes, prepare}
use yakushima.BaseNode.{Ptr}
use yakushima.Version.{stable}
use yakushima.InteriorNode.{InteriorNode}
use yakushima.InteriorNode.Routing.{tuple_at}
use yakushima.BorderNode.{BorderNode}
use yakushima.BorderNode.Entries.{Holds, Sorted}
use yakushima.Tree.{World, border_node, interior_node}

-- A border node below the interior node `ni`: unlocked, not deleted and without the root mark, with
-- its entries in order.
pub record Leaf (ni : Ptr) (n : BorderNode) (slots : List ℕ) : Type 0 where
  pub parent : n.base.parent ≡ ni
  pub no_root : n.base.version.root ≡ false
  pub is_border : n.base.version.border ≡ true
  pub quiet : stable n.base.version ≡ true
  pub there : n.base.version.deleted ≡ false
  pub holds : Holds n slots
  pub sorted : Sorted (tuple_at n.base) slots

-- The root is the interior node `ni` with the one key `pivot` and the children `b` and `p`, which are
-- border nodes below it; the nodes at all other addresses are those of `w`.
pub record SplitTree (w w' : World) (b p ni : Ptr) (pivot : Bytes) : Type 0 where
  pub root : w'.root ≡ ni
  pub top : InteriorNode
  pub at_top : w'.nodes ni ≡ some (interior_node top)
  pub top_root : top.base.version.root ≡ true
  pub top_quiet : stable top.base.version ≡ true
  pub top_parent : top.base.parent ≡ 0
  pub one_key : top.n_keys ≡ 1
  pub top_key : tuple_at top.base 0 ≡ prepare pivot
  pub first_child : top.children 0 ≡ b
  pub second_child : top.children 1 ≡ p
  pub lower : BorderNode
  pub lower_slots : List ℕ
  pub at_lower : w'.nodes b ≡ some (border_node lower)
  pub lower_leaf : Leaf ni lower lower_slots
  pub higher : BorderNode
  pub higher_slots : List ℕ
  pub at_higher : w'.nodes p ≡ some (border_node higher)
  pub higher_leaf : Leaf ni higher higher_slots
  pub others : (x : Ptr) → x ≢ ni → x ≢ b → x ≢ p → w'.nodes x ≡ w.nodes x
