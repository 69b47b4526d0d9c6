-- ===== src/Tree.antt =====
-- The tree that the threads share, and the descent to a border node (include/tree_instance.h,
-- include/common_helper.h). An operation reads a history of the tree: what the other threads leave
-- at each of its reads. It reads a node as a whole, between two reads of version words.
pub mod Nodes
pub mod Grow
pub mod Rooted
pub mod Get
pub mod Descent
pub mod Layers
pub mod Lookup
pub mod Put
pub mod Moved
pub mod Grown
pub mod PutSteps
pub mod PutGet
pub mod Unlink
pub mod Destroy
pub mod Raised
pub mod Remove
pub mod Absent
pub mod RemoveSteps
pub mod RemoveGet
pub mod LastGet
pub mod SplitGet
pub mod SplitTree
pub mod HighValue
pub mod Lost
use yakushima.Common.{
  ℕ, zero, suc, ◌+◌, Bool, true, false, not, ◌&&◌, ◌||◌, List, [], ◌∷◌, Option, none, some, ◌>>=◌,
  ◌==◌, if◌then◌else◌, update,
}
use yakushima.Key.{KeyTuple}
use yakushima.BaseNode.{Ptr, BaseNode}
use yakushima.Version.{VersionBody, stable, equal}
use yakushima.Value.{Memory}
use yakushima.InteriorNode.{InteriorNode, pick_child}
use yakushima.BorderNode.{BorderNode, search}

pub data Node : Type 0 where
  border_node : BorderNode → Node
  interior_node : InteriorNode → Node

abbrev pub base_of : Node → BaseNode
base_of (border_node n) = n.base
base_of (interior_node n) = n.base

-- `tree_instance` with the nodes behind it, the memory of the values, and the addresses that
-- `operator new` returns from here on.
pub record World : Type 0 where
  pub root : Ptr
  pub nodes : Ptr → Option Node
  pub memory : Memory
  pub fresh : List Ptr

abbrev pub History : Type 0
History = ℕ → World

-- A node of the one kind or the other; a pointer to anything else is a fault.
unfoldable pub border_at : World → Ptr → Option BorderNode
border_at w p = do n ← w.nodes p; elim n [ border_node b ↦ some b | interior_node i ↦ none ]

unfoldable pub interior_at : World → Ptr → Option InteriorNode
interior_at w p = do n ← w.nodes p; elim n [ border_node b ↦ none | interior_node i ↦ some i ]

unfoldable pub version_at : World → Ptr → Option VersionBody
version_at w p = do n ← w.nodes p; some (base_of n).version

-- `get_stable_version` from the time `t` on, with the loads that are left: the version, and the
-- time behind its load.
unfoldable pub stable_version_at : ℕ → History → Ptr → ℕ → Option (VersionBody × ℕ)
stable_version_at zero h p t = none
stable_version_at (suc left) h p t =
    let rest = stable_version_at left h p (t + 1) in
    do v ← version_at (h t) p; if stable v then some (v, t + 1) else rest

-- Where `find_border` stands: at its label `retry`, at a node whose version it knows, or at its end.
pub data Find : Type 0 where
  find_retry : Find
  find_at : Ptr → VersionBody → Find
  find_done : Ptr → VersionBody → Find
  retry_from_root_of_all : Find

-- `dynamic_cast<border_node*>`
unfoldable pub cast_border : World → Ptr → Ptr
cast_border w p = elim (border_at w p) [ none ↦ 0 | some b ↦ p ]

abbrev pub at_root : World → Ptr → VersionBody → Find
at_root w root v =
    if not v.root
    then retry_from_root_of_all
    else if v.deleted
    then find_done (cast_border w root) v
    else find_at root v

-- What a round of `get_child_of` decides, as its caller sees it.
abbrev pub next_find : Ptr → VersionBody → Ptr → VersionBody → VersionBody → Find
next_find n v child child_v check_v =
    if equal v check_v && not child_v.deleted
    then find_at child child_v
    else if not (v.vsplit == check_v.vsplit) || check_v.deleted
    then find_retry
    else find_at n check_v

-- A round of `get_child_of` on the node `n`.
unfoldable pub find_child_at : ℕ → History → KeyTuple → Ptr → VersionBody → ℕ → Option (Find × ℕ)
find_child_at fuel h key n v t = do
  i ← interior_at (h t) n
  child ← pick_child i key
  if child == 0 then some (find_retry, t + 1) else do
    (child_v, t') ← stable_version_at fuel h child (t + 1)
    (check_v, t'') ← stable_version_at fuel h n t'
    some (next_find n v child child_v check_v, t'')

unfoldable pub find_step : ℕ → History → Ptr → KeyTuple → Find → ℕ → Option (Find × ℕ)
find_step fuel h root key find_retry t = do
  (v, t') ← stable_version_at fuel h root t
  some (at_root (h t') root v, t')
find_step fuel h root key (find_at n v) t =
    if v.border then some (find_done (cast_border (h t) n) v, t) else find_child_at fuel h key n v t
find_step fuel h root key s t = some (s, t)

-- `find_border` on fuel for its rounds.
unfoldable pub find_from : ℕ → History → Ptr → KeyTuple → Find → ℕ → Option (Find × ℕ)
find_from zero h root key s t = none
find_from (suc fuel) h root key (find_done p v) t = some (find_done p v, t)
find_from (suc fuel) h root key retry_from_root_of_all t = some (retry_from_root_of_all, t)
find_from (suc fuel) h root key find_retry t = do
  (s, t') ← find_step (suc fuel) h root key find_retry t
  find_from fuel h root key s t'
find_from (suc fuel) h root key (find_at n v) t = do
  (s, t') ← find_step (suc fuel) h root key (find_at n v) t
  find_from fuel h root key s t'

unfoldable pub find_border : ℕ → History → Ptr → KeyTuple → ℕ → Option (Find × ℕ)
find_border fuel h root key t = find_from fuel h root key find_retry t

-- `get_lv_of` from the time `t` on, behind the first stable version: the slot and the version.
unfoldable pub lv_from :
    ℕ → History → Ptr → KeyTuple → VersionBody → ℕ → Option (Option ℕ × VersionBody × ℕ)
lv_from zero h b key v t = none
lv_from (suc fuel) h b key v t = do
  n ← border_at (h t) b
  slot ← search n key
  (v_check, t') ← stable_version_at fuel h b (t + 1)
  if equal v v_check then some (slot, v, t') else lv_from fuel h b key v_check t'

unfoldable pub lv_of_at : ℕ → History → Ptr → KeyTuple → ℕ → Option (Option ℕ × VersionBody × ℕ)
lv_of_at fuel h b key t = do (v, t') ← stable_version_at fuel h b t; lv_from fuel h b key v t'
